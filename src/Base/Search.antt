-- ===== src/Base/Search.antt =====
-- `std::ranges::find` and `std::erase` on vectors of window ids, scans by a test, and how often a
-- number stands in a list.
use Prim.Native.Nat.{ℕ, ◌+◌, ◌-◌, ◌≤◌}
use mathlib.Core.Bool.{Bool, true, false, not, ◌&&◌, ◌||◌}
use mathlib.Core.List.{List, [], ◌∷◌, ◌++◌}
use mathlib.Core.Option.{Option, none, some}
use mathlib.Core.Path.{◌≡◌, refl}
use native.Mathlib.Omega.{arith}
use lwm.Base.Tests.{ltb, ◌==◌, if◌then◌else◌}
use lwm.Base.Lists.{length}

-- find(xs, w) != xs.end()
abbrev pub contains : List ℕ → ℕ → Bool
contains [] w = false
contains (x ∷ xs) w = x == w || contains xs w

-- xs.erase(find(xs, w)): the first occurrence.
abbrev pub erase_first : List ℕ → ℕ → List ℕ
erase_first [] w = []
erase_first (x ∷ xs) w = if x == w then xs else x ∷ erase_first xs w

-- std::erase(xs, w): every occurrence.
abbrev pub erase_all : List ℕ → ℕ → List ℕ
erase_all [] w = []
erase_all (x ∷ xs) w = if x == w then erase_all xs w else x ∷ erase_all xs w

abbrev pub count : ℕ → List ℕ → ℕ
count a [] = 0
count a (x ∷ xs) = (if x == a then 1 else 0) + count a xs

module _ {ℓ} {A : Type ℓ} where
  -- The first element, in order, that passes a test.
  abbrev pub find_first : (A → Bool) → List A → Option A
  find_first p [] = none
  find_first p (x ∷ xs) = if p x then some x else find_first p xs

  -- A loop from rbegin() to rend(): the last element that passes the test.
  abbrev pub find_last : (A → Bool) → List A → Option A
  find_last p [] = none
  find_last p (x ∷ xs) = elim (find_last p xs) [
    | some y ↦ some y
    | none ↦ if p x then some x else none
  ]

  pub find_first_passes :
      (p : A → Bool) (xs : List A) (a : A) → find_first p xs ≡ some a → p a ≡ true
  find_first_passes p [] a h = cc
  find_first_passes p (x ∷ xs) a h = ground (arith, find_first_passes p xs a)

  pub find_last_passes : (p : A → Bool) (xs : List A) (a : A) → find_last p xs ≡ some a → p a ≡ true
  find_last_passes p [] a h = cc
  find_last_passes p (x ∷ xs) a h = ground (arith, find_last_passes p xs a)

pub find_last-contains :
    (p : ℕ → Bool) (xs : List ℕ) (a : ℕ) → find_last p xs ≡ some a → contains xs a ≡ true
find_last-contains p [] a h = cc
find_last-contains p (x ∷ xs) a h = ground (arith, find_last-contains p xs a)

pub find_last-none :
    (p : ℕ → Bool) (xs : List ℕ) (a : ℕ)
    → find_last p xs ≡ none
    → contains xs a ≡ true
    → p a ≡ false
find_last-none p [] a h c = cc
find_last-none p (x ∷ xs) a h c = ground (arith, find_last-none p xs a)

pub contains-append :
    (xs ys : List ℕ) (w : ℕ) → contains (xs ++ ys) w ≡ (contains xs w || contains ys w)
contains-append [] ys w = refl
contains-append (x ∷ xs) ys w = ground (arith, contains-append xs ys w)

pub contains-erase_all :
    (xs : List ℕ) (w v : ℕ) → contains (erase_all xs w) v ≡ (contains xs v && not (w == v))
contains-erase_all [] w v = refl
contains-erase_all (x ∷ xs) w v = ground (arith, contains-erase_all xs w v)

pub contains-count : (xs : List ℕ) (w : ℕ) → contains xs w ≡ true → 1 ≤ count w xs
contains-count [] w h = cc
contains-count (x ∷ xs) w h = ground (arith, contains-count xs w)

pub not-contains-count : (xs : List ℕ) (w : ℕ) → contains xs w ≡ false → count w xs ≡ 0
not-contains-count [] w h = refl
not-contains-count (x ∷ xs) w h = ground (arith, not-contains-count xs w)

pub count-append : (a : ℕ) (xs ys : List ℕ) → count a (xs ++ ys) ≡ count a xs + count a ys
count-append a [] ys = omega arith
count-append a (x ∷ xs) ys = ground (arith, count-append a xs ys)

pub count-erase_all :
    (xs : List ℕ) (w a : ℕ) → count a (erase_all xs w) ≡ (if w == a then 0 else count a xs)
count-erase_all [] w a = ground arith
count-erase_all (x ∷ xs) w a = ground (arith, count-erase_all xs w a)

pub count-erase_first :
    (xs : List ℕ) (w a : ℕ) → count a (erase_first xs w) ≡ count a xs - (if w == a then 1 else 0)
count-erase_first [] w a = ground arith
count-erase_first (x ∷ xs) w a = ground (arith, count-erase_first xs w a)

pub length-erase_all-le : (xs : List ℕ) (w : ℕ) → length (erase_all xs w) ≤ length xs
length-erase_all-le [] w = omega arith
length-erase_all-le (x ∷ xs) w = ground (arith, length-erase_all-le xs w)

pub contains-eq-count : (xs : List ℕ) (a : ℕ) → contains xs a ≡ ltb 0 (count a xs)
contains-eq-count [] a = refl
contains-eq-count (x ∷ xs) a = ground (arith, contains-eq-count xs a)
