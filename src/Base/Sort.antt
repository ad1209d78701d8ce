-- ===== src/Base/Sort.antt =====
-- std::stable_sort with a comparison, as insertion sort: the standard fixes its result, a
-- permutation in order that keeps equivalent elements in the order in which they came.
use mathlib.Core.List.{List, [], ◌∷◌, Perm}
use mathlib.Core.List.Perm
use mathlib.Core.Bool.{Bool, true, false}
use mathlib.Core.Logic.{◌⊎◌, inl, inr}
use mathlib.Core.Path.{◌≡◌, refl}
use native.Mathlib.Omega.{arith}
use lwm.Base.Tests.{if◌then◌else◌, Bool-cases}
use lwm.Base.Lists.{All}

-- std::remove_copy_if with the opposite test.
abbrev pub keep {ℓ} : {A : Type ℓ} → (A → Bool) → List A → List A
keep p [] = []
keep p (x ∷ xs) = if p x then x ∷ keep p xs else keep p xs

-- What the comparison of a sort has to satisfy.
pub record IsStrictWeakOrder {ℓ} {A : Type ℓ} (lt : A → A → Bool) : Type ℓ where
  pub asymm : (a b : A) → lt a b ≡ true → lt b a ≡ false
  pub negatively_trans : (a b c : A) → lt a b ≡ false → lt b c ≡ false → lt a c ≡ false

module _ {ℓ} {A : Type ℓ} (lt : A → A → Bool) where
  insert_sorted : A → List A → List A
  insert_sorted x [] = x ∷ []
  insert_sorted x (y ∷ ys) = if lt y x then y ∷ insert_sorted x ys else x ∷ y ∷ ys

  unfoldable pub stable_sort : List A → List A
  unfolding insert_sorted
  stable_sort [] = []
  stable_sort (x ∷ xs) = insert_sorted x (stable_sort xs)

  -- No element comes before one that is less.
  abbrev pub IsSorted : List A → Type 0
  IsSorted [] = Unit
  IsSorted (x ∷ xs) = All (λ y. lt y x ≡ false) xs × IsSorted xs

  insert_sorted-perm : (x : A) (ys : List A) → Perm (insert_sorted x ys) (x ∷ ys)
  unfolding insert_sorted
  insert_sorted-perm x [] = Perm.refl (x ∷ [])
  insert_sorted-perm x (y ∷ ys) = elim (Bool-cases (lt y x)) [
    | inl before ↦ rw before (Perm.trans (Perm.cons y (insert_sorted-perm x ys)) (Perm.swap x y ys))
    | inr after ↦ rw after (Perm.refl (x ∷ y ∷ ys))
  ]

  pub stable_sort-perm : (xs : List A) → Perm (stable_sort xs) xs
  unfolding stable_sort
  stable_sort-perm [] = Perm.refl []
  stable_sort-perm (x ∷ xs) =
      Perm.trans (insert_sorted-perm x (stable_sort xs)) (Perm.cons x (stable_sort-perm xs))

  All-insert_sorted {κ} :
      (P : A → Type κ) (x : A) (ys : List A) → P x → All P ys → All P (insert_sorted x ys)
  unfolding insert_sorted
  All-insert_sorted P x [] px h = (px, tt)
  All-insert_sorted P x (y ∷ ys) px h = ground (arith, All-insert_sorted P x ys px h.1)

  pub All-stable_sort {κ} : (P : A → Type κ) (xs : List A) → All P xs → All P (stable_sort xs)
  unfolding stable_sort
  All-stable_sort P [] h = tt
  All-stable_sort P (x ∷ xs) h =
      All-insert_sorted P x (stable_sort xs) h.0 (All-stable_sort P xs h.1)

  module _ (order : IsStrictWeakOrder lt) where
    All-weaken :
        (x y : A) (ys : List A)
        → lt y x ≡ false
        → All (λ z. lt z y ≡ false) ys
        → All (λ z. lt z x ≡ false) ys
    All-weaken x y [] h a = tt
    All-weaken x y (z ∷ ys) h a = (order.negatively_trans z y x a.0 h, All-weaken x y ys h a.1)

    insert_sorted-IsSorted : (x : A) (ys : List A) → IsSorted ys → IsSorted (insert_sorted x ys)
    unfolding insert_sorted
    insert_sorted-IsSorted x [] s = (tt, tt)
    insert_sorted-IsSorted x (y ∷ ys) s = elim (Bool-cases (lt y x)) [
      | inl before ↦ rw before (
        All-insert_sorted (λ z. lt z y ≡ false) x ys (order.asymm y x before) s.0,
        insert_sorted-IsSorted x ys s.1,
      )
      | inr after ↦ rw after ((after, All-weaken x y ys after s.0), s)
    ]

    pub stable_sort-IsSorted : (xs : List A) → IsSorted (stable_sort xs)
    unfolding stable_sort
    stable_sort-IsSorted [] = tt
    stable_sort-IsSorted (x ∷ xs) =
        insert_sorted-IsSorted x (stable_sort xs) (stable_sort-IsSorted xs)

  -- Elements that the test keeps are in no order among themselves.
  abbrev pub IsTied : (A → Bool) → Type ℓ
  IsTied p = (a b : A) → p a ≡ true → p b ≡ true → lt a b ≡ false

  keep-insert_sorted :
      (p : A → Bool) (x : A) (ys : List A)
      → IsTied p
      → keep p (insert_sorted x ys) ≡ keep p (x ∷ ys)
  unfolding insert_sorted
  keep-insert_sorted p x [] t = refl
  keep-insert_sorted p x (y ∷ ys) t = ground (arith, t y x, keep-insert_sorted p x ys t)

  -- Equivalent elements keep their order.
  pub keep-stable_sort :
      (p : A → Bool) (xs : List A) → IsTied p → keep p (stable_sort xs) ≡ keep p xs
  unfolding stable_sort
  keep-stable_sort p [] t = refl
  keep-stable_sort p (x ∷ xs) t =
      ground (arith, keep-insert_sorted p x (stable_sort xs) t, keep-stable_sort p xs t)

-- What holds of the kept elements, as a statement on all elements.
pub keep-cases {ℓ κ} :
    {A : Type ℓ} (p : A → Bool) (P : A → Type κ) (xs : List A)
    → All P (keep p xs)
    → All (λ (a : A). (p a ≡ false) ⊎ P a) xs
keep-cases p P [] = λ h. tt
keep-cases p P (x ∷ xs) = elim (Bool-cases (p x)) [
  | inl e ↦ rw e (λ h. (inr h.0, keep-cases p P xs h.1))
  | inr e ↦ rw e (λ h. (inl refl, keep-cases p P xs h))
]

pub cases-keep {ℓ κ} :
    {A : Type ℓ} (p : A → Bool) (P : A → Type κ) (xs : List A)
    → All (λ (a : A). (p a ≡ false) ⊎ P a) xs
    → All P (keep p xs)
cases-keep p P [] h = tt
cases-keep p P (x ∷ xs) (hx, h) = elim (Bool-cases (p x)) [
  | inl e ↦
      rw e
        (elim hx [ inl off ↦ absurd (ground (arith, e, off)) | inr px ↦ (px, cases-keep p P xs h) ])
  | inr e ↦ rw e (cases-keep p P xs h)
]

pub All-keep {ℓ κ} :
    {A : Type ℓ} (p : A → Bool) (P : A → Type κ) (xs : List A) → All P xs → All P (keep p xs)
All-keep p P [] h = tt
All-keep p P (x ∷ xs) (hx, h) = elim (Bool-cases (p x)) [
  | inl e ↦ rw e (hx, All-keep p P xs h)
  | inr e ↦ rw e (All-keep p P xs h)
]

all_head {ℓ κ} :
    {A : Type ℓ} (p : A → Bool) (P : A → Type κ) (x : A) (xs : List A)
    → p x ≡ true
    → All P (keep p (x ∷ xs))
    → P x × All P (keep p xs)
all_head p P x xs e = rw e (λ (h : P x × All P (keep p xs)). h)

all_skip {ℓ κ} :
    {A : Type ℓ} (p : A → Bool) (P : A → Type κ) (x : A) (xs : List A)
    → p x ≡ false
    → All P (keep p (x ∷ xs))
    → All P (keep p xs)
all_skip p P x xs e = rw e (λ (h : All P (keep p xs)). h)

-- What follows for the elements that are kept.
pub keep-imp {ℓ κ ν} :
    {A : Type ℓ} (p : A → Bool) (P : A → Type κ) (Q : A → Type ν) (xs : List A)
    → ((a : A) → p a ≡ true → P a → Q a)
    → All P (keep p xs)
    → All Q (keep p xs)
keep-imp p P Q [] f h = tt
keep-imp p P Q (x ∷ xs) f h = elim (Bool-cases (p x)) [
  | inl e ↦ rw e (f x e (all_head p P x xs e h).0, keep-imp p P Q xs f (all_head p P x xs e h).1)
  | inr e ↦ rw e (keep-imp p P Q xs f (all_skip p P x xs e h))
]
