-- ===== src/Wm/Convert/Back.antt =====
-- On the saved position of a window in convert_window_to_floating and convert_window_to_tiled of
-- src/lwm/wm.cpp, and the lists of windows that they change.
use mathlib.Core.Path.{subst}
use lwm.Base.{
  ◌≢◌, length-append, count-append, ℕ, zero, suc, ◌+◌, ◌≡◌, refl, sym, ap, ◌∙◌, true, false,
  Bool-cases, choose, inl, inr, none, some, Option-cases, List, [], ◌∷◌, ◌++◌, length, count,
  erase_first, ltb, ◌==◌, if◌then◌else◌, arith,
}
use lwm.Wm.Convert.{index_of, to_front, rotate_last}

append_assoc : (xs ys zs : List ℕ) → (xs ++ ys) ++ zs ≡ xs ++ (ys ++ zs)
append_assoc [] ys zs = refl
append_assoc (x ∷ xs) ys zs = ap (λ l. x ∷ l) (append_assoc xs ys zs)

append_nil : (xs : List ℕ) → xs ++ [] ≡ xs
append_nil [] = refl
append_nil (x ∷ xs) = ap (λ l. x ∷ l) (append_nil xs)

to_front_lem :
    (ys : List ℕ) (w : ℕ) (passed : List ℕ) → to_front (ys ++ w ∷ []) passed ≡ w ∷ passed ++ ys
to_front_lem [] w passed = ap (λ l. w ∷ l) (sym (append_nil passed))
to_front_lem (y ∷ []) w passed = refl
to_front_lem (y ∷ z ∷ ys) w passed =
    to_front_lem (z ∷ ys) w (passed ++ y ∷ [])
    ∙ ap (λ l. w ∷ l) (append_assoc passed (y ∷ []) (z ∷ ys))

rotate_zero : (ys : List ℕ) (w : ℕ) → rotate_last (ys ++ w ∷ []) 0 ≡ w ∷ ys
rotate_zero [] w = refl
rotate_zero (y ∷ ys) w = to_front_lem (y ∷ ys) w []

-- The index is that of an element.
no_index : {a : ℕ} → none ≢ some a
no_index h = cc

some_index : {a b : ℕ} → some a ≡ some b → a ≡ b
some_index h = cc

-- The rotation, where the last window is not at its place.
abbrev pub moved : List ℕ → ℕ → List ℕ
moved l i = if ltb (i + 1) (length l) then rotate_last l i else l

moved_first : (ys : List ℕ) (w : ℕ) → moved (ys ++ w ∷ []) 0 ≡ w ∷ ys
moved_first [] w = refl
moved_first (y ∷ ys) w =
    choose (λ l. l ≡ w ∷ y ∷ ys) (ltb 1 (length ((y ∷ ys) ++ w ∷ []))) _ _
      (λ _. rotate_zero (y ∷ ys) w) (λ h. absurd (ground (arith, h, length-append ys (w ∷ []))))

moved_later : (x : ℕ) (l : List ℕ) (i : ℕ) → moved (x ∷ l) (suc i) ≡ x ∷ moved l i
moved_later x l i = elim (Bool-cases (ltb (i + 1) (length l))) [
  | inl e ↦ let e' : ltb (suc i + 1) (length (x ∷ l)) ≡ true = ground (arith, e) in rw (e', e) refl
  | inr e ↦ let e' : ltb (suc i + 1) (length (x ∷ l)) ≡ false = ground (arith, e) in rw (e', e) refl
]

-- A window that is taken out, put at the end and moved to its saved place is where it was.
pub put_back :
    (xs : List ℕ) (w i : ℕ) → index_of xs w ≡ some i → moved (erase_first xs w ++ w ∷ []) i ≡ xs
put_back [] w i h = cc
put_back (x ∷ xs) w i h = elim (Bool-cases (x == w)) [
  | inl e ↦
      let here : index_of (x ∷ xs) w ≡ some 0 = rw e refl in
      let first : 0 ≡ i = some_index (sym here ∙ h) in
      let is : w ≡ x = ground (arith, e) in
      let gone : erase_first (x ∷ xs) w ≡ xs = rw e refl in
      subst (λ k. moved (erase_first (x ∷ xs) w ++ w ∷ []) k ≡ x ∷ xs) first
        (ap (λ l. moved (l ++ w ∷ []) 0) gone ∙ (moved_first xs w ∙ ap (λ v. v ∷ xs) is))
  | inr e ↦ elim (Option-cases (index_of xs w)) [
    | inl out ↦
        let none_there : index_of (x ∷ xs) w ≡ none = rw (e, out) refl in
        absurd (no_index (sym none_there ∙ h))
    | inr (j, at) ↦
        let there : index_of (x ∷ xs) w ≡ some (suc j) = rw (e, at) refl in
        let later : suc j ≡ i = some_index (sym there ∙ h) in
        let kept : erase_first (x ∷ xs) w ≡ x ∷ erase_first xs w = rw e refl in
        subst (λ k. moved (erase_first (x ∷ xs) w ++ w ∷ []) k ≡ x ∷ xs) later
          (ap (λ l. moved (l ++ w ∷ []) (suc j)) kept
            ∙ (moved_later x (erase_first xs w ++ w ∷ []) j ∙ ap (λ l. x ∷ l) (put_back xs w j at)))
  ]
]

count-to_front_cons :
    (v x : ℕ) (xs passed : List ℕ)
    → count v (to_front (x ∷ xs) passed) ≡ count v (x ∷ xs) + count v passed
count-to_front_cons v x [] passed = omega arith
count-to_front_cons v x (y ∷ ys) passed =
    omega (arith, count-to_front_cons v y ys (passed ++ x ∷ []), count-append v passed (x ∷ []))

-- A rotation lists the same windows.
pub count-rotate_last : (v : ℕ) (xs : List ℕ) (i : ℕ) → count v (rotate_last xs i) ≡ count v xs
count-rotate_last v [] i = refl
count-rotate_last v (x ∷ xs) zero = omega (arith, count-to_front_cons v x xs [])
count-rotate_last v (x ∷ xs) (suc i) = omega (arith, count-rotate_last v xs i)
