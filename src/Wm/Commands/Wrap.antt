-- ===== src/Wm/Commands/Wrap.antt =====
-- On wrap_monitor_index of src/lwm/wm_workspace.cpp.
use native.Mathlib.Nat.{mod-lt, mod-eq_of_lt, mod_self, mod-mod, add-mod_right}
use lwm.Base.{
  ℕ, zero, suc, ◌+◌, ◌-◌, ◌%◌, ◌<◌, ◌≡◌, refl, ◌∙◌, ap, ◌==◌, Bool-cases, inl, inr, if◌then◌else◌,
  arith,
}
use lwm.Base.Int.{ℤ, pos, negsuc, pos_part, sub_ℕ, ◌+ℤ◌}
use lwm.Wm.Commands.{rem_ℤ, wrap_index}

rem-lt : (a : ℤ) (n : ℕ) → 0 < n → pos_part (rem_ℤ a n) < n
unfolding rem_ℤ
rem-lt (pos a) n h = mod-lt a h
rem-lt (negsuc a) n h = ground arith

-- The wrapped index is within the bounds.
pub wrap_index-lt : (n : ℕ) (idx : ℤ) → 0 < n → wrap_index n idx < n
unfolding wrap_index
wrap_index-lt n idx h = rem-lt (rem_ℤ idx n +ℤ pos n) n h

add_pos : (a b : ℕ) → pos a +ℤ pos b ≡ pos (a + b)
unfolding ◌+ℤ◌
add_pos a b = ground arith

back_pos : (a : ℕ) → pos (suc a) +ℤ negsuc 0 ≡ pos a
unfolding ◌+ℤ◌
back_pos a = ground arith

wrap-pos : (n a : ℕ) → wrap_index n (pos a) ≡ a % n
unfolding wrap_index rem_ℤ
wrap-pos n a = rw (add_pos (a % n) n) (add-mod_right (a % n) n ∙ mod-mod a n)

minus_one : (n : ℕ) → sub_ℕ 0 1 +ℤ pos (suc n) ≡ pos n
unfolding ◌+ℤ◌
minus_one n = ground arith

before_first : pos 0 +ℤ negsuc 0 ≡ negsuc 0
unfolding ◌+ℤ◌
before_first = refl

-- The remainders of -1 by 1 and by more.
wrap-minus_one : (n : ℕ) → wrap_index (suc n) (negsuc 0) ≡ n
unfolding wrap_index rem_ℤ
wrap-minus_one zero =
    let sum : sub_ℕ 0 0 +ℤ pos 1 ≡ pos 1 = add_pos 0 1 in ap (λ z. pos_part (rem_ℤ z 1)) sum
wrap-minus_one (suc n) =
    let one_mod : 1 % suc (suc n) ≡ 1 = mod-eq_of_lt (omega arith) in
    rw one_mod (rw (minus_one (suc n)) (mod-eq_of_lt (omega arith)))

-- The next monitor of the last one is the first one.
pub wrap-next :
    (n i : ℕ) → i < n → wrap_index n (pos i +ℤ pos 1) ≡ (if suc i == n then 0 else suc i)
wrap-next n i h =
    let sum : i + 1 ≡ suc i = omega arith in
    rw (add_pos i 1) (
      wrap-pos n (i + 1) ∙ elim (Bool-cases (suc i == n)) [
        | inl e ↦ let is : i + 1 ≡ n = ground (arith, e) in rw e (ap (λ k. k % n) is ∙ mod_self n)
        | inr e ↦ rw e (mod-eq_of_lt (ground (arith, e, h)) ∙ sum)
      ])

-- The one before the first is the last one.
pub wrap-previous :
    (n i : ℕ) → i < n → wrap_index n (pos i +ℤ negsuc 0) ≡ (if i == 0 then n - 1 else i - 1)
wrap-previous zero zero h = absurd (omega (arith, h))
wrap-previous (suc n) zero h = rw before_first (wrap-minus_one n ∙ omega arith)
wrap-previous n (suc i) h =
    rw (back_pos i) (wrap-pos n i ∙ (mod-eq_of_lt (omega (arith, h)) ∙ ground arith))

-- Going to the next monitor and then to the previous one, or the other way round, comes back.
pub wrap_index-inverse :
    (n i : ℕ)
    → i < n
    → (wrap_index n (pos (wrap_index n (pos i +ℤ pos 1)) +ℤ negsuc 0) ≡ i)
      × (wrap_index n (pos (wrap_index n (pos i +ℤ negsuc 0)) +ℤ pos 1) ≡ i)
wrap_index-inverse n i h =
    let up = wrap_index-lt n (pos i +ℤ pos 1) (omega (arith, h)) in
    let down = wrap_index-lt n (pos i +ℤ negsuc 0) (omega (arith, h)) in
    (
      wrap-previous n (wrap_index n (pos i +ℤ pos 1)) up ∙ ground (arith, wrap-next n i h, h),
      wrap-next n (wrap_index n (pos i +ℤ negsuc 0)) down ∙ ground (arith, wrap-previous n i h, h),
    )
