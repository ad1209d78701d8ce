-- ===== src/Layout/Arrange/Nearest.antt =====
-- On nearest_slot_index of src/lwm/layout/layout.cpp: the distances of the slots.
use native.Mathlib.Nat.{mul-le-mul}
use lwm.Base.{
  ℕ, suc, ◌+◌, ◌≤◌, ◌<◌, ◌≡◌, refl, ◌⊎◌, inl, inr, some, List, [], ◌∷◌, length, get_elem?, All,
  Bool-cases, ltb, arith,
}
use lwm.Base.Int.{ℤ, pos, pos_part, neg_part, ◌+ℤ◌, ◌-ℤ◌, IsI16}
use lwm.Types.{Geometry}
use lwm.Layout.Arrange.{axis_gap, square, slot_distance, nearest_from, nearest_slot_index}

-- A rectangle of the screen, whose fields are within the ranges of their types.
pub record IsOnScreen (g : Geometry) : Type 0 where
  pub x_fits : IsI16 g.x
  pub y_fits : IsI16 g.y
  pub width_fits : g.width < 65536
  pub height_fits : g.height < 65536

axis_gap_small :
    (p low : ℤ) (w : ℕ)
    → IsI16 p
    → IsI16 low
    → w < 65536
    → pos_part (axis_gap p low (low +ℤ pos w)) + neg_part (axis_gap p low (low +ℤ pos w)) ≤ 131072
unfolding axis_gap ◌+ℤ◌ ◌-ℤ◌
axis_gap_small p low w i j k = ground arith

square_small : (a : ℤ) → pos_part a + neg_part a ≤ 131072 → square a ≤ 17179869184
square_small a h = mul-le-mul h h

distance_small :
    (g : Geometry) (x y : ℤ)
    → IsI16 x
    → IsI16 y
    → IsOnScreen g
    → slot_distance g x y < 9223372036854775807
unfolding slot_distance
distance_small g x y i j s = omega (
  arith,
  square_small (axis_gap x g.x (g.x +ℤ pos g.width))
      (axis_gap_small x g.x g.width i s.x_fits s.width_fits),
  square_small (axis_gap y g.y (g.y +ℤ pos g.height))
      (axis_gap_small y g.y g.height j s.y_fits s.height_fits),
)

module _ (x y : ℤ) where
  -- The loop keeps its candidate, or finds a slot that is closer than it and than all others.
  abbrev Outcome : List Geometry → ℕ → ℕ → ℕ → ℕ → Type 0
  Outcome slots i b d r =
      ((r ≡ b) × All (λ (h : Geometry). d ≤ slot_distance h x y) slots)
      ⊎ ((k : ℕ) × (g : Geometry) × (r ≡ i + k)
          × (get_elem? slots k ≡ some g)
          × (slot_distance g x y < d)
          × All (λ (h : Geometry). slot_distance g x y ≤ slot_distance h x y) slots)

  nearest_from-Outcome :
      (slots : List Geometry) (i b d : ℕ) → Outcome slots i b d (nearest_from slots x y i b d)
  unfolding nearest_from
  nearest_from-Outcome [] i b d = inl (refl, tt)
  nearest_from-Outcome (s ∷ ss) i b d = elim (Bool-cases (ltb (slot_distance s x y) d)) [
    | inl closer ↦ rw closer (elim (nearest_from-Outcome ss (i + 1) i (slot_distance s x y)) [
      | inl (same, far) ↦ inr (0, s, ground arith, refl, ground arith, (omega arith, far))
      | inr (k, g, at, is, less, far) ↦
          inr (suc k, g, omega arith, is, ground arith, (omega arith, far))
    ])
    | inr other ↦ rw other (elim (nearest_from-Outcome ss (i + 1) b d) [
      | inl (same, far) ↦ inl (same, (ground arith, far))
      | inr (k, g, at, is, less, far) ↦ inr (suc k, g, omega arith, is, less, (ground arith, far))
    ])
  ]

  -- A window dropped at a point of the screen takes the place of a slot to which the point is at
  -- least as near as to every other slot, where there is a slot and all lie on the screen.
  pub nearest_slot_index-nearest :
      (slots : List Geometry)
      → IsI16 x
      → IsI16 y
      → All IsOnScreen slots
      → 1 ≤ length slots
      → (g : Geometry) × (get_elem? slots (nearest_slot_index slots x y) ≡ some g)
        × All (λ (h : Geometry). slot_distance g x y ≤ slot_distance h x y) slots
  unfolding nearest_slot_index
  nearest_slot_index-nearest [] i j on h = absurd (omega arith)
  nearest_slot_index-nearest (s ∷ ss) i j (on, rest) h =
      elim (nearest_from-Outcome (s ∷ ss) 0 0 9223372036854775807) [
        | inl (same, (far, _)) ↦ absurd (omega (arith, distance_small s x y i j on))
        | inr (k, g, at, is, less, far) ↦
            let plain : 0 + k ≡ k = omega arith in (g, rw (at, plain) is, far)
      ]
