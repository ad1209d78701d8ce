-- ===== src/Policy/Stacking.antt =====
-- namespace stacking_policy of src/lwm/core/policy.hpp: the tier of a window and the order in
-- which all windows are stacked.
pub mod Order
pub mod Layers
mod Tests
use lwm.Base.{ℕ, Bool, true, false, ◌||◌, List, map, ltb, if◌then◌else◌}
use lwm.Base.Int.{pos, ltb_ℤ, to_i64}
use lwm.Base.Sort.{stable_sort}

pub data Tier : Type 0 where
  below normal above fullscreen overlay : Tier

-- The values of the enumerators.
abbrev pub tier_value : Tier → ℕ
tier_value below = 0
tier_value normal = 1
tier_value above = 2
tier_value fullscreen = 3
tier_value overlay = 4

pub record ClientStackInputs : Type 0 where
  pub id : ℕ
  pub visible : Bool
  pub tier : Tier
  pub is_floating : Bool
  pub is_active : Bool
  pub order : ℕ  -- uint64_t

unfoldable pub compute_tier : Bool → Bool → Bool → Bool → Bool → Bool → Tier
compute_tier is_overlay is_suppressed_by_fullscreen is_fullscreen is_above_hint is_below_hint
      is_modal =
    if is_overlay
    then overlay
    else if is_suppressed_by_fullscreen
    then below
    else if is_fullscreen
    then fullscreen
    else if is_above_hint || is_modal
    then above
    else if is_below_hint
    then below
    else normal

abbrev pub bit : Bool → ℕ
bit b = if b then 1 else 0

-- One component of operator< on tuples.
abbrev pub lex : Bool → Bool → Bool → Bool
lex less greater rest = if less then true else if greater then false else rest

abbrev pub lex_ℕ : ℕ → ℕ → Bool → Bool
lex_ℕ a b rest = lex (ltb a b) (ltb b a) rest

-- sort_key(a) < sort_key(b)
unfoldable pub key_less : ClientStackInputs → ClientStackInputs → Bool
key_less a b = lex_ℕ (bit a.visible) (bit b.visible) (
    lex_ℕ (tier_value a.tier) (tier_value b.tier) (
      lex_ℕ (bit a.is_floating) (bit b.is_floating)
        (lex_ℕ (bit a.is_active) (bit b.is_active) (ltb_ℤ (to_i64 a.order) (to_i64 b.order)))))

unfoldable pub compute_order : List ClientStackInputs → List ℕ
compute_order inputs = map (λ i. i.id) (stable_sort key_less inputs)
