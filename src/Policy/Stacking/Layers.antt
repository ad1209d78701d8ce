-- ===== src/Policy/Stacking/Layers.antt =====
-- On compute_order and compute_tier of stacking_policy, as the user sees them: hidden windows,
-- tiers and fullscreen windows.
use mathlib.Core.List.{Perm}
use lwm.Base.{ℕ, ◌≤◌, ◌<◌, ◌≡◌, Bool, true, false, List, [], ◌∷◌, All, map, arith}
use lwm.Base.Sort.{IsSorted}
use lwm.Policy.Stacking.{
  ClientStackInputs, tier_value, bit, lex_ℕ, compute_tier, key_less, compute_order,
}
use lwm.Policy.Stacking.Order.{compute_order-IsSorted}

-- `lower` may stand below `upper`.
abbrev pub MayStandBelow : ClientStackInputs → ClientStackInputs → Type 0
MayStandBelow lower upper =
    (bit lower.visible ≤ bit upper.visible)
    × (lower.visible ≡ upper.visible → tier_value lower.tier ≤ tier_value upper.tier)
    × (lower.visible ≡ upper.visible
        → lower.tier ≡ upper.tier
        → bit lower.is_floating ≤ bit upper.is_floating)

-- Of any two windows of a list, the first may stand below the second.
abbrev pub IsLayered : List ClientStackInputs → Type 0
IsLayered [] = Unit
IsLayered (i ∷ is) = All (MayStandBelow i) is × IsLayered is

lex-le : (a b : ℕ) (r : Bool) → lex_ℕ a b r ≡ false → b ≤ a
lex-le a b r h = ground arith

lex-rest : (a b : ℕ) (r : Bool) → a ≡ b → lex_ℕ a b r ≡ false → r ≡ false
lex-rest a b r e h = ground arith

key_less-MayStandBelow : (a b : ClientStackInputs) → key_less b a ≡ false → MayStandBelow a b
unfolding key_less
key_less-MayStandBelow a b h = (
  lex-le (bit b.visible) (bit a.visible) _ h,
  λ e.
      lex-le (tier_value b.tier) (tier_value a.tier) _
        (lex-rest (bit b.visible) (bit a.visible) _ (ground (arith, e)) h),
  λ e t. lex-le (bit b.is_floating) (bit a.is_floating) _ (
      lex-rest (tier_value b.tier) (tier_value a.tier) _ (ground (arith, t))
        (lex-rest (bit b.visible) (bit a.visible) _ (ground (arith, e)) h)),
)

layer :
    (i : ClientStackInputs) (is : List ClientStackInputs)
    → All (λ j. key_less j i ≡ false) is
    → All (MayStandBelow i) is
layer i [] h = tt
layer i (j ∷ is) h = (key_less-MayStandBelow i j h.0, layer i is h.1)

IsSorted-IsLayered : (is : List ClientStackInputs) → IsSorted key_less is → IsLayered is
IsSorted-IsLayered [] s = tt
IsSorted-IsLayered (i ∷ is) s = (layer i is s.0, IsSorted-IsLayered is s.1)

-- In the stacking order no visible window stands below a hidden one, among windows of equal
-- visibility none stands below one of a lower tier, and within a tier no floating window stands
-- below a window that is not floating.
pub compute_order-IsLayered :
    (inputs : List ClientStackInputs)
    → (ranked : List ClientStackInputs) × (compute_order inputs ≡ map (λ i. i.id) ranked)
      × Perm ranked inputs
      × IsLayered ranked
compute_order-IsLayered inputs =
    let (ranked, ids, same, sorted, _) = compute_order-IsSorted inputs in
    (ranked, ids, same, IsSorted-IsLayered ranked sorted)

-- A window that another window's fullscreen suppresses ranks strictly below every fullscreen
-- window that is not suppressed, whatever its own hints, unless it is an overlay; an overlay ranks
-- strictly above every window that is not one.
pub compute_tier-covers :
    (suppressed fullscreen above below modal suppressed' fullscreen' above' below' modal' : Bool)
    → (tier_value (compute_tier false true fullscreen above below modal)
        < tier_value (compute_tier false false true above' below' modal'))
      × (tier_value (compute_tier false suppressed fullscreen above below modal)
          < tier_value (compute_tier true suppressed' fullscreen' above' below' modal'))
unfolding compute_tier
compute_tier-covers suppressed fullscreen above below modal suppressed' fullscreen' above' below'
      modal' =
    ground arith
