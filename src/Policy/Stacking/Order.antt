-- ===== src/Policy/Stacking/Order.antt =====
-- The comparison of sort keys in stacking_policy as an order, and the sorted result.
use mathlib.Core.List.{Perm}
use lwm.Base.{ℕ, ◌≡◌, refl, Bool, true, false, List, map, arith}
use lwm.Base.Int.{ℤ, ltb_ℤ, to_i64}
use lwm.Base.Sort.{
  IsStrictWeakOrder, IsSorted, IsTied, keep, stable_sort, stable_sort-perm, stable_sort-IsSorted,
  keep-stable_sort,
}
use lwm.Policy.Stacking.{ClientStackInputs, lex_ℕ, bit, tier_value, key_less, compute_order}

lex_asymm :
    (a b : ℕ) (r s : Bool) → (r ≡ true → s ≡ false) → lex_ℕ a b r ≡ true → lex_ℕ b a s ≡ false
lex_asymm a b r s f h = ground arith

lex_negatively_trans :
    (a b c : ℕ) (r s t : Bool)
    → (r ≡ false → s ≡ false → t ≡ false)
    → lex_ℕ a b r ≡ false
    → lex_ℕ b c s ≡ false
    → lex_ℕ a c t ≡ false
lex_negatively_trans a b c r s t f h k = ground arith

ltb_ℤ_asymm : (a b : ℤ) → ltb_ℤ a b ≡ true → ltb_ℤ b a ≡ false
ltb_ℤ_asymm a b h = ground arith

ltb_ℤ_negatively_trans : (a b c : ℤ) → ltb_ℤ a b ≡ false → ltb_ℤ b c ≡ false → ltb_ℤ a c ≡ false
ltb_ℤ_negatively_trans a b c h k = ground arith

pub key_less-IsStrictWeakOrder : IsStrictWeakOrder key_less
unfolding key_less
key_less-IsStrictWeakOrder = record {
  asymm = λ a b. lex_asymm (bit a.visible) (bit b.visible) _ _ (
      lex_asymm (tier_value a.tier) (tier_value b.tier) _ _ (
        lex_asymm (bit a.is_floating) (bit b.is_floating) _ _ (
          lex_asymm (bit a.is_active) (bit b.is_active) _ _
            (ltb_ℤ_asymm (to_i64 a.order) (to_i64 b.order)))));
  negatively_trans = λ a b c.
      lex_negatively_trans (bit a.visible) (bit b.visible) (bit c.visible) _ _ _ (
        lex_negatively_trans (tier_value a.tier) (tier_value b.tier) (tier_value c.tier) _ _ _ (
          lex_negatively_trans (bit a.is_floating) (bit b.is_floating) (bit c.is_floating) _ _ _ (
            lex_negatively_trans (bit a.is_active) (bit b.is_active) (bit c.is_active) _ _ _
              (ltb_ℤ_negatively_trans (to_i64 a.order) (to_i64 b.order) (to_i64 c.order)))));
}

-- The stacking order lists the windows given, each as often as it is given, sorted by their keys
-- from the bottom up, and windows of which none is ranked before another keep their order.
pub compute_order-IsSorted :
    (inputs : List ClientStackInputs)
    → (ranked : List ClientStackInputs) × (compute_order inputs ≡ map (λ i. i.id) ranked)
      × Perm ranked inputs
      × IsSorted key_less ranked
      × ((p : ClientStackInputs → Bool) → IsTied key_less p → keep p ranked ≡ keep p inputs)
unfolding compute_order
compute_order-IsSorted inputs = (
  stable_sort key_less inputs,
  refl,
  stable_sort-perm key_less inputs,
  stable_sort-IsSorted key_less key_less-IsStrictWeakOrder inputs,
  λ p t. keep-stable_sort key_less p inputs t,
)
