-- ===== src/Policy/Stacking/Tests.antt =====
-- Four windows to stack, on which the theorems are applied.
use mathlib.Core.List.{Perm}
use lwm.Base.{ℕ, ◌≡◌, refl, Bool, true, false, List, [], ◌∷◌, map}
use lwm.Base.Int.{to_i64}
use lwm.Base.Sort.{stable_sort}
use lwm.Policy.Stacking.Layers.{IsLayered, compute_order-IsLayered}
use lwm.Policy.Stacking.{Tier, ClientStackInputs, key_less, compute_order}

abbrev input : ℕ → Bool → Tier → Bool → ℕ → ClientStackInputs
input i v t f o = record {
  id = i;
  visible = v;
  tier = t;
  is_floating = f;
  is_active = false;
  order = o;
}

abbrev four : List ClientStackInputs
four =
    input 1 true Tier.normal true 4
    ∷ input 2 true Tier.overlay true 3
    ∷ input 3 false Tier.fullscreen false 2
    ∷ input 4 true Tier.normal false 9
    ∷ []

stacked : compute_order four ≡ 3 ∷ 4 ∷ 1 ∷ 2 ∷ []
unfolding compute_order stable_sort key_less to_i64
stacked = refl

compute_order-IsLayered_example :
    (ranked : List ClientStackInputs) × (compute_order four ≡ map (λ i. i.id) ranked)
    × Perm ranked four
    × IsLayered ranked
compute_order-IsLayered_example = compute_order-IsLayered four
