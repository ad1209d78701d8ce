-- ===== src/Policy/Focus/Build.antt =====
-- On build_cycle_candidates of focus_policy: the members of the cycle and their order.
use mathlib.Core.List.{Perm}
use lwm.Base.{ℕ, ◌≡◌, refl, Bool, List, map, arith}
use lwm.Base.Sort.{
  IsStrictWeakOrder, IsSorted, IsTied, keep, stable_sort, stable_sort-perm, stable_sort-IsSorted,
  keep-stable_sort,
}
use lwm.Policy.Focus.{FloatingCandidate, Ranked, more_recent, ranked, build_cycle_candidates}

more_recent-IsStrictWeakOrder : IsStrictWeakOrder more_recent
more_recent-IsStrictWeakOrder = record {
  asymm = λ a b h. ground arith;
  negatively_trans = λ a b c h k. ground arith;
}

-- The cycle holds the eligible tiled windows and the eligible floating windows placed on the
-- workspace, each as often as it is given, none before a more recently used one; windows that were
-- used at the same time keep their order, the tiled ones first.
pub build_cycle_candidates-IsSorted :
    (is_eligible : ℕ → Bool) (get_mru_order : ℕ → ℕ) (tiled : List ℕ)
    (floating : List FloatingCandidate) (mi wi : ℕ)
    → (sorted : List Ranked) × (build_cycle_candidates is_eligible get_mru_order tiled floating mi
          wi
        ≡ map (λ r. r.candidate) sorted)
      × Perm sorted (ranked is_eligible get_mru_order tiled floating mi wi)
      × IsSorted more_recent sorted
      × ((p : Ranked → Bool)
          → IsTied more_recent p
          → keep p sorted ≡ keep p (ranked is_eligible get_mru_order tiled floating mi wi))
unfolding build_cycle_candidates
build_cycle_candidates-IsSorted is_eligible get_mru_order tiled floating mi wi =
    let all = ranked is_eligible get_mru_order tiled floating mi wi in
    (
      stable_sort more_recent all,
      refl,
      stable_sort-perm more_recent all,
      stable_sort-IsSorted more_recent more_recent-IsStrictWeakOrder all,
      λ p t. keep-stable_sort more_recent p all t,
    )
