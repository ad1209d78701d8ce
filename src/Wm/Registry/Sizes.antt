-- ===== src/Wm/Registry/Sizes.antt =====
-- On the workspaces that src/lwm/wm.cpp writes: their places, and what stays registered.
use mathlib.Core.Path.{subst}
use lwm.Base.{
  ℕ, suc, zero, ◌≡◌, refl, sym, ap, ◌∙◌, Bool, false, some, List, [], ◌∷◌, map, length, length-set,
  get_elem?, get_elem?-set_self, get_elem?-set_ne, get_elem?-lt, set, ltb, ◌==◌, Option-cases,
  Bool-cases, inl, inr, arith, count,
}
use lwm.Types.{Monitor, Workspace}
use lwm.Wm.Place.{has_place, workspace_at, set_workspace}
use lwm.Wm.Registry.{Entry, IsRegistry}
use lwm.Wm.Registry.View.{IsInPlace-shape}
use lwm.Wm.Registry.Keeps.{map-set}
use lwm.Wm.Registry.Lists.{
  with_new, set_is, has_place-set_workspace, AllCurrent-set_workspace, count-set_workspace,
}

-- A write of a workspace with the same windows, in any order.
pub IsRegistry-set_workspace :
    (es : List Entry) (ms : List Monitor) (a b : ℕ) (old ws : Workspace)
    → workspace_at ms a b ≡ some old
    → ((v : ℕ) → count v ws.windows ≡ count v old.windows)
    → IsRegistry es ms
    → IsRegistry es (set_workspace ms a b ws)
IsRegistry-set_workspace es ms a b old ws e h r = record {
  unique = r.unique;
  in_place =
      IsInPlace-shape ms (set_workspace ms a b ws) es (has_place-set_workspace ms a b old ws e)
        r.in_place;
  counted = λ i j v.
      let c = count-set_workspace ms a b old ws e i j v in
      let s = h v in let k = r.counted i j v in ground (arith, c, s, k);
  currents = AllCurrent-set_workspace ms a b old ws e r.currents;
}

-- A write of a workspace does not change which workspace a monitor shows.
pub set_workspace_current :
    (ms : List Monitor) (a b k : ℕ) (ws : Workspace) (m : Monitor)
    → get_elem? ms k ≡ some m
    → (m' : Monitor) × (get_elem? (set_workspace ms a b ws) k ≡ some m')
      × (m'.current_workspace ≡ m.current_workspace)
unfolding set_workspace
set_workspace_current ms a b k ws m e = elim (Option-cases (get_elem? ms a)) [
  | inl f ↦ (m, rw (f, set_workspace) e, refl)
  | inr (n, f) ↦ elim (Bool-cases (a == k)) [
    | inl s ↦
        let is : a ≡ k = ground (arith, s) in
        let same : n ≡ m =
          some_monitor n m (sym f ∙ subst (λ j. get_elem? ms j ≡ some m) (sym is) e) in
        (
          with_new n b ws,
          rw (set_is ms a b n ws f) (
              subst (λ j. get_elem? (set ms a (with_new n b ws)) j ≡ some (with_new n b ws)) is
                (get_elem?-set_self ms a (with_new n b ws) (get_elem?-lt ms a f))),
          ap (λ (x : Monitor). x.current_workspace) same,
        )
    | inr s ↦ (
      m,
      rw (set_is ms a b n ws f)
          (get_elem?-set_ne ms (with_new n b ws) (λ (p : a ≡ k). ground (arith, s, p)) ∙ e),
      refl,
    )
  ]
]
  where
    some_monitor : (x y : Monitor) → some x ≡ some y → x ≡ y
    some_monitor x y h = cc

abbrev pub size : Monitor → ℕ
size m = length m.workspaces

pub sizes-set_workspace :
    (ms : List Monitor) (a b : ℕ) (ws : Workspace)
    → map size (set_workspace ms a b ws) ≡ map size ms
unfolding set_workspace
sizes-set_workspace ms a b ws = elim (Option-cases (get_elem? ms a)) [
  | inl e ↦ rw (e, set_workspace) refl
  | inr (m, e) ↦ rw (e, set_workspace) (map-set size ms a m _ e (length-set m.workspaces b ws))
]

in_sizes : List ℕ → ℕ → ℕ → Bool
in_sizes [] i j = false
in_sizes (n ∷ ns) zero j = ltb j n
in_sizes (n ∷ ns) (suc i) j = in_sizes ns i j

has_place-sizes : (ms : List Monitor) (i j : ℕ) → has_place ms i j ≡ in_sizes (map size ms) i j
unfolding has_place in_sizes
has_place-sizes [] i j = refl
has_place-sizes (m ∷ ms) zero j = refl
has_place-sizes (m ∷ ms) (suc i) j = has_place-sizes ms i j

-- Monitors with as many workspaces have the same places.
pub has_place_same :
    (ms ns : List Monitor) (i j : ℕ)
    → map size ns ≡ map size ms
    → has_place ns i j ≡ has_place ms i j
has_place_same ms ns i j h =
    has_place-sizes ns i j ∙ (ap (λ xs. in_sizes xs i j) h ∙ sym (has_place-sizes ms i j))
