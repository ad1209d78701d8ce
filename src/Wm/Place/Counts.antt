-- ===== src/Wm/Place/Counts.antt =====
-- On the moves of src/lwm/wm.cpp between workspaces: how often a workspace lists a window.
use mathlib.Core.Path.{subst}
use lwm.Base.{
  ℕ, suc, zero, ◌+◌, ◌-◌, ◌<◌, ◌≤◌, ◌≡◌, refl, sym, ap, ◌∙◌, Bool, true, false, ◌&&◌, none, some,
  List, [], ◌∷◌, length, get_elem?, get_elem?_total, get_elem?-lt, ltb→lt, ◌==◌, if◌then◌else◌,
  Option-cases, Bool-cases, inl, inr, arith, count, contains, contains-count, contains-eq-count,
  erase_first, find_first_passes, ==_iff,
}
use lwm.Types.{Client, Kind, Monitor, Workspace}
use lwm.Policy.Workspace.{remove_from_focus_history}
use lwm.Policy.Workspace.Remove.{fixup_windows}
use lwm.Wm.State.{WindowManager, get_client, is_managed_kind}
use lwm.Wm.Place.{is_tiled, has_place, workspace_at, insert, source_without}
use lwm.Wm.Registry.{listed}
use lwm.Wm.Registry.Changes.{one}
use lwm.Wm.Registry.Lists.{workspace_parts, has_place_at, listed_workspace}

pub count-insert : (xs : List ℕ) (i x v : ℕ) → count v (insert xs i x) ≡ count v xs + one (x == v)
count-insert [] i x v = omega arith
count-insert (y ∷ ys) zero x v = omega arith
count-insert (y ∷ ys) (suc i) x v = omega (arith, count-insert ys i x v)

pub source_windows :
    (ws : Workspace) (w : ℕ) (b : Bool) (is_iconic : ℕ → Bool)
    → (source_without ws w b is_iconic).windows ≡ erase_first ws.windows w
unfolding source_without remove_from_focus_history
source_windows ws w true is_iconic = refl
source_windows ws w false is_iconic = fixup_windows is_iconic _ w

pub has_place_out : (ms : List Monitor) (i j : ℕ) → get_elem? ms i ≡ none → has_place ms i j ≡ false
unfolding has_place
has_place_out ms i j e = rw (e, has_place) refl

pub has_place-workspace :
    (ms : List Monitor) (i j : ℕ)
    → has_place ms i j ≡ true
    → (ws : Workspace) × (workspace_at ms i j ≡ some ws)
unfolding workspace_at
has_place-workspace ms i j h = elim (Option-cases (get_elem? ms i)) [
  | inl e ↦ let out = has_place_out ms i j e in absurd (ground (arith, h, out))
  | inr (m, e) ↦
      let (ws, f) =
        get_elem?_total m.workspaces j
          (ltb→lt j (length m.workspaces) (sym (has_place_at ms i j m e) ∙ h)) in
      (ws, rw (e, workspace_at) f)
]

pub place-lt : (ms : List Monitor) (i j : ℕ) → has_place ms i j ≡ true → i < length ms
place-lt ms i j h =
    let (ws, e) = has_place-workspace ms i j h in
    let (m, at, _) = workspace_parts ms i j ws e in get_elem?-lt ms i at

pub get_client_id : (wm : WindowManager) (w : ℕ) (c : Client) → get_client wm w ≡ some c → c.id ≡ w
unfolding get_client
get_client_id wm w c e =
    (==_iff c.id w).0 (find_first_passes (λ (d : Client). d.id == w) wm.clients c e)

pub one-le-count : (xs : List ℕ) (w v : ℕ) → contains xs w ≡ true → one (w == v) ≤ count v xs
one-le-count xs w v h = elim (Bool-cases (w == v)) [
  | inl e ↦
      let is : w ≡ v = ground (arith, e) in
      rw e (subst (λ u. 1 ≤ count u xs) is (contains-count xs w h))
  | inr e ↦ rw e (omega arith)
]

pub listed_contains :
    (ms : List Monitor) (c : Client) (ws : Workspace)
    → workspace_at ms c.monitor c.workspace ≡ some ws
    → 1 ≤ count c.id (listed ms c.monitor c.workspace)
    → contains ws.windows c.id ≡ true
listed_contains ms c ws e h =
    let le = ap (count c.id) (listed_workspace ms c.monitor c.workspace ws e) in
    let eq = contains-eq-count ws.windows c.id in ground (arith, le, eq, h)

pub managed_if_tiled : (k : Kind) → is_tiled k ≡ true → is_managed_kind k ≡ true
managed_if_tiled k h = ground arith

-- The counts at one workspace: the window leaves the one it stands at and comes to another.
pub move_counts :
    (p q p' q' t s : Bool) (old left target new before mid after : ℕ)
    → t ≡ true
    → one s ≤ old
    → left ≡ old - one s
    → new ≡ target + one s
    → mid + (if p && q then old else 0) ≡ before + (if p && q then left else 0)
    → after + (if p' && q' then target else 0) ≡ mid + (if p' && q' then new else 0)
    → after + one (t && s && p && q) ≡ before + one (t && s && p' && q')
move_counts p q p' q' t s old left target new before mid after ht h1 h2 h3 h4 h5 = ground arith
