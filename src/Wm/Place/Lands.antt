-- ===== src/Wm/Place/Lands.antt =====
-- On move_tiled_client_to_workspace of src/lwm/wm.cpp: where the window is after it.
use mathlib.Core.Path.{subst}
use lwm.Base.{
  ℕ, ◌≡◌, refl, ap, ◌∙◌, Bool, true, not, ◌&&◌, choose, Option, some, ◌>>=◌, has_value, count, ◌==◌,
  arith,
}
use lwm.Types.{Client, Workspace, has_window}
use lwm.Layout.Tree.{DoubleOps}
use lwm.Layout.Arrange.{LayoutSettings}
use lwm.Wm.State.{WindowManager, get_client}
use lwm.Wm.Place.{
  is_tiled, has_place, window_is_iconic, workspace_at, placed_at, source_without, move_tiled,
  move_tiled_client, move_tiled_client_to_workspace,
}
use lwm.Wm.Place.Counts.{
  has_place-workspace, get_client_id, managed_if_tiled, source_windows, listed_contains,
}
use lwm.Wm.Place.Stays.{add_moved-placed, finalize_move_visibility-Keeps}
use lwm.Wm.Registry.{Entry, entry, listed, stands_at, IsRegistered}
use lwm.Wm.Registry.View.{IsRegistered-view, found_kept}
use lwm.Wm.Registry.Changes.{one, found, found-update, found-IsInPlace, found_listed}
use lwm.Wm.Registry.Unique.{tally-found}
use lwm.Wm.Registry.Order.{Frame, InOrder}

-- A result that says true, in which the window is listed once on the workspace, and on no other.
abbrev pub LandsAt : ℕ → ℕ → ℕ → Option (WindowManager × Bool) → Type 0
LandsAt w a b r =
    (wm' : WindowManager) × (r ≡ some (wm', true))
    × IsRegistered wm'
    × ((i j : ℕ) → count w (listed wm'.monitors i j) ≡ one (a == i && b == j))

-- Where the one client of a window stands, its window is listed.
entry_lands :
    (wm : WindowManager) (w a b : ℕ) (c : Client)
    → IsRegistered wm
    → get_client wm w ≡ some c
    → is_tiled c.kind ≡ true
    → c.monitor ≡ a
    → c.workspace ≡ b
    → (i j : ℕ) → count w (listed wm.monitors i j) ≡ one (a == i && b == j)
unfolding get_client
entry_lands wm w a b c r e t m ws i j =
    let id : (c.id == w) ≡ true = ground (arith, get_client_id wm w c e) in
    let stands : stands_at i j w (entry c) ≡ (a == i && b == j) = rw (t, id, m, ws) refl in
    r.counted i j w ∙ (tally-found i j w wm.clients c e (r.unique w) ∙ ap one stands)

module _ (ops : DoubleOps) (settings : LayoutSettings) (n : Frame) where
  move_tiled-LandsAt :
      (wm : WindowManager) (c : Client) (a b : ℕ) (insert_index : Option ℕ) (source : Workspace)
      → get_client wm c.id ≡ some c
      → InOrder n wm
      → is_tiled c.kind ≡ true
      → has_place wm.monitors a b ≡ true
      → workspace_at wm.monitors c.monitor c.workspace ≡ some source
      → has_window source c.id ≡ true
      → LandsAt c.id a b (move_tiled ops settings wm c a b insert_index source)
  unfolding move_tiled get_client
  move_tiled-LandsAt wm c a b insert_index source e r t p at has =
      let same = c.monitor == a && c.workspace == b in
      let left = source_without source c.id same (window_is_iconic wm) in
      let (wm1, is1, r1, moved) =
        add_moved-placed ops settings n wm c.id c a b insert_index source left e r t p at has
          (source_windows source c.id same (window_is_iconic wm)) in
      let e1 : get_client wm1 c.id ≡ some (placed_at a b c) =
        ap (found c.id) moved ∙ found-update (placed_at a b) c.id wm.clients c e refl in
      let (wm2, is2, k) =
        finalize_move_visibility-Keeps ops settings wm1 c.monitor a r1.registered in
      let (d, e2, kept) = found_kept wm1 wm2 c.id (placed_at a b c) k e1 in
      let r2 = IsRegistered-view wm1 wm2 k r1.registered in
      rw has (
        rw is1 (
          rw is2 (
            wm2,
            refl,
            r2,
            entry_lands wm2 c.id a b d r2 e2 (ap (λ (x : Entry). is_tiled x.kind) kept ∙ t)
                (ap (λ (x : Entry). x.monitor) kept) (ap (λ (x : Entry). x.workspace) kept),
          )))

  move_tiled_client-LandsAt :
      (wm : WindowManager) (c : Client) (a b : ℕ) (insert_index : Option ℕ)
      → get_client wm c.id ≡ some c
      → InOrder n wm
      → is_tiled c.kind ≡ true
      → has_place wm.monitors a b ≡ true
      → LandsAt c.id a b (move_tiled_client ops settings wm a b insert_index c)
  unfolding move_tiled_client get_client
  move_tiled_client-LandsAt wm c a b insert_index e r t p =
      let place = found-IsInPlace c.id wm.clients c wm.monitors e r.registered in
      let (source, at) =
        has_place-workspace wm.monitors c.monitor c.workspace
          (place.0 (managed_if_tiled c.kind t)) in
      let has =
        listed_contains wm.monitors c source at
          (found_listed c.id wm.clients c wm.monitors e t r.registered) in
      rw (t, p)
        (choose (LandsAt c.id a b)
          (c.monitor == a && c.workspace == b && not (has_value insert_index)) _ _
          (λ h. (
            wm,
            refl,
            r.registered,
            entry_lands wm c.id a b c r.registered e t (ground (arith, h)) (ground (arith, h)),
          ))
          (λ _. rw at (move_tiled-LandsAt wm c a b insert_index source e r t p at has)))

  -- A tiled window that is moved to a workspace of any monitor, at any index or at the end, where
  -- the clients and workspaces are as the code asserts: the move gives a state and says true. The
  -- window is then listed once on that workspace and on no other one.
  pub move_tiled_client_to_workspace-LandsAt :
      (wm : WindowManager) (w a b : ℕ) (insert_index : Option ℕ) (c : Client)
      → InOrder n wm
      → get_client wm w ≡ some c
      → is_tiled c.kind ≡ true
      → has_place wm.monitors a b ≡ true
      → LandsAt w a b (move_tiled_client_to_workspace ops settings wm w a b insert_index)
  unfolding move_tiled_client_to_workspace
  move_tiled_client_to_workspace-LandsAt wm w a b insert_index c r e t p =
      subst
        (λ u.
          get_client wm u ≡ some c
          → LandsAt u a b (get_client wm u >>= move_tiled_client ops settings wm a b insert_index))
        (get_client_id wm w c e)
        (λ f. rw f (move_tiled_client-LandsAt wm c a b insert_index f r t p)) e
