-- ===== src/Wm/Convert/Stays.antt =====
-- On convert_window_to_floating and convert_window_to_tiled of src/lwm/wm.cpp: what
-- src/lwm/core/invariants.hpp asserts.
use mathlib.Core.Path.{subst}
use lwm.Base.{
  ℕ, ◌+◌, ◌-◌, ◌≤◌, ◌≡◌, refl, sym, ap, ◌∙◌, Bool, true, false, not, ◌&&◌, choose, Option, some,
  List, map, length, get_elem?, count, count-erase_first, contains, erase_first, ltb, ◌==◌,
  if◌then◌else◌, Option-cases, inl, inr, arith,
}
use lwm.Types.{
  Client, Kind, Geometry, SavedTilePos, TilingState, tiled_state, floating_state, Monitor,
  Workspace, set_floating_state,
}
use lwm.Policy.Workspace.{remove_tiled_window, remove_from_focus_history}
use lwm.Policy.Workspace.Remove.{fixup_windows}
use lwm.Wm.State.{WindowManager, get_client, is_floating, is_managed_kind}
use lwm.Wm.Reconcile.Keeps.{holds_floating}
use lwm.Wm.Place.{
  is_tiled, has_place, window_is_iconic, workspace_at, set_workspace, with_workspace,
  remove_tiled_from_workspace,
}
use lwm.Wm.Place.Counts.{has_place-workspace, get_client_id, one-le-count, listed_contains}
use lwm.Wm.Registry.{Entry, listed, IsRegistry}
use lwm.Wm.Registry.Changes.{one, Fits, found-IsInPlace, found_listed, IsRegistry-change}
use lwm.Wm.Registry.Sizes.{size, sizes-set_workspace, IsRegistry-set_workspace}
use lwm.Wm.Registry.Lists.{
  has_place-set_workspace, AllCurrent-set_workspace, count-set_workspace, length-set_workspace,
}
use lwm.Wm.Registry.Order.{Frame, InOrder, Fine}
use lwm.Wm.Registry.Fine.{InOrder-moved, fine}
use lwm.Wm.Convert.{
  position_of, floating_geometry_for, as_floating, float_client, convert_window_to_floating,
  rotate_last, is_saved_here, saved_index, restore_position,
}
use lwm.Wm.Convert.Back.{count-rotate_last}

-- The counts at one workspace: a window leaves it.
leave_counts :
    (p q t s : Bool) (old left before after : ℕ)
    → t ≡ true
    → one s ≤ old
    → left ≡ old - one s
    → after + (if p && q then old else 0) ≡ before + (if p && q then left else 0)
    → after + one (t && s && p && q) ≡ before
leave_counts p q t s old left before after ht h1 h2 h3 = ground arith

-- A window comes to it.
pub come_counts :
    (p q t s : Bool) (old new before after : ℕ)
    → t ≡ true
    → new ≡ old + one s
    → after + (if p && q then old else 0) ≡ before + (if p && q then new else 0)
    → after ≡ before + one (t && s && p && q)
come_counts p q t s old new before after ht h1 h2 = ground arith

pub managed : (k : Kind) → is_tiled k ≡ true → is_managed_kind k ≡ true
managed k h = ground arith

pub not_floating : (k : Kind) → is_tiled k ≡ true → is_floating k ≡ false
not_floating k h = ground arith

pub removed_windows :
    (ws : Workspace) (w : ℕ) (is_iconic : ℕ → Bool)
    → contains ws.windows w ≡ true
    → (remove_tiled_window ws w is_iconic).0.windows ≡ erase_first ws.windows w
unfolding remove_tiled_window remove_from_focus_history
removed_windows ws w is_iconic h = rw h (fixup_windows is_iconic _ w)

pub remove_is :
    (wm : WindowManager) (w i j : ℕ) (ws : Workspace)
    → workspace_at wm.monitors i j ≡ some ws
    → remove_tiled_from_workspace wm w i j
      ≡ with_workspace wm i j (remove_tiled_window ws w (window_is_iconic wm)).0
unfolding remove_tiled_from_workspace
remove_is wm w i j ws e = rw (e, remove_tiled_from_workspace) refl

module _ (n : Frame) where
  float-Fits :
      (wm : WindowManager) (c : Client) (ws new : Workspace) (d : Client)
      → InOrder n wm
      → is_tiled c.kind ≡ true
      → workspace_at wm.monitors c.monitor c.workspace ≡ some ws
      → contains ws.windows c.id ≡ true
      → new.windows ≡ erase_first ws.windows c.id
      → d.id ≡ c.id
      → (is_tiled d.kind ≡ false)
        × ((is_floating d.kind ≡ true) × (holds_floating d.tiling_state ≡ true))
      → has_place wm.monitors d.monitor d.workspace ≡ true
      → Fits c d wm.monitors (set_workspace wm.monitors c.monitor c.workspace new)
  float-Fits wm c ws new d h t e has windows id (not_tiled, (floats, holds)) p = record {
    id = id;
    in_place = (λ _. p, floats ∙ sym holds);
    places = has_place-set_workspace wm.monitors c.monitor c.workspace ws new e;
    currents =
        AllCurrent-set_workspace wm.monitors c.monitor c.workspace ws new e h.registered.currents;
    counted = λ i j v.
        let left =
          leave_counts (c.monitor == i) (c.workspace == j) (is_tiled c.kind) (c.id == v)
            (count v ws.windows) (count v new.windows) (count v (listed wm.monitors i j))
            (count v (listed (set_workspace wm.monitors c.monitor c.workspace new) i j)) t
            (one-le-count ws.windows c.id v has)
            (ap (count v) windows ∙ count-erase_first ws.windows c.id v)
            (count-set_workspace wm.monitors c.monitor c.workspace ws new e i j v) in
        rw not_tiled (omega (arith, left));
  }

  float_client-Fine :
      (wm : WindowManager) (geometries : ℕ → Geometry) (w : ℕ) (c : Client) (m : Monitor)
      → InOrder n wm
      → get_client wm w ≡ some c
      → is_tiled c.kind ≡ true
      → (s : TilingState) → c.tiling_state ≡ s
      → holds_floating s ≡ false
      → Fine n (float_client wm geometries c m)
  unfolding float_client get_client set_floating_state
  float_client-Fine wm geometries w c m h e t (floating_state g saved) is holds = cc
  float_client-Fine wm geometries w c m h e t (tiled_state prior) is holds =
      let self : get_client wm c.id ≡ some c =
        subst (λ u. get_client wm u ≡ some c) (sym (get_client_id wm w c e)) e in
      let place =
        (found-IsInPlace w wm.clients c wm.monitors e h.registered).0 (managed c.kind t) in
      let (ws, at) = has_place-workspace wm.monitors c.monitor c.workspace place in
      let has =
        listed_contains wm.monitors c ws at
          (found_listed w wm.clients c wm.monitors e t h.registered) in
      let new = (remove_tiled_window ws c.id (window_is_iconic wm)).0 in
      let f : Client → Client =
        as_floating wm.next_mru_order (floating_geometry_for m prior (geometries c.id) c.hidden)
          (position_of ws c.id c.monitor c.workspace) in
      let fits =
        float-Fits wm c ws new (f c) h t at has (removed_windows ws c.id (window_is_iconic wm) has)
          refl (refl, (refl, refl)) place in
      rw (is, float_client)
        (rw (at, remove_is wm c.id c.monitor c.workspace ws at)
          (fine _ (
            InOrder-moved f c.id c wm _ self refl
              (length-set_workspace wm.monitors c.monitor c.workspace new)
              (sizes-set_workspace wm.monitors c.monitor c.workspace new) refl
              (sym (managed c.kind t))
              (IsRegistry-change c.id wm.clients c f wm.monitors
                (set_workspace wm.monitors c.monitor c.workspace new) self fits h.registered)
              refl h)))

  pub convert_window_to_floating-Fine :
      (wm : WindowManager) (geometries : ℕ → Geometry) (w : ℕ)
      → InOrder n wm
      → Fine n (convert_window_to_floating wm geometries w)
  unfolding convert_window_to_floating get_client
  convert_window_to_floating-Fine wm geometries w h = elim (Option-cases (get_client wm w)) [
    | inl e ↦ rw (e, convert_window_to_floating) (fine wm h)
    | inr (c, e) ↦
        rw (e, convert_window_to_floating)
          (choose (Fine n) (not (is_tiled c.kind)) _ _ (λ _. fine wm h)
            (λ t. elim (Option-cases (get_elem? wm.monitors c.monitor)) [
              | inl out ↦ rw out (fine wm h)
              | inr (m, at) ↦
                  let tiled : is_tiled c.kind ≡ true = ground (arith, t) in
                  rw at (
                    float_client-Fine wm geometries w c m h e tiled c.tiling_state refl (
                      sym (found-IsInPlace w wm.clients c wm.monitors e h.registered).1
                      ∙ not_floating c.kind tiled))
            ]))
  ]

  pub restored_rest :
      (wm : WindowManager) (saved : Option SavedTilePos) (i j : ℕ)
      → ((restore_position wm saved i j).clients ≡ wm.clients)
        × ((restore_position wm saved i j).focused_monitor ≡ wm.focused_monitor)
  unfolding restore_position
  restored_rest wm saved i j = elim (Option-cases (workspace_at wm.monitors i j)) [
    | inl e ↦ rw (e, restore_position) (refl, refl)
    | inr (ws, e) ↦
        rw (e, restore_position)
          (choose
            (λ (x : WindowManager).
              (x.clients ≡ wm.clients) × (x.focused_monitor ≡ wm.focused_monitor))
            (is_saved_here saved i j && ltb (saved_index saved + 1) (length ws.windows)) _ wm
            (λ _. (refl, refl)) (λ _. (refl, refl)))
  ]

  -- What is listed where a window has been added at the end, and moved to a saved place.
  pub restored-IsRegistry :
      (es : List Entry) (wm : WindowManager) (saved : Option SavedTilePos) (i j : ℕ)
      → IsRegistry es wm.monitors
      → IsRegistry es (restore_position wm saved i j).monitors
        × ((length (restore_position wm saved i j).monitors ≡ length wm.monitors)
            × (map size (restore_position wm saved i j).monitors ≡ map size wm.monitors))
  unfolding restore_position
  restored-IsRegistry es wm saved i j r = elim (Option-cases (workspace_at wm.monitors i j)) [
    | inl e ↦ rw (e, restore_position) (r, (refl, refl))
    | inr (ws, e) ↦
        rw (e, restore_position)
          (choose
            (λ (x : WindowManager).
              IsRegistry es x.monitors
              × ((length x.monitors ≡ length wm.monitors)
                  × (map size x.monitors ≡ map size wm.monitors)))
            (is_saved_here saved i j && ltb (saved_index saved + 1) (length ws.windows)) _ wm
            (λ _.
              let new : Workspace = record ws {
                windows = rotate_last ws.windows (saved_index saved);
              } in
              (
                IsRegistry-set_workspace es wm.monitors i j ws new e
                    (λ v. count-rotate_last v ws.windows (saved_index saved)) r,
                (length-set_workspace wm.monitors i j new, sizes-set_workspace wm.monitors i j new),
              ))
            (λ _. (r, (refl, refl))))
  ]
