-- ===== src/Wm/Reconcile.antt =====
-- WindowManager::reconcile_visibility_for_monitor of src/lwm/wm.cpp, with what it calls there and
-- in src/lwm/wm_floating.cpp: the owner of a monitor is chosen and its windows are shown or moved
-- off the screen. `none` stands for the exception of std::get on a client that is floating and
-- holds a tiled state. The geometry sent to the X server is not part of the state.
pub mod Keeps
pub mod Shows
pub mod Covered
pub mod Showing
use lwm.Base.{
  ℕ, suc, ◌+◌, ◌%◌, ◌^◌, Bool, true, false, not, ◌&&◌, ◌||◌, Option, none, some, ◌>>=◌, value_or,
  List, [], ◌∷◌, map, length, get_elem?, set, leb, ltb, ◌==◌, if◌then◌else◌,
}
use lwm.Base.Int.{pos}
use lwm.Types.{
  Client, TilingState, tiled_state, floating_state, Geometry, Monitor, geometry, working_area,
}
use lwm.Wm.State.{
  WindowManager, is_managed_kind, is_floating, on_overlay, should_be_visible,
  is_suppressed_by_fullscreen, select_fullscreen_owner_for_monitor,
}

unfoldable pub send_sync_request : WindowManager → Client → Client
send_sync_request wm c =
    if not wm.sync_supported || c.sync_counter == 0
    then c
    else record c { sync_value = (c.sync_value + 1) % 2 ^ 64 }

unfoldable pub overlay_geometry_for_client : WindowManager → Client → Geometry
overlay_geometry_for_client wm c = elim (get_elem? wm.monitors c.monitor) [
  | some m ↦ geometry m
  | none ↦ elim (get_elem? wm.monitors 0) [
    | some m ↦ geometry m
    | none ↦ record { x = pos 0; y = pos 0; width = 0; height = 0 }
  ]
]

unfoldable pub apply_floating_geometry : WindowManager → Client → Option Client
apply_floating_geometry wm c = elim c.tiling_state [
  | tiled_state prior ↦ none
  | floating_state g saved ↦ some (
      send_sync_request wm (
        if on_overlay c.layer
        then record c { tiling_state = floating_state (overlay_geometry_for_client wm c) saved }
        else c))
]

-- The geometry `base` over the whole work area, on the axes that are maximized.
abbrev pub maximized : Bool → Bool → Geometry → Geometry → Geometry
maximized horz vert area base = record {
  x = if horz then area.x else base.x;
  y = if vert then area.y else base.y;
  width = if horz then area.width else base.width;
  height = if vert then area.height else base.height;
}

-- What apply_maximized_geometry does on the monitor of the client.
unfoldable pub maximize_on : WindowManager → Monitor → Client → Option Client
maximize_on wm m c = elim c.tiling_state [
  | tiled_state prior ↦ none
  | floating_state g saved ↦
      let base = value_or c.maximize_restore g in
      let placed = record c {
        tiling_state =
            floating_state (maximized c.maximized_horz c.maximized_vert (working_area m) base)
              saved;
      } in
      if should_be_visible wm placed && not placed.hidden
      then apply_floating_geometry wm placed
      else some placed
]

unfoldable pub apply_maximized_geometry : WindowManager → Client → Option Client
apply_maximized_geometry wm c =
    if not (is_floating c.kind)
    then some c
    else elim (get_elem? wm.monitors c.monitor) [ none ↦ some c | some m ↦ maximize_on wm m c ]

-- The last guard of apply_fullscreen_if_needed.
abbrev pub is_current : WindowManager → Client → Bool
is_current wm c = elim (get_elem? wm.monitors c.monitor) [
  | none ↦ false
  | some m ↦ c.sticky || c.workspace == m.current_workspace
]

unfoldable pub apply_fullscreen_if_needed : WindowManager → Client → Client
apply_fullscreen_if_needed wm c =
    if c.fullscreen && not (is_suppressed_by_fullscreen wm c) && not c.iconic && is_current wm c
    then send_sync_request wm c
    else c

-- What follows show_window in the loop.
unfoldable pub place_shown : WindowManager → Client → Option Client
place_shown wm c =
    if not (is_floating c.kind)
    then some c
    else if c.fullscreen
    then some (apply_fullscreen_if_needed wm c)
    else if c.maximized_horz || c.maximized_vert
    then apply_maximized_geometry wm c
    else apply_floating_geometry wm c

abbrev pub should_show : WindowManager → Client → Bool
should_show wm c = should_be_visible wm c && not (is_suppressed_by_fullscreen wm c)

abbrev pub is_on : ℕ → Client → Bool
is_on monitor_idx c = is_managed_kind c.kind && c.monitor == monitor_idx

-- The body of the loop over the clients: show_window and hide_window set the flag `hidden`.
unfoldable pub reconcile_client : WindowManager → ℕ → Client → Option Client
reconcile_client wm monitor_idx c =
    if not (is_on monitor_idx c)
    then some c
    else if should_show wm c && c.hidden
    then place_shown wm (record c { hidden = false })
    else if not (should_show wm c) && not c.hidden
    then some (record c { hidden = true })
    else some c

-- The loop over the clients, each of which sees only itself and the monitors.
unfoldable pub reconcile_clients : WindowManager → ℕ → List Client → Option (List Client)
reconcile_clients wm monitor_idx [] = some []
reconcile_clients wm monitor_idx (c ∷ cs) = do
  c' ← reconcile_client wm monitor_idx c
  cs' ← reconcile_clients wm monitor_idx cs
  some (c' ∷ cs')

unfoldable pub with_owner : WindowManager → ℕ → ℕ → WindowManager
with_owner wm monitor_idx preferred_owner = elim (get_elem? wm.monitors monitor_idx) [
  | none ↦ wm
  | some m ↦ record wm {
    monitors = set wm.monitors monitor_idx (record m {
      fullscreen_owner = select_fullscreen_owner_for_monitor wm monitor_idx preferred_owner;
    });
  }
]

unfoldable pub reconcile_visibility_for_monitor : WindowManager → ℕ → ℕ → Option WindowManager
reconcile_visibility_for_monitor wm monitor_idx preferred_owner =
    if leb (length wm.monitors) monitor_idx then some wm else (do
      clients ← reconcile_clients (with_owner wm monitor_idx preferred_owner) monitor_idx wm.clients
      some (record (with_owner wm monitor_idx preferred_owner) { clients = clients }))
