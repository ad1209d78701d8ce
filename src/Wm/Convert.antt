-- ===== src/Wm/Convert.antt =====
-- A window becomes floating or tiled: convert_window_to_floating, convert_window_to_tiled and
-- toggle_window_float of src/lwm/wm.cpp. The geometry that the X server has for a window
-- (current_window_geometry) is an argument. `none` is undefined behaviour or the exception of
-- std::get on the other state.
pub mod Back
pub mod Stays
pub mod Tiles
pub mod Toggles
pub mod Returns
pub mod Lists
use lwm.Base.{
  ℕ, suc, zero, ◌+◌, ◌-◌, ◌%◌, ◌^◌, Bool, true, false, not, ◌&&◌, ◌||◌, Option, none, some, ◌>>=◌,
  value_or, has_value, List, [], ◌∷◌, ◌++◌, length, get_elem?, leb, ltb, ◌==◌, if◌then◌else◌, min,
}
use lwm.Base.Int.{ℤ, negsuc, leb_ℤ}
use lwm.Types.{
  Client, Kind, Geometry, SavedTilePos, TilingState, tiled_state, floating_state, floating_geometry,
  set_tiled_state, set_floating_state, Monitor, Workspace, WindowLayer, working_area,
}
use lwm.Floating.{place_floating}
use lwm.Layout.Tree.{DoubleOps}
use lwm.Layout.Arrange.{LayoutSettings}
use lwm.Wm.State.{
  WindowManager, get_client, is_floating, is_managed_kind, on_overlay, should_be_visible,
}
use lwm.Wm.Reconcile.{apply_floating_geometry, apply_maximized_geometry}
use lwm.Wm.Rearrange.{change, finalize_visibility_on_monitor}
use lwm.Wm.Place.{
  is_tiled, workspace_at, with_workspace, add_tiled_to_workspace, remove_tiled_from_workspace,
  try_change,
}
use lwm.Wm.Activate.{focus_fuel, focus_any_window}

-- std::get<TiledState>(…).prior_floating
abbrev pub prior_floating_geometry : TilingState → Option (Option Geometry)
prior_floating_geometry (tiled_state prior) = some prior
prior_floating_geometry (floating_state g saved) = none

-- std::get<FloatingState>(…).saved_tiled_pos
abbrev pub saved_tiled_pos : TilingState → Option (Option SavedTilePos)
saved_tiled_pos (tiled_state prior) = none
saved_tiled_pos (floating_state g saved) = some saved

-- std::distance(begin, find(w)), where the window is in the list.
abbrev pub index_of : List ℕ → ℕ → Option ℕ
index_of [] w = none
index_of (x ∷ xs) w = if x == w then some 0 else index_of xs w >>= (λ i. some (suc i))

-- The position of the window among the tiled windows.
unfoldable pub position_of : Workspace → ℕ → ℕ → ℕ → Option SavedTilePos
position_of ws window monitor_idx workspace_idx =
    index_of ws.windows window
    >>= (λ i. some (record { index = i; monitor = monitor_idx; workspace = workspace_idx }))

-- OFF_SCREEN_X / 2
abbrev pub half_off_screen_x : ℤ
half_off_screen_x = negsuc 9999

-- The geometry of the floating window.
unfoldable pub floating_geometry_for : Monitor → Option Geometry → Geometry → Bool → Geometry
floating_geometry_for m prior current hidden =
    let g = value_or prior current in
    if not (has_value prior) && (hidden || leb_ℤ g.x half_off_screen_x)
    then place_floating (working_area m) g.width g.height none
    else g

abbrev pub as_floating : ℕ → Geometry → Option SavedTilePos → Client → Client
as_floating mru g saved c =
    set_floating_state (record c { mru_order = mru; suppress_next_configure_request = false }) g
      saved

-- What follows the guards.
unfoldable pub float_client :
    WindowManager → (ℕ → Geometry) → Client → Monitor → Option WindowManager
float_client wm current_window_geometry c m = prior_floating_geometry c.tiling_state >>= (λ prior.
    workspace_at wm.monitors c.monitor c.workspace >>= (λ ws.
      some
        (record (change
          (as_floating wm.next_mru_order
            (floating_geometry_for m prior (current_window_geometry c.id) c.hidden)
            (position_of ws c.id c.monitor c.workspace))
          c.id (remove_tiled_from_workspace wm c.id c.monitor c.workspace)) {
            next_mru_order = (wm.next_mru_order + 1) % 2 ^ 64;
          })))

unfoldable pub convert_window_to_floating :
    WindowManager → (ℕ → Geometry) → ℕ → Option WindowManager
convert_window_to_floating wm current_window_geometry window = elim (get_client wm window) [
  | none ↦ some wm
  | some c ↦ if not (is_tiled c.kind) then some wm else elim (get_elem? wm.monitors c.monitor) [
    | none ↦ some wm
    | some m ↦ float_client wm current_window_geometry c m
  ]
]

-- std::min(workspace, size - 1), where a size_t of 0 less 1 is the greatest one.
abbrev pub within : ℕ → ℕ → ℕ
within workspace size = if size == 0 then workspace else min workspace (size - 1)

-- std::rotate(begin + i, end - 1, end): the last element comes to the index `i`.
abbrev pub to_front : List ℕ → List ℕ → List ℕ
to_front [] passed = []
to_front (x ∷ []) passed = x ∷ passed
to_front (x ∷ y ∷ ys) passed = to_front (y ∷ ys) (passed ++ x ∷ [])

abbrev pub rotate_last : List ℕ → ℕ → List ℕ
rotate_last [] i = []
rotate_last (x ∷ xs) zero = to_front (x ∷ xs) []
rotate_last (x ∷ xs) (suc i) = x ∷ rotate_last xs i

abbrev pub is_saved_here : Option SavedTilePos → ℕ → ℕ → Bool
is_saved_here none monitor_idx workspace_idx = false
is_saved_here (some p) monitor_idx workspace_idx =
    p.monitor == monitor_idx && p.workspace == workspace_idx

abbrev pub saved_index : Option SavedTilePos → ℕ
saved_index none = 0
saved_index (some p) = p.index

-- The windows with the last one at its saved place.
unfoldable pub restore_position : WindowManager → Option SavedTilePos → ℕ → ℕ → WindowManager
restore_position wm saved monitor_idx workspace_idx =
    elim (workspace_at wm.monitors monitor_idx workspace_idx) [
      | none ↦ wm
      | some ws ↦
          if is_saved_here saved monitor_idx workspace_idx
            && ltb (saved_index saved + 1) (length ws.windows)
          then with_workspace wm monitor_idx workspace_idx
              (record ws { windows = rotate_last ws.windows (saved_index saved) })
          else wm
    ]

abbrev pub as_tiled : Option Geometry → Client → Client
as_tiled prior c = record (set_tiled_state c prior) { suppress_next_configure_request = false }

-- What follows the guards.
unfoldable pub tile_client :
    WindowManager → Option Geometry → Client → Monitor → Option WindowManager
tile_client wm prior_floating c m = saved_tiled_pos c.tiling_state >>= (λ saved.
    let workspace_idx = within c.workspace (length m.workspaces) in
    some (
      restore_position
        (add_tiled_to_workspace (change (as_tiled prior_floating) c.id wm) c.id c.monitor
          workspace_idx)
        saved c.monitor workspace_idx))

unfoldable pub convert_window_to_tiled : WindowManager → ℕ → Option Geometry → Option WindowManager
convert_window_to_tiled wm window prior_floating = elim (get_client wm window) [
  | none ↦ some wm
  | some c ↦ if not (is_floating c.kind) then some wm else elim (get_elem? wm.monitors c.monitor) [
    | none ↦ some wm
    | some m ↦ tile_client wm prior_floating c m
  ]
]

abbrev pub without_maximized : Client → Client
without_maximized c =
    if c.maximized_horz || c.maximized_vert
    then record c { maximized_horz = false; maximized_vert = false; maximize_restore = none }
    else c

-- The geometry of a window that has become floating and shows.
unfoldable pub toggled_geometry : WindowManager → Client → Option Client
toggled_geometry wm c =
    if is_floating c.kind && should_be_visible wm c && not c.hidden && not c.fullscreen
    then (if c.maximized_horz || c.maximized_vert
        then apply_maximized_geometry wm c
        else apply_floating_geometry wm c)
    else some c

unfoldable pub show_toggled : WindowManager → ℕ → Option WindowManager
show_toggled wm window = elim (get_client wm window) [
  | none ↦ some wm
  | some c ↦ try_change (toggled_geometry wm) window wm
]

module _ (ops : DoubleOps) (settings : LayoutSettings) (hints : ℕ → Option Bool)
    (current_window_geometry : ℕ → Geometry) where
  -- The conversion in toggle_window_float.
  unfoldable pub toggle_kind : WindowManager → Client → Option WindowManager
  toggle_kind wm c =
      if is_tiled c.kind
      then convert_window_to_floating wm current_window_geometry c.id
      else floating_geometry c.tiling_state >>= (λ g.
        convert_window_to_tiled (change without_maximized c.id wm) c.id
          (some (value_or c.maximize_restore g)))

  unfoldable pub toggle_client : WindowManager → Client → Option WindowManager
  toggle_client wm c =
      toggle_kind wm c
      >>= (λ wm'. finalize_visibility_on_monitor ops settings wm' c.monitor 0)
      >>= (λ wm'. if is_tiled c.kind then show_toggled wm' c.id else some wm')
      >>= (λ wm'. focus_any_window ops settings hints focus_fuel wm' c.id true 0)

  unfoldable pub toggle_window_float : WindowManager → ℕ → Option WindowManager
  toggle_window_float wm window = elim (get_client wm window) [
    | none ↦ some wm
    | some c ↦
        if c.fullscreen || c.iconic || on_overlay c.layer
        then some wm
        else if not (is_managed_kind c.kind)
        then some wm
        else if wm.showing_desktop
        then some wm
        else toggle_client wm c
  ]
