-- ===== src/Wm/Place.antt =====
-- The operations of src/lwm/wm.cpp that put a window on a workspace: assign_window_workspace,
-- add_tiled_to_workspace, remove_tiled_from_workspace, finalize_move_visibility and the two moves
-- between workspaces. A `Client&` is the window's id, and the client is looked up where the code
-- reads it. `none` is undefined behaviour: an index out of range or no such client.
pub mod Stays
pub mod Floats
pub mod Lands
pub mod Counts
use lwm.Base.{
  ℕ, suc, zero, Bool, true, false, not, ◌&&◌, ◌||◌, Option, none, some, ◌>>=◌, value_or, has_value,
  List, [], ◌∷◌, ◌++◌, length, get_elem?, set, erase_first, leb, ltb, ◌==◌, if◌then◌else◌, min,
}
use lwm.Types.{
  Client, Kind, Geometry, TilingState, tiled_state, floating_state, Monitor, Workspace, has_window,
  working_area,
}
use lwm.Policy.Workspace.{
  remove_tiled_window, remove_from_focus_history, fixup_workspace_focus, set_workspace_focus,
}
use lwm.Floating.{place_floating}
use lwm.Layout.Tree.{DoubleOps}
use lwm.Layout.Arrange.{LayoutSettings}
use lwm.Wm.State.{WindowManager, get_client, is_floating, should_be_visible}
use lwm.Wm.Reconcile.{
  apply_floating_geometry, apply_maximized_geometry, apply_fullscreen_if_needed,
  reconcile_visibility_for_monitor,
}
use lwm.Wm.Rearrange.{update, change, rearrange_monitor}

abbrev pub is_tiled : Kind → Bool
is_tiled Kind.tiled = true
is_tiled Kind.floating = false
is_tiled Kind.dock = false
is_tiled Kind.desktop = false

-- monitor_idx < monitors_.size() and workspace_idx < monitors_[monitor_idx].workspaces.size()
unfoldable pub has_place : List Monitor → ℕ → ℕ → Bool
has_place monitors monitor_idx workspace_idx = elim (get_elem? monitors monitor_idx) [
  | none ↦ false
  | some m ↦ ltb workspace_idx (length m.workspaces)
]

abbrev pub window_is_iconic : WindowManager → ℕ → Bool
window_is_iconic wm w = elim (get_client wm w) [ none ↦ false | some c ↦ c.iconic ]

-- monitors_[monitor_idx].workspaces[workspace_idx]
unfoldable pub workspace_at : List Monitor → ℕ → ℕ → Option Workspace
workspace_at monitors monitor_idx workspace_idx = do
  m ← get_elem? monitors monitor_idx
  get_elem? m.workspaces workspace_idx

-- An assignment to that workspace.
unfoldable pub set_workspace : List Monitor → ℕ → ℕ → Workspace → List Monitor
set_workspace monitors monitor_idx workspace_idx ws = elim (get_elem? monitors monitor_idx) [
  | none ↦ monitors
  | some m ↦ set monitors monitor_idx (record m { workspaces = set m.workspaces workspace_idx ws })
]

abbrev pub with_workspace : WindowManager → ℕ → ℕ → Workspace → WindowManager
with_workspace wm monitor_idx workspace_idx ws = record wm {
  monitors = set_workspace wm.monitors monitor_idx workspace_idx ws;
}

abbrev pub placed_at : ℕ → ℕ → Client → Client
placed_at monitor_idx workspace_idx c = record c {
  monitor = monitor_idx;
  workspace = workspace_idx;
}

unfoldable pub assign_window_workspace : WindowManager → ℕ → ℕ → ℕ → WindowManager
assign_window_workspace wm window monitor_idx workspace_idx =
    if not (has_place wm.monitors monitor_idx workspace_idx)
    then wm
    else change (placed_at monitor_idx workspace_idx) window wm

unfoldable pub add_tiled_to_workspace : WindowManager → ℕ → ℕ → ℕ → WindowManager
add_tiled_to_workspace wm window monitor_idx workspace_idx =
    elim (workspace_at wm.monitors monitor_idx workspace_idx) [
      | none ↦ wm
      | some ws ↦
          assign_window_workspace
            (with_workspace wm monitor_idx workspace_idx
              (record ws { windows = ws.windows ++ window ∷ [] }))
            window monitor_idx workspace_idx
    ]

unfoldable pub remove_tiled_from_workspace : WindowManager → ℕ → ℕ → ℕ → WindowManager
remove_tiled_from_workspace wm window monitor_idx workspace_idx =
    elim (workspace_at wm.monitors monitor_idx workspace_idx) [
      | none ↦ wm
      | some ws ↦
          with_workspace wm monitor_idx workspace_idx
            (remove_tiled_window ws window (window_is_iconic wm)).0
    ]

-- v.insert(v.begin() + i, x) for an i up to the size.
abbrev pub insert {ℓ} : {A : Type ℓ} → List A → ℕ → A → List A
insert [] i x = x ∷ []
insert (y ∷ ys) zero x = x ∷ y ∷ ys
insert (y ∷ ys) (suc i) x = y ∷ insert ys i x

-- The source workspace without the window.
unfoldable pub source_without : Workspace → ℕ → Bool → (ℕ → Bool) → Workspace
source_without ws window same_workspace is_iconic =
    let erased =
      remove_from_focus_history (record ws { windows = erase_first ws.windows window }) window in
    if same_workspace then erased else fixup_workspace_focus erased window is_iconic

-- The target workspace with the window at the index, or at its end.
unfoldable pub target_with : Workspace → ℕ → Option ℕ → Workspace
target_with ws window insert_index = record ws {
  windows =
      insert ws.windows (min (value_or insert_index (length ws.windows)) (length ws.windows))
        window;
}

-- A change of a client that can fail.
unfoldable pub try_change : (Client → Option Client) → ℕ → WindowManager → Option WindowManager
try_change f window wm = do
  c ← get_client wm window
  d ← f c
  some (change (λ (c : Client). d) window wm)

-- What apply_visible_floating_geometry changes in the client.
unfoldable pub visible_floating_geometry : WindowManager → Client → Option Client
visible_floating_geometry wm c =
    if not (is_floating c.kind) || c.hidden || not (should_be_visible wm c)
    then some c
    else if c.fullscreen
    then some (apply_fullscreen_if_needed wm c)
    else if c.maximized_horz || c.maximized_vert
    then apply_maximized_geometry wm c
    else apply_floating_geometry wm c

unfoldable pub apply_visible_floating_geometry : WindowManager → ℕ → Option WindowManager
apply_visible_floating_geometry wm window = try_change (visible_floating_geometry wm) window wm

-- The geometry of a floating window that changes its monitor, on the work area of the target.
unfoldable pub placed_on : Monitor → TilingState → Option TilingState
placed_on m (tiled_state prior) = none
placed_on m (floating_state g saved) =
    some (floating_state (place_floating (working_area m) g.width g.height none) saved)

unfoldable pub place_on_monitor : WindowManager → ℕ → ℕ → Option WindowManager
place_on_monitor wm window target_monitor = do
  m ← get_elem? wm.monitors target_monitor
  try_change
      (λ (c : Client). placed_on m c.tiling_state >>= (λ s. some (record c { tiling_state = s })))
      window wm

module _ (ops : DoubleOps) (settings : LayoutSettings) where
  -- The second half of finalize_move_visibility.
  unfoldable pub rearrange_both : ℕ → ℕ → WindowManager → Option WindowManager
  rearrange_both source_monitor target_monitor wm =
      rearrange_monitor ops settings wm source_monitor false >>= (λ wm'.
        if target_monitor == source_monitor
        then some wm'
        else rearrange_monitor ops settings wm' target_monitor false)

  unfoldable pub finalize_move_visibility : WindowManager → ℕ → ℕ → Option WindowManager
  finalize_move_visibility wm source_monitor target_monitor =
      let count = length wm.monitors in
      if leb count source_monitor || leb count target_monitor
      then some wm
      else reconcile_visibility_for_monitor wm source_monitor 0
        >>= (λ wm'.
            if target_monitor == source_monitor
            then some wm'
            else reconcile_visibility_for_monitor wm' target_monitor 0)
        >>= rearrange_both source_monitor target_monitor

  -- What follows the removal from the source workspace.
  unfoldable pub add_moved : WindowManager → ℕ → ℕ → ℕ → Option ℕ → Option WindowManager
  add_moved wm window target_monitor target_workspace insert_index = do
    let wm' = assign_window_workspace wm window target_monitor target_workspace
    target ← workspace_at wm'.monitors target_monitor target_workspace
    some (
        with_workspace wm' target_monitor target_workspace (target_with target window insert_index))

  -- What follows the guards, with the source workspace.
  unfoldable pub move_tiled :
      WindowManager → Client → ℕ → ℕ → Option ℕ → Workspace → Option (WindowManager × Bool)
  move_tiled wm c target_monitor target_workspace insert_index source =
      let same_workspace = c.monitor == target_monitor && c.workspace == target_workspace in
      let left = source_without source c.id same_workspace (window_is_iconic wm) in
      if not (has_window source c.id)
      then some (wm, false)
      else add_moved (with_workspace wm c.monitor c.workspace left) c.id target_monitor
          target_workspace insert_index
        >>= (λ wm'. finalize_move_visibility wm' c.monitor target_monitor)
        >>= (λ wm'. some (wm', true))

  unfoldable pub move_tiled_client :
      WindowManager → ℕ → ℕ → Option ℕ → Client → Option (WindowManager × Bool)
  move_tiled_client wm target_monitor target_workspace insert_index c =
      if not (is_tiled c.kind)
      then some (wm, false)
      else if not (has_place wm.monitors target_monitor target_workspace)
      then some (wm, false)
      else if c.monitor == target_monitor
          && c.workspace == target_workspace
          && not (has_value insert_index)
      then some (wm, true)
      else workspace_at wm.monitors c.monitor c.workspace
        >>= move_tiled wm c target_monitor target_workspace insert_index

  unfoldable pub move_tiled_client_to_workspace :
      WindowManager → ℕ → ℕ → ℕ → Option ℕ → Option (WindowManager × Bool)
  move_tiled_client_to_workspace wm window target_monitor target_workspace insert_index =
      get_client wm window >>= move_tiled_client wm target_monitor target_workspace insert_index

  -- What follows the guards.
  unfoldable pub move_floating :
      WindowManager → Client → ℕ → ℕ → Bool → Option (WindowManager × Bool)
  move_floating wm c target_monitor target_workspace place_on_monitor_change =
      (if not (c.monitor == target_monitor) && place_on_monitor_change
        then place_on_monitor wm c.id target_monitor
        else some wm)
      >>= (λ wm'.
          finalize_move_visibility
            (assign_window_workspace wm' c.id target_monitor target_workspace) c.monitor
            target_monitor)
      >>= (λ wm'. apply_visible_floating_geometry wm' c.id)
      >>= (λ wm'. some (wm', true))

  unfoldable pub move_floating_client :
      WindowManager → ℕ → ℕ → Bool → Client → Option (WindowManager × Bool)
  move_floating_client wm target_monitor target_workspace place_on_monitor_change c =
      if not (is_floating c.kind)
      then some (wm, false)
      else if not (has_place wm.monitors target_monitor target_workspace)
      then some (wm, false)
      else if c.monitor == target_monitor && c.workspace == target_workspace
      then some (wm, true)
      else move_floating wm c target_monitor target_workspace place_on_monitor_change

  unfoldable pub move_floating_client_to_workspace :
      WindowManager → ℕ → ℕ → ℕ → Bool → Option (WindowManager × Bool)
  move_floating_client_to_workspace wm window target_monitor target_workspace
        place_on_monitor_change =
      get_client wm window
      >>= move_floating_client wm target_monitor target_workspace place_on_monitor_change
