-- ===== src/Policy/Workspace.antt =====
-- namespace workspace_policy of src/lwm/core/policy.hpp: switching workspaces, the focus history
-- of a workspace, and taking tiled windows out of a workspace or to another one.
pub mod Invariant
pub mod History
pub mod Remove
pub mod Transfer
pub mod Move
pub mod Switch
mod Tests
use mathlib.Core.List.{tail}
use lwm.Base.{
  ℕ, Bool, true, false, not, ◌&&◌, Option, none, some, List, [], ◌∷◌, ◌++◌, ltb, leb, ◌==◌,
  if◌then◌else◌, length, get_elem?, set, contains, erase_first, erase_all, find_last,
}
use lwm.Types.{Workspace, Monitor, xcb_none, has_window, current}

pub record WorkspaceSwitchResult : Type 0 where
  pub old_workspace : ℕ
  pub new_workspace : ℕ

unfoldable pub validate_workspace_switch : Monitor → ℕ → Option WorkspaceSwitchResult
validate_workspace_switch monitor target_ws =
    let workspace_count = length monitor.workspaces in
    if workspace_count == 0
    then none
    else if leb workspace_count target_ws
    then none
    else if target_ws == monitor.current_workspace
    then none
    else some (record { old_workspace = monitor.current_workspace; new_workspace = target_ws })

abbrev pub focus_history_max : ℕ
focus_history_max = 16

-- Drops the front where the history is longer than its limit.
abbrev pub trim : List ℕ → List ℕ
trim h = if ltb focus_history_max (length h) then tail h else h

unfoldable pub push_focus_history : Workspace → ℕ → Workspace
push_focus_history ws window =
    if window == xcb_none
    then ws
    else record ws { focus_history = trim (erase_all ws.focus_history window ++ window ∷ []) }

unfoldable pub remove_from_focus_history : Workspace → ℕ → Workspace
remove_from_focus_history ws window = record ws {
  focus_history = erase_all ws.focus_history window;
}

unfoldable pub set_workspace_focus : Workspace → ℕ → Workspace
set_workspace_focus ws window = push_focus_history (record ws { focused_window = window }) window

-- The test of the loop over the focus history.
abbrev pub is_heir : Workspace → ℕ → (ℕ → Bool) → ℕ → Bool
is_heir ws removed is_iconic w = not (w == removed) && has_window ws w && not (is_iconic w)

-- The window that inherits the focus: the most recent one that is left, or else the last one.
unfoldable pub heir : Workspace → ℕ → (ℕ → Bool) → Option ℕ
heir ws removed is_iconic = elim (find_last (is_heir ws removed is_iconic) ws.focus_history) [
  | some target ↦ some target
  | none ↦ find_last (λ w. not (is_iconic w)) ws.windows
]

unfoldable pub fixup_workspace_focus : Workspace → ℕ → (ℕ → Bool) → Workspace
fixup_workspace_focus ws removed is_iconic =
    if not (ws.focused_window == removed) then ws else elim (heir ws removed is_iconic) [
      | some target ↦ set_workspace_focus (record ws { focused_window = xcb_none }) target
      | none ↦ record ws { focused_window = xcb_none }
    ]

unfoldable pub remove_tiled_window : Workspace → ℕ → (ℕ → Bool) → Workspace × Bool
remove_tiled_window workspace window is_iconic =
    if not (has_window workspace window) then (workspace, false) else (
      fixup_workspace_focus
          (remove_from_focus_history
            (record workspace { windows = erase_first workspace.windows window }) window)
          window is_iconic,
      true,
    )

-- target.windows.push_back(window); set_workspace_focus(target, window)
unfoldable pub receive_tiled_window : Workspace → ℕ → Workspace
receive_tiled_window target window =
    set_workspace_focus (record target { windows = target.windows ++ window ∷ [] }) window

-- What `move_tiled_window` does once its guards have passed; `none` is an index out of range,
-- which is undefined behaviour in the code.
unfoldable pub transfer : Monitor → ℕ → ℕ → Workspace → Workspace × Bool → Option (Monitor × Bool)
transfer monitor window target_ws target (source, false) = some (monitor, false)
transfer monitor window target_ws target (source, true) = some (
  record monitor {
    workspaces =
        set (set monitor.workspaces monitor.current_workspace source) target_ws
          (receive_tiled_window target window);
  },
  true,
)

unfoldable pub move_tiled_window : Monitor → ℕ → ℕ → (ℕ → Bool) → Option (Monitor × Bool)
move_tiled_window monitor window target_ws is_iconic =
    let workspace_count = length monitor.workspaces in
    if workspace_count == 0
    then some (monitor, false)
    else if leb workspace_count target_ws
    then some (monitor, false)
    else if target_ws == monitor.current_workspace
    then some (monitor, false)
    else elim (current monitor) [
      | none ↦ none
      | some source ↦ elim (get_elem? monitor.workspaces target_ws) [
        | none ↦ none
        | some target ↦
            transfer monitor window target_ws target (remove_tiled_window source window is_iconic)
      ]
    ]
