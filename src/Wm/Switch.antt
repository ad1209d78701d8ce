-- ===== src/Wm/Switch.antt =====
-- WindowManager::apply_workspace_switch of src/lwm/wm_workspace.cpp, with sync_client_urgency_state
-- of the window manager. Whether the WM_HINTS of a window say that it is urgent is an argument;
-- `none` is a window without hints.
pub mod Lands
pub mod Stays
use lwm.Base.{
  ℕ, Bool, true, false, not, ◌&&◌, ◌||◌, Option, none, some, ◌>>=◌, List, [], ◌∷◌, map, set,
  get_elem?, ◌==◌, if◌then◌else◌,
}
use lwm.Types.{Client, Monitor}
use lwm.Types.Urgency.{active, has, wm_initiated, app}
use lwm.Policy.Workspace.{WorkspaceSwitchResult, validate_workspace_switch}
use lwm.Layout.Tree.{DoubleOps}
use lwm.Layout.Arrange.{LayoutSettings}
use lwm.Wm.State.{WindowManager}
use lwm.Wm.Rearrange.{finalize_visibility_on_monitor}

-- Whether the WM_HINTS are written: hints_urgent != enabled, or there are none and it is enabled.
abbrev pub writes_hints : Option Bool → Bool → Bool
writes_hints none enabled = enabled
writes_hints (some true) enabled = not enabled
writes_hints (some false) enabled = enabled

-- What sync_client_urgency_state changes in the client.
unfoldable pub sync_client_urgency_state : (ℕ → Option Bool) → Client → Client
sync_client_urgency_state hints c =
    let enabled = active c.urgency in
    let arm_echo = enabled && has c.urgency wm_initiated && not (has c.urgency app) in
    record c {
      ignore_next_wm_hints_urgency_echo =
          if writes_hints (hints c.id) enabled && arm_echo
          then true
          else if enabled
          then c.ignore_next_wm_hints_urgency_echo
          else false;
    }

-- The body of the loop over the clients.
unfoldable pub sync_urgency : (ℕ → Option Bool) → ℕ → Client → Client
sync_urgency hints active_window c =
    if not (active c.urgency) || c.id == active_window then c else sync_client_urgency_state hints c

unfoldable pub with_switch : WindowManager → ℕ → Monitor → WorkspaceSwitchResult → WindowManager
with_switch wm monitor_idx m r = record wm {
  monitors =
      set wm.monitors monitor_idx
        (record m { previous_workspace = r.old_workspace; current_workspace = r.new_workspace });
}

module _ (ops : DoubleOps) (settings : LayoutSettings) (hints : ℕ → Option Bool) where
  -- What follows the guards.
  unfoldable pub switch_to :
      WindowManager → ℕ → Monitor → WorkspaceSwitchResult → Option (WindowManager × Bool)
  switch_to wm monitor_idx m r =
      finalize_visibility_on_monitor ops settings (with_switch wm monitor_idx m r) monitor_idx 0
      >>= (λ wm'.
          some
            (record wm' { clients = map (sync_urgency hints wm'.active_window) wm'.clients }, true))

  unfoldable pub apply_workspace_switch : WindowManager → ℕ → ℕ → Option (WindowManager × Bool)
  apply_workspace_switch wm monitor_idx target_workspace =
      elim (get_elem? wm.monitors monitor_idx) [
        | none ↦ some (wm, false)
        | some m ↦ elim (validate_workspace_switch m target_workspace) [
          | none ↦ some (wm, false)
          | some r ↦ switch_to wm monitor_idx m r
        ]
      ]
