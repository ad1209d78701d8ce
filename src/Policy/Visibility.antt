-- ===== src/Policy/Visibility.antt =====
-- namespace visibility_policy of src/lwm/core/policy.hpp: which workspaces and windows show.
pub mod Laws
mod Tests
use lwm.Base.{ℕ, Bool, true, false, Option, none, some, List, get_elem?, ◌==◌, if◌then◌else◌}
use lwm.Types.{Monitor}

-- `none` is an index past the end of the monitors.
unfoldable pub is_workspace_visible : Bool → ℕ → ℕ → List Monitor → Bool
is_workspace_visible showing_desktop monitor_idx workspace_idx monitors =
    if showing_desktop then false else elim (get_elem? monitors monitor_idx) [
      | none ↦ false
      | some m ↦ workspace_idx == m.current_workspace
    ]

unfoldable pub is_window_visible : Bool → Bool → Bool → ℕ → ℕ → List Monitor → Bool
is_window_visible showing_desktop is_iconic is_sticky client_monitor client_workspace monitors =
    if is_iconic then false else elim (get_elem? monitors client_monitor) [
      | none ↦ false
      | some m ↦
          if is_sticky
          then true
          else if showing_desktop
          then false
          else client_workspace == m.current_workspace
    ]
