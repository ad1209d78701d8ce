-- ===== src/Policy/Ewmh.antt =====
-- namespace ewmh_policy of src/lwm/core/policy.hpp: the desktop numbers of EWMH, which count the
-- workspaces of all monitors. A size_t has 64 bits, and is cut to 32 for a desktop number.
pub mod RoundTrip
mod Tests
use lwm.Base.{ℕ, ◌+◌, ◌*◌, ◌/◌, ◌%◌, ◌^◌, Option, none, some, ◌==◌, if◌then◌else◌}

unfoldable pub desktop_index : ℕ → ℕ → ℕ → ℕ
desktop_index monitor_idx workspace_idx workspaces_per_monitor =
    (monitor_idx * workspaces_per_monitor + workspace_idx) % 2 ^ 64 % 2 ^ 32

unfoldable pub desktop_to_indices : ℕ → ℕ → Option (ℕ × ℕ)
desktop_to_indices desktop workspaces_per_monitor =
    if workspaces_per_monitor == 0
    then none
    else some (desktop / workspaces_per_monitor, desktop % workspaces_per_monitor)
