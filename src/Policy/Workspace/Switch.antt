-- ===== src/Policy/Workspace/Switch.antt =====
-- When a switch of workspace is let through.
use lwm.Base.{ℕ, ◌<◌, ◌≡◌, ◌≢◌, ◌↔◌, some, length, arith}
use lwm.Types.{Monitor}
use lwm.Policy.Workspace.{WorkspaceSwitchResult, validate_workspace_switch}

-- A switch is let through exactly when the target is another workspace of the monitor, and it
-- then names the workspace that is left and the target.
pub validate_workspace_switch_iff :
    (m : Monitor) (target : ℕ) (r : WorkspaceSwitchResult)
    → (validate_workspace_switch m target ≡ some r) ↔ (
        (target < length m.workspaces)
        × (target ≢ m.current_workspace)
        × (r.old_workspace ≡ m.current_workspace)
        × (r.new_workspace ≡ target))
unfolding validate_workspace_switch
validate_workspace_switch_iff m target r = (λ h. ground arith, λ h. ground arith)
