-- ===== src/Wm/Commands.antt =====
-- The commands of src/lwm/wm_workspace.cpp: switching and toggling workspaces, and moving the focus
-- and the active window between workspaces and monitors. A direction is an `int`; the indices stay
-- within its range. Warping the pointer is not part of the state.
pub mod Wrap
pub mod Stays
pub mod Monitors
pub mod Inverse
use lwm.Base.{
  ℕ, suc, ◌+◌, ◌%◌, Bool, true, false, not, ◌&&◌, ◌||◌, Option, none, some, ◌>>=◌, length,
  get_elem?, leb, ◌==◌, if◌then◌else◌,
}
use lwm.Base.Int.{ℤ, pos, negsuc, pos_part, sub_ℕ, ◌+ℤ◌}
use lwm.Types.{Client, Monitor, xcb_none}
use lwm.Policy.Workspace.{set_workspace_focus}
use lwm.Layout.Tree.{DoubleOps}
use lwm.Layout.Arrange.{LayoutSettings}
use lwm.Wm.State.{WindowManager, get_client, is_floating}
use lwm.Wm.Switch.{apply_workspace_switch}
use lwm.Wm.Place.{
  workspace_at, with_workspace, move_tiled_client_to_workspace, move_floating_client_to_workspace,
}
use lwm.Wm.Active.{is_suppressed}
use lwm.Wm.Activate.{focus_fuel, focus_any_window, focus_or_fallback}

-- The remainder of C++, which has the sign of the dividend.
unfoldable pub rem_ℤ : ℤ → ℕ → ℤ
rem_ℤ (pos a) n = pos (a % n)
rem_ℤ (negsuc a) n = sub_ℕ 0 (suc a % n)

unfoldable pub wrap_index : ℕ → ℤ → ℕ
wrap_index size idx = pos_part (rem_ℤ (rem_ℤ idx size +ℤ pos size) size)

abbrev pub wrap_monitor_index : WindowManager → ℤ → ℕ
wrap_monitor_index wm idx = wrap_index (length wm.monitors) idx

-- workspace_policy::set_workspace_focus on the workspace at the indices.
unfoldable pub focus_workspace_at : ℕ → ℕ → ℕ → WindowManager → Option WindowManager
focus_workspace_at monitor_idx workspace_idx window wm =
    workspace_at wm.monitors monitor_idx workspace_idx
    >>= (λ ws. some (with_workspace wm monitor_idx workspace_idx (set_workspace_focus ws window)))

module _ (ops : DoubleOps) (settings : LayoutSettings) (hints : ℕ → Option Bool) where
  unfoldable pub switch_workspace : WindowManager → ℕ → Option WindowManager
  switch_workspace wm ws =
      if leb (length wm.monitors) wm.focused_monitor
      then some wm
      else apply_workspace_switch ops settings hints wm wm.focused_monitor ws
        >>= (λ (r : WindowManager × Bool).
            if not r.1
            then some r.0
            else focus_or_fallback ops settings hints r.0 r.0.focused_monitor true)

  unfoldable pub toggle_workspace : WindowManager → Option WindowManager
  toggle_workspace wm = get_elem? wm.monitors wm.focused_monitor >>= (λ m.
      if leb (length m.workspaces) 1
      then some wm
      else if leb (length m.workspaces) m.previous_workspace
          || m.previous_workspace == m.current_workspace
      then some wm
      else switch_workspace wm m.previous_workspace)

  -- What follows the guards, on the client of the active window.
  unfoldable pub move_client_to_workspace : WindowManager → ℕ → Client → Option WindowManager
  move_client_to_workspace wm ws c =
      if is_floating c.kind
      then move_floating_client_to_workspace ops settings wm c.id c.monitor ws false
        >>= (λ (r : WindowManager × Bool).
            if not r.1 then some r.0 else focus_or_fallback ops settings hints r.0 c.monitor true)
      else move_tiled_client_to_workspace ops settings wm c.id wm.focused_monitor ws none
        >>= (λ (r : WindowManager × Bool).
            if not r.1
            then some r.0
            else focus_workspace_at wm.focused_monitor ws c.id r.0
              >>= (λ wm'. focus_or_fallback ops settings hints wm' wm.focused_monitor true))

  unfoldable pub move_window_to_workspace : WindowManager → ℕ → Option WindowManager
  move_window_to_workspace wm ws = get_elem? wm.monitors wm.focused_monitor >>= (λ m.
      if length m.workspaces == 0
      then some wm
      else if leb (length m.workspaces) ws || ws == m.current_workspace
      then some wm
      else if wm.active_window == xcb_none
      then some wm
      else elim (get_client wm wm.active_window) [
        | none ↦ some wm
        | some c ↦ move_client_to_workspace wm ws c
      ])

  unfoldable pub focus_monitor : WindowManager → ℤ → Option WindowManager
  focus_monitor wm direction =
      if leb (length wm.monitors) 1
      then some wm
      else let target = wrap_monitor_index wm (pos wm.focused_monitor +ℤ direction) in
        focus_or_fallback ops settings hints (record wm { focused_monitor = target }) target true

  -- The focus after a window has come to another monitor.
  unfoldable pub focus_moved : ℕ → ℕ → WindowManager → Option WindowManager
  focus_moved window target wm =
      let there : WindowManager = record wm { focused_monitor = target } in
      if is_suppressed there window
      then focus_or_fallback ops settings hints there target true
      else focus_any_window ops settings hints focus_fuel there window true 0

  unfoldable pub move_floating_to_monitor : WindowManager → Client → ℕ → Option WindowManager
  move_floating_to_monitor wm c target =
      if target == c.monitor
      then some wm
      else get_elem? wm.monitors target >>= (λ m.
        move_floating_client_to_workspace ops settings wm c.id target m.current_workspace true
        >>= (λ (r : WindowManager × Bool).
            if not r.1 then some r.0 else focus_moved c.id target r.0))

  unfoldable pub move_tiled_to_monitor : WindowManager → Client → ℕ → Option WindowManager
  move_tiled_to_monitor wm c target =
      if target == wm.focused_monitor
      then some wm
      else get_elem? wm.monitors target >>= (λ m.
        move_tiled_client_to_workspace ops settings wm c.id target m.current_workspace none
        >>= (λ (r : WindowManager × Bool).
            if not r.1
            then some r.0
            else focus_workspace_at target m.current_workspace c.id r.0
              >>= focus_moved c.id target))

  unfoldable pub move_window_to_monitor : WindowManager → ℤ → Option WindowManager
  move_window_to_monitor wm direction =
      if leb (length wm.monitors) 1
      then some wm
      else if wm.active_window == xcb_none
      then some wm
      else elim (get_client wm wm.active_window) [
        | none ↦ some wm
        | some c ↦
            if is_floating c.kind
            then move_floating_to_monitor wm c (wrap_monitor_index wm (pos c.monitor +ℤ direction))
            else move_tiled_to_monitor wm c
                (wrap_monitor_index wm (pos wm.focused_monitor +ℤ direction))
      ]
