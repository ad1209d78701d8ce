-- ===== src/Wm/Activate.antt =====
-- The focus of the window manager, in src/lwm/wm_focus.cpp: focus_any_window, clear_focus,
-- focus_or_fallback, repair_focus_after_visibility_change and cycle_focus, with
-- iconify_window and deiconify_window of src/lwm/wm.cpp. They call each other: the calls that
-- focus_any_window makes of itself, through the others, are on fuel, and `none` is the end of the
-- fuel or an index out of range. The requests to the X server are not part of the state.
pub mod Settled
pub mod Near
pub mod Shown
pub mod Ends
pub mod Stays
use lwm.Base.{
  ℕ, suc, zero, ◌+◌, ◌%◌, ◌^◌, Bool, true, false, not, ◌&&◌, ◌||◌, Option, none, some, ◌>>=◌, List,
  length, get_elem?, leb, ltb, ◌==◌, if◌then◌else◌,
}
use lwm.Types.{Client, xcb_none, current}
use lwm.Types.Urgency.{Urgency, clear, active}
use lwm.Policy.Workspace.{set_workspace_focus}
use lwm.Policy.Focus.{FocusSelection, FocusCycleCandidate}
use lwm.Layout.Tree.{DoubleOps}
use lwm.Layout.Arrange.{LayoutSettings}
use lwm.Wm.State.{
  WindowManager, get_client, is_floating, is_managed_kind, should_be_visible, is_physically_visible,
  is_suppressed_by_fullscreen, is_focus_eligible,
}
use lwm.Wm.Focus.{focus_selection, cycle_target}
use lwm.Wm.Reconcile.{apply_fullscreen_if_needed}
use lwm.Wm.Rearrange.{change, finalize_visibility_on_monitor}
use lwm.Wm.Switch.{sync_client_urgency_state, apply_workspace_switch}
use lwm.Wm.Place.{is_tiled, has_place, workspace_at, with_workspace}
use lwm.Wm.Active.{
  clear_focus, with_mru_order, activate, with_iconic, clear_client_urgency, with_user_time,
  finish_focus, is_suppressed,
}

-- The fuel that is enough.
abbrev pub focus_fuel : ℕ
focus_fuel = 3

module _ (ops : DoubleOps) (settings : LayoutSettings) (hints : ℕ → Option Bool) where
  -- The switch to the workspace of the client, unless it is sticky.
  unfoldable pub switch_for :
      (WindowManager → Option WindowManager)
      → (WindowManager → Option WindowManager)
      → WindowManager
      → Client
      → Option WindowManager
  switch_for suppressed go_on wm c =
      if c.sticky
      then go_on wm
      else apply_workspace_switch ops settings hints wm c.monitor c.workspace
        >>= (λ (r : WindowManager × Bool).
            if r.1 && is_suppressed r.0 c.id then suppressed r.0 else go_on r.0)

  unfoldable pub focus_floating :
      (WindowManager → ℕ → Bool → Option WindowManager)
      → WindowManager
      → Bool
      → ℕ
      → Client
      → Option WindowManager
  focus_floating fallback wm record_user_time focus_timestamp c =
      switch_for (λ wm'. fallback wm' c.monitor false)
        (λ wm'. some (finish_focus hints (activate wm' c.id) c.id record_user_time focus_timestamp))
        (record wm { focused_monitor = c.monitor }) c

  unfoldable pub focus_tiled :
      (WindowManager → ℕ → Bool → Option WindowManager)
      → WindowManager
      → Bool
      → ℕ
      → Client
      → Option WindowManager
  focus_tiled fallback wm record_user_time focus_timestamp c =
      workspace_at wm.monitors c.monitor c.workspace >>= (λ ws.
        switch_for
          (λ wm'. fallback (record wm' { active_window = wm.active_window }) c.monitor false)
          (λ wm'. some (finish_focus hints wm' c.id record_user_time focus_timestamp))
          (activate
            (with_workspace (record wm { focused_monitor = c.monitor }) c.monitor c.workspace
              (set_workspace_focus ws c.id))
            c.id)
          c)

  -- What follows the guards and deiconify_window, on the client as it is then.
  unfoldable pub focus_shown :
      (WindowManager → ℕ → Bool → Option WindowManager)
      → WindowManager
      → Bool
      → ℕ
      → Client
      → Option WindowManager
  focus_shown fallback wm record_user_time focus_timestamp c =
      if is_floating c.kind
      then focus_floating fallback wm record_user_time focus_timestamp c
      else focus_tiled fallback wm record_user_time focus_timestamp c

  -- The last part of deiconify_window, on the client as it is then.
  unfoldable pub focus_deiconified :
      (WindowManager → ℕ → Option WindowManager)
      → WindowManager
      → Bool
      → Client
      → Option WindowManager
  focus_deiconified focus_any wm focus c =
      (if (focus || c.fullscreen) && c.monitor == wm.focused_monitor && should_be_visible wm c
        then focus_any wm c.id
        else some wm)
      >>= (λ wm'. some (change (apply_fullscreen_if_needed wm') c.id wm'))

  -- deiconify_window, with what it calls for the focus.
  unfoldable pub deiconify_with :
      (WindowManager → ℕ → Option WindowManager)
      → WindowManager
      → Bool
      → Client
      → Option WindowManager
  deiconify_with focus_any wm focus c =
      if not (is_managed_kind c.kind)
      then some wm
      else finalize_visibility_on_monitor ops settings (change (with_iconic false) c.id wm)
          c.monitor (if c.fullscreen then c.id else xcb_none)
        >>= (λ wm'. get_client wm' c.id >>= focus_deiconified focus_any wm' focus)

  -- focus_or_fallback on the monitor at an index, with what it calls for the focus.
  unfoldable pub fallback_with :
      (WindowManager → ℕ → Bool → Option WindowManager)
      → WindowManager
      → ℕ
      → Bool
      → Option WindowManager
  fallback_with focus_any wm monitor_idx record_user_time =
      get_elem? wm.monitors monitor_idx >>= (λ m. current m >>= (λ ws.
        elim (focus_selection wm monitor_idx m ws) [
          | none ↦ some (clear_focus wm)
          | some s ↦ focus_any wm s.window record_user_time
        ]))

  -- What follows the first guards of focus_any_window, with its calls of itself.
  unfoldable pub focus_client :
      (WindowManager → ℕ → Bool → ℕ → Option WindowManager)
      → WindowManager
      → Bool
      → ℕ
      → Client
      → Option WindowManager
  focus_client focus_any wm record_user_time focus_timestamp c =
      if not (is_focus_eligible wm c)
      then some wm
      else if not (has_place wm.monitors c.monitor c.workspace)
      then some wm
      else (if c.iconic
          then deiconify_with (λ wm' w. focus_any wm' w true 0) wm false c
          else some wm)
        >>= (λ wm'.
            get_client wm' c.id
            >>= focus_shown (fallback_with (λ wm2 w r. focus_any wm2 w r 0)) wm' record_user_time
                focus_timestamp)

  unfoldable pub focus_any_window : ℕ → WindowManager → ℕ → Bool → ℕ → Option WindowManager
  focus_any_window zero wm window record_user_time focus_timestamp = none
  focus_any_window (suc fuel) wm window record_user_time focus_timestamp =
      if wm.showing_desktop then some wm else elim (get_client wm window) [
        | none ↦ some wm
        | some c ↦ focus_client (focus_any_window fuel) wm record_user_time focus_timestamp c
      ]

  unfoldable pub focus_or_fallback : WindowManager → ℕ → Bool → Option WindowManager
  focus_or_fallback = fallback_with (λ wm w r. focus_any_window focus_fuel wm w r 0)

  unfoldable pub deiconify_window : WindowManager → ℕ → Bool → Option WindowManager
  deiconify_window wm window focus = elim (get_client wm window) [
    | none ↦ some wm
    | some c ↦ deiconify_with (λ wm' w. focus_any_window focus_fuel wm' w true 0) wm focus c
  ]

  -- What iconify_window does with the focus.
  unfoldable pub refocus : ℕ → ℕ → Bool → WindowManager → Option WindowManager
  refocus window monitor_idx was_visible wm =
      if not (wm.active_window == window)
      then some wm
      else if monitor_idx == wm.focused_monitor && was_visible
      then focus_or_fallback wm monitor_idx true
      else some (clear_focus wm)

  unfoldable pub iconify_client : WindowManager → Client → Option WindowManager
  iconify_client wm c =
      if c.iconic
      then some wm
      else if not (is_managed_kind c.kind)
      then some wm
      else finalize_visibility_on_monitor ops settings (change (with_iconic true) c.id wm) c.monitor
          xcb_none
        >>= refocus c.id c.monitor (should_be_visible wm c)

  unfoldable pub iconify_window : WindowManager → ℕ → Option WindowManager
  iconify_window wm window = elim (get_client wm window) [
    | none ↦ some wm
    | some c ↦ iconify_client wm c
  ]

  -- The part of repair_focus_after_visibility_change on an active window that can keep the focus.
  unfoldable pub keep_active : WindowManager → Client → WindowManager
  keep_active wm c = elim (workspace_at wm.monitors c.monitor c.workspace) [
    | none ↦ record wm { focused_monitor = c.monitor }
    | some ws ↦
        if is_tiled c.kind
        then with_workspace (record wm { focused_monitor = c.monitor }) c.monitor c.workspace
            (set_workspace_focus ws c.id)
        else record wm { focused_monitor = c.monitor }
  ]

  abbrev pub can_stay : WindowManager → Client → Bool
  can_stay wm c =
      ltb c.monitor (length wm.monitors) && is_focus_eligible wm c && is_physically_visible wm c

  abbrev pub repair_target : WindowManager → ℕ → ℕ
  repair_target wm preferred_monitor =
      if leb (length wm.monitors) preferred_monitor
      then (if ltb wm.focused_monitor (length wm.monitors) then wm.focused_monitor else 0)
      else preferred_monitor

  unfoldable pub repair_focus_after_visibility_change :
      WindowManager → ℕ → Bool → Option WindowManager
  repair_focus_after_visibility_change wm preferred_monitor record_user_time =
      if length wm.monitors == 0
      then some (clear_focus wm)
      else elim (get_client wm wm.active_window) [
        | none ↦ focus_or_fallback wm (repair_target wm preferred_monitor) record_user_time
        | some c ↦
            if can_stay wm c
            then some (keep_active wm c)
            else focus_or_fallback wm (repair_target wm preferred_monitor) record_user_time
      ]

  unfoldable pub cycle_focus : WindowManager → Bool → Option WindowManager
  cycle_focus wm forward = elim (cycle_target wm forward) [
    | none ↦ some wm
    | some target ↦ focus_any_window focus_fuel wm target.id true 0
  ]
