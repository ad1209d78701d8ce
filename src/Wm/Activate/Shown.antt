-- ===== src/Wm/Activate/Shown.antt =====
-- On the parts of focus_any_window of src/lwm/wm_focus.cpp that follow its guards: what
-- src/lwm/core/invariants.hpp asserts.
use mathlib.Core.Path.{subst}
use lwm.Base.{
  count, ap, ℕ, ◌<◌, ◌≡◌, refl, ap, ◌∙◌, ◌⊎◌, inl, inr, Bool, true, false, not, ◌&&◌, choose,
  Option, some, List, map, leb, ◌==◌, if◌then◌else◌, arith,
}
use lwm.Types.{Client, Monitor, Workspace, xcb_none}
use lwm.Types.Urgency.{clear, active}
use lwm.Policy.Workspace.{set_workspace_focus, push_focus_history}
use lwm.Layout.Tree.{DoubleOps}
use lwm.Layout.Arrange.{LayoutSettings}
use lwm.Wm.State.{WindowManager, is_floating}
use lwm.Wm.Rearrange.{change}
use lwm.Wm.Switch.{sync_client_urgency_state, apply_workspace_switch}
use lwm.Wm.Switch.Stays.{apply_workspace_switch-FineSaying, apply_workspace_switch_current}
use lwm.Wm.Place.{has_place, workspace_at, set_workspace, with_workspace}
use lwm.Wm.Place.Counts.{has_place-workspace, place-lt}
use lwm.Wm.Registry.{entry}
use lwm.Wm.Registry.Sizes.{sizes-set_workspace, set_workspace_current, IsRegistry-set_workspace}
use lwm.Wm.Registry.Lists.{length-set_workspace}
use lwm.Wm.Registry.Order.{Frame, InOrder, Fine}
use lwm.Wm.Registry.Fine.{fine, FineSaying-bind, InOrder-entries, InOrder-focused, InOrder-change}
use lwm.Wm.Active.{
  clear_focus, with_mru_order, activate, clear_client_urgency, with_user_time, finish_focus,
  is_suppressed,
}
use lwm.Wm.Activate.{switch_for, focus_floating, focus_tiled, focus_shown}
use lwm.Wm.Activate.Settled.{IsHere}

clear_client_urgency-entry :
    (hints : ℕ → Option Bool) (c : Client) → entry (clear_client_urgency hints c) ≡ entry c
unfolding clear_client_urgency sync_client_urgency_state clear
clear_client_urgency-entry hints c =
    choose (λ (d : Client). entry d ≡ entry c) (not (c.urgency.sources == 0)) _ _ (λ _. refl)
      (λ _. refl)

with_user_time-entry :
    (t : ℕ) (r : Bool) (f : ℕ) (c : Client) → entry (with_user_time t r f c) ≡ entry c
unfolding with_user_time
with_user_time-entry t r f c =
    let candidate = if f == 0 then t else f in
    choose (λ (d : Client). entry d ≡ entry c)
      (r && not (candidate == 0) && leb c.user_time candidate) _ _ (λ _. refl) (λ _. refl)

focused-entry :
    (hints : ℕ → Option Bool) (t : ℕ) (r : Bool) (f : ℕ) (c : Client)
    → entry (with_user_time t r f (if active c.urgency then clear_client_urgency hints c else c))
      ≡ entry c
focused-entry hints t r f c =
    with_user_time-entry t r f _
    ∙ choose (λ (d : Client). entry d ≡ entry c) (active c.urgency) (clear_client_urgency hints c) c
        (λ _. clear_client_urgency-entry hints c) (λ _. refl)

set_workspace_focus-windows :
    (ws : Workspace) (w : ℕ) → (set_workspace_focus ws w).windows ≡ ws.windows
unfolding set_workspace_focus push_focus_history
set_workspace_focus-windows ws w =
    choose (λ (v : Workspace). v.windows ≡ ws.windows) (w == xcb_none) _ _ (λ _. refl) (λ _. refl)

module _ {n : Frame} where
  pub activate-InOrder : (wm : WindowManager) (w : ℕ) → InOrder n wm → InOrder n (activate wm w)
  unfolding activate
  activate-InOrder wm w h =
      InOrder-entries (change (with_mru_order wm.next_mru_order) w wm) (activate wm w) refl refl
        refl (InOrder-change (with_mru_order wm.next_mru_order) w wm (λ c. refl) h)

  pub finish_focus-InOrder :
      (hints : ℕ → Option Bool) (wm : WindowManager) (w : ℕ) (r : Bool) (t : ℕ)
      → InOrder n wm
      → InOrder n (finish_focus hints wm w r t)
  unfolding finish_focus
  finish_focus-InOrder hints wm w r t h =
      choose (InOrder n) (not (wm.active_window == w)) _ _ (λ _. h)
        (λ _. InOrder-change _ w wm (focused-entry hints wm.last_event_time r t) h)

  pub with_focus-InOrder :
      (wm : WindowManager) (a b w : ℕ) (ws : Workspace)
      → workspace_at wm.monitors a b ≡ some ws
      → InOrder n wm
      → InOrder n (with_workspace wm a b (set_workspace_focus ws w))
  with_focus-InOrder wm a b w ws e h = record {
    registered =
        IsRegistry-set_workspace (map entry wm.clients) wm.monitors a b ws
          (set_workspace_focus ws w) e (λ v. ap (count v) (set_workspace_focus-windows ws w))
          h.registered;
    count = length-set_workspace wm.monitors a b (set_workspace_focus ws w) ∙ h.count;
    sizes = sizes-set_workspace wm.monitors a b (set_workspace_focus ws w) ∙ h.sizes;
    windows = h.windows;
    focused = h.focused;
  }

  pub clear_focus-InOrder : (wm : WindowManager) → InOrder n wm → InOrder n (clear_focus wm)
  unfolding clear_focus
  clear_focus-InOrder wm h = InOrder-entries wm (clear_focus wm) refl refl refl h

-- Writing the focus of a workspace does not change which one is shown.
IsHere-set_workspace :
    (ms : List Monitor) (a b : ℕ) (ws : Workspace) (c : Client)
    → IsHere ms c
    → IsHere (set_workspace ms a b ws) c
IsHere-set_workspace ms a b ws c (inl s) = inl s
IsHere-set_workspace ms a b ws c (inr (m, e, h)) =
    let (m', e', same) = set_workspace_current ms a b c.monitor ws m e in inr (m', e', same ∙ h)

pub IsHere-activated :
    (wm : WindowManager) (c : Client) (ws : Workspace)
    → IsHere wm.monitors c
    → IsHere
        (activate
          (with_workspace wm c.monitor c.workspace (set_workspace_focus ws c.id))
          c.id).monitors
        c
unfolding activate
IsHere-activated wm c ws h =
    IsHere-set_workspace wm.monitors c.monitor c.workspace (set_workspace_focus ws c.id) c h

-- What can come after a switch for the focus: none happens, or the fallback is in order.
abbrev CanSwitch : Frame → List Monitor → Client → (WindowManager → Option WindowManager) → Type 0
CanSwitch n ms c suppressed =
    IsHere ms c ⊎ ((wm : WindowManager) → InOrder n wm → Fine n (suppressed wm))

module _ (ops : DoubleOps) (settings : LayoutSettings) (hints : ℕ → Option Bool) (n : Frame) where
  switch_for-Fine :
      (suppressed go_on : WindowManager → Option WindowManager) (wm : WindowManager) (c : Client)
      → InOrder n wm
      → CanSwitch n wm.monitors c suppressed
      → ((wm' : WindowManager) → InOrder n wm' → Fine n (go_on wm'))
      → Fine n (switch_for ops settings hints suppressed go_on wm c)
  unfolding switch_for
  switch_for-Fine suppressed go_on wm c h can go =
      choose (Fine n) c.sticky _ _ (λ _. go wm h)
        (λ s. elim can [
          | inl (inl t) ↦ absurd (ground (arith, s, t))
          | inl (inr (m, e, cur)) ↦
              rw
                (apply_workspace_switch_current ops settings hints wm c.monitor c.workspace m e cur)
                (go wm h)
          | inr fall ↦
              FineSaying-bind (apply_workspace_switch ops settings hints wm c.monitor c.workspace) _
                (apply_workspace_switch-FineSaying ops settings hints n wm c.monitor c.workspace h)
                (λ wm' b h'.
                  choose (Fine n) (b && is_suppressed wm' c.id) _ _ (λ _. fall wm' h')
                    (λ _. go wm' h'))
        ])

  -- The fallback is in order on every monitor.
  abbrev pub FallsBack : (WindowManager → ℕ → Bool → Option WindowManager) → Type 0
  FallsBack fallback =
      (wm : WindowManager) (i : ℕ) (r : Bool)
      → InOrder n wm
      → i < n.count
      → Fine n (fallback wm i r)

  pub focus_shown-Fine :
      (fallback : WindowManager → ℕ → Bool → Option WindowManager) (wm : WindowManager) (r : Bool)
      (t : ℕ) (c : Client)
      → InOrder n wm
      → has_place wm.monitors c.monitor c.workspace ≡ true
      → IsHere wm.monitors c ⊎ FallsBack fallback
      → Fine n (focus_shown ops settings hints fallback wm r t c)
  unfolding focus_shown focus_floating focus_tiled
  focus_shown-Fine fallback wm r t c h p can =
      let lt : c.monitor < n.count =
        subst (λ k. c.monitor < k) h.count (place-lt wm.monitors c.monitor c.workspace p) in
      let (ws, e) = has_place-workspace wm.monitors c.monitor c.workspace p in
      let there : WindowManager = record wm { focused_monitor = c.monitor } in
      let focused = with_workspace there c.monitor c.workspace (set_workspace_focus ws c.id) in
      let h1 : InOrder n there = InOrder-focused wm c.monitor lt h in
      choose (Fine n) (is_floating c.kind) _ _
        (λ _.
          switch_for-Fine _ _ there c h1
            (elim can [
              | inl here ↦ inl here
              | inr falls ↦ inr (λ wm' h'. falls wm' c.monitor false h' lt)
            ])
            (λ wm' h'. fine _ (
              finish_focus-InOrder hints (activate wm' c.id) c.id r t
                (activate-InOrder wm' c.id h'))))
        (λ _. rw e (
          switch_for-Fine _ _ (activate focused c.id) c
            (activate-InOrder focused c.id
              (with_focus-InOrder there c.monitor c.workspace c.id ws e h1))
            (elim can [
              | inl here ↦ inl (IsHere-activated there c ws here)
              | inr falls ↦ inr (λ wm' h'.
                  falls (record wm' { active_window = wm.active_window }) c.monitor false
                    (InOrder-entries wm' (record wm' { active_window = wm.active_window }) refl refl
                      refl h')
                    lt)
            ])
            (λ wm' h'. fine _ (finish_focus-InOrder hints wm' c.id r t h'))))
