-- ===== src/Wm/Activate/Stays.antt =====
-- On iconify_window and deiconify_window of src/lwm/wm.cpp and repair_focus_after_visibility_change
-- and cycle_focus of src/lwm/wm_focus.cpp: what src/lwm/core/invariants.hpp asserts.
use mathlib.Core.Path.{subst}
use lwm.Base.{
  ℕ, ◌<◌, ◌≡◌, refl, sym, Bool, true, not, ◌&&◌, choose, Option, some, length, ◌==◌, Option-cases,
  inl, inr, arith,
}
use lwm.Types.{Client, xcb_none}
use lwm.Layout.Tree.{DoubleOps}
use lwm.Layout.Arrange.{LayoutSettings}
use lwm.Wm.State.{WindowManager, get_client, is_managed_kind, should_be_visible}
use lwm.Wm.Focus.{cycle_target}
use lwm.Wm.Rearrange.{change, finalize_visibility_on_monitor}
use lwm.Wm.Place.{is_tiled, workspace_at}
use lwm.Wm.Place.Counts.{get_client_id}
use lwm.Wm.Registry.Keeps.{finalize_visibility_on_monitor-Keeps}
use lwm.Wm.Registry.Order.{Frame, InOrder, Fine}
use lwm.Wm.Registry.Fine.{InOrder-focused, InOrder-update, fine, Fine-bind, Keeps-Fine}
use lwm.Wm.Active.{clear_focus, with_iconic}
use lwm.Wm.Activate.{
  focus_any_window, deiconify_window, refocus, iconify_client, iconify_window, keep_active,
  can_stay, repair_target, repair_focus_after_visibility_change, cycle_focus,
}
use lwm.Wm.Activate.Shown.{clear_focus-InOrder, with_focus-InOrder}
use lwm.Wm.Activate.Ends.{deiconify_with-Fine, focus_any_window-Fine, focus_or_fallback-Fine}

module _ (ops : DoubleOps) (settings : LayoutSettings) (hints : ℕ → Option Bool) (n : Frame) where
  pub deiconify_window-Fine :
      (wm : WindowManager) (w : ℕ) (focus : Bool)
      → InOrder n wm
      → Fine n (deiconify_window ops settings hints wm w focus)
  unfolding deiconify_window
  deiconify_window-Fine wm w focus h = elim (Option-cases (get_client wm w)) [
    | inl e ↦ rw (e, deiconify_window) (fine wm h)
    | inr (c, e) ↦
        rw (e, deiconify_window)
          (deiconify_with-Fine ops settings hints n
            (λ wm' v. focus_any_window ops settings hints 3 wm' v true 0)
            (λ wm' v d h' _ _. focus_any_window-Fine ops settings hints n wm' v true 0 h') wm w
            focus c h e)
  ]

  refocus-Fine :
      (w i : ℕ) (was_visible : Bool) (wm : WindowManager)
      → InOrder n wm
      → Fine n (refocus ops settings hints w i was_visible wm)
  unfolding refocus
  refocus-Fine w i was_visible wm h =
      choose (Fine n) (not (wm.active_window == w)) _ _ (λ _. fine wm h)
        (λ _.
          choose (Fine n) (i == wm.focused_monitor && was_visible) _ _
            (λ k.
              let is : wm.focused_monitor ≡ i = ground (arith, k) in
              focus_or_fallback-Fine ops settings hints n wm i true h
                (subst (λ j. j < n.count) is h.focused))
            (λ _. fine (clear_focus wm) (clear_focus-InOrder wm h)))

  pub iconify_window-Fine :
      (wm : WindowManager) (w : ℕ) → InOrder n wm → Fine n (iconify_window ops settings hints wm w)
  unfolding iconify_window iconify_client get_client
  iconify_window-Fine wm w h = elim (Option-cases (get_client wm w)) [
    | inl e ↦ rw (e, iconify_window) (fine wm h)
    | inr (c, e) ↦
        let self : get_client wm c.id ≡ some c =
          subst (λ u. get_client wm u ≡ some c) (sym (get_client_id wm w c e)) e in
        let mid = change (with_iconic true) c.id wm in
        let h1 : InOrder n mid =
          InOrder-update (with_iconic true) c.id c wm self refl refl refl refl refl h in
        rw (e, iconify_window)
          (choose (Fine n) c.iconic _ _ (λ _. fine wm h)
            (λ _.
              choose (Fine n) (not (is_managed_kind c.kind)) _ _ (λ _. fine wm h)
                (λ _.
                  Fine-bind (finalize_visibility_on_monitor ops settings mid c.monitor xcb_none) _
                    (Keeps-Fine mid _ h1 (
                      finalize_visibility_on_monitor-Keeps ops settings mid c.monitor xcb_none
                        h1.registered))
                    (λ wm' h'. refocus-Fine c.id c.monitor (should_be_visible wm c) wm' h'))))
  ]

  keep_active-InOrder :
      (wm : WindowManager) (c : Client)
      → c.monitor < n.count
      → InOrder n wm
      → InOrder n (keep_active ops settings hints wm c)
  unfolding keep_active
  keep_active-InOrder wm c lt h =
      let there : WindowManager = record wm { focused_monitor = c.monitor } in
      let h1 = InOrder-focused wm c.monitor lt h in
      elim (Option-cases (workspace_at wm.monitors c.monitor c.workspace)) [
        | inl e ↦ rw (e, keep_active) h1
        | inr (ws, e) ↦
            rw (e, keep_active)
              (choose (InOrder n) (is_tiled c.kind) _ there
                (λ _. with_focus-InOrder there c.monitor c.workspace c.id ws e h1) (λ _. h1))
      ]

  pub repair_focus_after_visibility_change-Fine :
      (wm : WindowManager) (preferred : ℕ) (r : Bool)
      → InOrder n wm
      → Fine n (repair_focus_after_visibility_change ops settings hints wm preferred r)
  unfolding repair_focus_after_visibility_change
  repair_focus_after_visibility_change-Fine wm preferred r h =
      choose (Fine n) (length wm.monitors == 0) _ _
        (λ _. fine (clear_focus wm) (clear_focus-InOrder wm h))
        (λ some_monitor.
          let target : repair_target ops settings hints wm preferred < n.count =
            subst (λ k. repair_target ops settings hints wm preferred < k) h.count
              (ground (arith, some_monitor)) in
          let fall =
            focus_or_fallback-Fine ops settings hints n wm
              (repair_target ops settings hints wm preferred) r h target in
          elim (Option-cases (get_client wm wm.active_window)) [
            | inl e ↦ rw (e, repair_focus_after_visibility_change) fall
            | inr (c, e) ↦
                rw (e, repair_focus_after_visibility_change)
                  (choose (Fine n) (can_stay ops settings hints wm c) _ _
                    (λ stays.
                      let lt : c.monitor < length wm.monitors = ground (arith, stays) in
                      fine _ (keep_active-InOrder wm c (subst (λ k. c.monitor < k) h.count lt) h))
                    (λ _. fall))
          ])

  pub cycle_focus-Fine :
      (wm : WindowManager) (forward : Bool)
      → InOrder n wm
      → Fine n (cycle_focus ops settings hints wm forward)
  unfolding cycle_focus
  cycle_focus-Fine wm forward h = elim (Option-cases (cycle_target wm forward)) [
    | inl e ↦ rw (e, cycle_focus) (fine wm h)
    | inr (t, e) ↦ rw (e, cycle_focus) (focus_any_window-Fine ops settings hints n wm t.id true 0 h)
  ]
