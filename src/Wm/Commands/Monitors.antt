-- ===== src/Wm/Commands/Monitors.antt =====
-- On the commands of src/lwm/wm_workspace.cpp that go to other monitors: what
-- src/lwm/core/invariants.hpp asserts.
use mathlib.Core.Path.{subst}
use lwm.Base.{
  ℕ, ◌<◌, ◌≡◌, sym, ◌∙◌, Bool, true, not, choose, Option, none, some, length, get_elem?_total, leb,
  ◌==◌, Option-cases, inl, inr,
}
use lwm.Base.Int.{ℤ, pos, ◌+ℤ◌}
use lwm.Types.{Client, xcb_none}
use lwm.Layout.Tree.{DoubleOps}
use lwm.Layout.Arrange.{LayoutSettings}
use lwm.Wm.State.{WindowManager, get_client, is_floating}
use lwm.Wm.Place.{move_tiled_client_to_workspace, move_floating_client_to_workspace}
use lwm.Wm.Place.Counts.{get_client_id}
use lwm.Wm.Place.Stays.{move_tiled_client_to_workspace-FineSaying}
use lwm.Wm.Place.Floats.{move_floating_client_to_workspace-FineSaying}
use lwm.Wm.Registry.Order.{Frame, InOrder, Fine}
use lwm.Wm.Registry.Fine.{InOrder-focused, InOrder-has_place, fine, Fine-bind, FineSaying-bind}
use lwm.Wm.Active.{is_suppressed}
use lwm.Wm.Activate.Ends.{focus_any_window-Fine, focus_or_fallback-Fine}
use lwm.Wm.Commands.{
  wrap_monitor_index, focus_workspace_at, focus_monitor, focus_moved, move_floating_to_monitor,
  move_tiled_to_monitor, move_window_to_monitor,
}
use lwm.Wm.Commands.Stays.{focus_workspace_at-Fine, in_count, wrapped-lt, current_place}

module _ (ops : DoubleOps) (settings : LayoutSettings) (hints : ℕ → Option Bool) (n : Frame) where
  pub focus_monitor-Fine :
      (wm : WindowManager) (direction : ℤ)
      → InOrder n wm
      → Fine n (focus_monitor ops settings hints wm direction)
  unfolding focus_monitor
  focus_monitor-Fine wm direction h =
      choose (Fine n) (leb (length wm.monitors) 1) _ _ (λ _. fine wm h)
        (λ several.
          let target = wrap_monitor_index wm (pos wm.focused_monitor +ℤ direction) in
          let lt = wrapped-lt wm (pos wm.focused_monitor +ℤ direction) h several in
          focus_or_fallback-Fine ops settings hints n (record wm { focused_monitor = target })
            target true (InOrder-focused wm target lt h) lt)

  focus_moved-Fine :
      (w target : ℕ) (wm : WindowManager)
      → target < n.count
      → InOrder n wm
      → Fine n (focus_moved ops settings hints w target wm)
  unfolding focus_moved
  focus_moved-Fine w target wm lt h =
      let there : WindowManager = record wm { focused_monitor = target } in
      let h' = InOrder-focused wm target lt h in
      choose (Fine n) (is_suppressed there w) _ _
        (λ _. focus_or_fallback-Fine ops settings hints n there target true h' lt)
        (λ _. focus_any_window-Fine ops settings hints n there w true 0 h')

  move_floating_to_monitor-Fine :
      (wm : WindowManager) (c : Client) (target : ℕ)
      → get_client wm c.id ≡ some c
      → target < n.count
      → InOrder n wm
      → Fine n (move_floating_to_monitor ops settings hints wm c target)
  unfolding move_floating_to_monitor
  move_floating_to_monitor-Fine wm c target e lt h =
      choose (Fine n) (target == c.monitor) _ _ (λ _. fine wm h)
        (λ _.
          let (m, at) = get_elem?_total wm.monitors target (in_count wm target h lt) in
          rw at (
            FineSaying-bind
              (move_floating_client_to_workspace ops settings wm c.id target m.current_workspace
                true)
              _
              (move_floating_client_to_workspace-FineSaying ops settings n wm c.id target
                m.current_workspace true c e h)
              (λ wm' b h'.
                choose (Fine n) (not b) _ _ (λ _. fine wm' h')
                  (λ _. focus_moved-Fine c.id target wm' lt h'))))

  move_tiled_to_monitor-Fine :
      (wm : WindowManager) (c : Client) (target : ℕ)
      → get_client wm c.id ≡ some c
      → target < n.count
      → InOrder n wm
      → Fine n (move_tiled_to_monitor ops settings hints wm c target)
  unfolding move_tiled_to_monitor
  move_tiled_to_monitor-Fine wm c target e lt h =
      choose (Fine n) (target == wm.focused_monitor) _ _ (λ _. fine wm h)
        (λ _.
          let (m, at) = get_elem?_total wm.monitors target (in_count wm target h lt) in
          rw at (
            FineSaying-bind
              (move_tiled_client_to_workspace ops settings wm c.id target m.current_workspace none)
              _
              (move_tiled_client_to_workspace-FineSaying ops settings n wm c.id target
                m.current_workspace none c e h)
              (λ wm' b h'.
                choose (Fine n) (not b) _ _ (λ _. fine wm' h')
                  (λ _.
                    Fine-bind (focus_workspace_at target m.current_workspace c.id wm') _
                      (focus_workspace_at-Fine target m.current_workspace c.id wm'
                        (InOrder-has_place wm wm' target m.current_workspace h h'
                          ∙ current_place wm target m at h)
                        h')
                      (λ wm2 h2. focus_moved-Fine c.id target wm2 lt h2)))))

  pub move_window_to_monitor-Fine :
      (wm : WindowManager) (direction : ℤ)
      → InOrder n wm
      → Fine n (move_window_to_monitor ops settings hints wm direction)
  unfolding move_window_to_monitor get_client
  move_window_to_monitor-Fine wm direction h =
      choose (Fine n) (leb (length wm.monitors) 1) _ _ (λ _. fine wm h)
        (λ several.
          choose (Fine n) (wm.active_window == xcb_none) _ _ (λ _. fine wm h)
            (λ _. elim (Option-cases (get_client wm wm.active_window)) [
              | inl none_active ↦ rw none_active (fine wm h)
              | inr (c, is) ↦
                  let self : get_client wm c.id ≡ some c =
                    subst (λ u. get_client wm u ≡ some c)
                      (sym (get_client_id wm wm.active_window c is)) is in
                  rw is (
                    choose (Fine n) (is_floating c.kind) _ _
                      (λ _.
                        move_floating_to_monitor-Fine wm c _ self
                          (wrapped-lt wm (pos c.monitor +ℤ direction) h several) h)
                      (λ _.
                        move_tiled_to_monitor-Fine wm c _ self
                          (wrapped-lt wm (pos wm.focused_monitor +ℤ direction) h several) h))
            ]))
