-- ===== src/Wm/Commands/Stays.antt =====
-- On the commands of src/lwm/wm_workspace.cpp: what src/lwm/core/invariants.hpp asserts.
use mathlib.Core.Path.{subst}
use lwm.Base.{
  ℕ, ◌<◌, ◌≡◌, sym, ◌∙◌, Bool, true, false, not, ◌||◌, choose, Option, none, some, length,
  get_elem?, get_elem?_total, All-get_elem?, lt→ltb, leb, ◌==◌, Option-cases, inl, inr, arith,
}
use lwm.Base.Int.{ℤ}
use lwm.Types.{Client, Kind, Monitor, xcb_none}
use lwm.Layout.Tree.{DoubleOps}
use lwm.Layout.Arrange.{LayoutSettings}
use lwm.Wm.State.{WindowManager, get_client, is_floating, is_managed_kind}
use lwm.Wm.Switch.{apply_workspace_switch}
use lwm.Wm.Switch.Stays.{apply_workspace_switch-FineSaying}
use lwm.Wm.Place.{has_place, move_tiled_client_to_workspace, move_floating_client_to_workspace}
use lwm.Wm.Place.Counts.{has_place-workspace, place-lt, get_client_id}
use lwm.Wm.Place.Stays.{move_tiled_client_to_workspace-FineSaying}
use lwm.Wm.Place.Floats.{move_floating_client_to_workspace-FineSaying}
use lwm.Wm.Registry.Changes.{found-IsInPlace}
use lwm.Wm.Registry.Lists.{has_place_at}
use lwm.Wm.Registry.Order.{Frame, InOrder, Fine}
use lwm.Wm.Registry.Fine.{InOrder-has_place, fine, Fine-bind, FineSaying-bind}
use lwm.Wm.Activate.Shown.{with_focus-InOrder}
use lwm.Wm.Activate.Ends.{focus_or_fallback-Fine}
use lwm.Wm.Commands.{
  wrap_monitor_index, focus_workspace_at, switch_workspace, toggle_workspace,
  move_client_to_workspace, move_window_to_workspace,
}
use lwm.Wm.Commands.Wrap.{wrap_index-lt}

floating_managed : (k : Kind) → is_floating k ≡ true → is_managed_kind k ≡ true
floating_managed k h = ground arith

module _ {n : Frame} where
  pub focus_workspace_at-Fine :
      (a b w : ℕ) (wm : WindowManager)
      → has_place wm.monitors a b ≡ true
      → InOrder n wm
      → Fine n (focus_workspace_at a b w wm)
  unfolding focus_workspace_at
  focus_workspace_at-Fine a b w wm p h =
      let (ws, e) = has_place-workspace wm.monitors a b p in
      rw e (fine _ (with_focus-InOrder wm a b w ws e h))

  pub in_count : (wm : WindowManager) (i : ℕ) → InOrder n wm → i < n.count → i < length wm.monitors
  in_count wm i h lt = subst (λ k. i < k) (sym h.count) lt

  pub wrapped-lt :
      (wm : WindowManager) (idx : ℤ)
      → InOrder n wm
      → leb (length wm.monitors) 1 ≡ false
      → wrap_monitor_index wm idx < n.count
  wrapped-lt wm idx h several =
      subst (λ k. wrap_monitor_index wm idx < k) h.count
        (wrap_index-lt (length wm.monitors) idx (ground (arith, several)))

  pub floating-lt :
      (wm : WindowManager) (c : Client)
      → get_client wm c.id ≡ some c
      → is_floating c.kind ≡ true
      → InOrder n wm
      → c.monitor < n.count
  unfolding get_client
  floating-lt wm c e f h =
      let place = found-IsInPlace c.id wm.clients c wm.monitors e h.registered in
      subst (λ k. c.monitor < k) h.count
        (place-lt wm.monitors c.monitor c.workspace (place.0 (floating_managed c.kind f)))

  pub current_place :
      (wm : WindowManager) (i : ℕ) (m : Monitor)
      → get_elem? wm.monitors i ≡ some m
      → InOrder n wm
      → has_place wm.monitors i m.current_workspace ≡ true
  current_place wm i m e h =
      has_place_at wm.monitors i m.current_workspace m e
      ∙ lt→ltb m.current_workspace (length m.workspaces) (
          All-get_elem? (λ (m : Monitor). m.current_workspace < length m.workspaces) wm.monitors i
            h.registered.currents e)

module _ (ops : DoubleOps) (settings : LayoutSettings) (hints : ℕ → Option Bool) (n : Frame) where
  pub switch_workspace-Fine :
      (wm : WindowManager) (ws : ℕ)
      → InOrder n wm
      → Fine n (switch_workspace ops settings hints wm ws)
  unfolding switch_workspace
  switch_workspace-Fine wm ws h =
      choose (Fine n) (leb (length wm.monitors) wm.focused_monitor) _ _ (λ _. fine wm h)
        (λ _.
          FineSaying-bind (apply_workspace_switch ops settings hints wm wm.focused_monitor ws) _
            (apply_workspace_switch-FineSaying ops settings hints n wm wm.focused_monitor ws h)
            (λ wm' b h'.
              choose (Fine n) (not b) _ _ (λ _. fine wm' h')
                (λ _.
                  focus_or_fallback-Fine ops settings hints n wm' wm'.focused_monitor true h'
                    h'.focused)))

  pub toggle_workspace-Fine :
      (wm : WindowManager) → InOrder n wm → Fine n (toggle_workspace ops settings hints wm)
  unfolding toggle_workspace
  toggle_workspace-Fine wm h =
      let (m, e) =
        get_elem?_total wm.monitors wm.focused_monitor
          (in_count wm wm.focused_monitor h h.focused) in
      rw (e, toggle_workspace)
        (choose (Fine n) (leb (length m.workspaces) 1) _ _ (λ _. fine wm h)
          (λ _.
            choose (Fine n)
              (leb (length m.workspaces) m.previous_workspace
                || m.previous_workspace == m.current_workspace)
              _ _ (λ _. fine wm h) (λ _. switch_workspace-Fine wm m.previous_workspace h)))

  move_client_to_workspace-Fine :
      (wm : WindowManager) (ws : ℕ) (c : Client)
      → get_client wm c.id ≡ some c
      → has_place wm.monitors wm.focused_monitor ws ≡ true
      → InOrder n wm
      → Fine n (move_client_to_workspace ops settings hints wm ws c)
  unfolding move_client_to_workspace
  move_client_to_workspace-Fine wm ws c e p h =
      choose (Fine n) (is_floating c.kind) _ _
        (λ f.
          FineSaying-bind
            (move_floating_client_to_workspace ops settings wm c.id c.monitor ws false) _
            (move_floating_client_to_workspace-FineSaying ops settings n wm c.id c.monitor ws false
              c e h)
            (λ wm' b h'.
              choose (Fine n) (not b) _ _ (λ _. fine wm' h')
                (λ _.
                  focus_or_fallback-Fine ops settings hints n wm' c.monitor true h'
                    (floating-lt wm c e (ground (arith, f)) h))))
        (λ _.
          FineSaying-bind
            (move_tiled_client_to_workspace ops settings wm c.id wm.focused_monitor ws none) _
            (move_tiled_client_to_workspace-FineSaying ops settings n wm c.id wm.focused_monitor ws
              none c e h)
            (λ wm' b h'.
              choose (Fine n) (not b) _ _ (λ _. fine wm' h')
                (λ _.
                  Fine-bind (focus_workspace_at wm.focused_monitor ws c.id wm') _
                    (focus_workspace_at-Fine wm.focused_monitor ws c.id wm'
                      (InOrder-has_place wm wm' wm.focused_monitor ws h h' ∙ p) h')
                    (λ wm2 h2.
                      focus_or_fallback-Fine ops settings hints n wm2 wm.focused_monitor true h2
                        h.focused))))

  pub move_window_to_workspace-Fine :
      (wm : WindowManager) (ws : ℕ)
      → InOrder n wm
      → Fine n (move_window_to_workspace ops settings hints wm ws)
  unfolding move_window_to_workspace get_client
  move_window_to_workspace-Fine wm ws h =
      let (m, e) =
        get_elem?_total wm.monitors wm.focused_monitor
          (in_count wm wm.focused_monitor h h.focused) in
      rw (e, move_window_to_workspace)
        (choose (Fine n) (length m.workspaces == 0) _ _ (λ _. fine wm h)
          (λ _.
            choose (Fine n) (leb (length m.workspaces) ws || ws == m.current_workspace) _ _
              (λ _. fine wm h)
              (λ out.
                choose (Fine n) (wm.active_window == xcb_none) _ _ (λ _. fine wm h)
                  (λ _. elim (Option-cases (get_client wm wm.active_window)) [
                    | inl none_active ↦ rw none_active (fine wm h)
                    | inr (c, is) ↦ rw is (
                        move_client_to_workspace-Fine wm ws c
                          (subst (λ u. get_client wm u ≡ some c)
                            (sym (get_client_id wm wm.active_window c is)) is)
                          (has_place_at wm.monitors wm.focused_monitor ws m e ∙ ground (arith, out))
                          h)
                  ]))))
