-- ===== src/Wm/Modes/Stays.antt =====
-- On set_fullscreen, set_window_sticky and set_window_maximized of src/lwm/wm.cpp: what
-- src/lwm/core/invariants.hpp asserts.
use mathlib.Core.Path.{subst}
use lwm.Base.{
  ℕ, ◌<◌, ◌≡◌, refl, sym, Bool, false, not, ◌&&◌, ◌||◌, choose, Option, some, length, ltb, ◌==◌,
  if◌then◌else◌, arith,
}
use lwm.Types.{Client, xcb_none}
use lwm.Layout.Tree.{DoubleOps}
use lwm.Layout.Arrange.{LayoutSettings}
use lwm.Wm.State.{WindowManager, get_client, is_floating, is_managed_kind, on_overlay}
use lwm.Wm.Reconcile.Keeps.{Yields}
use lwm.Wm.Rearrange.{change, finalize_visibility_on_monitor}
use lwm.Wm.Place.{try_change}
use lwm.Wm.Place.Counts.{get_client_id}
use lwm.Wm.Place.Floats.{try_change-Fine, apply_visible_floating_geometry-Fine}
use lwm.Wm.Registry.Keeps.{finalize_visibility_on_monitor-Keeps}
use lwm.Wm.Registry.Changes.{found-IsInPlace}
use lwm.Wm.Registry.Order.{Frame, InOrder, Fine}
use lwm.Wm.Registry.Fine.{InOrder-update, fine, Fine-bind, Keeps-Fine, found_again}
use lwm.Wm.Active.{is_suppressed}
use lwm.Wm.Activate.Ends.{focus_or_fallback-Fine}
use lwm.Wm.Activate.Stays.{repair_focus_after_visibility_change-Fine}
use lwm.Wm.Modes.{
  clear_fullscreen_state, enter_fullscreen, set_window_maximized, with_sticky, show_fullscreen,
  set_fullscreen_of, set_fullscreen, show_sticky, set_window_sticky,
}
use lwm.Wm.Modes.Same.{
  clear_fullscreen_state-Yields, enter_fullscreen-Yields, set_window_maximized-Yields,
}

module _ (ops : DoubleOps) (settings : LayoutSettings) (hints : ℕ → Option Bool) (n : Frame) where
  show_fullscreen-Fine :
      (start : WindowManager) (c : Client) (enabled : Bool) (wm : WindowManager)
      → get_client start c.id ≡ some c
      → InOrder n start
      → InOrder n wm
      → Fine n (show_fullscreen ops settings hints c enabled wm)
  unfolding show_fullscreen get_client
  show_fullscreen-Fine start c enabled wm e h0 h =
      let preferred = if enabled then c.id else xcb_none in
      Fine-bind _ _
        (Fine-bind (finalize_visibility_on_monitor ops settings wm c.monitor preferred) _
          (Keeps-Fine wm _ h
            (finalize_visibility_on_monitor-Keeps ops settings wm c.monitor preferred h.registered))
          (λ wm' h'.
            choose (Fine n) (is_floating c.kind) _ _
              (λ _.
                let (c', e', _) = found_again c.id c start wm' e h0 h' in
                apply_visible_floating_geometry-Fine c.id wm' c' e' h')
              (λ _. fine wm' h')))
        (λ wm' h'.
          choose (Fine n)
            (ltb c.monitor (length wm'.monitors)
              && c.monitor == wm'.focused_monitor
              && (wm'.active_window == xcb_none || is_suppressed wm' wm'.active_window))
            _ _
            (λ k.
              let lt : c.monitor < length wm'.monitors = ground (arith, k) in
              focus_or_fallback-Fine ops settings hints n wm' c.monitor false h'
                (subst (λ j. c.monitor < j) h'.count lt))
            (λ _. fine wm' h'))

  pub set_fullscreen-Fine :
      (wm : WindowManager) (w : ℕ) (enabled : Bool) (c : Client)
      → get_client wm w ≡ some c
      → InOrder n wm
      → Fine n (set_fullscreen ops settings hints wm w enabled)
  unfolding set_fullscreen set_fullscreen_of get_client
  set_fullscreen-Fine wm w enabled c e h =
      let self : get_client wm c.id ≡ some c =
        subst (λ u. get_client wm u ≡ some c) (sym (get_client_id wm w c e)) e in
      let holds = (found-IsInPlace w wm.clients c wm.monitors e h.registered).1 in
      rw (e, set_fullscreen)
        (choose (Fine n) (enabled && on_overlay c.layer) _ _ (λ _. fine wm h)
          (λ _.
            choose (Fine n) (not enabled && not c.fullscreen) _ _ (λ _. fine wm h)
              (λ _.
                choose (Fine n) (not (is_managed_kind c.kind)) _ _ (λ _. fine wm h)
                  (λ _.
                    Fine-bind
                      (try_change (if enabled then enter_fullscreen else clear_fullscreen_state wm)
                        c.id wm)
                      _
                      (try_change-Fine
                        (if enabled then enter_fullscreen else clear_fullscreen_state wm) c.id wm c
                        self
                        (choose (λ (f : Client → Option Client). Yields c (f c)) enabled
                          enter_fullscreen (clear_fullscreen_state wm)
                          (λ _. enter_fullscreen-Yields c holds)
                          (λ _. clear_fullscreen_state-Yields wm c holds))
                        h)
                      (λ wm' h'. show_fullscreen-Fine wm c enabled wm' self h h')))))

  pub set_window_sticky-Fine :
      (wm : WindowManager) (w : ℕ) (enabled : Bool) (c : Client)
      → get_client wm w ≡ some c
      → InOrder n wm
      → Fine n (set_window_sticky ops settings hints wm w enabled)
  unfolding set_window_sticky show_sticky get_client
  set_window_sticky-Fine wm w enabled c e h =
      let self : get_client wm c.id ≡ some c =
        subst (λ u. get_client wm u ≡ some c) (sym (get_client_id wm w c e)) e in
      let mid = change (with_sticky enabled) c.id wm in
      let h1 : InOrder n mid =
        InOrder-update (with_sticky enabled) c.id c wm self refl refl refl refl refl h in
      rw (e, set_window_sticky)
        (Fine-bind (finalize_visibility_on_monitor ops settings mid c.monitor xcb_none) _
          (Keeps-Fine mid _ h1 (
            finalize_visibility_on_monitor-Keeps ops settings mid c.monitor xcb_none h1.registered))
          (λ wm' h'.
            choose (Fine n) (c.id == wm'.active_window) _ _
              (λ _.
                repair_focus_after_visibility_change-Fine ops settings hints n wm' c.monitor false
                  h')
              (λ _. fine wm' h')))

  pub set_window_maximized-Fine :
      (wm : WindowManager) (w : ℕ) (horiz vert : Bool) (c : Client)
      → get_client wm w ≡ some c
      → InOrder n wm
      → Fine n (try_change (set_window_maximized wm horiz vert) w wm)
  unfolding get_client
  set_window_maximized-Fine wm w horiz vert c e h =
      try_change-Fine (set_window_maximized wm horiz vert) w wm c e
        (set_window_maximized-Yields wm horiz vert c
          (found-IsInPlace w wm.clients c wm.monitors e h.registered).1)
        h
