-- ===== src/Wm/Convert/Toggles.antt =====
-- On toggle_window_float of src/lwm/wm.cpp: what src/lwm/core/invariants.hpp asserts.
use mathlib.Core.Path.{subst}
use lwm.Base.{
  ℕ, ◌≡◌, refl, sym, ◌∙◌, Bool, true, not, ◌&&◌, ◌||◌, choose, Option, some, ◌>>=◌, value_or,
  Option-cases, inl, inr, arith,
}
use lwm.Types.{Client, Geometry, TilingState, tiled_state, floating_state, floating_geometry}
use lwm.Layout.Tree.{DoubleOps}
use lwm.Layout.Arrange.{LayoutSettings}
use lwm.Wm.State.{
  WindowManager, get_client, is_floating, is_managed_kind, on_overlay, should_be_visible,
}
use lwm.Wm.Reconcile.Keeps.{
  Yields, same, holds_floating, apply_floating_geometry-Yields, apply_maximized_geometry-Yields,
}
use lwm.Wm.Rearrange.{change}
use lwm.Wm.Place.{is_tiled}
use lwm.Wm.Place.Counts.{get_client_id}
use lwm.Wm.Place.Floats.{try_change-Fine}
use lwm.Wm.Registry.{entry}
use lwm.Wm.Registry.Keeps.{finalize_visibility_on_monitor-Keeps}
use lwm.Wm.Registry.Changes.{found-IsInPlace}
use lwm.Wm.Registry.Order.{Frame, InOrder, Fine}
use lwm.Wm.Registry.Fine.{InOrder-change, fine, Fine-bind, Keeps-Fine}
use lwm.Wm.Activate.Ends.{focus_any_window-Fine}
use lwm.Wm.Convert.{
  without_maximized, toggled_geometry, show_toggled, toggle_kind, toggle_client,
  toggle_window_float,
}
use lwm.Wm.Convert.Stays.{convert_window_to_floating-Fine}
use lwm.Wm.Convert.Tiles.{convert_window_to_tiled-Fine}

without_maximized-entry : (c : Client) → entry (without_maximized c) ≡ entry c
without_maximized-entry c =
    choose (λ (d : Client). entry d ≡ entry c) (c.maximized_horz || c.maximized_vert) _ _
      (λ _. refl) (λ _. refl)

module _ (n : Frame) where
  toggled_geometry-Yields :
      (wm : WindowManager) (c : Client)
      → is_floating c.kind ≡ holds_floating c.tiling_state
      → Yields c (toggled_geometry wm c)
  unfolding toggled_geometry
  toggled_geometry-Yields wm c h =
      choose (Yields c)
        (is_floating c.kind && should_be_visible wm c && not c.hidden && not c.fullscreen) _ _
        (λ shows.
          let holds : holds_floating c.tiling_state ≡ true = sym h ∙ ground (arith, shows) in
          choose (Yields c) (c.maximized_horz || c.maximized_vert) _ _
            (λ _. apply_maximized_geometry-Yields wm c holds)
            (λ _. apply_floating_geometry-Yields wm c holds))
        (λ _. (c, refl, same c))

  show_toggled-Fine : (wm : WindowManager) (w : ℕ) → InOrder n wm → Fine n (show_toggled wm w)
  unfolding show_toggled get_client
  show_toggled-Fine wm w h = elim (Option-cases (get_client wm w)) [
    | inl e ↦ rw (e, show_toggled) (fine wm h)
    | inr (c, e) ↦
        rw (e, show_toggled)
          (try_change-Fine (toggled_geometry wm) w wm c e
            (toggled_geometry-Yields wm c
              (found-IsInPlace w wm.clients c wm.monitors e h.registered).1)
            h)
  ]

  module _ (ops : DoubleOps) (settings : LayoutSettings) (hints : ℕ → Option Bool)
      (geometries : ℕ → Geometry) where
    toggle_kind-Fine :
        (wm : WindowManager) (c : Client)
        → get_client wm c.id ≡ some c
        → is_managed_kind c.kind ≡ true
        → InOrder n wm
        → Fine n (toggle_kind ops settings hints geometries wm c)
    unfolding toggle_kind get_client
    toggle_kind-Fine wm c e k h =
        choose (Fine n) (is_tiled c.kind) _ _
          (λ _. convert_window_to_floating-Fine n wm geometries c.id h)
          (λ t.
            let holds : holds_floating c.tiling_state ≡ true =
              sym (found-IsInPlace c.id wm.clients c wm.monitors e h.registered).1
              ∙ ground (arith, t, k) in
            with_geometry c.tiling_state holds (λ g.
              convert_window_to_tiled-Fine n (change without_maximized c.id wm) c.id
                (some (value_or c.maximize_restore g))
                (InOrder-change without_maximized c.id wm without_maximized-entry h)))
      where
        with_geometry :
            {f : Geometry → Option WindowManager} (s : TilingState)
            → holds_floating s ≡ true
            → ((g : Geometry) → Fine n (f g))
            → Fine n (floating_geometry s >>= f)
        with_geometry (tiled_state prior) holds k = cc
        with_geometry (floating_state g saved) holds k = k g

    -- Toggling a window between tiled and floating gives a state in order.
    pub toggle_window_float-Fine :
        (wm : WindowManager) (w : ℕ)
        → InOrder n wm
        → Fine n (toggle_window_float ops settings hints geometries wm w)
    unfolding toggle_window_float toggle_client get_client
    toggle_window_float-Fine wm w h = elim (Option-cases (get_client wm w)) [
      | inl e ↦ rw (e, toggle_window_float) (fine wm h)
      | inr (c, e) ↦
          let self : get_client wm c.id ≡ some c =
            subst (λ u. get_client wm u ≡ some c) (sym (get_client_id wm w c e)) e in
          rw (e, toggle_window_float)
            (choose (Fine n) (c.fullscreen || c.iconic || on_overlay c.layer) _ _ (λ _. fine wm h)
              (λ _.
                choose (Fine n) (not (is_managed_kind c.kind)) _ _ (λ _. fine wm h)
                  (λ k.
                    choose (Fine n) wm.showing_desktop _ _ (λ _. fine wm h)
                      (λ _.
                        Fine-bind _ _
                          (Fine-bind _ _
                            (Fine-bind (toggle_kind ops settings hints geometries wm c) _
                              (toggle_kind-Fine wm c self (ground (arith, k)) h)
                              (λ wm' h'. Keeps-Fine wm' _ h' (
                                finalize_visibility_on_monitor-Keeps ops settings wm' c.monitor 0
                                  h'.registered)))
                            (λ wm' h'.
                              choose (Fine n) (is_tiled c.kind) _ _
                                (λ _. show_toggled-Fine wm' c.id h') (λ _. fine wm' h')))
                          (λ wm' h'.
                            focus_any_window-Fine ops settings hints n wm' c.id true 0 h')))))
    ]
