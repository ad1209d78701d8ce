-- ===== src/Wm/Modes/Same.antt =====
-- On the changes of a client by the modes of src/lwm/wm.cpp: the fields that stay as they are.
use lwm.Base.{
  ◌≡◌, refl, sym, ap, ◌∙◌, Bool, true, false, not, ◌&&◌, choose, choose_some, Option, none, some,
  ◌>>=◌, value_or, if◌then◌else◌, arith,
}
use lwm.Types.{Client, Geometry, TilingState, floating_state, floating_geometry}
use lwm.Wm.State.{
  WindowManager, is_floating, on_overlay, should_be_visible, is_suppressed_by_fullscreen,
}
use lwm.Wm.Reconcile.{apply_maximized_geometry}
use lwm.Wm.Reconcile.Keeps.{
  IsSame, Yields, Yields-trans, same, placed, holds_floating, on_floating,
  apply_floating_geometry-Yields, apply_maximized_geometry-Yields,
}
use lwm.Wm.Modes.{
  with_floating_geometry, set_window_layer_hint, restored_layer_hint, restore_geometry,
  clear_fullscreen_state, save_geometry, enter_fullscreen, set_window_maximized,
}

-- What the fullscreen and maximized modes change in a client.
mode-IsSame :
    (c d : Client)
    → d.id ≡ c.id
    → d.kind ≡ c.kind
    → d.monitor ≡ c.monitor
    → d.workspace ≡ c.workspace
    → d.iconic ≡ c.iconic
    → d.sticky ≡ c.sticky
    → d.layer ≡ c.layer
    → d.transient_for ≡ c.transient_for
    → d.hidden ≡ c.hidden
    → d.tiling_state ≡ c.tiling_state
    → IsSame c d
mode-IsSame c d a b e f g h i j k l = record {
  id = a;
  kind = b;
  monitor = e;
  workspace = f;
  iconic = g;
  sticky = h;
  layer = i;
  transient_for = j;
  hidden = k;
  consistent = ap holds_floating l;
}

Yields-bind :
    (c : Client) (r : Option Client) (f : Client → Option Client)
    → Yields c r
    → ((d : Client) → IsSame c d → Yields d (f d))
    → Yields c (r >>= f)
Yields-bind c r f (d, e, s) k = rw e (Yields-trans c d (f d) s (k d s))

yields : (c d : Client) → IsSame c d → Yields c (some d)
yields c d s = (d, refl, s)

with_floating_geometry-Yields :
    (g : Geometry) (c : Client)
    → holds_floating c.tiling_state ≡ true
    → Yields c (with_floating_geometry g c)
unfolding with_floating_geometry
with_floating_geometry-Yields g c h =
    on_floating
      (λ (s : TilingState).
        Yields (record c { tiling_state = s })
          (with_floating_geometry g (record c { tiling_state = s })))
      c.tiling_state h
      (λ old saved.
        let d = record c { tiling_state = floating_state old saved } in
        yields d (record c { tiling_state = floating_state g saved })
          (placed d (floating_state g saved) refl))

restore_geometry-Yields :
    (c : Client)
    → is_floating c.kind ≡ holds_floating c.tiling_state
    → Yields c (restore_geometry c)
unfolding restore_geometry
restore_geometry-Yields c h =
    choose_some (Yields c) c.fullscreen_restore _ _ (λ _. yields c c (same c))
      (λ g _.
        choose (Yields c) (is_floating c.kind) _ _
          (λ f. with_floating_geometry-Yields g c (sym h ∙ f)) (λ _. yields c c (same c)))

pub clear_fullscreen_state-Yields :
    (wm : WindowManager) (c : Client)
    → is_floating c.kind ≡ holds_floating c.tiling_state
    → Yields c (clear_fullscreen_state wm c)
unfolding clear_fullscreen_state set_window_layer_hint
clear_fullscreen_state-Yields wm c h =
    choose (Yields c) (not c.fullscreen) _ _ (λ _. yields c c (same c))
      (λ _.
        let off : Client = record c { fullscreen = false } in
        Yields-trans c off _ (mode-IsSame c off refl refl refl refl refl refl refl refl refl refl) (
          Yields-bind off (restore_geometry off) _ (restore_geometry-Yields off h) (λ d s.
            let cleared : Client = record d {
              fullscreen_restore = none;
              fullscreen_restore_layer_hint = none;
            } in
            let hinted =
              if on_overlay d.layer
              then cleared
              else set_window_layer_hint (restored_layer_hint d) cleared in
            let k : IsSame d hinted =
              choose (IsSame d) (on_overlay d.layer) cleared
                (set_window_layer_hint (restored_layer_hint d) cleared)
                (λ _. mode-IsSame d _ refl refl refl refl refl refl refl refl refl refl)
                (λ _. mode-IsSame d _ refl refl refl refl refl refl refl refl refl refl) in
            Yields-trans d hinted _ k (
              choose (Yields hinted)
                (is_floating hinted.kind
                  && should_be_visible wm hinted
                  && not hinted.hidden
                  && not (is_suppressed_by_fullscreen wm hinted))
                _ _
                (λ shows. apply_floating_geometry-Yields wm hinted (
                  k.consistent
                  ∙ (s.consistent
                      ∙ (sym h
                          ∙ (sym (ap is_floating (k.kind ∙ s.kind)) ∙ ground (arith, shows))))))
                (λ _. yields hinted hinted (same hinted))))))

save_geometry-Yields :
    (c : Client) → is_floating c.kind ≡ holds_floating c.tiling_state → Yields c (save_geometry c)
unfolding save_geometry
save_geometry-Yields c h =
    choose (Yields c) (not c.fullscreen && is_floating c.kind) _ _
      (λ f.
        on_floating
          (λ (s : TilingState).
            Yields c
              (floating_geometry s >>= (λ g. some (record c { fullscreen_restore = some g }))))
          c.tiling_state (sym h ∙ ground (arith, f))
          (λ g saved.
            yields c (record c { fullscreen_restore = some g })
              (mode-IsSame c _ refl refl refl refl refl refl refl refl refl refl)))
      (λ _. yields c c (same c))

pub enter_fullscreen-Yields :
    (c : Client)
    → is_floating c.kind ≡ holds_floating c.tiling_state
    → Yields c (enter_fullscreen c)
unfolding enter_fullscreen set_window_layer_hint
enter_fullscreen-Yields c h =
    Yields-bind c (save_geometry c) _ (save_geometry-Yields c h)
      (λ d s. yields d _ (mode-IsSame d _ refl refl refl refl refl refl refl refl refl refl))

pub set_window_maximized-Yields :
    (wm : WindowManager) (horiz vert : Bool) (c : Client)
    → is_floating c.kind ≡ holds_floating c.tiling_state
    → Yields c (set_window_maximized wm horiz vert c)
unfolding set_window_maximized
set_window_maximized-Yields wm horiz vert c h =
    let d : Client = record c { maximized_horz = horiz; maximized_vert = vert } in
    let k : IsSame c d = mode-IsSame c d refl refl refl refl refl refl refl refl refl refl in
    choose (Yields c) c.fullscreen _ _ (λ _. yields c d k)
      (λ _.
        choose (Yields c) (not horiz && not vert) _ _
          (λ _.
            choose_some (Yields c) c.maximize_restore _ _ (λ _. yields c d k)
              (λ g _.
                choose (Yields c) (is_floating c.kind) _ _
                  (λ f.
                    Yields-bind c _ _
                      (Yields-bind c (with_floating_geometry g d) _
                        (Yields-trans c d _ k (with_floating_geometry-Yields g d (sym h ∙ f)))
                        (λ e s.
                          choose (Yields e) (should_be_visible wm e && not e.hidden) _ _
                            (λ _. apply_floating_geometry-Yields wm e (s.consistent ∙ (sym h ∙ f)))
                            (λ _. yields e e (same e))))
                      (λ e s.
                        yields e _
                          (mode-IsSame e _ refl refl refl refl refl refl refl refl refl refl)))
                  (λ _.
                    yields c (record d { maximize_restore = none })
                      (mode-IsSame c _ refl refl refl refl refl refl refl refl refl refl))))
          (λ _.
            choose (Yields c) (is_floating c.kind) _ _
              (λ f.
                on_floating
                  (λ (s : TilingState). Yields c (
                    floating_geometry s >>= (λ g.
                      apply_maximized_geometry wm
                        (record d { maximize_restore = some (value_or c.maximize_restore g) }))))
                  c.tiling_state (sym h ∙ f)
                  (λ g saved.
                    let e : Client = record d {
                      maximize_restore = some (value_or c.maximize_restore g);
                    } in
                    Yields-trans c e (apply_maximized_geometry wm e)
                      (mode-IsSame c e refl refl refl refl refl refl refl refl refl refl)
                      (apply_maximized_geometry-Yields wm e (sym h ∙ f))))
              (λ _. yields c d k)))
