-- ===== src/Wm/Place/Floats.antt =====
-- On move_floating_client_to_workspace of src/lwm/wm.cpp and apply_visible_floating_geometry of
-- src/lwm/wm_floating.cpp: what src/lwm/core/invariants.hpp asserts.
use mathlib.Core.Path.{subst}
use lwm.Base.{
  ℕ, ◌≡◌, refl, sym, ap, ◌∙◌, Bool, true, false, not, ◌&&◌, ◌||◌, choose, Option, none, some, ◌>>=◌,
  get_elem?, get_elem?_total, ◌==◌, arith,
}
use lwm.Types.{Client, Kind, Monitor, TilingState, tiled_state, floating_state, working_area}
use lwm.Floating.{place_floating}
use lwm.Layout.Tree.{DoubleOps}
use lwm.Layout.Arrange.{LayoutSettings}
use lwm.Wm.State.{WindowManager, get_client, is_floating, should_be_visible}
use lwm.Wm.Reconcile.{apply_fullscreen_if_needed}
use lwm.Wm.Reconcile.Keeps.{
  Yields, same, holds_floating, apply_floating_geometry-Yields, apply_maximized_geometry-Yields,
  apply_fullscreen_if_needed-IsSame,
}
use lwm.Wm.Rearrange.{change}
use lwm.Wm.Place.{
  is_tiled, has_place, placed_at, assign_window_workspace, try_change, visible_floating_geometry,
  apply_visible_floating_geometry, placed_on, place_on_monitor, move_floating, move_floating_client,
  move_floating_client_to_workspace, finalize_move_visibility,
}
use lwm.Wm.Place.Counts.{get_client_id, place-lt}
use lwm.Wm.Place.Stays.{finalize_move_visibility-Keeps}
use lwm.Wm.Registry.Changes.{found-update, found-IsInPlace, IsRegistry-change}
use lwm.Wm.Registry.Order.{Frame, InOrder, Fine, FineSaying}
use lwm.Wm.Registry.Fine.{
  InOrder-moved, InOrder-update, fine, fine_saying, Fine-bind, Fine-say, Keeps-Fine, found_again,
}

visible_floating_geometry-Yields :
    (wm : WindowManager) (c : Client)
    → is_floating c.kind ≡ holds_floating c.tiling_state
    → Yields c (visible_floating_geometry wm c)
unfolding visible_floating_geometry
visible_floating_geometry-Yields wm c h =
    choose (Yields c) (not (is_floating c.kind) || c.hidden || not (should_be_visible wm c)) _ _
      (λ _. (c, refl, same c))
      (λ floats.
        let holds : holds_floating c.tiling_state ≡ true = sym h ∙ ground (arith, floats) in
        choose (Yields c) c.fullscreen _ _
          (λ _. (apply_fullscreen_if_needed wm c, refl, apply_fullscreen_if_needed-IsSame wm c))
          (λ _.
            choose (Yields c) (c.maximized_horz || c.maximized_vert) _ _
              (λ _. apply_maximized_geometry-Yields wm c holds)
              (λ _. apply_floating_geometry-Yields wm c holds)))

module _ {n : Frame} where
  pub try_change-Fine :
      (f : Client → Option Client) (w : ℕ) (wm : WindowManager) (c : Client)
      → get_client wm w ≡ some c
      → Yields c (f c)
      → InOrder n wm
      → Fine n (try_change f w wm)
  unfolding try_change get_client
  try_change-Fine f w wm c e (d, k, s) h =
      rw (e, try_change)
        (rw k (
          fine _ (
            InOrder-update (λ (x : Client). d) w c wm e s.id s.kind s.monitor s.workspace
              s.consistent h)))

  pub apply_visible_floating_geometry-Fine :
      (w : ℕ) (wm : WindowManager) (c : Client)
      → get_client wm w ≡ some c
      → InOrder n wm
      → Fine n (apply_visible_floating_geometry wm w)
  unfolding apply_visible_floating_geometry get_client
  apply_visible_floating_geometry-Fine w wm c e h =
      try_change-Fine (visible_floating_geometry wm) w wm c e
        (visible_floating_geometry-Yields wm c
          (found-IsInPlace w wm.clients c wm.monitors e h.registered).1)
        h

  -- Giving a client that is not tiled another place.
  assign-InOrder :
      (w a b : ℕ) (wm : WindowManager) (c : Client)
      → get_client wm w ≡ some c
      → is_tiled c.kind ≡ false
      → has_place wm.monitors a b ≡ true
      → InOrder n wm
      → InOrder n (assign_window_workspace wm w a b)
  unfolding assign_window_workspace get_client
  assign-InOrder w a b wm c e t p h =
      rw (p, assign_window_workspace)
        (InOrder-moved (placed_at a b) w c wm (change (placed_at a b) w wm) e refl refl refl refl
          refl
          (IsRegistry-change w wm.clients c (placed_at a b) wm.monitors wm.monitors e
            (record {
              id = refl;
              in_place = (λ _. p, (found-IsInPlace w wm.clients c wm.monitors e h.registered).1);
              places = λ i j. refl;
              currents = h.registered.currents;
              counted = λ i j v. rw t refl;
            })
            h.registered)
          refl h)

not_tiled : (k : Kind) → is_floating k ≡ true → is_tiled k ≡ false
not_tiled k h = ground arith

-- What placing a floating client on the target's work area gives.
record Placed (n : Frame) (wm : WindowManager) (w : ℕ) (c : Client) (r : Option WindowManager)
    : Type 0 where
  pub state : WindowManager
  pub is : r ≡ some state
  pub in_order : InOrder n state
  pub client : Client
  pub registered : get_client state w ≡ some client
  pub kind : client.kind ≡ c.kind
  pub monitors : state.monitors ≡ wm.monitors

place_on_monitor-Placed :
    (n : Frame) (wm : WindowManager) (i : ℕ) (c : Client) (m : Monitor) (s : TilingState)
    → get_client wm c.id ≡ some c
    → get_elem? wm.monitors i ≡ some m
    → c.tiling_state ≡ s
    → holds_floating s ≡ true
    → InOrder n wm
    → Placed n wm c.id c (place_on_monitor wm c.id i)
unfolding place_on_monitor placed_on try_change get_client
place_on_monitor-Placed n wm i c m (tiled_state prior) e at is holds h = cc
place_on_monitor-Placed n wm i c m (floating_state g saved) e at is holds h =
    let s = floating_state (place_floating (working_area m) g.width g.height none) saved in
    let d : Client = record c { tiling_state = s } in
    record {
      state = change (λ (x : Client). d) c.id wm;
      is = rw (at, place_on_monitor) (rw e (rw is refl));
      in_order =
          InOrder-update (λ (x : Client). d) c.id c wm e refl refl refl refl
            (sym (ap holds_floating is)) h;
      client = d;
      registered = found-update (λ (x : Client). d) c.id wm.clients c e refl;
      kind = refl;
      monitors = refl;
    }

module _ (ops : DoubleOps) (settings : LayoutSettings) (n : Frame) where
  move-Placed-FineSaying :
      (wm : WindowManager) (c : Client) (a b : ℕ) (r : Option WindowManager)
      → is_floating c.kind ≡ true
      → has_place wm.monitors a b ≡ true
      → Placed n wm c.id c r
      → FineSaying n (
          r
          >>= (λ wm'.
              finalize_move_visibility ops settings
                (assign_window_workspace wm' c.id a b)
                c.monitor
                a)
          >>= (λ wm'. apply_visible_floating_geometry wm' c.id)
          >>= (λ wm'. some (wm', true)))
  unfolding get_client
  move-Placed-FineSaying wm c a b r f p k =
      let assigned : InOrder n (assign_window_workspace k.state c.id a b) =
        assign-InOrder c.id a b k.state k.client k.registered
          (not_tiled k.client.kind (ap is_floating k.kind ∙ f)) (rw k.monitors p) k.in_order in
      rw k.is (
        Fine-say
          (finalize_move_visibility ops settings (assign_window_workspace k.state c.id a b)
              c.monitor a
            >>= (λ wm'. apply_visible_floating_geometry wm' c.id))
          _
          (Fine-bind
            (finalize_move_visibility ops settings (assign_window_workspace k.state c.id a b)
              c.monitor a)
            _
            (Keeps-Fine (assign_window_workspace k.state c.id a b) _ assigned (
              finalize_move_visibility-Keeps ops settings (assign_window_workspace k.state c.id a b)
                c.monitor a assigned.registered))
            (λ wm' h'.
              let (c', e', _) = found_again c.id k.client k.state wm' k.registered k.in_order h' in
              apply_visible_floating_geometry-Fine c.id wm' c' e' h'))
          (λ wm' h'. fine_saying wm' true h'))

  pub move_floating_client_to_workspace-FineSaying :
      (wm : WindowManager) (w a b : ℕ) (place : Bool) (c : Client)
      → get_client wm w ≡ some c
      → InOrder n wm
      → FineSaying n (move_floating_client_to_workspace ops settings wm w a b place)
  unfolding move_floating_client_to_workspace move_floating_client move_floating get_client
  move_floating_client_to_workspace-FineSaying wm w a b place c e h =
      rw (e, move_floating_client_to_workspace)
        (choose (FineSaying n) (not (is_floating c.kind)) _ _ (λ _. fine_saying wm false h)
          (λ f.
            choose (FineSaying n) (not (has_place wm.monitors a b)) _ _
              (λ _. fine_saying wm false h)
              (λ p.
                choose (FineSaying n) (c.monitor == a && c.workspace == b) _ _
                  (λ _. fine_saying wm true h)
                  (λ _.
                    let floats : is_floating c.kind ≡ true = ground (arith, f) in
                    let there : has_place wm.monitors a b ≡ true = ground (arith, p) in
                    let self : get_client wm c.id ≡ some c =
                      subst (λ u. get_client wm u ≡ some c) (sym (get_client_id wm w c e)) e in
                    let in_place = found-IsInPlace w wm.clients c wm.monitors e h.registered in
                    let (m, at) = get_elem?_total wm.monitors a (place-lt wm.monitors a b there) in
                    move-Placed-FineSaying wm c a b _ floats there (
                      choose (Placed n wm c.id c) (not (c.monitor == a) && place) _ _
                        (λ _.
                          place_on_monitor-Placed n wm a c m c.tiling_state self at refl
                            (sym in_place.1 ∙ floats) h)
                        (λ _. record {
                          state = wm;
                          is = refl;
                          in_order = h;
                          client = c;
                          registered = self;
                          kind = refl;
                          monitors = refl;
                        }))))))
