-- ===== src/Wm/Activate/Ends.antt =====
-- On the calls that focus_any_window of src/lwm/wm_focus.cpp makes of itself, through
-- focus_or_fallback there and deiconify_window of src/lwm/wm.cpp: how deep they go.
use mathlib.Core.Path.{subst}
use lwm.Base.{
  ℕ, suc, ◌<◌, ◌≡◌, refl, sym, ap, ◌∙◌, ◌⊎◌, inl, inr, Bool, true, false, not, ◌&&◌, ◌||◌,
  Bool-cases, Option-cases, choose, Option, none, some, length, get_elem?_total, All-get_elem?,
  ◌==◌, if◌then◌else◌, arith,
}
use lwm.Types.{Client, Monitor, xcb_none}
use lwm.Policy.Focus.{FocusSelection}
use lwm.Layout.Tree.{DoubleOps}
use lwm.Layout.Arrange.{LayoutSettings}
use lwm.Wm.State.{WindowManager, get_client, is_managed_kind, should_be_visible, is_focus_eligible}
use lwm.Wm.Focus.{focus_selection}
use lwm.Wm.Reconcile.{apply_fullscreen_if_needed}
use lwm.Wm.Reconcile.Keeps.{apply_fullscreen_if_needed-IsSame}
use lwm.Wm.Rearrange.{change}
use lwm.Wm.Place.{has_place}
use lwm.Wm.Place.Counts.{get_client_id}
use lwm.Wm.Registry.{Entry}
use lwm.Wm.Registry.View.{found_kept}
use lwm.Wm.Registry.Keeps.{entry-IsSame, finalize_visibility_on_monitor-Keeps}
use lwm.Wm.Registry.Changes.{found-update, found-IsInPlace}
use lwm.Wm.Registry.Order.{Frame, InOrder, Fine}
use lwm.Wm.Registry.Fine.{
  fine, Fine-bind, InOrder-view, InOrder-change, InOrder-update, found_again,
}
use lwm.Wm.Active.{clear_focus, with_iconic}
use lwm.Wm.Activate.{
  focus_deiconified, deiconify_with, fallback_with, focus_client, focus_any_window,
  focus_or_fallback,
}
use lwm.Wm.Activate.Settled.{IsHere, IsSettled, focus_selection-IsSettled}
use lwm.Wm.Activate.Shown.{clear_focus-InOrder, FallsBack, focus_shown-Fine}

eligible_managed :
    (wm : WindowManager) (c : Client)
    → is_focus_eligible wm c ≡ true
    → is_managed_kind c.kind ≡ true
unfolding is_focus_eligible
eligible_managed wm c h = ground (arith, h)

module _ (ops : DoubleOps) (settings : LayoutSettings) (hints : ℕ → Option Bool) (n : Frame) where
  fall_to :
      (focus_any : WindowManager → ℕ → Bool → Option WindowManager) (wm : WindowManager) (r : Bool)
      → InOrder n wm
      → (o : Option FocusSelection)
      → ((s : FocusSelection) → o ≡ some s → Fine n (focus_any wm s.window r))
      → Fine n (elim o [ none ↦ some (clear_focus wm) | some s ↦ focus_any wm s.window r ])
  fall_to focus_any wm r h none k = fine (clear_focus wm) (clear_focus-InOrder wm h)
  fall_to focus_any wm r h (some s) k = k s refl

  -- Falling back to another window of a monitor is in order, where focusing a window that is on the
  -- shown workspace is.
  pub fallback_with-FallsBack :
      (focus_any : WindowManager → ℕ → Bool → Option WindowManager)
      → ((wm : WindowManager) (w : ℕ) (r : Bool)
          → InOrder n wm
          → IsSettled wm w
          → Fine n (focus_any wm w r))
      → FallsBack ops settings hints n (fallback_with ops settings hints focus_any)
  unfolding fallback_with
  fallback_with-FallsBack focus_any ok wm i r h lt =
      let (m, e) = get_elem?_total wm.monitors i (subst (λ k. i < k) (sym h.count) lt) in
      let (ws, cur) = get_elem?_total m.workspaces m.current_workspace (
        All-get_elem? (λ (m : Monitor). m.current_workspace < length m.workspaces) wm.monitors i
          h.registered.currents e) in
      rw e (
        rw cur (
          fall_to focus_any wm r h (focus_selection wm i m ws) (λ s k.
            ok wm s.window r h (focus_selection-IsSettled wm i m ws s h.registered e cur k))))

  -- The calls of itself that focus_any_window makes.
  module _ (again : WindowManager → ℕ → Bool → ℕ → Option WindowManager) where
    abbrev fallback_again : WindowManager → ℕ → Bool → Option WindowManager
    fallback_again = fallback_with ops settings hints (λ wm w r. again wm w r 0)

    focus_client-Fine :
        (wm : WindowManager) (r : Bool) (t : ℕ) (w : ℕ) (c : Client)
        → InOrder n wm
        → get_client wm w ≡ some c
        → c.iconic ≡ false
        → IsHere wm.monitors c ⊎ FallsBack ops settings hints n fallback_again
        → Fine n (focus_client ops settings hints again wm r t c)
    unfolding focus_client
    focus_client-Fine wm r t w c h e i can =
        choose (Fine n) (not (is_focus_eligible wm c)) _ _ (λ _. fine wm h)
          (λ _.
            choose (Fine n) (not (has_place wm.monitors c.monitor c.workspace)) _ _ (λ _. fine wm h)
              (λ p.
                let self : get_client wm c.id ≡ some c =
                  subst (λ u. get_client wm u ≡ some c) (sym (get_client_id wm w c e)) e in
                rw i (
                  rw self (
                    focus_shown-Fine ops settings hints n fallback_again wm r t c h
                      (ground (arith, p)) can))))

  focus_deiconified-Fine :
      (focus_any : WindowManager → ℕ → Option WindowManager) (wm : WindowManager) (focus : Bool)
      (c : Client)
      → InOrder n wm
      → Fine n (focus_any wm c.id)
      → Fine n (focus_deiconified ops settings hints focus_any wm focus c)
  unfolding focus_deiconified
  focus_deiconified-Fine focus_any wm focus c h ok =
      Fine-bind
        (if (focus || c.fullscreen) && c.monitor == wm.focused_monitor && should_be_visible wm c
          then focus_any wm c.id
          else some wm)
        _
        (choose (Fine n)
          ((focus || c.fullscreen) && c.monitor == wm.focused_monitor && should_be_visible wm c) _ _
          (λ _. ok) (λ _. fine wm h))
        (λ wm' h'. fine _ (
          InOrder-change (apply_fullscreen_if_needed wm') c.id wm'
            (λ d.
              entry-IsSame d (apply_fullscreen_if_needed wm' d)
                (apply_fullscreen_if_needed-IsSame wm' d))
            h'))

  -- Deiconifying a window is in order, where focusing one that is not iconic is.
  pub deiconify_with-Fine :
      (focus_any : WindowManager → ℕ → Option WindowManager)
      → ((wm : WindowManager) (w : ℕ) (c : Client)
          → InOrder n wm
          → get_client wm w ≡ some c
          → c.iconic ≡ false
          → Fine n (focus_any wm w))
      → (wm : WindowManager) (w : ℕ) (focus : Bool) (c : Client) → InOrder n wm
      → get_client wm w ≡ some c
      → Fine n (deiconify_with ops settings hints focus_any wm focus c)
  unfolding deiconify_with get_client
  deiconify_with-Fine focus_any ok wm w focus c h e =
      choose (Fine n) (not (is_managed_kind c.kind)) _ _ (λ _. fine wm h)
        (λ _.
          let self : get_client wm c.id ≡ some c =
            subst (λ u. get_client wm u ≡ some c) (sym (get_client_id wm w c e)) e in
          let mid = change (with_iconic false) c.id wm in
          let h1 : InOrder n mid =
            InOrder-update (with_iconic false) c.id c wm self refl refl refl refl refl h in
          let preferred = if c.fullscreen then c.id else xcb_none in
          let (wm2, f, k) =
            finalize_visibility_on_monitor-Keeps ops settings mid c.monitor preferred
              h1.registered in
          let (c2, e2, entries) =
            found_kept mid wm2 c.id (with_iconic false c) k
              (found-update (with_iconic false) c.id wm.clients c self refl) in
          let h3 : InOrder n wm2 = InOrder-view mid wm2 k h1 in
          rw f (
            rw e2 (
              focus_deiconified-Fine focus_any wm2 focus c2 h3 (
                ok wm2 c2.id c2 h3
                  (subst (λ u. get_client wm2 u ≡ some c2) (sym (get_client_id wm2 c.id c2 e2)) e2)
                  (ap (λ (x : Entry). x.iconic) entries)))))

  -- Focusing a window that is on the shown workspace, or sticky, needs no call of itself.
  settled-Fine :
      (fuel : ℕ) (wm : WindowManager) (w : ℕ) (r : Bool) (t : ℕ)
      → InOrder n wm
      → IsSettled wm w
      → Fine n (focus_any_window ops settings hints (suc fuel) wm w r t)
  unfolding focus_any_window
  settled-Fine fuel wm w r t h s =
      choose (Fine n) wm.showing_desktop _ _ (λ _. fine wm h)
        (λ _. rw s.registered (
          focus_client-Fine (focus_any_window ops settings hints fuel) wm r t w s.client h
            s.registered s.not_iconic (inl s.is_here)))

  falls_back :
      (fuel : ℕ)
      → FallsBack ops settings hints n
          (fallback_again (focus_any_window ops settings hints (suc fuel)))
  falls_back fuel =
      fallback_with-FallsBack (λ wm w r. focus_any_window ops settings hints (suc fuel) wm w r 0)
        (λ wm w r h s. settled-Fine fuel wm w r 0 h s)

  -- Focusing a window that is not iconic falls back at most once.
  shown-Fine :
      (fuel : ℕ) (wm : WindowManager) (w : ℕ) (c : Client) (r : Bool) (t : ℕ)
      → InOrder n wm
      → get_client wm w ≡ some c
      → c.iconic ≡ false
      → Fine n (focus_any_window ops settings hints (suc (suc fuel)) wm w r t)
  unfolding focus_any_window
  shown-Fine fuel wm w c r t h e i =
      choose (Fine n) wm.showing_desktop _ _ (λ _. fine wm h)
        (λ _. rw e (
          focus_client-Fine (focus_any_window ops settings hints (suc fuel)) wm r t w c h e i
            (inr (falls_back fuel))))

  iconic-Fine :
      (again : WindowManager → ℕ → Bool → ℕ → Option WindowManager)
      → ((wm : WindowManager) (w : ℕ) (c : Client)
          → InOrder n wm
          → get_client wm w ≡ some c
          → c.iconic ≡ false
          → Fine n (again wm w true 0))
      → FallsBack ops settings hints n (fallback_again again)
      → (wm : WindowManager) (r : Bool) (t : ℕ) (w : ℕ) (c : Client) → InOrder n wm
      → get_client wm w ≡ some c
      → c.iconic ≡ true
      → Fine n (focus_client ops settings hints again wm r t c)
  unfolding focus_client get_client deiconify_with
  iconic-Fine again ok falls wm r t w c h e i =
      choose (Fine n) (not (is_focus_eligible wm c)) _ _ (λ _. fine wm h)
        (λ el.
          choose (Fine n) (not (has_place wm.monitors c.monitor c.workspace)) _ _ (λ _. fine wm h)
            (λ _.
              let managed = eligible_managed wm c (ground (arith, el)) in
              let self : get_client wm c.id ≡ some c =
                subst (λ u. get_client wm u ≡ some c) (sym (get_client_id wm w c e)) e in
              rw i (
                Fine-bind
                  (deiconify_with ops settings hints (λ wm' w. again wm' w true 0) wm false c) _
                  (deiconify_with-Fine (λ wm' w. again wm' w true 0) ok wm w false c h e)
                  (λ wm' h'.
                    let (c', e', kind) = found_again c.id c wm wm' self h h' in
                    let place = found-IsInPlace c.id wm'.clients c' wm'.monitors e' h'.registered in
                    rw e' (
                      focus_shown-Fine ops settings hints n (fallback_again again) wm' r t c' h'
                        (place.0 (kind ∙ managed)) (inr falls))))))

  -- Focusing any window of a state in order, with three levels of calls of itself, gives a state in
  -- order: the calls are never deeper, and no list is read out of bounds. The monitors stay as many,
  -- and the same windows are managed.
  pub focus_any_window-Fine :
      (wm : WindowManager) (w : ℕ) (record_user_time : Bool) (focus_timestamp : ℕ)
      → InOrder n wm
      → Fine n (focus_any_window ops settings hints 3 wm w record_user_time focus_timestamp)
  unfolding focus_any_window
  focus_any_window-Fine wm w r t h =
      choose (Fine n) wm.showing_desktop _ _ (λ _. fine wm h)
        (λ _. elim (Option-cases (get_client wm w)) [
          | inl e ↦ rw e (fine wm h)
          | inr (c, e) ↦ rw e (elim (Bool-cases c.iconic) [
            | inl i ↦
                iconic-Fine (focus_any_window ops settings hints 2)
                  (λ wm' v d h' e' i'. shown-Fine 0 wm' v d true 0 h' e' i') (falls_back 1) wm r t w
                  c h e i
            | inr i ↦
                focus_client-Fine (focus_any_window ops settings hints 2) wm r t w c h e i
                  (inr (falls_back 1))
          ])
        ])

  pub focus_or_fallback-Fine : FallsBack ops settings hints n (focus_or_fallback ops settings hints)
  unfolding focus_or_fallback
  focus_or_fallback-Fine =
      fallback_with-FallsBack (λ wm w r. focus_any_window ops settings hints 3 wm w r 0)
        (λ wm w r h s. focus_any_window-Fine wm w r 0 h)
