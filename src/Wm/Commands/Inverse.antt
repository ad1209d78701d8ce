-- ===== src/Wm/Commands/Inverse.antt =====
-- On focus_monitor of src/lwm/wm_workspace.cpp: the monitor that has the focus after it.
use mathlib.Core.Option.{some-injective}
use mathlib.Core.Path.{subst}
use lwm.Base.{
  ℕ, suc, ◌-◌, ◌<◌, ◌≡◌, refl, sym, ap, ◌∙◌, inl, inr, Bool, true, not, choose, choose_some, Option,
  some, All-get_elem?, length, get_elem?_total, leb, ◌==◌, if◌then◌else◌, arith,
}
use lwm.Base.Int.{ℤ, pos, negsuc, ◌+ℤ◌}
use lwm.Types.{Client, Monitor}
use lwm.Policy.Workspace.{set_workspace_focus}
use lwm.Layout.Tree.{DoubleOps}
use lwm.Layout.Arrange.{LayoutSettings}
use lwm.Wm.State.{WindowManager, get_client, is_floating, is_focus_eligible}
use lwm.Wm.Focus.{focus_selection}
use lwm.Wm.Switch.Stays.{apply_workspace_switch_current}
use lwm.Wm.Place.{has_place, with_workspace}
use lwm.Wm.Place.Counts.{get_client_id, has_place-workspace}
use lwm.Wm.Registry.Order.{Frame, InOrder}
use lwm.Wm.Registry.Fine.{InOrder-focused}
use lwm.Wm.Active.{clear_focus, activate, finish_focus}
use lwm.Wm.Activate.{
  switch_for, focus_floating, focus_tiled, focus_shown, fallback_with, focus_client,
  focus_any_window, focus_or_fallback,
}
use lwm.Wm.Activate.Settled.{IsHere, IsSettled, focus_selection-IsSettled}
use lwm.Wm.Activate.Near.{focus_selection-monitor}
use lwm.Wm.Activate.Shown.{IsHere-activated}
use lwm.Wm.Commands.{wrap_index, focus_monitor}
use lwm.Wm.Commands.Wrap.{wrap_index-lt, wrap-next, wrap-previous, wrap_index-inverse}
use lwm.Wm.Commands.Monitors.{focus_monitor-Fine}

-- A result whose focused monitor is the one at an index.
abbrev pub Focuses : ℕ → Option WindowManager → Type 0
Focuses i r = (wm : WindowManager) × (r ≡ some wm) × (wm.focused_monitor ≡ i)

finish_focus-focused :
    (hints : ℕ → Option Bool) (wm : WindowManager) (w : ℕ) (r : Bool) (t : ℕ)
    → (finish_focus hints wm w r t).focused_monitor ≡ wm.focused_monitor
unfolding finish_focus
finish_focus-focused hints wm w r t =
    choose (λ (x : WindowManager). x.focused_monitor ≡ wm.focused_monitor)
      (not (wm.active_window == w)) _ _ (λ _. refl) (λ _. refl)

module _ (ops : DoubleOps) (settings : LayoutSettings) (hints : ℕ → Option Bool) where
  switch_for-Focuses :
      (suppressed go_on : WindowManager → Option WindowManager) (wm : WindowManager) (c : Client)
      (i : ℕ)
      → IsHere wm.monitors c
      → Focuses i (go_on wm)
      → Focuses i (switch_for ops settings hints suppressed go_on wm c)
  unfolding switch_for
  switch_for-Focuses suppressed go_on wm c i here go =
      choose (Focuses i) c.sticky _ _ (λ _. go)
        (λ s. elim here [
          | inl t ↦ absurd (ground (arith, s, t))
          | inr (m, e, cur) ↦
              rw
                (apply_workspace_switch_current ops settings hints wm c.monitor c.workspace m e cur)
                go
        ])

  focus_shown-Focuses :
      (fallback : WindowManager → ℕ → Bool → Option WindowManager) (wm : WindowManager) (r : Bool)
      (t : ℕ) (c : Client)
      → has_place wm.monitors c.monitor c.workspace ≡ true
      → IsHere wm.monitors c
      → Focuses c.monitor (focus_shown ops settings hints fallback wm r t c)
  unfolding focus_shown focus_floating focus_tiled activate
  focus_shown-Focuses fallback wm r t c p here =
      let (ws, e) = has_place-workspace wm.monitors c.monitor c.workspace p in
      let there : WindowManager = record wm { focused_monitor = c.monitor } in
      let focused = with_workspace there c.monitor c.workspace (set_workspace_focus ws c.id) in
      choose (Focuses c.monitor) (is_floating c.kind) _ _
        (λ _.
          switch_for-Focuses _ _ there c c.monitor here
            (_, refl, finish_focus-focused hints (activate there c.id) c.id r t))
        (λ _. rw e (
          switch_for-Focuses _ _ (activate focused c.id) c c.monitor
            (IsHere-activated there c ws here)
            (_, refl, finish_focus-focused hints (activate focused c.id) c.id r t)))

  -- Focusing a settled window of the focused monitor stays on it.
  settled-Focuses :
      (fuel : ℕ) (wm : WindowManager) (w : ℕ) (r : Bool) (t : ℕ) (s : IsSettled wm w)
      → s.client.monitor ≡ wm.focused_monitor
      → Focuses wm.focused_monitor (focus_any_window ops settings hints (suc fuel) wm w r t)
  unfolding focus_any_window focus_client
  settled-Focuses fuel wm w r t s on =
      let c = s.client in
      let self : get_client wm c.id ≡ some c =
        subst (λ u. get_client wm u ≡ some c) (sym (get_client_id wm w c s.registered))
          s.registered in
      let falls =
        fallback_with ops settings hints
          (λ wm2 w' r'. focus_any_window ops settings hints fuel wm2 w' r' 0) in
      choose (Focuses wm.focused_monitor) wm.showing_desktop _ _ (λ _. (wm, refl, refl))
        (λ _. rw s.registered (
          choose (Focuses wm.focused_monitor) (not (is_focus_eligible wm c)) _ _
            (λ _. (wm, refl, refl))
            (λ _.
              choose (Focuses wm.focused_monitor)
                (not (has_place wm.monitors c.monitor c.workspace)) _ _ (λ _. (wm, refl, refl))
                (λ p. rw s.not_iconic (
                  rw self (
                    subst (λ k. Focuses k (focus_shown ops settings hints falls wm r t c)) on
                      (focus_shown-Focuses falls wm r t c (ground (arith, p)) s.is_here)))))))

  focus_or_fallback-Focuses :
      (n : Frame) (wm : WindowManager) (r : Bool)
      → InOrder n wm
      → Focuses wm.focused_monitor (focus_or_fallback ops settings hints wm wm.focused_monitor r)
  unfolding focus_or_fallback fallback_with clear_focus
  focus_or_fallback-Focuses n wm r h =
      let i = wm.focused_monitor in
      let (m, e) = get_elem?_total wm.monitors i (subst (λ k. i < k) (sym h.count) h.focused) in
      let (ws, cur) = get_elem?_total m.workspaces m.current_workspace (
        All-get_elem? (λ (m : Monitor). m.current_workspace < length m.workspaces) wm.monitors i
          h.registered.currents e) in
      rw e (
        rw cur (
          choose_some (Focuses i) (focus_selection wm i m ws) _ _
            (λ _. (clear_focus wm, refl, refl))
            (λ s k.
              let t = focus_selection-IsSettled wm i m ws s h.registered e cur k in
              settled-Focuses 2 wm s.window r 0 t
                (focus_selection-monitor wm i m ws s t.client h.registered e cur k t.registered))))

  -- A result in order whose focused monitor is the one at an index.
  abbrev Goes : Frame → ℕ → Option WindowManager → Type 0
  Goes n i r = (wm : WindowManager) × (r ≡ some wm) × InOrder n wm × (wm.focused_monitor ≡ i)

  focus_monitor-Focuses :
      (n : Frame) (wm : WindowManager) (d : ℤ)
      → InOrder n wm
      → Focuses
          (wrap_index (length wm.monitors) (pos wm.focused_monitor +ℤ d))
          (focus_monitor ops settings hints wm d)
  unfolding focus_monitor
  focus_monitor-Focuses n wm d h =
      let target = wrap_index (length wm.monitors) (pos wm.focused_monitor +ℤ d) in
      let inside : wm.focused_monitor < length wm.monitors =
        subst (λ k. wm.focused_monitor < k) (sym h.count) h.focused in
      let lt : target < length wm.monitors =
        wrap_index-lt (length wm.monitors) (pos wm.focused_monitor +ℤ d) (omega (arith, inside)) in
      choose (Focuses target) (leb (length wm.monitors) 1) _ _
        (λ one. (wm, refl, ground (arith, one, inside, lt)))
        (λ _.
          focus_or_fallback-Focuses n (record wm { focused_monitor = target }) true
            (InOrder-focused wm target (subst (λ k. target < k) h.count lt) h))

  goes :
      (n : Frame) (wm : WindowManager) (d : ℤ)
      → InOrder n wm
      → Goes n
          (wrap_index n.count (pos wm.focused_monitor +ℤ d))
          (focus_monitor ops settings hints wm d)
  goes n wm d h =
      let (wm1, e, k) = focus_monitor-Fine ops settings hints n wm d h in
      let (wm2, e2, f) = focus_monitor-Focuses n wm d h in
      let same = some-injective wm2 wm1 (sym e2 ∙ e) in
      (
        wm1,
        e,
        k,
        sym (ap (λ (x : WindowManager). x.focused_monitor) same)
            ∙ (f ∙ ap (λ l. wrap_index l (pos wm.focused_monitor +ℤ d)) h.count),
      )

  -- Going to the monitor in one direction and then in the other.
  there_and_back :
      (n : Frame) (wm : WindowManager) (d back : ℤ) (i : ℕ)
      → InOrder n wm
      → wrap_index n.count (pos wm.focused_monitor +ℤ d) ≡ i
      → wrap_index n.count (pos (wrap_index n.count (pos wm.focused_monitor +ℤ d)) +ℤ back)
        ≡ wm.focused_monitor
      → (wm1 : WindowManager) × (wm2 : WindowManager) × (focus_monitor ops settings hints wm d
          ≡ some wm1)
        × (wm1.focused_monitor ≡ i)
        × (focus_monitor ops settings hints wm1 back ≡ some wm2)
        × (wm2.focused_monitor ≡ wm.focused_monitor)
  there_and_back n wm d back i h is round =
      let (wm1, e1, k1, f1) = goes n wm d h in
      let (wm2, e2, k2, f2) = goes n wm1 back k1 in
      (wm1, wm2, e1, f1 ∙ is, e2, f2 ∙ (ap (λ k. wrap_index n.count (pos k +ℤ back)) f1 ∙ round))

  -- In a state in order, going to the next monitor focuses the one after the focused monitor, or the
  -- first after the last; going to the previous one focuses the one before it, or the last before
  -- the first. The window that gets the focus there does not change this. Going the other way
  -- then comes back to the monitor at the start.
  pub focus_monitor-inverse :
      (n : Frame) (wm : WindowManager)
      → InOrder n wm
      → ((wm1 : WindowManager) × (wm2 : WindowManager) × (focus_monitor ops settings hints wm
              (pos 1)
            ≡ some wm1)
          × (wm1.focused_monitor
              ≡ (if suc wm.focused_monitor == n.count then 0 else suc wm.focused_monitor))
          × (focus_monitor ops settings hints wm1 (negsuc 0) ≡ some wm2)
          × (wm2.focused_monitor ≡ wm.focused_monitor))
        × ((wm1 : WindowManager) × (wm2 : WindowManager) × (focus_monitor ops settings hints wm
                (negsuc 0)
              ≡ some wm1)
            × (wm1.focused_monitor
                ≡ (if wm.focused_monitor == 0 then n.count - 1 else wm.focused_monitor - 1))
            × (focus_monitor ops settings hints wm1 (pos 1) ≡ some wm2)
            × (wm2.focused_monitor ≡ wm.focused_monitor))
  focus_monitor-inverse n wm h =
      let (up, down) = wrap_index-inverse n.count wm.focused_monitor h.focused in
      (
        there_and_back n wm (pos 1) (negsuc 0) _ h (wrap-next n.count wm.focused_monitor h.focused)
            up,
        there_and_back n wm (negsuc 0) (pos 1) _ h
            (wrap-previous n.count wm.focused_monitor h.focused) down,
      )
