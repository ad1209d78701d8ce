-- ===== src/Wm/Reconcile/Covered.antt =====
-- On reconcile_visibility_for_monitor of src/lwm/wm.cpp: the windows beside a fullscreen owner.
use mathlib.Core.Option.{some-injective}
use mathlib.Core.Path.{subst}
use lwm.Base.{
  ℕ, ◌<◌, ◌≡◌, ◌≢◌, ap, sym, ◌∙◌, ◌⊎◌, inl, inr, true, false, not, Bool-cases, some, All, length,
  ◌==◌, arith,
}
use lwm.Base.Sort.{keep, keep-imp}
use lwm.Types.{xcb_none, Client}
use lwm.Policy.Visibility.{is_window_visible}
use lwm.Wm.State.{
  WindowManager, is_managed_kind, on_overlay, owner_of, is_covered_by, should_be_visible,
  is_suppressed_by_fullscreen,
}
use lwm.Wm.Reconcile.{should_show, is_on, reconcile_visibility_for_monitor}
use lwm.Wm.Reconcile.Keeps.{IsConsistent}
use lwm.Wm.Reconcile.Showing.{IsHiddenAs}
use lwm.Wm.Reconcile.Shows.{reconcile_visibility_for_monitor-IsHiddenAs}

-- A client that is off the screen, on the overlay layer, the owner, or a transient of the owner.
abbrev pub MayShow : ℕ → Client → Type 0
MayShow owner d =
    (d.hidden ≡ true) ⊎ (on_overlay d.layer ≡ true) ⊎ (d.id ≡ owner) ⊎ (d.transient_for ≡ owner)

visible_not_iconic :
    (wm : WindowManager) (d : Client) → should_be_visible wm d ≡ true → d.iconic ≡ false
unfolding should_be_visible is_window_visible
visible_not_iconic wm d h = elim (Bool-cases d.iconic) [
  | inl e ↦ absurd (ground (arith, h, e))
  | inr e ↦ e
]

uncovered :
    (wm : WindowManager) (d : Client)
    → is_suppressed_by_fullscreen wm d ≡ false
    → is_managed_kind d.kind ≡ true
    → on_overlay d.layer ≡ false
    → d.iconic ≡ false
    → should_be_visible wm d ≡ true
    → is_covered_by d (owner_of wm d.monitor) ≡ false
unfolding is_suppressed_by_fullscreen
uncovered wm d free managed under up shows = ground (arith, free, managed, under, up, shows)

uncovered_cases :
    (d : Client) (owner : ℕ)
    → owner ≢ xcb_none
    → is_covered_by d (some owner) ≡ false
    → (d.id ≡ owner) ⊎ (d.transient_for ≡ owner)
uncovered_cases d owner ne h = elim (Bool-cases (d.id == owner)) [
  | inl e ↦ inl (ground (arith, e))
  | inr e ↦ inr (ground (arith, e, h, ne))
]

shown-MayShow :
    (wm : WindowManager) (i owner : ℕ) (d : Client)
    → owner_of wm i ≡ some owner
    → owner ≢ xcb_none
    → is_on i d ≡ true
    → d.hidden ≡ not (should_show wm d)
    → MayShow owner d
shown-MayShow wm i owner d o ne on right =
    let here : d.monitor ≡ i = ground (arith, on) in
    let owned : owner_of wm d.monitor ≡ some owner = rw here o in
    let managed : is_managed_kind d.kind ≡ true = ground (arith, on) in
    elim (Bool-cases d.hidden) [
      | inl away ↦ inl away
      | inr there ↦
          let shows : should_show wm d ≡ true = ground (arith, there, right) in
          let visible : should_be_visible wm d ≡ true = ground (arith, shows) in
          let free : is_suppressed_by_fullscreen wm d ≡ false = ground (arith, shows) in
          elim (Bool-cases (on_overlay d.layer)) [
            | inl over ↦ inr (inl over)
            | inr under ↦
                let open_window =
                  uncovered wm d free managed under (visible_not_iconic wm d visible) visible in
                inr (
                  inr (uncovered_cases d owner ne (ap (is_covered_by d) (sym owned) ∙ open_window)))
          ]
    ]

-- After the visibility of a monitor with a fullscreen owner is reconciled, where every floating
-- client holds a floating state, every tiled or floating client of the monitor is off the screen, or
-- it is the owner, a transient window of the owner, or on the overlay layer.
pub reconcile_visibility_for_monitor-MayShow :
    (wm wm' : WindowManager) (i preferred owner : ℕ)
    → i < length wm.monitors
    → All IsConsistent wm.clients
    → reconcile_visibility_for_monitor wm i preferred ≡ some wm'
    → owner_of wm' i ≡ some owner
    → owner ≢ xcb_none
    → All (MayShow owner) (keep (is_on i) wm'.clients)
reconcile_visibility_for_monitor-MayShow wm wm' i preferred owner h ok e o ne =
    let (wm2, e2, monitors, right, others, consistent) =
      reconcile_visibility_for_monitor-IsHiddenAs wm i preferred h ok in
    let same : wm2 ≡ wm' = some-injective wm2 wm' (sym e2 ∙ e) in
    let right' = subst (λ (w : WindowManager). IsHiddenAs w i w.clients) same right in
    keep-imp (is_on i) _ (MayShow owner) wm'.clients
      (λ d on r. shown-MayShow wm' i owner d o ne on r) right'
