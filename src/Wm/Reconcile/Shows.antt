-- ===== src/Wm/Reconcile/Shows.antt =====
-- On reconcile_visibility_for_monitor of src/lwm/wm.cpp: which windows are hidden after it.
use mathlib.Core.Path.{ap₂}
use lwm.Base.{
  ℕ, ◌<◌, ◌≡◌, refl, sym, ap, ◌∙◌, ◌⊎◌, inl, inr, Bool, true, false, not, ◌&&◌, choose, Option,
  some, List, [], ◌∷◌, All, length, leb, arith,
}
use lwm.Base.Sort.{keep}
use lwm.Types.{Client}
use lwm.Wm.State.{WindowManager, should_be_visible, is_suppressed_by_fullscreen}
use lwm.Wm.Reconcile.{
  should_show, is_on, reconcile_client, reconcile_clients, with_owner,
  reconcile_visibility_for_monitor,
}
use lwm.Wm.Reconcile.Showing.{IsHiddenAs, IsShownRight, shown_right}
use lwm.Wm.Reconcile.Keeps.{IsConsistent, IsSame, same, place_shown-Yields, should_show-IsSame}

-- What becomes of a client: one of the monitor is hidden exactly where it should not show, and
-- any other one is as before.
record IsReconciled (wm : WindowManager) (i : ℕ) (c d : Client) : Type 0 where
  pub is_where : is_on i d ≡ is_on i c
  pub consistent : IsConsistent d
  pub shown :
      ((is_on i c ≡ true) × (d.hidden ≡ not (should_show wm d))) ⊎ ((is_on i c ≡ false) × (d ≡ c))

hidden_as :
    (wm : WindowManager) (i : ℕ) (c : Client) (b : Bool)
    → IsConsistent c
    → is_on i c ≡ true
    → b ≡ not (should_show wm c)
    → (d : Client) → IsSame (record c { hidden = b }) d
    → IsReconciled wm i c d
unfolding should_be_visible is_suppressed_by_fullscreen
hidden_as wm i c b ok on e d h = record {
  is_where = rw (h.kind, h.monitor) refl;
  consistent = rw (h.kind, h.consistent) ok;
  shown =
      inl (on, h.hidden ∙ e ∙ ap not (sym (should_show-IsSame wm (record c { hidden = b }) d h)));
}

reconcile_client-IsReconciled :
    (wm : WindowManager) (i : ℕ) (c : Client)
    → IsConsistent c
    → (d : Client) × (reconcile_client wm i c ≡ some d) × IsReconciled wm i c d
unfolding reconcile_client
reconcile_client-IsReconciled wm i c ok =
    let Good = λ (r : Option Client). (d : Client) × (r ≡ some d) × IsReconciled wm i c d in
    choose Good (not (is_on i c)) (some c) _
      (λ off. (
        c,
        refl,
        record { is_where = refl; consistent = ok; shown = inr (ground (arith, off), refl) },
      ))
      (λ on.
        let here : is_on i c ≡ true = ground (arith, on) in
        choose Good (should_show wm c && c.hidden) _ _
          (λ show.
            let (d, e, h) = place_shown-Yields wm (record c { hidden = false }) ok in
            (d, e, hidden_as wm i c false ok here (ground (arith, show)) d h))
          (λ stay.
            choose Good (not (should_show wm c) && not c.hidden) _ _
              (λ hide.
                let d = record c { hidden = true } in
                (d, refl, hidden_as wm i c true ok here (ground (arith, hide)) d (same d)))
              (λ keep_it. (
                c,
                refl,
                hidden_as wm i c c.hidden ok here (ground (arith, stay, keep_it)) c (same c),
              ))))

abbrev pub is_elsewhere : ℕ → Client → Bool
is_elsewhere i c = not (is_on i c)

-- What becomes of the clients.
record Reconciled (wm : WindowManager) (i : ℕ) (cs ds : List Client) : Type 0 where
  pub shown : IsHiddenAs wm i ds
  pub others : keep (is_elsewhere i) ds ≡ keep (is_elsewhere i) cs
  pub consistent : All IsConsistent ds

Reconciled-cons :
    (wm : WindowManager) (i : ℕ) (c d : Client) (cs ds : List Client)
    → IsReconciled wm i c d
    → Reconciled wm i cs ds
    → Reconciled wm i (c ∷ cs) (d ∷ ds)
Reconciled-cons wm i c d cs ds h r = elim h.shown [
  | inl (on, right) ↦
      let on_d = h.is_where ∙ on in
      record {
        shown = rw on_d (right, r.shown);
        others = rw (on_d, on) r.others;
        consistent = (h.consistent, r.consistent);
      }
  | inr (off, e) ↦
      let off_d = h.is_where ∙ off in
      record {
        shown = rw off_d r.shown;
        others = rw (off_d, off) (ap₂ ◌∷◌ e r.others);
        consistent = (h.consistent, r.consistent);
      }
]

reconcile_clients-Reconciled :
    (wm : WindowManager) (i : ℕ) (cs : List Client)
    → All IsConsistent cs
    → (ds : List Client) × (reconcile_clients wm i cs ≡ some ds) × Reconciled wm i cs ds
unfolding reconcile_clients
reconcile_clients-Reconciled wm i [] ok =
    ([], refl, record { shown = tt; others = refl; consistent = tt })
reconcile_clients-Reconciled wm i (c ∷ cs) (ok, oks) =
    let (d, e, h) = reconcile_client-IsReconciled wm i c ok in
    let (ds, es, r) = reconcile_clients-Reconciled wm i cs oks in
    (d ∷ ds, rw (e, es) refl, Reconciled-cons wm i c d cs ds h r)

-- What reconciling gives, with the tests of the code.
pub reconcile_visibility_for_monitor-IsHiddenAs :
    (wm : WindowManager) (i preferred : ℕ)
    → i < length wm.monitors
    → All IsConsistent wm.clients
    → (wm' : WindowManager) × (reconcile_visibility_for_monitor wm i preferred ≡ some wm')
      × (wm'.monitors ≡ (with_owner wm i preferred).monitors)
      × IsHiddenAs wm' i wm'.clients
      × (keep (is_elsewhere i) wm'.clients ≡ keep (is_elsewhere i) wm.clients)
      × All IsConsistent wm'.clients
unfolding reconcile_visibility_for_monitor should_be_visible is_suppressed_by_fullscreen
reconcile_visibility_for_monitor-IsHiddenAs wm i preferred h ok =
    let (ds, e, r) = reconcile_clients-Reconciled (with_owner wm i preferred) i wm.clients ok in
    let in_range : leb (length wm.monitors) i ≡ false = ground arith in
    (
      record (with_owner wm i preferred) { clients = ds },
      rw (in_range, e) refl,
      refl,
      r.shown,
      r.others,
      r.consistent,
    )

-- Reconciling the visibility of a monitor does not fail where every floating client holds a
-- floating state. After it the flag `hidden` of a tiled or floating client of the monitor is unset
-- exactly where it is not iconic; it is sticky, or the desktop is not shown and its workspace is the
-- current one; and it is not behind a fullscreen owner: there is none, or the window is on the overlay layer, the
-- owner or a transient window of the owner. The other clients are as before, and of the monitors
-- only the fullscreen owner of this one is chosen anew.
pub reconcile_visibility_for_monitor-IsShownRight :
    (wm : WindowManager) (i preferred : ℕ)
    → i < length wm.monitors
    → All IsConsistent wm.clients
    → (wm' : WindowManager) × (reconcile_visibility_for_monitor wm i preferred ≡ some wm')
      × (wm'.monitors ≡ (with_owner wm i preferred).monitors)
      × IsShownRight wm' i wm'.clients
      × (keep (is_elsewhere i) wm'.clients ≡ keep (is_elsewhere i) wm.clients)
      × All IsConsistent wm'.clients
reconcile_visibility_for_monitor-IsShownRight wm i preferred h ok =
    let (wm', e, monitors, right, others, consistent) =
      reconcile_visibility_for_monitor-IsHiddenAs wm i preferred h ok in
    (wm', e, monitors, shown_right wm' i wm'.clients right, others, consistent)
