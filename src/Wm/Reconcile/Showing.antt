-- ===== src/Wm/Reconcile/Showing.antt =====
-- On the visibility that src/lwm/wm.cpp gives to a window: when a window shows, said without its
-- tests.
use lwm.Base.{
  ℕ, ◌≡◌, refl, ap, ◌⊎◌, inl, inr, true, false, not, ◌&&◌, ◌||◌, Option-cases, some, none, List,
  All, get_elem?, ◌==◌, arith,
}
use lwm.Base.Sort.{keep, keep-imp}
use lwm.Types.{xcb_none, Client, Monitor}
use lwm.Policy.Visibility.{is_window_visible}
use lwm.Wm.State.{
  WindowManager, is_managed_kind, on_overlay, owner_of, is_covered_by, should_be_visible,
  is_suppressed_by_fullscreen,
}
use lwm.Wm.Reconcile.{should_show, is_on}

-- A window that should show: it is not iconic; it is sticky, or its workspace is the current one of
-- its monitor and the desktop is not shown; and no fullscreen window covers it: the monitor has no
-- fullscreen owner, or the window is on the overlay layer, the owner or a transient window of the
-- owner.
pub record Shows (wm : WindowManager) (d : Client) : Type 0 where
  pub not_iconic : d.iconic ≡ false
  pub monitor : Monitor
  pub at : get_elem? wm.monitors d.monitor ≡ some monitor
  pub here :
      (d.sticky ≡ true) ⊎ ((wm.showing_desktop ≡ false) × (d.workspace ≡ monitor.current_workspace))
  pub uncovered :
      (on_overlay d.layer ≡ true)
      ⊎ (monitor.fullscreen_owner ≡ xcb_none)
      ⊎ (monitor.fullscreen_owner ≡ d.id)
      ⊎ (d.transient_for ≡ monitor.fullscreen_owner)

abbrev pub IsShownRight : WindowManager → ℕ → List Client → Type 0
IsShownRight wm i cs =
    All (λ (d : Client). (d.hidden ≡ false → Shows wm d) × (Shows wm d → d.hidden ≡ false))
      (keep (is_on i) cs)

visible_at :
    (wm : WindowManager) (d : Client) (m : Monitor)
    → get_elem? wm.monitors d.monitor ≡ some m
    → should_be_visible wm d ≡ (
        not d.iconic
        && (d.sticky || (not wm.showing_desktop && d.workspace == m.current_workspace)))
unfolding should_be_visible is_window_visible
visible_at wm d m e = rw (e, is_window_visible) (ground arith)

invisible :
    (wm : WindowManager) (d : Client)
    → get_elem? wm.monitors d.monitor ≡ none
    → should_be_visible wm d ≡ false
unfolding should_be_visible is_window_visible
invisible wm d e = rw (e, is_window_visible) (ground arith)

suppressed_at :
    (wm : WindowManager) (d : Client) (m : Monitor)
    → get_elem? wm.monitors d.monitor ≡ some m
    → is_suppressed_by_fullscreen wm d ≡ (
        is_managed_kind d.kind
        && not (on_overlay d.layer)
        && not (d.iconic || not (should_be_visible wm d))
        && is_covered_by d (some m.fullscreen_owner))
unfolding is_suppressed_by_fullscreen
suppressed_at wm d m e =
    let owned : owner_of wm d.monitor ≡ some m.fullscreen_owner = rw (e, owner_of) refl in
    ap
      (λ o.
        is_managed_kind d.kind
        && not (on_overlay d.layer)
        && not (d.iconic || not (should_be_visible wm d))
        && is_covered_by d o)
      owned

-- The windows of the monitor in a list are hidden where the tests of the code fail.
abbrev pub IsHiddenAs : WindowManager → ℕ → List Client → Type 0
IsHiddenAs wm i cs = All (λ (d : Client). d.hidden ≡ not (should_show wm d)) (keep (is_on i) cs)

-- The test of the code is the description.
should_show-Shows :
    (wm : WindowManager) (d : Client)
    → is_managed_kind d.kind ≡ true
    → should_show wm d ≡ true
    → Shows wm d
should_show-Shows wm d managed h = elim (Option-cases (get_elem? wm.monitors d.monitor)) [
  | inl e ↦ absurd (ground (arith, h, invisible wm d e))
  | inr (m, e) ↦
      let visible = visible_at wm d m e in
      let free = suppressed_at wm d m e in
      record {
        not_iconic = ground (arith, h, visible);
        monitor = m;
        at = e;
        here = ground (arith, h, visible);
        uncovered = ground (arith, h, visible, free, managed);
      }
]

Shows-should_show : (wm : WindowManager) (d : Client) → Shows wm d → should_show wm d ≡ true
Shows-should_show wm d s = ground (
  arith,
  visible_at wm d s.monitor s.at,
  suppressed_at wm d s.monitor s.at,
  s.not_iconic,
  s.here,
  s.uncovered,
)

pub shown_right :
    (wm : WindowManager) (i : ℕ) (cs : List Client) → IsHiddenAs wm i cs → IsShownRight wm i cs
shown_right wm i cs h =
    keep-imp (is_on i) _ _ cs
      (λ d on right. (
        λ there. should_show-Shows wm d (ground (arith, on)) (ground (arith, there, right)),
        λ s. let test = Shows-should_show wm d s in ground (arith, test, right),
      ))
      h
