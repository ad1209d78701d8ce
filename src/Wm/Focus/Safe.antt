-- ===== src/Wm/Focus/Safe.antt =====
-- On focus_or_fallback of src/lwm/wm_focus.cpp: the window that is selected.
use lwm.Base.{ℕ, ◌≡◌, refl, Bool, true, false, ◌⊎◌, inl, inr, Option-cases, some, arith}
use lwm.Types.{Client, Monitor, Workspace}
use lwm.Policy.Focus.{FocusSelection, is_focus_eligible as accepts_focus}
use lwm.Policy.Focus.Select.{select_focus_candidate_sound}
use lwm.Wm.State.{
  WindowManager, get_client, is_managed_kind, is_suppressed_by_fullscreen, is_focus_eligible,
  is_focus_candidate,
}
use lwm.Wm.Focus.{build_floating_candidates, sticky_tiled_candidates, focus_selection}

-- A client that is a managed window, not iconic, not covered by a fullscreen window, and accepts
-- the focus in one of the two ways of ICCCM.
pub record CanHaveFocus (wm : WindowManager) (w : ℕ) : Type 0 where
  pub client : Client
  pub registered : get_client wm w ≡ some client
  pub managed : is_managed_kind client.kind ≡ true
  pub not_iconic : client.iconic ≡ false
  pub uncovered : is_suppressed_by_fullscreen wm client ≡ false
  pub accepts : (client.accepts_input ≡ true) ⊎ (client.supports_take_focus ≡ true)

accepts_cases : (a b : Bool) → accepts_focus a b ≡ true → (a ≡ true) ⊎ (b ≡ true)
unfolding accepts_focus
accepts_cases true b h = inl refl
accepts_cases false b h = inr h

candidate-CanHaveFocus :
    (wm : WindowManager) (w : ℕ) → is_focus_candidate wm w ≡ true → CanHaveFocus wm w
unfolding is_focus_candidate is_focus_eligible
candidate-CanHaveFocus wm w h = elim (Option-cases (get_client wm w)) [
  | inl e ↦ absurd (ground (arith, h, e))
  | inr (c, e) ↦ record {
    client = c;
    registered = e;
    managed = ground (arith, h, e);
    not_iconic = ground (arith, h, e);
    uncovered = ground (arith, h, e);
    accepts = accepts_cases c.accepts_input c.supports_take_focus (ground (arith, h, e));
  }
]

-- The window that a monitor falls back to is a client that is not iconic and not covered by a
-- fullscreen window, is no dock or desktop, and accepts the focus.
pub focus_selection-CanHaveFocus :
    (wm : WindowManager) (i : ℕ) (m : Monitor) (ws : Workspace) (s : FocusSelection)
    → focus_selection wm i m ws ≡ some s
    → CanHaveFocus wm s.window
unfolding focus_selection
focus_selection-CanHaveFocus wm i m ws s h =
    let sound =
      select_focus_candidate_sound (is_focus_candidate wm) ws i m.current_workspace
        (sticky_tiled_candidates wm m.current_workspace 0 m.workspaces)
        (build_floating_candidates wm) s h in
    candidate-CanHaveFocus wm s.window (ground (arith, sound.0))
