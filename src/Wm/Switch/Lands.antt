-- ===== src/Wm/Switch/Lands.antt =====
-- On apply_workspace_switch of src/lwm/wm_workspace.cpp: the monitor and its windows after a
-- switch.
use lwm.Base.{
  ℕ, ◌<◌, ◌≡◌, ◌≢◌, refl, ap, ◌∙◌, Bool, true, not, ◌||◌, choose, Option, some, List, [], ◌∷◌, map,
  All, length, get_elem?, get_elem?-lt, get_elem?_total, get_elem?-set_self, ◌==◌, arith,
}
use lwm.Base.Sort.{keep-cases, cases-keep}
use lwm.Types.{Client, Monitor}
use lwm.Types.Urgency.{active}
use lwm.Policy.Workspace.{WorkspaceSwitchResult, validate_workspace_switch}
use lwm.Layout.Tree.{DoubleOps}
use lwm.Layout.Arrange.{LayoutSettings}
use lwm.Wm.State.{
  WindowManager, should_be_visible, is_suppressed_by_fullscreen,
  select_fullscreen_owner_for_monitor,
}
use lwm.Wm.Reconcile.{is_on, with_owner}
use lwm.Wm.Reconcile.Keeps.{IsConsistent, IsSame, same}
use lwm.Wm.Reconcile.Showing.{IsHiddenAs, IsShownRight, shown_right}
use lwm.Wm.Rearrange.{finalize_visibility_on_monitor}
use lwm.Wm.Rearrange.Settles.{IsRight, IsRight-IsSame, finalize_visibility_on_monitor-IsHiddenAs}
use lwm.Wm.Switch.{
  sync_client_urgency_state, sync_urgency, with_switch, switch_to, apply_workspace_switch,
}

sync_urgency-IsSame :
    (hints : ℕ → Option Bool) (w : ℕ) (c : Client) → IsSame c (sync_urgency hints w c)
unfolding sync_urgency sync_client_urgency_state
sync_urgency-IsSame hints w c =
    choose (IsSame c) (not (active c.urgency) || c.id == w) c _ (λ _. same c)
      (λ _. record {
        id = refl;
        kind = refl;
        monitor = refl;
        workspace = refl;
        iconic = refl;
        sticky = refl;
        layer = refl;
        transient_for = refl;
        hidden = refl;
        consistent = refl;
      })

All-sync {κ} :
    (Q : Client → Type κ) (f : Client → Client) (cs : List Client)
    → ((c : Client) → Q c → Q (f c))
    → All Q cs
    → All Q (map f cs)
All-sync Q f [] q h = tt
All-sync Q f (c ∷ cs) q h = (q c h.0, All-sync Q f cs q h.1)

synced-IsHiddenAs :
    (wm : WindowManager) (i : ℕ) (hints : ℕ → Option Bool) (w : ℕ)
    → IsHiddenAs wm i wm.clients
    → IsHiddenAs
        (record wm { clients = map (sync_urgency hints w) wm.clients })
        i
        (map (sync_urgency hints w) wm.clients)
unfolding should_be_visible is_suppressed_by_fullscreen
synced-IsHiddenAs wm i hints w h = cases-keep (is_on i) _ (map (sync_urgency hints w) wm.clients) (
    All-sync (IsRight wm i) (sync_urgency hints w) wm.clients
      (λ c r. IsRight-IsSame wm i c (sync_urgency hints w c) (sync_urgency-IsSame hints w c) r)
      (keep-cases (is_on i) _ wm.clients h))

-- The monitor has its target as current workspace and the one that was left as the previous one.
pub record HasSwitched (m m' : Monitor) (target : ℕ) : Type 0 where
  pub current_is : m'.current_workspace ≡ target
  pub previous_is : m'.previous_workspace ≡ m.current_workspace
  pub workspaces_are : m'.workspaces ≡ m.workspaces

valid_switch :
    (m : Monitor) (target : ℕ)
    → target < length m.workspaces
    → target ≢ m.current_workspace
    → validate_workspace_switch m target
      ≡ some (record { old_workspace = m.current_workspace; new_workspace = target })
unfolding validate_workspace_switch
valid_switch m target h ne = ground arith

owner_at :
    (wm : WindowManager) (i preferred : ℕ) (m : Monitor)
    → get_elem? wm.monitors i ≡ some m
    → get_elem? (with_owner wm i preferred).monitors i
      ≡ some (record m { fullscreen_owner = select_fullscreen_owner_for_monitor wm i preferred })
unfolding with_owner
owner_at wm i preferred m e =
    rw (e, with_owner) (get_elem?-set_self wm.monitors i _ (get_elem?-lt wm.monitors i e))

module _ (ops : DoubleOps) (settings : LayoutSettings) (hints : ℕ → Option Bool) where
  switch_is :
      (wm wm' : WindowManager) (i target : ℕ) (m : Monitor) (r : WorkspaceSwitchResult)
      → get_elem? wm.monitors i ≡ some m
      → validate_workspace_switch m target ≡ some r
      → finalize_visibility_on_monitor ops settings (with_switch wm i m r) i 0 ≡ some wm'
      → apply_workspace_switch ops settings hints wm i target
        ≡ some
            (record wm' { clients = map (sync_urgency hints wm'.active_window) wm'.clients }, true)
  unfolding apply_workspace_switch switch_to
  switch_is wm wm' i target m r e v f =
      rw (e, apply_workspace_switch) (rw (v, switch_to) (rw f refl))

  -- Switching a monitor to another of its workspaces succeeds where every floating client holds a
  -- floating state. The target is then its current workspace and the workspace that was left its
  -- previous one. The flag `hidden` of a tiled or floating client of the monitor is unset exactly where
  -- it is not iconic; it is sticky, or the desktop is not shown and it is on the target workspace;
  -- and it is not behind a fullscreen owner: there is none, or the window is on the overlay layer, the owner or a
  -- transient window of the owner.
  pub apply_workspace_switch-lands :
      (wm : WindowManager) (i target : ℕ) (m : Monitor)
      → get_elem? wm.monitors i ≡ some m
      → target < length m.workspaces
      → target ≢ m.current_workspace
      → All IsConsistent wm.clients
      → (wm' : WindowManager) × (apply_workspace_switch ops settings hints wm i target
          ≡ some (wm', true))
        × ((m' : Monitor) × (get_elem? wm'.monitors i ≡ some m') × HasSwitched m m' target)
        × IsShownRight wm' i wm'.clients
  unfolding with_switch
  apply_workspace_switch-lands wm i target m e h ne ok =
      let r : WorkspaceSwitchResult = record {
        old_workspace = m.current_workspace;
        new_workspace = target;
      } in
      let m1 : Monitor = record m {
        previous_workspace = m.current_workspace;
        current_workspace = target;
      } in
      let start = with_switch wm i m r in
      let lt = get_elem?-lt wm.monitors i e in
      let at : get_elem? start.monitors i ≡ some m1 = get_elem?-set_self wm.monitors i m1 lt in
      let (ws, cur) = get_elem?_total m.workspaces target h in
      let (wm', f, monitors, right) =
        finalize_visibility_on_monitor-IsHiddenAs ops settings start i 0 m1 ws at cur
          (get_elem?-lt start.monitors i at) ok in
      let end : WindowManager = record wm' {
        clients = map (sync_urgency hints wm'.active_window) wm'.clients;
      } in
      (
        end,
        switch_is wm wm' i target m r e (valid_switch m target h ne) f,
        (
          record m1 { fullscreen_owner = select_fullscreen_owner_for_monitor start i 0 },
          ap (λ (ms : List Monitor). get_elem? ms i) monitors ∙ owner_at start i 0 m1 at,
          record { current_is = refl; previous_is = refl; workspaces_are = refl },
        ),
        shown_right end i end.clients (synced-IsHiddenAs wm' i hints wm'.active_window right),
      )
