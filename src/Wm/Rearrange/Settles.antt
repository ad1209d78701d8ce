-- ===== src/Wm/Rearrange/Settles.antt =====
-- On rearrange_monitor and finalize_visibility_on_monitor of src/lwm/wm.cpp: the visibility of the
-- windows.
use lwm.Base.{
  ℕ, ◌<◌, ◌≡◌, refl, sym, ap, ◌∙◌, ◌⊎◌, Bool, false, not, inl, inr, choose, some, List, [], ◌∷◌,
  All, length, get_elem?, get_elem?-set_self, ◌==◌,
}
use lwm.Base.Sort.{keep-cases, cases-keep}
use lwm.Types.{Client, Geometry, Monitor, Workspace, current}
use lwm.Layout.Tree.{DoubleOps}
use lwm.Layout.Arrange.{LayoutSettings, Configure}
use lwm.Wm.State.{
  WindowManager, select_fullscreen_owner_for_monitor, should_be_visible,
  is_suppressed_by_fullscreen,
}
use lwm.Wm.Reconcile.{
  send_sync_request, apply_fullscreen_if_needed, should_show, is_on, with_owner,
  reconcile_visibility_for_monitor,
}
use lwm.Wm.Reconcile.Keeps.{
  IsConsistent, IsSame, should_show-IsSame, send_sync_request-IsSame,
  apply_fullscreen_if_needed-IsSame,
}
use lwm.Wm.Reconcile.Showing.{IsHiddenAs, IsShownRight, shown_right}
use lwm.Wm.Reconcile.Shows.{reconcile_visibility_for_monitor-IsHiddenAs}
use lwm.Wm.Rearrange.{
  Shown, collect_shown, update, change, sync_configured, with_tiled_geometry, store_geometries,
  apply_fullscreens, arrange_shown, rearrange_monitor, finalize_visibility_on_monitor,
}

-- A client of another monitor, or one that is hidden exactly where it should not show.
abbrev pub IsRight : WindowManager → ℕ → Client → Type 0
IsRight wm i d = (is_on i d ≡ false) ⊎ (d.hidden ≡ not (should_show wm d))

pub IsRight-IsSame :
    (wm : WindowManager) (i : ℕ) (c d : Client) → IsSame c d → IsRight wm i c → IsRight wm i d
IsRight-IsSame wm i c d h r = elim r [
  | inl off ↦ inl (rw (h.kind, h.monitor) off)
  | inr right ↦ inr (h.hidden ∙ right ∙ ap not (sym (should_show-IsSame wm c d h)))
]

All-update {κ} :
    (Q : Client → Type κ) (f : Client → Client) (w : ℕ) (cs : List Client)
    → ((c : Client) → Q c → Q (f c))
    → All Q cs
    → All Q (update f w cs)
unfolding update
All-update Q f w [] q h = tt
All-update Q f w (c ∷ cs) q (hc, h) =
    choose (All Q) (c.id == w) _ _ (λ _. (q c hc, h)) (λ _. (hc, All-update Q f w cs q h))

abbrev pub AllRight : ℕ → WindowManager → Type 0
AllRight i wm = All (IsRight wm i) wm.clients

change-AllRight :
    (i : ℕ) (f : Client → Client) (w : ℕ) (wm : WindowManager)
    → ((c : Client) → IsSame c (f c))
    → AllRight i wm
    → AllRight i (change f w wm)
unfolding should_be_visible is_suppressed_by_fullscreen
change-AllRight i f w wm same h =
    All-update (IsRight wm i) f w wm.clients (λ c r. IsRight-IsSame wm i c (f c) (same c) r) h

sync_configured-AllRight :
    (i : ℕ) (calls : List Configure) (wm : WindowManager)
    → AllRight i wm
    → AllRight i (sync_configured calls wm)
unfolding sync_configured
sync_configured-AllRight i [] wm h = h
sync_configured-AllRight i (c ∷ calls) wm h =
    sync_configured-AllRight i calls _
      (change-AllRight i (send_sync_request wm) c.window wm (send_sync_request-IsSame wm) h)

tiled-IsSame : (g : Geometry) (c : Client) → IsSame c (with_tiled_geometry g c)
tiled-IsSame g c = record {
  id = refl;
  kind = refl;
  monitor = refl;
  workspace = refl;
  iconic = refl;
  sticky = refl;
  layer = refl;
  transient_for = refl;
  hidden = refl;
  consistent = refl;
}

store_geometries-AllRight :
    (i : ℕ) (ws : List ℕ) (gs : List Geometry) (wm : WindowManager)
    → AllRight i wm
    → AllRight i (store_geometries ws gs wm)
unfolding store_geometries
store_geometries-AllRight i [] gs wm h = h
store_geometries-AllRight i (w ∷ ws) [] wm h = h
store_geometries-AllRight i (w ∷ ws) (g ∷ gs) wm h =
    store_geometries-AllRight i ws gs _
      (change-AllRight i (with_tiled_geometry g) w wm (tiled-IsSame g) h)

apply_fullscreens-AllRight :
    (i : ℕ) (ws : List ℕ) (wm : WindowManager)
    → AllRight i wm
    → AllRight i (apply_fullscreens ws wm)
unfolding apply_fullscreens
apply_fullscreens-AllRight i [] wm h = h
apply_fullscreens-AllRight i (w ∷ ws) wm h = apply_fullscreens-AllRight i ws _ (
    change-AllRight i (apply_fullscreen_if_needed wm) w wm (apply_fullscreen_if_needed-IsSame wm) h)

-- The monitors stay as they are.
sync_configured-monitors :
    (calls : List Configure) (wm : WindowManager)
    → (sync_configured calls wm).monitors ≡ wm.monitors
unfolding sync_configured
sync_configured-monitors [] wm = refl
sync_configured-monitors (c ∷ calls) wm =
    sync_configured-monitors calls (change (send_sync_request wm) c.window wm)

store_geometries-monitors :
    (ws : List ℕ) (gs : List Geometry) (wm : WindowManager)
    → (store_geometries ws gs wm).monitors ≡ wm.monitors
unfolding store_geometries
store_geometries-monitors [] gs wm = refl
store_geometries-monitors (w ∷ ws) [] wm = refl
store_geometries-monitors (w ∷ ws) (g ∷ gs) wm =
    store_geometries-monitors ws gs (change (with_tiled_geometry g) w wm)

apply_fullscreens-monitors :
    (ws : List ℕ) (wm : WindowManager) → (apply_fullscreens ws wm).monitors ≡ wm.monitors
unfolding apply_fullscreens
apply_fullscreens-monitors [] wm = refl
apply_fullscreens-monitors (w ∷ ws) wm =
    apply_fullscreens-monitors ws (change (apply_fullscreen_if_needed wm) w wm)

-- The monitor with its new owner is there, with its workspaces as before.
with_owner_at :
    (wm : WindowManager) (i preferred : ℕ) (m : Monitor) (ws : Workspace)
    → get_elem? wm.monitors i ≡ some m
    → current m ≡ some ws
    → i < length wm.monitors
    → (m' : Monitor) × (get_elem? (with_owner wm i preferred).monitors i ≡ some m')
      × (current m' ≡ some ws)
unfolding with_owner
with_owner_at wm i preferred m ws e c h =
    let m' = record m { fullscreen_owner = select_fullscreen_owner_for_monitor wm i preferred } in
    (m', rw (e, with_owner) (get_elem?-set_self wm.monitors i m' h), c)

module _ (ops : DoubleOps) (settings : LayoutSettings) where
  arrange_shown-AllRight :
      (i : ℕ) (wm : WindowManager) (m : Monitor) (ws : Workspace) (s : Shown) (geometry_only : Bool)
      → AllRight i wm
      → AllRight i (arrange_shown ops settings wm m ws s geometry_only)
  unfolding arrange_shown
  arrange_shown-AllRight i wm m ws s geometry_only h =
      apply_fullscreens-AllRight i s.visible_fullscreen_windows _
        (store_geometries-AllRight i s.visible_windows _ _ (sync_configured-AllRight i _ wm h))

  arrange_shown-monitors :
      (wm : WindowManager) (m : Monitor) (ws : Workspace) (s : Shown) (geometry_only : Bool)
      → (arrange_shown ops settings wm m ws s geometry_only).monitors ≡ wm.monitors
  unfolding arrange_shown
  arrange_shown-monitors wm m ws s geometry_only =
      apply_fullscreens-monitors s.visible_fullscreen_windows _
      ∙ (store_geometries-monitors s.visible_windows _ _ ∙ sync_configured-monitors _ wm)

  finalize_is :
      (wm mid : WindowManager) (i preferred : ℕ) (m : Monitor)
      → get_elem? wm.monitors i ≡ some m
      → reconcile_visibility_for_monitor wm i preferred ≡ some mid
      → finalize_visibility_on_monitor ops settings wm i preferred
        ≡ rearrange_monitor ops settings mid i false
  unfolding finalize_visibility_on_monitor
  finalize_is wm mid i preferred m e r = rw (e, finalize_visibility_on_monitor) (rw r refl)

  rearrange_is :
      (wm : WindowManager) (i : ℕ) (m : Monitor) (ws : Workspace)
      → get_elem? wm.monitors i ≡ some m
      → current m ≡ some ws
      → rearrange_monitor ops settings wm i false
        ≡ some (arrange_shown ops settings wm m ws (collect_shown wm m ws) false)
  unfolding rearrange_monitor
  rearrange_is wm i m ws e c = rw (e, rearrange_monitor) (rw c refl)

  -- What finalizing gives, with the tests of the code.
  pub finalize_visibility_on_monitor-IsHiddenAs :
      (wm : WindowManager) (i preferred : ℕ) (m : Monitor) (ws : Workspace)
      → get_elem? wm.monitors i ≡ some m
      → current m ≡ some ws
      → i < length wm.monitors
      → All IsConsistent wm.clients
      → (wm' : WindowManager) × (finalize_visibility_on_monitor ops settings wm i preferred
          ≡ some wm')
        × (wm'.monitors ≡ (with_owner wm i preferred).monitors)
        × IsHiddenAs wm' i wm'.clients
  finalize_visibility_on_monitor-IsHiddenAs wm i preferred m ws e c h ok =
      let (mid, reconciled, monitors, right, others, consistent) =
        reconcile_visibility_for_monitor-IsHiddenAs wm i preferred h ok in
      let (m', at, cur) = with_owner_at wm i preferred m ws e c h in
      let at_mid : get_elem? mid.monitors i ≡ some m' =
        ap (λ (ms : List Monitor). get_elem? ms i) monitors ∙ at in
      let end = arrange_shown ops settings mid m' ws (collect_shown mid m' ws) false in
      (
        end,
        finalize_is wm mid i preferred m e reconciled ∙ rearrange_is mid i m' ws at_mid cur,
        arrange_shown-monitors mid m' ws (collect_shown mid m' ws) false ∙ monitors,
        cases-keep (is_on i) _ end.clients (
            arrange_shown-AllRight i mid m' ws (collect_shown mid m' ws) false
              (keep-cases (is_on i) _ mid.clients right)),
      )

  -- Finalizing the visibility of a monitor gives a state, where the monitor has a current workspace
  -- and every floating client holds a floating state. In it the flag `hidden` of a tiled or
  -- floating client of the monitor is unset exactly where it is not iconic; it is sticky, or the
  -- desktop is not shown and its workspace is the current one; and it is not behind a fullscreen owner: there is
  -- none, or the window is on the overlay layer, the owner or a transient window of the owner.
  -- Arranging the windows does not undo the reconciliation, and of the monitors only the fullscreen
  -- owner of this one is chosen anew.
  pub finalize_visibility_on_monitor-IsShownRight :
      (wm : WindowManager) (i preferred : ℕ) (m : Monitor) (ws : Workspace)
      → get_elem? wm.monitors i ≡ some m
      → current m ≡ some ws
      → i < length wm.monitors
      → All IsConsistent wm.clients
      → (wm' : WindowManager) × (finalize_visibility_on_monitor ops settings wm i preferred
          ≡ some wm')
        × (wm'.monitors ≡ (with_owner wm i preferred).monitors)
        × IsShownRight wm' i wm'.clients
  finalize_visibility_on_monitor-IsShownRight wm i preferred m ws e c h ok =
      let (wm', is, monitors, right) =
        finalize_visibility_on_monitor-IsHiddenAs wm i preferred m ws e c h ok in
      (wm', is, monitors, shown_right wm' i wm'.clients right)
