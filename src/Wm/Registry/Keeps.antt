-- ===== src/Wm/Registry/Keeps.antt =====
-- On reconcile_visibility_for_monitor, rearrange_monitor and finalize_visibility_on_monitor of
-- src/lwm/wm.cpp: what they leave as it is.
use mathlib.Core.Path.{ap₂}
use lwm.Base.{
  ℕ, suc, zero, ◌<◌, ◌≡◌, refl, ap, ◌∙◌, Bool, true, false, not, ◌&&◌, choose, Option, some, List,
  [], ◌∷◌, map, All, All-get_elem?, length, get_elem?, set, leb, ◌==◌, Option-cases, inl, inr,
  get_elem?_total, get_elem?-lt, arith,
}
use lwm.Types.{Client, Geometry, Monitor, Workspace}
use lwm.Layout.Tree.{DoubleOps}
use lwm.Layout.Arrange.{LayoutSettings, Configure}
use lwm.Wm.State.{WindowManager, select_fullscreen_owner_for_monitor}
use lwm.Wm.Reconcile.{
  send_sync_request, apply_fullscreen_if_needed, is_on, should_show, reconcile_client,
  reconcile_clients, with_owner, reconcile_visibility_for_monitor,
}
use lwm.Wm.Reconcile.Keeps.{
  IsConsistent, IsSame, place_shown-Yields, send_sync_request-IsSame,
  apply_fullscreen_if_needed-IsSame,
}
use lwm.Wm.Rearrange.{
  Shown, collect_shown, update, change, sync_configured, with_tiled_geometry, store_geometries,
  apply_fullscreens, arrange_shown, rearrange_monitor, finalize_visibility_on_monitor,
}
use lwm.Wm.Registry.{entry, without_owner, IsRegistered}
use lwm.Wm.Registry.View.{
  view, Keeps, Keeps-bind, IsRegistered-view, IsRegistered-IsConsistent, length-view,
}

pub entry-IsSame : (c d : Client) → IsSame c d → entry d ≡ entry c
entry-IsSame c d h = cc (h.id, h.kind, h.monitor, h.workspace, h.iconic, h.sticky, h.consistent)

-- A change of a client that its entry does not see.
pub entries-update :
    (f : Client → Client) (w : ℕ) (cs : List Client)
    → ((c : Client) → entry (f c) ≡ entry c)
    → map entry (update f w cs) ≡ map entry cs
unfolding update
entries-update f w [] h = refl
entries-update f w (c ∷ cs) h =
    choose (λ ds. map entry ds ≡ map entry (c ∷ cs)) (c.id == w) _ _
      (λ _. ap (λ e. e ∷ map entry cs) (h c))
      (λ _. ap (λ es. entry c ∷ es) (entries-update f w cs h))

pub map-set {ℓ κ} :
    {A : Type ℓ} {B : Type κ} (f : A → B) (xs : List A) (i : ℕ) (x y : A)
    → get_elem? xs i ≡ some x
    → f y ≡ f x
    → map f (set xs i y) ≡ map f xs
map-set f [] i x y e h = refl
map-set f (z ∷ xs) zero x y e h = ap (λ a. a ∷ map f xs) (h ∙ ground (arith, e))
map-set f (z ∷ xs) (suc i) x y e h = ap (λ bs. f z ∷ bs) (map-set f xs i x y e h)

view_same :
    (wm wm' : WindowManager)
    → map entry wm'.clients ≡ map entry wm.clients
    → map without_owner wm'.monitors ≡ map without_owner wm.monitors
    → wm'.focused_monitor ≡ wm.focused_monitor
    → wm'.active_window ≡ wm.active_window
    → wm'.showing_desktop ≡ wm.showing_desktop
    → view wm' ≡ view wm
view_same wm wm' c m f a s = rw (c, m, f, a, s) refl

reconcile_client-entry :
    (wm : WindowManager) (i : ℕ) (c : Client)
    → IsConsistent c
    → (d : Client) × (reconcile_client wm i c ≡ some d) × (entry d ≡ entry c)
unfolding reconcile_client
reconcile_client-entry wm i c ok =
    let Good = λ (r : Option Client). (d : Client) × (r ≡ some d) × (entry d ≡ entry c) in
    choose Good (not (is_on i c)) _ _ (λ _. (c, refl, refl))
      (λ _.
        choose Good (should_show wm c && c.hidden) _ _
          (λ _.
            let (d, e, h) = place_shown-Yields wm (record c { hidden = false }) ok in
            (d, e, entry-IsSame (record c { hidden = false }) d h))
          (λ _.
            choose Good (not (should_show wm c) && not c.hidden) _ _
              (λ _. (record c { hidden = true }, refl, refl)) (λ _. (c, refl, refl))))

reconcile_clients-entries :
    (wm : WindowManager) (i : ℕ) (cs : List Client)
    → All IsConsistent cs
    → (ds : List Client) × (reconcile_clients wm i cs ≡ some ds) × (map entry ds ≡ map entry cs)
unfolding reconcile_clients
reconcile_clients-entries wm i [] ok = ([], refl, refl)
reconcile_clients-entries wm i (c ∷ cs) (ok, oks) =
    let (d, e, h) = reconcile_client-entry wm i c ok in
    let (ds, es, hs) = reconcile_clients-entries wm i cs oks in
    (d ∷ ds, rw (e, es) refl, ap₂ ◌∷◌ h hs)

with_owner-monitors :
    (wm : WindowManager) (i preferred : ℕ)
    → map without_owner (with_owner wm i preferred).monitors ≡ map without_owner wm.monitors
unfolding with_owner
with_owner-monitors wm i preferred = elim (Option-cases (get_elem? wm.monitors i)) [
  | inl e ↦ rw (e, with_owner) refl
  | inr (m, e) ↦ rw (e, with_owner) (map-set without_owner wm.monitors i m _ e refl)
]

with_owner-clients :
    (wm : WindowManager) (i preferred : ℕ) (cs : List Client)
    → map entry cs ≡ map entry wm.clients
    → view (record (with_owner wm i preferred) { clients = cs }) ≡ view wm
unfolding with_owner
with_owner-clients wm i preferred cs h = elim (Option-cases (get_elem? wm.monitors i)) [
  | inl e ↦ rw (e, with_owner) (rw h refl)
  | inr (m, e) ↦
      let p =
        map-set without_owner wm.monitors i m
          (record m { fullscreen_owner = select_fullscreen_owner_for_monitor wm i preferred }) e
          refl in
      rw (e, with_owner) (rw (h, p) refl)
]

pub reconcile_visibility_for_monitor-Keeps :
    (wm : WindowManager) (i preferred : ℕ)
    → All IsConsistent wm.clients
    → Keeps wm (reconcile_visibility_for_monitor wm i preferred)
unfolding reconcile_visibility_for_monitor
reconcile_visibility_for_monitor-Keeps wm i preferred ok =
    choose (Keeps wm) (leb (length wm.monitors) i) _ _ (λ _. (wm, refl, refl))
      (λ _.
        let (ds, e, h) = reconcile_clients-entries (with_owner wm i preferred) i wm.clients ok in
        (
          record (with_owner wm i preferred) { clients = ds },
          rw e refl,
          with_owner-clients wm i preferred ds h,
        ))

change-view :
    (f : Client → Client) (w : ℕ) (wm : WindowManager)
    → ((c : Client) → entry (f c) ≡ entry c)
    → view (change f w wm) ≡ view wm
change-view f w wm h =
    view_same wm (change f w wm) (entries-update f w wm.clients h) refl refl refl refl

sync_configured-view :
    (calls : List Configure) (wm : WindowManager) → view (sync_configured calls wm) ≡ view wm
unfolding sync_configured
sync_configured-view [] wm = refl
sync_configured-view (c ∷ calls) wm =
    sync_configured-view calls (change (send_sync_request wm) c.window wm)
    ∙ change-view (send_sync_request wm) c.window wm
        (λ d. entry-IsSame d (send_sync_request wm d) (send_sync_request-IsSame wm d))

store_geometries-view :
    (ws : List ℕ) (gs : List Geometry) (wm : WindowManager)
    → view (store_geometries ws gs wm) ≡ view wm
unfolding store_geometries
store_geometries-view [] gs wm = refl
store_geometries-view (w ∷ ws) [] wm = refl
store_geometries-view (w ∷ ws) (g ∷ gs) wm =
    store_geometries-view ws gs (change (with_tiled_geometry g) w wm)
    ∙ change-view (with_tiled_geometry g) w wm (λ d. refl)

apply_fullscreens-view :
    (ws : List ℕ) (wm : WindowManager) → view (apply_fullscreens ws wm) ≡ view wm
unfolding apply_fullscreens
apply_fullscreens-view [] wm = refl
apply_fullscreens-view (w ∷ ws) wm =
    apply_fullscreens-view ws (change (apply_fullscreen_if_needed wm) w wm)
    ∙ change-view (apply_fullscreen_if_needed wm) w wm (λ d.
      entry-IsSame d (apply_fullscreen_if_needed wm d) (apply_fullscreen_if_needed-IsSame wm d))

module _ (ops : DoubleOps) (settings : LayoutSettings) where
  arrange_shown-view :
      (wm : WindowManager) (m : Monitor) (ws : Workspace) (s : Shown) (geometry_only : Bool)
      → view (arrange_shown ops settings wm m ws s geometry_only) ≡ view wm
  unfolding arrange_shown
  arrange_shown-view wm m ws s geometry_only =
      apply_fullscreens-view s.visible_fullscreen_windows _
      ∙ (store_geometries-view s.visible_windows _ _ ∙ sync_configured-view _ wm)

  pub rearrange_monitor-Keeps :
      (wm : WindowManager) (i : ℕ) (geometry_only : Bool)
      → IsRegistered wm
      → i < length wm.monitors
      → Keeps wm (rearrange_monitor ops settings wm i geometry_only)
  unfolding rearrange_monitor
  rearrange_monitor-Keeps wm i geometry_only r lt =
      let (m, e) = get_elem?_total wm.monitors i lt in
      let (ws, c) = get_elem?_total m.workspaces m.current_workspace (
        All-get_elem? (λ (m : Monitor). m.current_workspace < length m.workspaces) wm.monitors i
          r.currents e) in
      (
        arrange_shown ops settings wm m ws (collect_shown wm m ws) geometry_only,
        rw (e, rearrange_monitor) (rw c refl),
        arrange_shown-view wm m ws (collect_shown wm m ws) geometry_only,
      )

  pub finalize_visibility_on_monitor-Keeps :
      (wm : WindowManager) (i preferred : ℕ)
      → IsRegistered wm
      → Keeps wm (finalize_visibility_on_monitor ops settings wm i preferred)
  unfolding finalize_visibility_on_monitor
  finalize_visibility_on_monitor-Keeps wm i preferred r =
      elim (Option-cases (get_elem? wm.monitors i)) [
        | inl e ↦ (wm, rw (e, finalize_visibility_on_monitor) refl, refl)
        | inr (m, e) ↦
            rw (e, finalize_visibility_on_monitor)
              (Keeps-bind wm (reconcile_visibility_for_monitor wm i preferred) _
                (reconcile_visibility_for_monitor-Keeps wm i preferred
                  (IsRegistered-IsConsistent wm r))
                (λ wm' h.
                  rearrange_monitor-Keeps wm' i false (IsRegistered-view wm wm' h r)
                    (rw (length-view wm wm' h) (get_elem?-lt wm.monitors i e))))
      ]
