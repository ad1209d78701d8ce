-- ===== src/Wm/Rearrange.antt =====
-- WindowManager::rearrange_monitor and finalize_visibility_on_monitor of src/lwm/wm.cpp: the tiled
-- windows that show are arranged, and each keeps the geometry that it gets. The window that
-- configure_window (src/lwm/layout/layout.cpp) changes first gets a synchronisation request.
pub mod Collect
pub mod Settles
use lwm.Base.{
  ℕ, Bool, true, false, not, ◌&&◌, ◌||◌, Option, none, some, ◌>>=◌, List, [], ◌∷◌, ◌++◌, map,
  contains, get_elem?, ◌==◌, if◌then◌else◌,
}
use lwm.Base.Int.{pos}
use lwm.Types.{Client, Geometry, Monitor, Workspace, working_area, current}
use lwm.Layout.Tree.{DoubleOps}
use lwm.Layout.Arrange.{LayoutSettings, Configure, arrange}
use lwm.Wm.State.{WindowManager, get_client}
use lwm.Wm.Reconcile.{
  send_sync_request, apply_fullscreen_if_needed, reconcile_visibility_for_monitor,
}

-- The windows to tile and the fullscreen windows, in order.
pub record Shown : Type 0 where
  pub visible_windows : List ℕ
  pub visible_fullscreen_windows : List ℕ

abbrev pub add_shown : Shown → ℕ → Client → Shown
add_shown s w c =
    if c.fullscreen
    then record s { visible_fullscreen_windows = s.visible_fullscreen_windows ++ w ∷ [] }
    else record s { visible_windows = s.visible_windows ++ w ∷ [] }

-- seen.contains(window)
abbrev pub is_seen : Shown → ℕ → Bool
is_seen s w = contains s.visible_windows w || contains s.visible_fullscreen_windows w

abbrev pub collect_window : Shown → ℕ → Option Client → Shown
collect_window s w none = s
collect_window s w (some c) = if c.hidden then s else add_shown s w c

-- The loop over the current workspace.
unfoldable pub collect_current : WindowManager → List ℕ → Shown → Shown
collect_current wm [] s = s
collect_current wm (w ∷ ws) s = collect_current wm ws (collect_window s w (get_client wm w))

abbrev pub collect_sticky_window : Shown → ℕ → Option Client → Shown
collect_sticky_window s w none = s
collect_sticky_window s w (some c) = if not c.sticky || c.hidden then s else add_shown s w c

-- The loops over all workspaces.
unfoldable pub collect_sticky : WindowManager → List ℕ → Shown → Shown
collect_sticky wm [] s = s
collect_sticky wm (w ∷ ws) s =
    collect_sticky wm ws (if is_seen s w then s else collect_sticky_window s w (get_client wm w))

unfoldable pub collect_workspaces : WindowManager → List Workspace → Shown → Shown
collect_workspaces wm [] s = s
collect_workspaces wm (ws ∷ wss) s = collect_workspaces wm wss (collect_sticky wm ws.windows s)

unfoldable pub collect_shown : WindowManager → Monitor → Workspace → Shown
collect_shown wm m ws = collect_workspaces wm m.workspaces (
    collect_current wm ws.windows
      (record { visible_windows = []; visible_fullscreen_windows = [] }))

-- A change of the client that get_client finds.
unfoldable pub update : (Client → Client) → ℕ → List Client → List Client
update f w [] = []
update f w (c ∷ cs) = if c.id == w then f c ∷ cs else c ∷ update f w cs

abbrev pub change : (Client → Client) → ℕ → WindowManager → WindowManager
change f w wm = record wm { clients = update f w wm.clients }

unfoldable pub sync_configured : List Configure → WindowManager → WindowManager
sync_configured [] wm = wm
sync_configured (c ∷ calls) wm = sync_configured calls (change (send_sync_request wm) c.window wm)

abbrev pub with_tiled_geometry : Geometry → Client → Client
with_tiled_geometry g c = record c { tiled_geometry = g }

-- The loop that stores the applied geometries.
unfoldable pub store_geometries : List ℕ → List Geometry → WindowManager → WindowManager
store_geometries [] gs wm = wm
store_geometries (w ∷ ws) [] wm = wm
store_geometries (w ∷ ws) (g ∷ gs) wm = store_geometries ws gs (change (with_tiled_geometry g) w wm)

unfoldable pub apply_fullscreens : List ℕ → WindowManager → WindowManager
apply_fullscreens [] wm = wm
apply_fullscreens (w ∷ ws) wm = apply_fullscreens ws (change (apply_fullscreen_if_needed wm) w wm)

abbrev pub tiled_geometry_of : Option Client → Geometry
tiled_geometry_of none = record { x = pos 0; y = pos 0; width = 0; height = 0 }
tiled_geometry_of (some c) = c.tiled_geometry

module _ (ops : DoubleOps) (settings : LayoutSettings) where
  -- What follows the collection, on a monitor and its current workspace.
  unfoldable pub arrange_shown : WindowManager → Monitor → Workspace → Shown → Bool → WindowManager
  arrange_shown wm m ws s geometry_only =
      let old =
        if geometry_only
        then map (λ w. tiled_geometry_of (get_client wm w)) s.visible_windows
        else [] in
      let (applied, calls) =
        arrange ops settings s.visible_windows (working_area m) ws.layout_strategy ws.split_ratios
          old in
      apply_fullscreens s.visible_fullscreen_windows
        (store_geometries s.visible_windows applied (sync_configured calls wm))

  -- An index out of range, which is undefined in the code, gives `none`.
  unfoldable pub rearrange_monitor : WindowManager → ℕ → Bool → Option WindowManager
  rearrange_monitor wm monitor_idx geometry_only = do
    m ← get_elem? wm.monitors monitor_idx
    ws ← current m
    some (arrange_shown wm m ws (collect_shown wm m ws) geometry_only)

  unfoldable pub finalize_visibility_on_monitor : WindowManager → ℕ → ℕ → Option WindowManager
  finalize_visibility_on_monitor wm monitor_idx preferred_owner =
      elim (get_elem? wm.monitors monitor_idx) [
        | none ↦ some wm
        | some m ↦
            reconcile_visibility_for_monitor wm monitor_idx preferred_owner
            >>= (λ wm'. rearrange_monitor wm' monitor_idx false)
      ]
