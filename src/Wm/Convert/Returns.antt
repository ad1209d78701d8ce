-- ===== src/Wm/Convert/Returns.antt =====
-- On convert_window_to_floating and convert_window_to_tiled of src/lwm/wm.cpp, one after the other.
use mathlib.Core.Path.{subst}
use lwm.Base.{
  ℕ, ◌+◌, ◌%◌, ◌^◌, ◌≡◌, refl, sym, ap, ◌∙◌, true, false, Option, some, ◌>>=◌, List, [], ◌∷◌, ◌++◌,
  get_elem?, contains, erase_first,
}
use lwm.Types.{
  Client, Geometry, SavedTilePos, TilingState, tiled_state, floating_state, Monitor, Workspace,
  set_floating_state,
}
use lwm.Policy.Workspace.{remove_tiled_window}
use lwm.Wm.State.{WindowManager, get_client, is_floating}
use lwm.Wm.Reconcile.Keeps.{holds_floating}
use lwm.Wm.Rearrange.{change}
use lwm.Wm.Place.{is_tiled, has_place, window_is_iconic, workspace_at, with_workspace}
use lwm.Wm.Place.Counts.{has_place-workspace, listed_contains}
use lwm.Wm.Registry.{listed, IsRegistered}
use lwm.Wm.Registry.Changes.{found-update, found-IsInPlace, found_listed}
use lwm.Wm.Registry.Lists.{listed_workspace, workspace_parts, has_place-set_workspace}
use lwm.Wm.Convert.{
  prior_floating_geometry, index_of, position_of, floating_geometry_for, as_floating, float_client,
  convert_window_to_floating, as_tiled, tile_client, convert_window_to_tiled,
}
use lwm.Wm.Convert.Back.{moved, put_back}
use lwm.Wm.Convert.Stays.{managed, not_floating, removed_windows, remove_is}
use lwm.Wm.Convert.Tiles.{within_place, add_is}
use lwm.Wm.Convert.Lists.{
  index_of-contains, Lists, Lists-set, has_workspace, tiled-Lists, all_listed,
}

-- convert_window_to_tiled on a window that holds the place it has left.
tiles :
    (ms : List Monitor) (wm : WindowManager) (prior : Option Geometry) (c : Client) (g : Geometry)
    (k : ℕ) (windows : List ℕ)
    → get_client wm c.id ≡ some c
    → is_floating c.kind ≡ true
    → c.tiling_state
      ≡ floating_state g (some (record { index = k; monitor = c.monitor; workspace = c.workspace }))
    → has_place wm.monitors c.monitor c.workspace ≡ true
    → Lists ms c.monitor c.workspace wm.monitors windows
    → (wm' : WindowManager) × (convert_window_to_tiled wm c.id prior ≡ some wm')
      × Lists ms c.monitor c.workspace wm'.monitors (moved (windows ++ c.id ∷ []) k)
unfolding convert_window_to_tiled tile_client
tiles ms wm prior c g k windows e f is p h =
    let (ws, at, same) = has_workspace ms wm.monitors c.monitor c.workspace windows p h in
    let (m, found_m, on) = workspace_parts wm.monitors c.monitor c.workspace ws at in
    let mid : WindowManager = change (as_tiled prior) c.id wm in
    rw (e, convert_window_to_tiled)
      (rw f (
        rw found_m (
          rw (is, tile_client)
            (rw (within_place wm.monitors c.monitor c.workspace m found_m p) (
              rw (add_is mid c.id c.monitor c.workspace ws at p) (
                _,
                refl,
                tiled-Lists ms wm.monitors c.id c.monitor c.workspace k windows ws _ at same p h
                    refl,
              ))))))

-- The window manager after convert_window_to_floating, where the window was at the index `k`.
abbrev floated :
    WindowManager
    → (ℕ → Geometry)
    → Client
    → Monitor
    → Workspace
    → Option Geometry
    → ℕ
    → WindowManager
floated wm geometries c m ws g k =
    record (change
      (as_floating wm.next_mru_order (floating_geometry_for m g (geometries c.id) c.hidden)
        (some (record { index = k; monitor = c.monitor; workspace = c.workspace })))
      c.id
      (with_workspace wm c.monitor c.workspace
        (remove_tiled_window ws c.id (window_is_iconic wm)).0)) {
          next_mru_order = (wm.next_mru_order + 1) % 2 ^ 64;
        }

floats :
    (wm : WindowManager) (geometries : ℕ → Geometry) (c : Client) (m : Monitor) (ws : Workspace)
    (g : Option Geometry) (k : ℕ)
    → get_client wm c.id ≡ some c
    → is_tiled c.kind ≡ true
    → get_elem? wm.monitors c.monitor ≡ some m
    → workspace_at wm.monitors c.monitor c.workspace ≡ some ws
    → prior_floating_geometry c.tiling_state ≡ some g
    → index_of ws.windows c.id ≡ some k
    → convert_window_to_floating wm geometries c.id ≡ some (floated wm geometries c m ws g k)
unfolding convert_window_to_floating float_client position_of
floats wm geometries c m ws g k e t found_m at state index =
    rw (e, convert_window_to_floating)
      (rw t (
        rw found_m (
          rw (state, float_client)
            (rw (at, remove_is wm c.id c.monitor c.workspace ws at)
              (rw (index, position_of) refl)))))

returns :
    (wm : WindowManager) (geometries : ℕ → Geometry) (prior : Option Geometry) (c : Client)
    (m : Monitor) (ws : Workspace) (g : Option Geometry) (k : ℕ)
    → get_client wm c.id ≡ some c
    → has_place wm.monitors c.monitor c.workspace ≡ true
    → workspace_at wm.monitors c.monitor c.workspace ≡ some ws
    → contains ws.windows c.id ≡ true
    → index_of ws.windows c.id ≡ some k
    → (wm' : WindowManager) × (convert_window_to_tiled (floated wm geometries c m ws g k) c.id prior
        ≡ some wm')
      × Lists wm.monitors c.monitor c.workspace wm'.monitors ws.windows
unfolding get_client set_floating_state
returns wm geometries prior c m ws g k e p at has index =
    let ms = wm.monitors in
    let mid = floated wm geometries c m ws g k in
    let new = (remove_tiled_window ws c.id (window_is_iconic wm)).0 in
    let geometry = floating_geometry_for m g (geometries c.id) c.hidden in
    let place : SavedTilePos = record { index = k; monitor = c.monitor; workspace = c.workspace } in
    let d : Client = as_floating wm.next_mru_order geometry (some place) c in
    let left =
      subst (λ l. Lists ms c.monitor c.workspace mid.monitors l)
        (removed_windows ws c.id (window_is_iconic wm) has)
        (Lists-set ms ms c.monitor c.workspace ws new ws.windows at
          (listed_workspace ms c.monitor c.workspace ws at, λ i j h. refl)) in
    let there =
      has_place-set_workspace ms c.monitor c.workspace ws new at c.monitor c.workspace ∙ p in
    let found_d =
      found-update (as_floating wm.next_mru_order geometry (some place)) c.id wm.clients c e refl in
    let (end, is, lists) =
      tiles ms mid prior d geometry k (erase_first ws.windows c.id) found_d refl refl there left in
    (
      end,
      is,
      subst (λ l. Lists ms c.monitor c.workspace end.monitors l) (put_back ws.windows c.id k index)
          lists,
    )

prior_of :
    (s : TilingState)
    → holds_floating s ≡ false
    → (g : Option Geometry) × (prior_floating_geometry s ≡ some g)
prior_of (tiled_state g) h = (g, refl)
prior_of (floating_state g saved) h = cc

-- In a state whose registry is as the code asserts, a tiled window that becomes floating and then
-- tiled again is back at its place: the two conversions give a state, in which each workspace lists
-- the same windows in the same order as before.
pub convert_window_to_tiled-convert_window_to_floating :
    (wm : WindowManager) (geometries : ℕ → Geometry) (prior : Option Geometry) (c : Client)
    → IsRegistered wm
    → get_client wm c.id ≡ some c
    → is_tiled c.kind ≡ true
    → (wm' : WindowManager) × ((convert_window_to_floating wm geometries c.id
          >>= (λ mid. convert_window_to_tiled mid c.id prior))
        ≡ some wm')
      × ((i j : ℕ) → listed wm'.monitors i j ≡ listed wm.monitors i j)
unfolding get_client
convert_window_to_tiled-convert_window_to_floating wm geometries prior c r e t =
    let ms = wm.monitors in
    let place = found-IsInPlace c.id wm.clients c ms e r in
    let p = place.0 (managed c.kind t) in
    let (ws, at) = has_place-workspace ms c.monitor c.workspace p in
    let (m, found_m, on) = workspace_parts ms c.monitor c.workspace ws at in
    let has = listed_contains ms c ws at (found_listed c.id wm.clients c ms e t r) in
    let (k, index) = index_of-contains ws.windows c.id has in
    let (g, state) = prior_of c.tiling_state (sym place.1 ∙ not_floating c.kind t) in
    let (end, is, lists) = returns wm geometries prior c m ws g k e p at has index in
    (
      end,
      ap (λ o. o >>= (λ mid. convert_window_to_tiled mid c.id prior))
            (floats wm geometries c m ws g k e t found_m at state index)
          ∙ is,
      all_listed ms end.monitors c.monitor c.workspace ws at lists,
    )
