-- ===== src/Wm/Convert/Tiles.antt =====
-- On convert_window_to_tiled of src/lwm/wm.cpp: what src/lwm/core/invariants.hpp asserts.
use mathlib.Core.Path.{subst}
use lwm.Base.{
  ℕ, ◌+◌, ◌≡◌, refl, sym, ◌∙◌, true, false, not, choose, Option, some, List, [], ◌∷◌, ◌++◌, map,
  length, get_elem?, count, count-append, ltb, ◌==◌, Option-cases, inl, inr, arith,
}
use lwm.Types.{
  Client, Kind, Geometry, TilingState, tiled_state, floating_state, Monitor, Workspace,
  set_tiled_state,
}
use lwm.Wm.State.{WindowManager, get_client, is_floating, is_managed_kind}
use lwm.Wm.Reconcile.Keeps.{holds_floating}
use lwm.Wm.Rearrange.{update, change}
use lwm.Wm.Place.{
  is_tiled, has_place, workspace_at, set_workspace, with_workspace, placed_at,
  assign_window_workspace, add_tiled_to_workspace,
}
use lwm.Wm.Place.Counts.{has_place-workspace, get_client_id}
use lwm.Wm.Registry.{entry, listed, IsRegistry}
use lwm.Wm.Registry.Changes.{one, Fits, found-IsInPlace, IsRegistry-change, update-update}
use lwm.Wm.Registry.Sizes.{sizes-set_workspace}
use lwm.Wm.Registry.Lists.{
  has_place_at, has_place-set_workspace, AllCurrent-set_workspace, count-set_workspace,
  length-set_workspace,
}
use lwm.Wm.Registry.Order.{Frame, InOrder, Fine}
use lwm.Wm.Registry.Fine.{InOrder-moved, fine}
use lwm.Wm.Convert.{within, restore_position, as_tiled, tile_client, convert_window_to_tiled}
use lwm.Wm.Convert.Stays.{come_counts, restored-IsRegistry, restored_rest}

not_tiled : (k : Kind) → is_floating k ≡ true → is_tiled k ≡ false
not_tiled k h = ground arith

managed : (k : Kind) → is_floating k ≡ true → is_managed_kind k ≡ true
managed k h = ground arith

pub within_place :
    (ms : List Monitor) (i j : ℕ) (m : Monitor)
    → get_elem? ms i ≡ some m
    → has_place ms i j ≡ true
    → within j (length m.workspaces) ≡ j
within_place ms i j m e h =
    let lt : ltb j (length m.workspaces) ≡ true = sym (has_place_at ms i j m e) ∙ h in
    ground (arith, lt)

pub add_is :
    (wm : WindowManager) (w i j : ℕ) (ws : Workspace)
    → workspace_at wm.monitors i j ≡ some ws
    → has_place wm.monitors i j ≡ true
    → add_tiled_to_workspace wm w i j
      ≡ change
          (placed_at i j)
          w
          (with_workspace wm i j (record ws { windows = ws.windows ++ w ∷ [] }))
unfolding add_tiled_to_workspace assign_window_workspace
add_is wm w i j ws e p =
    let new : Workspace = record ws { windows = ws.windows ++ w ∷ [] } in
    let there : has_place (set_workspace wm.monitors i j new) i j ≡ true =
      has_place-set_workspace wm.monitors i j ws new e i j ∙ p in
    rw (e, add_tiled_to_workspace) (rw there refl)

module _ (n : Frame) where
  tile_client-Fine :
      (wm : WindowManager) (prior : Option Geometry) (w : ℕ) (c : Client) (m : Monitor)
      → InOrder n wm
      → get_client wm w ≡ some c
      → is_floating c.kind ≡ true
      → get_elem? wm.monitors c.monitor ≡ some m
      → (s : TilingState) → c.tiling_state ≡ s
      → holds_floating s ≡ true
      → Fine n (tile_client wm prior c m)
  unfolding tile_client get_client set_tiled_state
  tile_client-Fine wm prior w c m h e f at (tiled_state g) is holds = cc
  tile_client-Fine wm prior w c m h e f at (floating_state g saved) is holds =
      let self : get_client wm c.id ≡ some c =
        subst (λ u. get_client wm u ≡ some c) (sym (get_client_id wm w c e)) e in
      let place =
        (found-IsInPlace w wm.clients c wm.monitors e h.registered).0 (managed c.kind f) in
      let (ws, on) = has_place-workspace wm.monitors c.monitor c.workspace place in
      let new : Workspace = record ws { windows = ws.windows ++ c.id ∷ [] } in
      let g2 : Client → Client =
        λ (x : Client). placed_at c.monitor c.workspace (as_tiled prior x) in
      let ns = set_workspace wm.monitors c.monitor c.workspace new in
      let mid : WindowManager = change (as_tiled prior) c.id wm in
      let fits : Fits c (g2 c) wm.monitors ns = record {
        id = refl;
        in_place = (λ _. place, refl);
        places = has_place-set_workspace wm.monitors c.monitor c.workspace ws new on;
        currents =
            AllCurrent-set_workspace wm.monitors c.monitor c.workspace ws new on
              h.registered.currents;
        counted = λ i j v.
            let come =
              come_counts (c.monitor == i) (c.workspace == j) true (c.id == v) (count v ws.windows)
                (count v new.windows) (count v (listed wm.monitors i j)) (count v (listed ns i j))
                refl (added ws.windows c.id v)
                (count-set_workspace wm.monitors c.monitor c.workspace ws new on i j v) in
            rw (not_tiled c.kind f) (omega (arith, come));
      } in
      let registry = IsRegistry-change c.id wm.clients c g2 wm.monitors ns self fits h.registered in
      let twice =
        update-update (as_tiled prior) (placed_at c.monitor c.workspace) c.id wm.clients
          (λ d. refl) in
      let after =
        change (placed_at c.monitor c.workspace) c.id
          (with_workspace mid c.monitor c.workspace new) in
      let restored =
        restored-IsRegistry n (map entry (update g2 c.id wm.clients)) after saved c.monitor
          c.workspace registry in
      let rest = restored_rest n after saved c.monitor c.workspace in
      let end = restore_position after saved c.monitor c.workspace in
      let clients = rest.0 ∙ twice in
      rw (is, tile_client)
        (rw (within_place wm.monitors c.monitor c.workspace m at place) (
          rw (add_is mid c.id c.monitor c.workspace ws on place) (
            fine end (
              InOrder-moved g2 c.id c wm end self clients
                (restored.1.0 ∙ length-set_workspace wm.monitors c.monitor c.workspace new)
                (restored.1.1 ∙ sizes-set_workspace wm.monitors c.monitor c.workspace new) refl
                (sym (managed c.kind f))
                (subst (λ xs. IsRegistry (map entry xs) end.monitors) (sym clients) restored.0)
                rest.1 h))))
    where
      added : (xs : List ℕ) (w v : ℕ) → count v (xs ++ w ∷ []) ≡ count v xs + one (w == v)
      added xs w v = omega (arith, count-append v xs (w ∷ []))

  pub convert_window_to_tiled-Fine :
      (wm : WindowManager) (w : ℕ) (prior : Option Geometry)
      → InOrder n wm
      → Fine n (convert_window_to_tiled wm w prior)
  unfolding convert_window_to_tiled get_client
  convert_window_to_tiled-Fine wm w prior h = elim (Option-cases (get_client wm w)) [
    | inl e ↦ rw (e, convert_window_to_tiled) (fine wm h)
    | inr (c, e) ↦
        rw (e, convert_window_to_tiled)
          (choose (Fine n) (not (is_floating c.kind)) _ _ (λ _. fine wm h)
            (λ f. elim (Option-cases (get_elem? wm.monitors c.monitor)) [
              | inl out ↦ rw out (fine wm h)
              | inr (m, at) ↦
                  let floats : is_floating c.kind ≡ true = ground (arith, f) in
                  rw at (
                    tile_client-Fine wm prior w c m h e floats at c.tiling_state refl
                      (sym (found-IsInPlace w wm.clients c wm.monitors e h.registered).1 ∙ floats))
            ]))
  ]
