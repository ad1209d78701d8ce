-- ===== src/Wm/Reconcile/Keeps.antt =====
-- On what follows show_window in src/lwm/wm.cpp: the fields of a client that stay as they are.
use lwm.Base.{
  ◌≡◌, refl, ◌∙◌, Bool, true, false, not, ◌&&◌, ◌||◌, inl, inr, Bool-cases, choose, Option-cases,
  Option, some, value_or, get_elem?, ◌==◌, arith,
}
use lwm.Types.{
  Client, SavedTilePos, TilingState, tiled_state, floating_state, Geometry, Monitor, working_area,
}
use lwm.Wm.State.{
  WindowManager, is_floating, on_overlay, should_be_visible, is_suppressed_by_fullscreen,
}
use lwm.Wm.Reconcile.{
  send_sync_request, apply_floating_geometry, overlay_geometry_for_client, maximized, maximize_on,
  apply_maximized_geometry, is_current, apply_fullscreen_if_needed, place_shown, should_show,
}

abbrev pub holds_floating : TilingState → Bool
holds_floating (tiled_state prior) = false
holds_floating (floating_state g saved) = true

-- A floating client holds a floating state, as assert_client_state_consistency asserts.
abbrev pub IsConsistent : Client → Type 0
IsConsistent c = (not (is_floating c.kind) || holds_floating c.tiling_state) ≡ true

-- The same client, but for its geometry and its synchronisation.
pub record IsSame (c d : Client) : Type 0 where
  pub id : d.id ≡ c.id
  pub kind : d.kind ≡ c.kind
  pub monitor : d.monitor ≡ c.monitor
  pub workspace : d.workspace ≡ c.workspace
  pub iconic : d.iconic ≡ c.iconic
  pub sticky : d.sticky ≡ c.sticky
  pub layer : d.layer ≡ c.layer
  pub transient_for : d.transient_for ≡ c.transient_for
  pub hidden : d.hidden ≡ c.hidden
  pub consistent : holds_floating d.tiling_state ≡ holds_floating c.tiling_state

-- A result that is the same client.
abbrev pub Yields : Client → Option Client → Type 0
Yields c r = (d : Client) × (r ≡ some d) × IsSame c d

pub same : (c : Client) → IsSame c c
same c = record {
  id = refl;
  kind = refl;
  monitor = refl;
  workspace = refl;
  iconic = refl;
  sticky = refl;
  layer = refl;
  transient_for = refl;
  hidden = refl;
  consistent = refl;
}

pub send_sync_request-IsSame : (wm : WindowManager) (c : Client) → IsSame c (send_sync_request wm c)
unfolding send_sync_request
send_sync_request-IsSame wm c = elim (Bool-cases (not wm.sync_supported || c.sync_counter == 0)) [
  | inl e ↦ rw e (same c)
  | inr e ↦ rw e (record {
    id = refl;
    kind = refl;
    monitor = refl;
    workspace = refl;
    iconic = refl;
    sticky = refl;
    layer = refl;
    transient_for = refl;
    hidden = refl;
    consistent = refl;
  })
]

pub placed :
    (c : Client) (s : TilingState)
    → holds_floating s ≡ holds_floating c.tiling_state
    → IsSame c (record c { tiling_state = s })
placed c s h = record {
  id = refl;
  kind = refl;
  monitor = refl;
  workspace = refl;
  iconic = refl;
  sticky = refl;
  layer = refl;
  transient_for = refl;
  hidden = refl;
  consistent = h;
}

pub IsSame-trans : (a b c : Client) → IsSame a b → IsSame b c → IsSame a c
IsSame-trans a b c p q = record {
  id = q.id ∙ p.id;
  kind = q.kind ∙ p.kind;
  monitor = q.monitor ∙ p.monitor;
  workspace = q.workspace ∙ p.workspace;
  iconic = q.iconic ∙ p.iconic;
  sticky = q.sticky ∙ p.sticky;
  layer = q.layer ∙ p.layer;
  transient_for = q.transient_for ∙ p.transient_for;
  hidden = q.hidden ∙ p.hidden;
  consistent = q.consistent ∙ p.consistent;
}

pub on_floating :
    (P : TilingState → Type 0) (s : TilingState)
    → holds_floating s ≡ true
    → ((g : Geometry) (saved : Option SavedTilePos) → P (floating_state g saved))
    → P s
on_floating P (tiled_state prior) h f = cc
on_floating P (floating_state g saved) h f = f g saved

pub apply_floating_geometry-Yields :
    (wm : WindowManager) (c : Client)
    → holds_floating c.tiling_state ≡ true
    → Yields c (apply_floating_geometry wm c)
unfolding apply_floating_geometry overlay_geometry_for_client
apply_floating_geometry-Yields wm c h =
    on_floating
      (λ (s : TilingState).
        Yields (record c { tiling_state = s })
          (apply_floating_geometry wm (record c { tiling_state = s })))
      c.tiling_state h
      (λ g saved.
        let d = record c { tiling_state = floating_state g saved } in
        choose (λ (e : Client). Yields d (some (send_sync_request wm e))) (on_overlay c.layer) _ d
          (λ _.
            let e = record c {
              tiling_state = floating_state (overlay_geometry_for_client wm c) saved;
            } in
            (
              send_sync_request wm e,
              refl,
              IsSame-trans d e (send_sync_request wm e) (placed d _ refl)
                  (send_sync_request-IsSame wm e),
            ))
          (λ _. (send_sync_request wm d, refl, send_sync_request-IsSame wm d)))

pub Yields-trans : (c d : Client) (r : Option Client) → IsSame c d → Yields d r → Yields c r
Yields-trans c d r h (e, is, k) = (e, is, IsSame-trans c d e h k)

maximize_on-Yields :
    (wm : WindowManager) (m : Monitor) (c : Client)
    → holds_floating c.tiling_state ≡ true
    → Yields c (maximize_on wm m c)
unfolding maximize_on
maximize_on-Yields wm m c h =
    on_floating
      (λ (s : TilingState).
        Yields (record c { tiling_state = s }) (maximize_on wm m (record c { tiling_state = s })))
      c.tiling_state h
      (λ g saved.
        let d = record c { tiling_state = floating_state g saved } in
        let area =
          maximized c.maximized_horz c.maximized_vert (working_area m)
            (value_or c.maximize_restore g) in
        let e = record c { tiling_state = floating_state area saved } in
        choose (Yields d) (should_be_visible wm e && not e.hidden) (apply_floating_geometry wm e)
          (some e)
          (λ _.
            Yields-trans d e _ (placed d (floating_state area saved) refl)
              (apply_floating_geometry-Yields wm e refl))
          (λ _. (e, refl, placed d (floating_state area saved) refl)))

pub apply_maximized_geometry-Yields :
    (wm : WindowManager) (c : Client)
    → holds_floating c.tiling_state ≡ true
    → Yields c (apply_maximized_geometry wm c)
unfolding apply_maximized_geometry
apply_maximized_geometry-Yields wm c h =
    choose (Yields c) (not (is_floating c.kind)) (some c) _ (λ _. (c, refl, same c))
      (λ _. elim (Option-cases (get_elem? wm.monitors c.monitor)) [
        | inl e ↦ rw e (c, refl, same c)
        | inr (m, e) ↦ rw e (maximize_on-Yields wm m c h)
      ])

pub apply_fullscreen_if_needed-IsSame :
    (wm : WindowManager) (c : Client) → IsSame c (apply_fullscreen_if_needed wm c)
unfolding apply_fullscreen_if_needed
apply_fullscreen_if_needed-IsSame wm c =
    choose (IsSame c)
      (c.fullscreen && not (is_suppressed_by_fullscreen wm c) && not c.iconic && is_current wm c) _
      c (λ _. send_sync_request-IsSame wm c) (λ _. same c)

pub place_shown-Yields :
    (wm : WindowManager) (c : Client) → IsConsistent c → Yields c (place_shown wm c)
unfolding place_shown
place_shown-Yields wm c h =
    choose (Yields c) (not (is_floating c.kind)) (some c) _ (λ _. (c, refl, same c))
      (λ floats.
        let holds : holds_floating c.tiling_state ≡ true = ground (arith, h, floats) in
        choose (Yields c) c.fullscreen _ _
          (λ _. (apply_fullscreen_if_needed wm c, refl, apply_fullscreen_if_needed-IsSame wm c))
          (λ _.
            choose (Yields c) (c.maximized_horz || c.maximized_vert) (apply_maximized_geometry wm c)
              (apply_floating_geometry wm c) (λ _. apply_maximized_geometry-Yields wm c holds)
              (λ _. apply_floating_geometry-Yields wm c holds)))

-- What visibility depends on is the same.
pub should_show-IsSame :
    (wm : WindowManager) (c d : Client) → IsSame c d → should_show wm d ≡ should_show wm c
unfolding should_be_visible is_suppressed_by_fullscreen
should_show-IsSame wm c d h =
    rw (h.kind, h.monitor, h.workspace, h.iconic, h.sticky, h.layer, h.transient_for, h.id) refl
