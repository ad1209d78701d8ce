-- ===== src/Wm/Modes/Restores.antt =====
-- On set_fullscreen, clear_fullscreen_state and set_window_maximized of src/lwm/wm.cpp: what a
-- window gets back when it leaves a mode.
use lwm.Base.{
  ◌+◌, ◌%◌, ◌^◌, ◌≡◌, refl, ap, ◌∙◌, Bool, true, false, not, ◌&&◌, ◌||◌, choose, choose_some,
  Option, none, some, ◌>>=◌, value_or, if◌then◌else◌, ◌==◌, get_elem?,
}
use lwm.Types.{
  Client, Kind, Geometry, LayerHint, SavedTilePos, TilingState, floating_state, WindowLayer,
  working_area,
}
use lwm.Wm.State.{WindowManager, on_overlay, should_be_visible, is_suppressed_by_fullscreen}
use lwm.Wm.Reconcile.{
  apply_floating_geometry, apply_maximized_geometry, maximized, maximize_on, send_sync_request,
}
use lwm.Wm.Modes.{
  with_floating_geometry, set_window_layer_hint, restored_layer_hint, restore_geometry,
  clear_fullscreen_state, save_geometry, enter_fullscreen, set_window_maximized,
}

-- What a client shows of the modes.
pub record Mode : Type 0 where
  pub fullscreen : Bool
  pub maximized_horz : Bool
  pub maximized_vert : Bool
  pub layer_hint : LayerHint
  pub tiling_state : TilingState
  pub maximize_restore : Option Geometry
  pub fullscreen_restore : Option Geometry

abbrev pub mode : Client → Mode
mode c = record {
  fullscreen = c.fullscreen;
  maximized_horz = c.maximized_horz;
  maximized_vert = c.maximized_vert;
  layer_hint = c.layer_hint;
  tiling_state = c.tiling_state;
  maximize_restore = c.maximize_restore;
  fullscreen_restore = c.fullscreen_restore;
}

sync_mode : (wm : WindowManager) (c : Client) → mode (send_sync_request wm c) ≡ mode c
unfolding send_sync_request
sync_mode wm c =
    choose (λ (d : Client). mode d ≡ mode c) (not wm.sync_supported || c.sync_counter == 0) _ _
      (λ _. refl) (λ _. refl)

abbrev without_restore : Mode → Mode
without_restore m = record m { maximize_restore = none }

-- A result with a mode.
abbrev pub HasMode : Mode → Option Client → Type 0
HasMode m r = (d : Client) × (r ≡ some d) × (mode d ≡ m)

-- Placing a window that is no overlay keeps its geometry.
apply-HasMode :
    (wm : WindowManager) (c : Client) (g : Geometry) (saved : Option SavedTilePos)
    → on_overlay c.layer ≡ false
    → HasMode
        (mode (record c { tiling_state = floating_state g saved }))
        (apply_floating_geometry wm (record c { tiling_state = floating_state g saved }))
unfolding apply_floating_geometry
apply-HasMode wm c g saved o =
    let d : Client = record c { tiling_state = floating_state g saved } in
    rw o (send_sync_request wm d, refl, sync_mode wm d)

-- Any floating client that is neither fullscreen nor an overlay.
abbrev pub floating_window : Client → Geometry → Option SavedTilePos → Client
floating_window c g saved = record c {
  kind = Kind.floating;
  tiling_state = floating_state g saved;
  fullscreen = false;
  layer = WindowLayer.normal;
}

-- A floating window, neither fullscreen nor an overlay, that becomes fullscreen and leaves it again
-- has its geometry and its layer hint again, unless its application prefers another hint. It is then
-- not maximized, and keeps the geometry that it had saved when it was maximized.
pub fullscreen_restores :
    (wm : WindowManager) (c : Client) (g : Geometry) (saved : Option SavedTilePos)
    → HasMode
        (record {
          fullscreen = false;
          maximized_horz = false;
          maximized_vert = false;
          layer_hint =
              if c.app_prefs.above
              then LayerHint.above
              else if c.app_prefs.below
              then LayerHint.below
              else c.layer_hint;
          tiling_state = floating_state g saved;
          maximize_restore = c.maximize_restore;
          fullscreen_restore = none;
        })
        (enter_fullscreen (floating_window c g saved) >>= clear_fullscreen_state wm)
unfolding enter_fullscreen save_geometry clear_fullscreen_state restore_geometry
    with_floating_geometry set_window_layer_hint restored_layer_hint
fullscreen_restores wm c g saved =
    let left : Client = record (floating_window c g saved) {
      maximized_horz = false;
      maximized_vert = false;
      layer_hint =
          if c.app_prefs.above
          then LayerHint.above
          else if c.app_prefs.below
          then LayerHint.below
          else c.layer_hint;
      fullscreen_restore = none;
      fullscreen_restore_layer_hint = none;
    } in
    choose (HasMode (mode left))
      (should_be_visible wm left && not left.hidden && not (is_suppressed_by_fullscreen wm left)) _
      _ (λ _. apply-HasMode wm left g saved refl) (λ _. (left, refl, refl))

-- A floating window that has saved the geometry `r`.
abbrev saving : Client → Geometry → Option SavedTilePos → Geometry → Client
saving c g saved r = record (floating_window c g saved) { maximize_restore = some r }

-- A result that is the window, somewhere, with `r` saved.
record IsSaving (c : Client) (saved : Option SavedTilePos) (r : Geometry) (o : Option Client)
    : Type 0 where
  pub client : Client
  pub at : Geometry
  pub is : o ≡ some (saving client at saved r)
  pub layer_hint : client.layer_hint ≡ c.layer_hint
  pub fullscreen_restore : client.fullscreen_restore ≡ c.fullscreen_restore

synced-IsSaving :
    (wm : WindowManager) (c : Client) (g : Geometry) (saved : Option SavedTilePos) (r : Geometry)
    → IsSaving c saved r (some (send_sync_request wm (saving c g saved r)))
unfolding send_sync_request
synced-IsSaving wm c g saved r =
    choose (λ (d : Client). IsSaving c saved r (some d))
      (not wm.sync_supported || c.sync_counter == 0) _ _
      (λ _. record { client = c; at = g; is = refl; layer_hint = refl; fullscreen_restore = refl })
      (λ _. record {
        client = record c { sync_value = (c.sync_value + 1) % 2 ^ 64 };
        at = g;
        is = refl;
        layer_hint = refl;
        fullscreen_restore = refl;
      })

maximized-IsSaving :
    (wm : WindowManager) (c : Client) (g : Geometry) (saved : Option SavedTilePos) (r : Geometry)
    → IsSaving c saved r (apply_maximized_geometry wm (saving c g saved r))
unfolding apply_maximized_geometry maximize_on apply_floating_geometry
maximized-IsSaving wm c g saved r =
    choose_some (IsSaving c saved r) (get_elem? wm.monitors c.monitor) _ _
      (λ _. record { client = c; at = g; is = refl; layer_hint = refl; fullscreen_restore = refl })
      (λ m _.
        let area = maximized c.maximized_horz c.maximized_vert (working_area m) r in
        choose (IsSaving c saved r) (should_be_visible wm (saving c area saved r) && not c.hidden) _
          _ (λ _. synced-IsSaving wm c area saved r)
          (λ _. record {
            client = c;
            at = area;
            is = refl;
            layer_hint = refl;
            fullscreen_restore = refl;
          }))

-- The mode of a window that is not maximized, with nothing saved.
abbrev pub plain_mode : Client → Geometry → Option SavedTilePos → Mode
plain_mode c g saved = record {
  fullscreen = false;
  maximized_horz = false;
  maximized_vert = false;
  layer_hint = c.layer_hint;
  tiling_state = floating_state g saved;
  maximize_restore = none;
  fullscreen_restore = c.fullscreen_restore;
}

unmaximized :
    (wm : WindowManager) (c : Client) (g : Geometry) (saved : Option SavedTilePos) (r : Geometry)
    → HasMode (plain_mode c r saved) (set_window_maximized wm false false (saving c g saved r))
unfolding set_window_maximized with_floating_geometry
unmaximized wm c g saved r =
    let back : Client = record (saving c r saved r) {
      maximized_horz = false;
      maximized_vert = false;
    } in
    let Kept = λ (o : Option Client).
      HasMode (plain_mode c r saved) (o >>= (λ e. some (record e { maximize_restore = none }))) in
    choose Kept (should_be_visible wm back && not back.hidden) _ _
      (λ _.
        let (d, is, m) = apply-HasMode wm back r saved refl in
        rw is (record d { maximize_restore = none }, refl, ap without_restore m))
      (λ _. (record back { maximize_restore = none }, refl, refl))

same_mode :
    (c d : Client) (r : Geometry) (saved : Option SavedTilePos)
    → c.layer_hint ≡ d.layer_hint
    → c.fullscreen_restore ≡ d.fullscreen_restore
    → plain_mode c r saved ≡ plain_mode d r saved
same_mode c d r saved h f = rw (h, f) refl

maximizes :
    (wm : WindowManager) (c : Client) (g : Geometry) (saved : Option SavedTilePos)
    (horiz vert : Bool)
    → (horiz || vert) ≡ true
    → set_window_maximized wm horiz vert (floating_window c g saved)
      ≡ apply_maximized_geometry wm (
          saving
            (record c { maximized_horz = horiz; maximized_vert = vert })
            g
            saved
            (value_or c.maximize_restore g))
unfolding set_window_maximized
maximizes wm c g saved true vert on = refl
maximizes wm c g saved false true on = refl
maximizes wm c g saved false false on = cc

-- A floating window, neither fullscreen nor an overlay, that is maximized on an axis or on both, and
-- then on none, has the geometry again that it had saved, or else the one it had; nothing stays
-- saved.
pub maximize_restores :
    (wm : WindowManager) (c : Client) (g : Geometry) (saved : Option SavedTilePos)
    (horiz vert : Bool)
    → (horiz || vert) ≡ true
    → HasMode (plain_mode c (value_or c.maximize_restore g) saved) (
        set_window_maximized wm horiz vert (floating_window c g saved)
        >>= set_window_maximized wm false false)
maximize_restores wm c g saved horiz vert on =
    let r = value_or c.maximize_restore g in
    let d : Client = record c { maximized_horz = horiz; maximized_vert = vert } in
    let s = maximized-IsSaving wm d g saved r in
    let (e, is, m) = unmaximized wm s.client s.at saved r in
    rw (maximizes wm c g saved horiz vert on)
      (rw s.is (e, is, m ∙ same_mode s.client d r saved s.layer_hint s.fullscreen_restore))
