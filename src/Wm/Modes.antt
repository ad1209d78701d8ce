-- ===== src/Wm/Modes.antt =====
-- The modes of a window, in src/lwm/wm.cpp: fullscreen, maximized, sticky, its layer and layer
-- hint, modal, what it shows in, and its urgency. What the X server is told (the EWMH state, the
-- border, the desktop number) is not part of the state. `none` is the exception of std::get on a
-- floating client that holds a tiled state.
pub mod Same
pub mod Stays
pub mod Restores
use lwm.Base.{
  ℕ, ◌+◌, Bool, true, false, not, ◌&&◌, ◌||◌, Option, none, some, ◌>>=◌, value_or, has_value, List,
  [], ◌∷◌, ◌++◌, length, get_elem?, leb, ltb, ◌==◌, if◌then◌else◌,
}
use lwm.Base.Int.{ℤ, pos, ◌+ℤ◌, ◌-ℤ◌, max_ℤ, min_ℤ, to_u16}
use lwm.Types.{
  xcb_none, Client, FullscreenMonitors, Geometry, LayerHint, TilingState, tiled_state,
  floating_state, floating_geometry, Monitor, WindowLayer, geometry,
}
use lwm.Types.Urgency.{UrgencySource, add, remove, wm_initiated}
use lwm.Layout.Tree.{DoubleOps}
use lwm.Layout.Arrange.{LayoutSettings}
use lwm.Wm.State.{
  WindowManager, get_client, is_floating, is_managed_kind, on_overlay, is_above, is_below,
  should_be_visible, is_suppressed_by_fullscreen,
}
use lwm.Wm.Reconcile.{apply_floating_geometry, apply_maximized_geometry, apply_fullscreen_if_needed}
use lwm.Wm.Rearrange.{change, finalize_visibility_on_monitor}
use lwm.Wm.Switch.{sync_client_urgency_state}
use lwm.Wm.Place.{try_change, apply_visible_floating_geometry}
use lwm.Wm.Active.{clear_client_urgency, is_suppressed}
use lwm.Wm.Activate.{focus_or_fallback, repair_focus_after_visibility_change}
use lwm.Wm.FullscreenArea.{
  named_monitors, Edges, edges_of, union_edges, area_of, no_geometry, fallback_monitor_geometry,
  named_area, fullscreen_geometry_for_client,
}

-- floating_geometry(client) = g, which throws on a tiled state.
unfoldable pub with_floating_geometry : Geometry → Client → Option Client
with_floating_geometry g c = elim c.tiling_state [
  | tiled_state prior ↦ none
  | floating_state old saved ↦ some (record c { tiling_state = floating_state g saved })
]

-- What set_window_layer_hint changes in the client: an overlay has no hint of its own.
unfoldable pub set_window_layer_hint : LayerHint → Client → Client
set_window_layer_hint hint c = record c {
  layer_hint = if on_overlay c.layer then LayerHint.normal else hint;
}

-- restore_layer_hint
unfoldable pub restored_layer_hint : Client → LayerHint
restored_layer_hint c =
    if c.app_prefs.above
    then LayerHint.above
    else if c.app_prefs.below
    then LayerHint.below
    else value_or c.fullscreen_restore_layer_hint LayerHint.normal

-- client.kind == Floating && client.fullscreen_restore
unfoldable pub restore_geometry : Client → Option Client
restore_geometry c = elim c.fullscreen_restore [
  | none ↦ some c
  | some g ↦ if is_floating c.kind then with_floating_geometry g c else some c
]

unfoldable pub clear_fullscreen_state : WindowManager → Client → Option Client
clear_fullscreen_state wm c =
    if not c.fullscreen
    then some c
    else restore_geometry (record c { fullscreen = false }) >>= (λ d.
      let cleared : Client = record d {
        fullscreen_restore = none;
        fullscreen_restore_layer_hint = none;
      } in
      let hinted =
        if on_overlay d.layer
        then cleared
        else set_window_layer_hint (restored_layer_hint d) cleared in
      if is_floating hinted.kind
        && should_be_visible wm hinted
        && not hinted.hidden
        && not (is_suppressed_by_fullscreen wm hinted)
      then apply_floating_geometry wm hinted
      else some hinted)

-- client.fullscreen_restore = floating_geometry(client), where it is floating.
unfoldable pub save_geometry : Client → Option Client
save_geometry c =
    if not c.fullscreen && is_floating c.kind
    then floating_geometry c.tiling_state >>= (λ g. some (record c { fullscreen_restore = some g }))
    else some c

-- What set_fullscreen changes in a client that it makes fullscreen.
unfoldable pub enter_fullscreen : Client → Option Client
enter_fullscreen c = save_geometry c >>= (λ d. some (
    set_window_layer_hint LayerHint.normal (record d {
      fullscreen_restore_layer_hint =
          if d.fullscreen then d.fullscreen_restore_layer_hint else some d.layer_hint;
      fullscreen = true;
      maximized_horz = false;
      maximized_vert = false;
    })))

unfoldable pub set_window_maximized : WindowManager → Bool → Bool → Client → Option Client
set_window_maximized wm horiz vert c =
    let d : Client = record c { maximized_horz = horiz; maximized_vert = vert } in
    if c.fullscreen
    then some d
    else if not horiz && not vert
    then elim c.maximize_restore [
      | none ↦ some d
      | some g ↦
          if is_floating c.kind
          then with_floating_geometry g d
            >>= (λ e.
                if should_be_visible wm e && not e.hidden
                then apply_floating_geometry wm e
                else some e)
            >>= (λ e. some (record e { maximize_restore = none }))
          else some (record d { maximize_restore = none })
    ]
    else if is_floating c.kind
    then floating_geometry c.tiling_state >>= (λ g.
      apply_maximized_geometry wm
        (record d { maximize_restore = some (value_or c.maximize_restore g) }))
    else some d

unfoldable pub set_window_modal : Bool → Client → Client
set_window_modal enabled c =
    let d : Client = record c { modal = enabled } in
    if enabled
    then set_window_layer_hint LayerHint.above d
    else if is_above c.layer_hint
    then set_window_layer_hint LayerHint.normal d
    else d

abbrev pub set_client_skip_taskbar : Bool → Client → Client
set_client_skip_taskbar enabled c = record c { skip_taskbar = enabled }

abbrev pub set_client_skip_pager : Bool → Client → Client
set_client_skip_pager enabled c = record c { skip_pager = enabled }

abbrev pub set_window_borderless : Bool → Client → Client
set_window_borderless enabled c = record c { borderless = enabled }

unfoldable pub set_client_urgency : (ℕ → Option Bool) → UrgencySource → Bool → Client → Client
set_client_urgency hints source enabled c =
    let (urgency, changed) = if enabled then add c.urgency source else remove c.urgency source in
    if changed then sync_client_urgency_state hints (record c { urgency = urgency }) else c

-- What handle_notification_attention does with the window.
unfoldable pub handle_notification_attention : (ℕ → Option Bool) → WindowManager → ℕ → WindowManager
handle_notification_attention hints wm target = elim (get_client wm target) [
  | none ↦ wm
  | some c ↦
      if not (is_managed_kind c.kind) || target == wm.active_window
      then wm
      else change (set_client_urgency hints wm_initiated true) target wm
]

abbrev pub with_sticky : Bool → Client → Client
with_sticky b c = record c { sticky = b }

module _ (ops : DoubleOps) (settings : LayoutSettings) (hints : ℕ → Option Bool) where
  -- What set_fullscreen does after the client is changed.
  unfoldable pub show_fullscreen : Client → Bool → WindowManager → Option WindowManager
  show_fullscreen c enabled wm =
      finalize_visibility_on_monitor ops settings wm c.monitor (if enabled then c.id else xcb_none)
      >>= (λ wm'. if is_floating c.kind then apply_visible_floating_geometry wm' c.id else some wm')
      >>= (λ wm'.
          if ltb c.monitor (length wm'.monitors)
            && c.monitor == wm'.focused_monitor
            && (wm'.active_window == xcb_none || is_suppressed wm' wm'.active_window)
          then focus_or_fallback ops settings hints wm' c.monitor false
          else some wm')

  unfoldable pub set_fullscreen_of : WindowManager → Bool → Client → Option WindowManager
  set_fullscreen_of wm enabled c =
      if enabled && on_overlay c.layer
      then some wm
      else if not enabled && not c.fullscreen
      then some wm
      else if not (is_managed_kind c.kind)
      then some wm
      else try_change (if enabled then enter_fullscreen else clear_fullscreen_state wm) c.id wm
        >>= show_fullscreen c enabled

  unfoldable pub set_fullscreen : WindowManager → ℕ → Bool → Option WindowManager
  set_fullscreen wm window enabled = get_client wm window >>= set_fullscreen_of wm enabled

  -- What follows the change of the client.
  unfoldable pub show_sticky : Client → WindowManager → Option WindowManager
  show_sticky c wm = finalize_visibility_on_monitor ops settings wm c.monitor xcb_none >>= (λ wm'.
      if c.id == wm'.active_window
      then repair_focus_after_visibility_change ops settings hints wm' c.monitor false
      else some wm')

  unfoldable pub set_window_sticky : WindowManager → ℕ → Bool → Option WindowManager
  set_window_sticky wm window enabled =
      get_client wm window >>= (λ c. show_sticky c (change (with_sticky enabled) c.id wm))
