-- ===== src/Wm/State.antt =====
-- The state of WindowManager (src/lwm/wm.hpp) and what src/lwm/wm.cpp and wm_focus.cpp read from
-- it: which windows show, are covered by a fullscreen window, are stacked and can have the focus.
use lwm.Base.{
  ℕ, Bool, true, false, not, ◌&&◌, ◌||◌, Option, none, some, List, [], ◌∷◌, map, find_first,
  get_elem?, ◌==◌, if◌then◌else◌,
}
use lwm.Base.Sort.{keep}
use lwm.Types.{
  xcb_none, Client, Kind, tiled, floating, dock, desktop, Monitor, WindowLayer, LayerHint,
}
use lwm.Policy.Visibility.{is_window_visible}
use lwm.Policy.Fullscreen.{FullscreenCandidate, select_owner}
use lwm.Policy.Stacking.{Tier, ClientStackInputs, compute_tier}
use lwm.Policy.Focus.{is_focus_eligible as accepts_focus}

-- The clients stand in the order in which the map `clients_` is traversed.
pub record WindowManager : Type 0 where
  pub clients : List Client
  pub monitors : List Monitor
  pub focused_monitor : ℕ
  pub active_window : ℕ
  pub showing_desktop : Bool
  pub sync_supported : Bool  -- wm_protocols_ and net_wm_sync_request_ are known
  pub next_mru_order : ℕ  -- uint64_t
  pub last_event_time : ℕ  -- uint32_t

unfoldable pub get_client : WindowManager → ℕ → Option Client
get_client wm window = find_first (λ (c : Client). c.id == window) wm.clients

abbrev pub is_managed_kind : Kind → Bool
is_managed_kind tiled = true
is_managed_kind floating = true
is_managed_kind dock = false
is_managed_kind desktop = false

abbrev pub is_floating : Kind → Bool
is_floating tiled = false
is_floating floating = true
is_floating dock = false
is_floating desktop = false

abbrev pub on_overlay : WindowLayer → Bool
on_overlay WindowLayer.normal = false
on_overlay WindowLayer.overlay = true

abbrev pub is_above : LayerHint → Bool
is_above LayerHint.normal = false
is_above LayerHint.above = true
is_above LayerHint.below = false

abbrev pub is_below : LayerHint → Bool
is_below LayerHint.normal = false
is_below LayerHint.above = false
is_below LayerHint.below = true

unfoldable pub should_be_visible : WindowManager → Client → Bool
should_be_visible wm c =
    is_window_visible wm.showing_desktop c.iconic c.sticky c.monitor c.workspace wm.monitors

unfoldable pub is_physically_visible : WindowManager → Client → Bool
is_physically_visible wm c = if c.hidden then false else should_be_visible wm c

-- monitors_[i].fullscreen_owner, for an index within the bounds.
abbrev pub owner_of : WindowManager → ℕ → Option ℕ
owner_of wm i = elim (get_elem? wm.monitors i) [ none ↦ none | some m ↦ some m.fullscreen_owner ]

-- The tests on the owner of the monitor.
abbrev pub is_covered_by : Client → Option ℕ → Bool
is_covered_by c none = false
is_covered_by c (some owner) =
    not (owner == xcb_none || owner == c.id) && not (c.transient_for == owner)

unfoldable pub is_suppressed_by_fullscreen : WindowManager → Client → Bool
is_suppressed_by_fullscreen wm c =
    is_managed_kind c.kind
    && not (on_overlay c.layer)
    && not (c.iconic || not (should_be_visible wm c))
    && is_covered_by c (owner_of wm c.monitor)

-- The loop that collects the candidates for the fullscreen of a monitor.
unfoldable pub fullscreen_candidates : WindowManager → ℕ → List Client → List FullscreenCandidate
fullscreen_candidates wm monitor_idx clients =
    map
      (λ (c : Client). record {
        window = c.id;
        eligible = c.fullscreen && not c.iconic && should_be_visible wm c;
        order = c.order;
      })
      (keep (λ (c : Client). c.monitor == monitor_idx && is_managed_kind c.kind) clients)

abbrev pub is_eligible_window : ℕ → List FullscreenCandidate → Bool
is_eligible_window w [] = false
is_eligible_window w (c ∷ cs) =
    if c.window == w && c.eligible then true else is_eligible_window w cs

unfoldable pub select_fullscreen_owner_for_monitor : WindowManager → ℕ → ℕ → ℕ
select_fullscreen_owner_for_monitor wm monitor_idx preferred_owner =
    let candidates = fullscreen_candidates wm monitor_idx wm.clients in
    elim (owner_of wm monitor_idx) [
      | none ↦ xcb_none
      | some owner ↦
          if wm.showing_desktop
          then xcb_none
          else if not (preferred_owner == xcb_none) && is_eligible_window preferred_owner candidates
          then preferred_owner
          else select_owner owner candidates
    ]

-- Dock and desktop windows have a tier of their own.
abbrev pub tier_of : Kind → Tier → Tier
tier_of tiled t = t
tier_of floating t = t
tier_of dock t = Tier.above
tier_of desktop t = Tier.below

unfoldable pub compute_stack_tier : WindowManager → Client → Tier
compute_stack_tier wm c = tier_of c.kind (
    compute_tier (on_overlay c.layer) (is_suppressed_by_fullscreen wm c) c.fullscreen
      (is_above c.layer_hint) (is_below c.layer_hint) c.modal)

unfoldable pub stack_inputs_of : WindowManager → Client → ClientStackInputs
stack_inputs_of wm c = record {
  id = c.id;
  visible = if is_managed_kind c.kind then should_be_visible wm c else true;
  tier = compute_stack_tier wm c;
  is_floating = is_floating c.kind;
  is_active = c.id == wm.active_window;
  order = c.order;
}

-- WindowManager::is_focus_eligible
unfoldable pub is_focus_eligible : WindowManager → Client → Bool
is_focus_eligible wm c =
    is_managed_kind c.kind
    && not (is_suppressed_by_fullscreen wm c)
    && accepts_focus c.accepts_input c.supports_take_focus

unfoldable pub is_focus_candidate : WindowManager → ℕ → Bool
is_focus_candidate wm window = elim (get_client wm window) [
  | none ↦ false
  | some c ↦ not c.iconic && is_focus_eligible wm c
]
