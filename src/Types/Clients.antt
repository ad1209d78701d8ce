-- ===== src/Types/Clients.antt =====
-- The client record of src/lwm/core/types.hpp, the tiling state and the scratchpad membership that
-- it carries, and the functions on them.
use Prim.Native.String.{String}
use lwm.Base.{ℕ, Bool, true, false, Option, none, some}
use lwm.Types.Enums.{
  Geometry, FullscreenMonitors, LayerHint, AppPreferences, WindowLayer, WindowType,
}
use lwm.Types.Urgency.{Urgency}

-- A scratchpad has a name, or belongs to the pool in one of three states.
pub data ScratchpadMembership : Type 0 where
  named : String → ScratchpadMembership
  visible_pool : ScratchpadMembership
  hidden_tiled_pool : Option Geometry → ScratchpadMembership
  hidden_floating_pool : Geometry → ScratchpadMembership

pub record SavedTilePos : Type 0 where
  pub index : ℕ
  pub monitor : ℕ
  pub workspace : ℕ

-- std::variant<TiledState, FloatingState>
pub data TilingState : Type 0 where
  tiled_state : Option Geometry → TilingState
  floating_state : Geometry → Option SavedTilePos → TilingState

pub data Kind : Type 0 where
  tiled floating dock desktop : Kind

pub record Client : Type 0 where
  pub id : ℕ
  pub kind : Kind
  pub monitor : ℕ
  pub workspace : ℕ
  pub name : String
  pub wm_class : String
  pub wm_class_name : String
  pub hidden : Bool
  pub fullscreen : Bool
  pub layer_hint : LayerHint
  pub iconic : Bool
  pub sticky : Bool
  pub maximized_horz : Bool
  pub maximized_vert : Bool
  pub modal : Bool
  pub skip_taskbar : Bool
  pub skip_pager : Bool
  pub app_prefs : AppPreferences
  pub urgency : Urgency
  pub ignore_next_wm_hints_urgency_echo : Bool
  pub borderless : Bool
  pub layer : WindowLayer
  pub ewmh_type : WindowType
  pub accepts_input : Bool
  pub supports_take_focus : Bool
  pub tiling_state : TilingState
  pub tiled_geometry : Geometry
  pub transient_for : ℕ
  pub suppress_next_configure_request : Bool
  pub fullscreen_restore : Option Geometry
  pub fullscreen_restore_layer_hint : Option LayerHint
  pub maximize_restore : Option Geometry
  pub fullscreen_monitors : Option FullscreenMonitors
  pub sync_counter : ℕ
  pub sync_value : ℕ
  pub user_time : ℕ
  pub user_time_window : ℕ
  pub order : ℕ
  pub mru_order : ℕ
  pub scratchpad : Option ScratchpadMembership

-- std::get<FloatingState>(…).geometry, which throws on a tiled state: `none`.
abbrev pub floating_geometry : TilingState → Option Geometry
floating_geometry (tiled_state prior) = none
floating_geometry (floating_state g saved) = some g

unfoldable pub set_tiled_state : Client → Option Geometry → Client
set_tiled_state client prior_floating = record client {
  kind = Kind.tiled;
  tiling_state = tiled_state prior_floating;
}

unfoldable pub set_floating_state : Client → Geometry → Option SavedTilePos → Client
set_floating_state client geometry saved_position = record client {
  kind = Kind.floating;
  tiling_state = floating_state geometry saved_position;
}

abbrev pub is_hidden_pool : Option ScratchpadMembership → Bool
is_hidden_pool none = false
is_hidden_pool (some (named n)) = false
is_hidden_pool (some visible_pool) = false
is_hidden_pool (some (hidden_tiled_pool g)) = true
is_hidden_pool (some (hidden_floating_pool g)) = true

unfoldable pub is_hidden_pool_scratchpad : Client → Bool
is_hidden_pool_scratchpad client = is_hidden_pool client.scratchpad
