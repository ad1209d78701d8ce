-- ===== src/Wm/Desk.antt =====
-- A monitor with a fullscreen window, a window behind it and a dialog.
use lwm.Base.{ℕ, ◌*◌, ◌/◌, Bool, Option, true, false, none, [], ◌∷◌}
use lwm.Layout.Tree.{DoubleOps}
use lwm.Layout.Arrange.{LayoutSettings}
use lwm.Base.Int.{pos, pos_part}
use lwm.Types.{
  xcb_none, Client, tiled, floating, tiled_state, floating_state, Geometry, Monitor, Workspace,
  WindowType, WindowLayer, LayerHint, LayoutStrategy,
}
use lwm.Wm.State.{WindowManager}

abbrev pub area : Geometry
area = record { x = pos 10; y = pos 20; width = 300; height = 200 }

-- A tiled window behind the fullscreen window.
abbrev pub editor : Client
editor = record {
  id = 5;
  kind = tiled;
  monitor = 0;
  workspace = 0;
  name = "editor";
  wm_class = "ed";
  wm_class_name = "ed";
  hidden = false;
  fullscreen = false;
  layer_hint = LayerHint.normal;
  iconic = false;
  sticky = false;
  maximized_horz = false;
  maximized_vert = false;
  modal = false;
  skip_taskbar = false;
  skip_pager = false;
  app_prefs = record { skip_taskbar = false; skip_pager = false; above = false; below = false };
  urgency = record { sources = 0 };
  ignore_next_wm_hints_urgency_echo = false;
  borderless = false;
  layer = WindowLayer.normal;
  ewmh_type = WindowType.normal;
  accepts_input = true;
  supports_take_focus = false;
  tiling_state = tiled_state none;
  tiled_geometry = area;
  transient_for = xcb_none;
  suppress_next_configure_request = false;
  fullscreen_restore = none;
  fullscreen_restore_layer_hint = none;
  maximize_restore = none;
  fullscreen_monitors = none;
  sync_counter = 0;
  sync_value = 0;
  user_time = 0;
  user_time_window = xcb_none;
  order = 1;
  mru_order = 1;
  scratchpad = none;
}

abbrev pub player : Client
player = record editor { id = 6; fullscreen = true; order = 2; mru_order = 2 }

-- A dialog of the fullscreen window, and one that is its own parent.
abbrev pub dialog : Client
dialog = record editor {
  id = 7;
  kind = floating;
  tiling_state = floating_state area none;
  transient_for = 6;
  order = 3;
  mru_order = 3;
}

abbrev pub loner : Client
loner = record dialog { id = 8; transient_for = 8 }

abbrev pub desk : Workspace
desk = record {
  windows = 5 ∷ 6 ∷ [];
  focused_window = 6;
  focus_history = 5 ∷ 6 ∷ [];
  layout_strategy = LayoutStrategy.master_stack;
  split_ratios = [];
}

abbrev pub screen : Monitor
screen = record {
  output = 1;
  name = "HDMI-1";
  x = pos 0;
  y = pos 0;
  width = 1024;
  height = 768;
  strut = record { left = 0; right = 0; top = 0; bottom = 0 };
  workspaces = desk ∷ [];
  current_workspace = 0;
  previous_workspace = 0;
  fullscreen_owner = 6;
}

abbrev pub wm : WindowManager
wm = record {
  clients = editor ∷ player ∷ dialog ∷ [];
  monitors = screen ∷ [];
  focused_monitor = 0;
  active_window = 6;
  showing_desktop = false;
  sync_supported = true;
  next_mru_order = 4;
  last_event_time = 0;
}

abbrev pub wm_with_loner : WindowManager
wm_with_loner = record wm {
  clients = editor ∷ loner ∷ [];
  monitors = record screen { fullscreen_owner = 0 } ∷ [];
}

abbrev pub settings : LayoutSettings
settings = record { padding = 10; border_width = 2; default_ratio = 500; resize_grab_threshold = 8 }

-- Ratios in thousandths.
abbrev pub thousandths : DoubleOps
thousandths = record {
  reciprocal = λ n. 1000 / n;
  floor_scale = λ a r. pos (pos_part a * r / 1000);
}

abbrev pub no_hints : ℕ → Option Bool
no_hints w = none
