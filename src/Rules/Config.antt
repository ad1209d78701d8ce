-- ===== src/Rules/Config.antt =====
-- WindowRuleConfig of src/lwm/config/config.hpp and its compilation: WindowRules::load_rules and
-- what it calls, in src/lwm/core/window_rules.cpp.
use Prim.Native.Char.{Char, code}
use Prim.Native.String.{String, [] as empty, ◌∷◌ as char_cons, ◌++◌ as str_append}
use lwm.Base.{
  ℕ, ◌+◌, ◌==◌, Bool, true, false, not, ◌&&◌, ◌||◌, Option, none, some, has_value, List, [], ◌∷◌,
  map, leb, contains, if◌then◌else◌,
}
use lwm.Base.Int.{ℤ}
use lwm.Types.{WindowType, WindowLayer, LayerHint}

pub record RuleGeometry : Type 0 where
  pub x : Option ℤ
  pub y : Option ℤ
  pub width : Option ℕ
  pub height : Option ℕ

pub record WindowRuleConfig : Type 0 where
  pub class_pattern : Option String
  pub instance_pattern : Option String
  pub title_pattern : Option String
  pub type : Option String
  pub transient : Option Bool
  pub floating : Option Bool
  pub workspace : Option ℤ
  pub workspace_name : Option String
  pub monitor : Option ℤ
  pub monitor_name : Option String
  pub fullscreen : Option Bool
  pub above : Option Bool
  pub below : Option Bool
  pub sticky : Option Bool
  pub skip_taskbar : Option Bool
  pub skip_pager : Option Bool
  pub layer : Option String
  pub borderless : Option Bool
  pub geometry : Option RuleGeometry
  pub center : Option Bool
  pub scratchpad : Option String

pub record CompiledWindowRule (Regex : Type 0) : Type 0 where
  pub class_regex : Option Regex
  pub instance_regex : Option Regex
  pub title_regex : Option Regex
  pub type : Option WindowType
  pub transient : Option Bool
  pub floating : Option Bool
  pub workspace : Option ℤ
  pub workspace_name : Option String
  pub monitor : Option ℤ
  pub monitor_name : Option String
  pub fullscreen : Option Bool
  pub layer_hint : Option LayerHint
  pub sticky : Option Bool
  pub skip_taskbar : Option Bool
  pub skip_pager : Option Bool
  pub layer : Option WindowLayer
  pub borderless : Option Bool
  pub geometry : Option RuleGeometry
  pub center : Option Bool
  pub scratchpad : Option String
  pub never_matches : Bool

abbrev codes : String → List ℕ
codes empty = []
codes (char_cons c s) = code c ∷ codes s

-- std::tolower in the "C" locale
abbrev tolower : ℕ → ℕ
tolower c = if leb 65 c && leb c 90 then c + 32 else c

abbrev same_codes : List ℕ → List ℕ → Bool
same_codes [] [] = true
same_codes [] (d ∷ ds) = false
same_codes (c ∷ cs) [] = false
same_codes (c ∷ cs) (d ∷ ds) = c == d && same_codes cs ds

-- Whether a string, in lower case, is the given word.
abbrev is_word : String → String → Bool
is_word s word = same_codes (map tolower (codes s)) (codes word)

abbrev type_named : String → Option WindowType
type_named s =
    if is_word s "desktop"
    then some WindowType.desktop
    else if is_word s "dock"
    then some WindowType.dock
    else if is_word s "toolbar"
    then some WindowType.toolbar
    else if is_word s "menu"
    then some WindowType.menu
    else if is_word s "utility"
    then some WindowType.utility
    else if is_word s "splash"
    then some WindowType.splash
    else if is_word s "dialog"
    then some WindowType.dialog
    else if is_word s "dropdown_menu" || is_word s "dropdownmenu"
    then some WindowType.dropdown_menu
    else if is_word s "popup_menu" || is_word s "popupmenu"
    then some WindowType.popup_menu
    else if is_word s "tooltip"
    then some WindowType.tooltip
    else if is_word s "notification"
    then some WindowType.notification
    else if is_word s "combo"
    then some WindowType.combo
    else if is_word s "dnd"
    then some WindowType.dnd
    else if is_word s "normal"
    then some WindowType.normal
    else none

unfoldable pub parse_window_type : Option String → Option WindowType
parse_window_type none = none
parse_window_type (some s) = type_named s

unfoldable pub parse_window_layer : Option String → Option WindowLayer
parse_window_layer none = none
parse_window_layer (some s) = if is_word s "overlay" then some WindowLayer.overlay else none

-- strchr finds the terminating NUL too.
abbrev is_metacharacter : Char → Bool
is_metacharacter c = contains (0 ∷ codes "\\.^$|()[]{}*+?") (code c)

unfoldable pub escape_regex : String → String
escape_regex empty = empty
escape_regex (char_cons c s) =
    if is_metacharacter c
    then char_cons "\\" (char_cons c (escape_regex s))
    else char_cons c (escape_regex s)

abbrev anchored : String → String
anchored s = str_append "^(?:" (str_append s ")$")

-- Present but empty.
abbrev pub is_empty_pattern : Option String → Bool
is_empty_pattern none = false
is_empty_pattern (some empty) = true
is_empty_pattern (some (char_cons c s)) = false

unfoldable pub layer_hint_of : Option Bool → Option Bool → Option LayerHint
layer_hint_of (some true) below = some LayerHint.above
layer_hint_of above (some true) = some LayerHint.below
layer_hint_of none none = none
layer_hint_of above below = some LayerHint.normal

-- `compile` is the constructor of std::regex, which has no result where it throws.
module _ {Regex : Type 0} (compile : String → Option Regex) where
  unfoldable pub compile_pattern : Option String → Option Regex
  compile_pattern none = none
  compile_pattern (some pattern) = elim (compile (anchored pattern)) [
    | some r ↦ some r
    | none ↦ compile (anchored (escape_regex pattern))
  ]

  -- The body of the loop of load_rules.
  unfoldable pub compile_rule : WindowRuleConfig → CompiledWindowRule Regex
  compile_rule cfg =
      let empty_pattern =
        is_empty_pattern cfg.class_pattern
        || is_empty_pattern cfg.instance_pattern
        || is_empty_pattern cfg.title_pattern in
      let type = parse_window_type cfg.type in
      record {
        class_regex = if empty_pattern then none else compile_pattern cfg.class_pattern;
        instance_regex = if empty_pattern then none else compile_pattern cfg.instance_pattern;
        title_regex = if empty_pattern then none else compile_pattern cfg.title_pattern;
        type = type;
        transient = cfg.transient;
        floating = cfg.floating;
        workspace = cfg.workspace;
        workspace_name = cfg.workspace_name;
        monitor = cfg.monitor;
        monitor_name = cfg.monitor_name;
        fullscreen = cfg.fullscreen;
        layer_hint = layer_hint_of cfg.above cfg.below;
        sticky = cfg.sticky;
        skip_taskbar = cfg.skip_taskbar;
        skip_pager = cfg.skip_pager;
        layer = parse_window_layer cfg.layer;
        borderless = cfg.borderless;
        geometry = cfg.geometry;
        center = cfg.center;
        scratchpad = cfg.scratchpad;
        never_matches = empty_pattern || (has_value cfg.type && not (has_value type));
      }

  unfoldable pub load_rules : List WindowRuleConfig → List (CompiledWindowRule Regex)
  load_rules configs = map compile_rule configs
