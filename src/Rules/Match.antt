-- ===== src/Rules/Match.antt =====
-- Matching a window against the compiled rules: WindowRules::match of
-- src/lwm/core/window_rules.cpp and what it calls. `regex_match` is std::regex_match.
use Prim.Native.String.{String}
use text.Mathlib.Text.{◌==◌ as str_eq}
use lwm.Base.{
  ℕ, suc, ◌%◌, ◌==◌, Bool, true, false, not, ◌&&◌, Option, none, some, value_or, List, [], ◌∷◌, map,
  length, ltb, if◌then◌else◌,
}
use lwm.Base.Int.{ℤ, pos, negsuc, to_i16}
use lwm.Types.{WindowType, WindowLayer, LayerHint, Geometry, Monitor}
use lwm.Rules.Config.{RuleGeometry, CompiledWindowRule}

pub record WindowMatchInfo : Type 0 where
  pub wm_class : String
  pub wm_class_name : String
  pub title : String
  pub ewmh_type : WindowType
  pub is_transient : Bool

pub record WindowRuleResult : Type 0 where
  pub matched : Bool
  pub floating : Option Bool
  pub target_monitor : Option ℕ
  pub target_workspace : Option ℕ
  pub fullscreen : Option Bool
  pub layer_hint : Option LayerHint
  pub sticky : Option Bool
  pub skip_taskbar : Option Bool
  pub skip_pager : Option Bool
  pub layer : Option WindowLayer
  pub borderless : Option Bool
  pub geometry : Option Geometry
  pub center : Bool
  pub scratchpad : Option String

-- The first name from the index `i` on.
unfoldable pub index_of_name : List String → String → ℕ → Option ℕ
index_of_name [] name i = none
index_of_name (n ∷ names) name i =
    if str_eq n name then some i else index_of_name names name (suc i)

abbrev resolve_name : Option String → List String → Option ℕ
resolve_name none names = none
resolve_name (some name) names = index_of_name names name 0

-- An index has precedence over a name.
unfoldable pub resolve_workspace : Option ℤ → Option String → List String → Option ℕ
resolve_workspace (some (pos i)) name names = if ltb i (length names) then some i else none
resolve_workspace (some (negsuc i)) name names = none
resolve_workspace none name names = resolve_name name names

unfoldable pub resolve_monitor : Option ℤ → Option String → List Monitor → Option ℕ
unfolding resolve_workspace
resolve_monitor index name monitors =
    resolve_workspace index name (map (λ (m : Monitor). m.name) monitors)

unfoldable pub rule_geometry : RuleGeometry → Geometry
rule_geometry g = record {
  x = to_i16 (value_or g.x (pos 0));
  y = to_i16 (value_or g.y (pos 0));
  width = value_or g.width 800 % 65536;
  height = value_or g.height 600 % 65536;
}

abbrev pub is_overlay : Option WindowLayer → Bool
is_overlay none = false
is_overlay (some WindowLayer.normal) = false
is_overlay (some WindowLayer.overlay) = true

unfoldable pub with_overlay : WindowRuleResult → WindowRuleResult
with_overlay r =
    if is_overlay r.layer
    then record r {
      floating = some true;
      skip_taskbar = some true;
      skip_pager = some true;
      borderless = some true;
      fullscreen = some false;
    }
    else r

abbrev pub no_match : WindowRuleResult
no_match = record {
  matched = false;
  floating = none;
  target_monitor = none;
  target_workspace = none;
  fullscreen = none;
  layer_hint = none;
  sticky = none;
  skip_taskbar = none;
  skip_pager = none;
  layer = none;
  borderless = none;
  geometry = none;
  center = false;
  scratchpad = none;
}

abbrev type_number : WindowType → ℕ
type_number WindowType.desktop = 0
type_number WindowType.dock = 1
type_number WindowType.toolbar = 2
type_number WindowType.menu = 3
type_number WindowType.utility = 4
type_number WindowType.splash = 5
type_number WindowType.dialog = 6
type_number WindowType.dropdown_menu = 7
type_number WindowType.popup_menu = 8
type_number WindowType.tooltip = 9
type_number WindowType.notification = 10
type_number WindowType.combo = 11
type_number WindowType.dnd = 12
type_number WindowType.normal = 13

abbrev same_bool : Bool → Bool → Bool
same_bool true b = b
same_bool false b = not b

abbrev type_matches : Option WindowType → WindowType → Bool
type_matches none t = true
type_matches (some r) t = type_number t == type_number r

abbrev flag_matches : Option Bool → Bool → Bool
flag_matches none b = true
flag_matches (some r) b = same_bool b r

module _ {Regex : Type 0} (regex_match : String → Regex → Bool) where
  abbrev text_matches : Option Regex → String → Bool
  text_matches none s = true
  text_matches (some r) s = regex_match s r

  unfoldable pub matches_rule : CompiledWindowRule Regex → WindowMatchInfo → Bool
  matches_rule rule info =
      not rule.never_matches
      && text_matches rule.class_regex info.wm_class
      && text_matches rule.instance_regex info.wm_class_name
      && text_matches rule.title_regex info.title
      && type_matches rule.type info.ewmh_type
      && flag_matches rule.transient info.is_transient

  -- What the loop of `match` makes of a rule that matches.
  unfoldable pub result_of :
      CompiledWindowRule Regex → List Monitor → List String → WindowRuleResult
  result_of rule monitors workspace_names = with_overlay (record {
    matched = true;
    floating = rule.floating;
    target_monitor = resolve_monitor rule.monitor rule.monitor_name monitors;
    target_workspace = resolve_workspace rule.workspace rule.workspace_name workspace_names;
    fullscreen = rule.fullscreen;
    layer_hint = rule.layer_hint;
    sticky = rule.sticky;
    skip_taskbar = rule.skip_taskbar;
    skip_pager = rule.skip_pager;
    layer = rule.layer;
    borderless = rule.borderless;
    geometry = elim rule.geometry [ none ↦ none | some g ↦ some (rule_geometry g) ];
    center = value_or rule.center false;
    scratchpad = rule.scratchpad;
  })

  unfoldable pub match :
      List (CompiledWindowRule Regex)
      → WindowMatchInfo
      → List Monitor
      → List String
      → WindowRuleResult
  match [] info monitors workspace_names = no_match
  match (rule ∷ rules) info monitors workspace_names =
      if matches_rule rule info
      then result_of rule monitors workspace_names
      else match rules info monitors workspace_names
