-- ===== src/Rules/Tests.antt =====
-- Rules for a terminal and for a notification, on which the theorems are applied. Patterns are
-- compared literally.
use Prim.Native.String.{String}
use text.Mathlib.Text.{◌==◌ as str_eq}
use lwm.Base.{◌≡◌, refl, Bool, true, false, not, Option, none, some, List, [], ◌∷◌}
use lwm.Base.Int.{pos}
use lwm.Base.Sort.{keep}
use lwm.Types.{WindowType}
use lwm.Rules.Config.{
  WindowRuleConfig, CompiledWindowRule, parse_window_type, parse_window_layer, layer_hint_of,
  compile_pattern, compile_rule, load_rules,
}
use lwm.Rules.Match.{
  WindowMatchInfo, index_of_name, resolve_workspace, resolve_monitor, with_overlay, is_overlay,
  matches_rule, result_of, match,
}
use lwm.Rules.Closed.{is_invalid, match-load_rules}
use lwm.Rules.Resolve.{IsBelow, match-IsBelow}

abbrev compile : String → Option String
compile s = some s

abbrev regex_match : String → String → Bool
regex_match s r = str_eq r s

abbrev terminal : WindowRuleConfig
terminal = record {
  class_pattern = some "term";
  instance_pattern = none;
  title_pattern = none;
  type = none;
  transient = none;
  floating = some false;
  workspace = some (pos 1);
  workspace_name = none;
  monitor = none;
  monitor_name = none;
  fullscreen = some true;
  above = none;
  below = none;
  sticky = none;
  skip_taskbar = none;
  skip_pager = none;
  layer = none;
  borderless = none;
  geometry = none;
  center = none;
  scratchpad = none;
}

abbrev notice : WindowRuleConfig
notice = record terminal {
  class_pattern = none;
  type = some "Notification";
  layer = some "overlay";
  floating = none;
}

abbrev broken : WindowRuleConfig
broken = record terminal { class_pattern = some ""; type = some "banner" }

abbrev popup : WindowMatchInfo
popup = record {
  wm_class = "mail";
  wm_class_name = "mail";
  title = "New mail";
  ewmh_type = WindowType.notification;
  is_transient = false;
}

abbrev configs : List WindowRuleConfig
configs = broken ∷ terminal ∷ notice ∷ []

abbrev rules : List (CompiledWindowRule String)
rules = load_rules compile configs

program : Unit {0}
unfolding parse_window_type parse_window_layer layer_hint_of compile_pattern compile_rule load_rules
    index_of_name resolve_workspace resolve_monitor with_overlay matches_rule result_of match
program = tt

popup_floats : (match regex_match rules popup [] ("web" ∷ "mail" ∷ [])).floating ≡ some true
unfolding program
popup_floats = refl

popup_placed : (match regex_match rules popup [] ("web" ∷ "mail" ∷ [])).target_workspace ≡ some 1
unfolding program
popup_placed = refl

match-load_rules_example :
    match regex_match
      (load_rules compile (keep (λ (c : WindowRuleConfig). not (is_invalid c)) configs))
      popup
      []
      []
    ≡ match regex_match rules popup [] []
match-load_rules_example = match-load_rules compile regex_match configs popup [] []

match-IsBelow_example :
    IsBelow 0 (match regex_match rules popup [] ("web" ∷ "mail" ∷ [])).target_monitor
    × IsBelow 2 (match regex_match rules popup [] ("web" ∷ "mail" ∷ [])).target_workspace
match-IsBelow_example = match-IsBelow regex_match rules popup [] ("web" ∷ "mail" ∷ [])

popup_overlay : is_overlay (match regex_match rules popup [] []).layer ≡ true
unfolding program
popup_overlay = refl
