-- ===== src/Rules/Closed.antt =====
-- On the rules with an invalid criterion in load_rules of src/lwm/core/window_rules.cpp.
use Prim.Native.String.{String}
use lwm.Base.{
  ◌≡◌, refl, Bool, true, false, not, ◌&&◌, ◌||◌, Bool-cases, Option, has_value, List, [], ◌∷◌,
  arith, inl, inr,
}
use lwm.Base.Sort.{keep}
use lwm.Types.{Monitor}
use lwm.Rules.Config.{
  WindowRuleConfig, is_empty_pattern, parse_window_type, compile_rule, load_rules,
}
use lwm.Rules.Match.{WindowMatchInfo, matches_rule, match}

-- A criterion is given and can not be used: an empty pattern or an unknown type.
abbrev pub is_invalid : WindowRuleConfig → Bool
is_invalid cfg =
    is_empty_pattern cfg.class_pattern
    || is_empty_pattern cfg.instance_pattern
    || is_empty_pattern cfg.title_pattern
    || (has_value cfg.type && not (has_value (parse_window_type cfg.type)))

module _ {Regex : Type 0} (compile : String → Option Regex)
    (regex_match : String → Regex → Bool) where
  invalid_never_matches :
      (cfg : WindowRuleConfig) (info : WindowMatchInfo)
      → is_invalid cfg ≡ true
      → matches_rule regex_match (compile_rule compile cfg) info ≡ false
  unfolding matches_rule compile_rule
  invalid_never_matches cfg info h = ground (arith, h)

  -- Rules with an empty pattern or an unknown type have no effect: a window is matched as if they
  -- were not in the configuration.
  pub match-load_rules :
      (configs : List WindowRuleConfig) (info : WindowMatchInfo) (monitors : List Monitor)
      (names : List String)
      → match regex_match
          (load_rules compile (keep (λ (c : WindowRuleConfig). not (is_invalid c)) configs))
          info
          monitors
          names
        ≡ match regex_match (load_rules compile configs) info monitors names
  unfolding match load_rules
  match-load_rules [] info monitors names = refl
  match-load_rules (c ∷ configs) info monitors names =
      let rest = match-load_rules configs info monitors names in
      elim (Bool-cases (is_invalid c)) [
        | inl bad ↦ rw (bad, invalid_never_matches c info bad) rest
        | inr good ↦ rw (good, rest) refl
      ]
