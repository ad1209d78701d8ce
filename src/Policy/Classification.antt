-- ===== src/Policy/Classification.antt =====
-- namespace classification_policy of src/lwm/core/policy.hpp: the state that a window gets from
-- its type, its own EWMH hints and the rules.
pub mod Laws
mod Tests
use lwm.Base.{Bool, true, false, not, ◌&&◌, ◌||◌, Option, none, some, value_or, if◌then◌else◌}
use lwm.Types.{WindowLayer, LayerHint}

pub record DesiredWindowState : Type 0 where
  pub skip_taskbar : Bool
  pub skip_pager : Bool
  pub sticky : Bool
  pub modal : Bool
  pub layer_hint : LayerHint
  pub borderless : Bool

pub record DesiredStateInputs : Type 0 where
  pub classification_skip_taskbar : Bool
  pub classification_skip_pager : Bool
  pub classification_above : Bool
  pub app_skip_taskbar : Bool
  pub app_skip_pager : Bool
  pub ewmh_sticky : Bool
  pub ewmh_modal : Bool
  pub app_above : Bool
  pub app_below : Bool
  pub rule_skip_taskbar : Option Bool
  pub rule_skip_pager : Option Bool
  pub rule_sticky : Option Bool
  pub rule_layer_hint : Option LayerHint
  pub rule_borderless : Option Bool
  pub has_transient : Bool
  pub is_sticky_desktop : Bool
  pub layer : WindowLayer

abbrev pub is_overlay : WindowLayer → Bool
is_overlay WindowLayer.overlay = true
is_overlay WindowLayer.normal = false

-- A flag that a rule may set and that the overlay layer forces.
abbrev pub flag : Bool → Option Bool → WindowLayer → Bool
flag own rule layer = if is_overlay layer then true else value_or rule own

-- The hint of the window itself.
abbrev pub own_hint : DesiredStateInputs → LayerHint
own_hint i =
    if i.ewmh_modal
    then LayerHint.normal
    else if i.classification_above || i.app_above
    then LayerHint.above
    else if i.app_below
    then LayerHint.below
    else LayerHint.normal

abbrev pub is_below : LayerHint → Bool
is_below LayerHint.below = true
is_below _ = false

abbrev pub final_hint : Bool → WindowLayer → LayerHint → LayerHint
final_hint modal layer hint =
    if is_overlay layer
    then LayerHint.normal
    else if modal && is_below hint
    then LayerHint.normal
    else hint

unfoldable pub compute_desired_state : DesiredStateInputs → DesiredWindowState
compute_desired_state i = record {
  skip_taskbar =
      flag (i.has_transient || i.classification_skip_taskbar || i.app_skip_taskbar)
        i.rule_skip_taskbar i.layer;
  skip_pager =
      flag (i.has_transient || i.classification_skip_pager || i.app_skip_pager) i.rule_skip_pager
        i.layer;
  sticky = flag (i.is_sticky_desktop || i.ewmh_sticky) i.rule_sticky i.layer;
  modal = i.ewmh_modal;
  layer_hint = final_hint i.ewmh_modal i.layer (value_or i.rule_layer_hint (own_hint i));
  borderless = value_or i.rule_borderless false || is_overlay i.layer;
}
