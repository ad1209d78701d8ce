-- ===== src/Policy/Classification/Tests.antt =====
-- A transient window with a rule, on which the theorems are applied.
use lwm.Base.{true, false, none, some}
use lwm.Types.{WindowLayer, LayerHint}
use lwm.Policy.Classification.{DesiredStateInputs}

abbrev inputs : WindowLayer → DesiredStateInputs
inputs l = record {
  classification_skip_taskbar = false;
  classification_skip_pager = false;
  classification_above = true;
  app_skip_taskbar = false;
  app_skip_pager = true;
  ewmh_sticky = false;
  ewmh_modal = true;
  app_above = false;
  app_below = true;
  rule_skip_taskbar = some false;
  rule_skip_pager = none;
  rule_sticky = some false;
  rule_layer_hint = some LayerHint.above;
  rule_borderless = none;
  has_transient = true;
  is_sticky_desktop = true;
  layer = l;
}

abbrev ruled : DesiredStateInputs
ruled = inputs WindowLayer.normal
