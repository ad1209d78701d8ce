-- ===== src/Policy/Classification/Laws.antt =====
-- Which of type, hints and rules decides.
use lwm.Base.{◌≡◌, ◌≢◌, Bool, true, false, some, arith}
use lwm.Types.{WindowLayer, LayerHint}
use lwm.Policy.Classification.{DesiredStateInputs, compute_desired_state}

-- An overlay skips the taskbar and the pager, is sticky and has no border and no layer hint,
-- whatever the rules and the window say. No window is both modal and hinted below the others.
pub compute_desired_state-overlay :
    (i : DesiredStateInputs)
    → (i.layer ≡ WindowLayer.overlay
        → compute_desired_state i ≡ record {
          skip_taskbar = true;
          skip_pager = true;
          sticky = true;
          modal = i.ewmh_modal;
          layer_hint = LayerHint.normal;
          borderless = true;
        })
      × ((compute_desired_state i).modal ≡ true
          → (compute_desired_state i).layer_hint ≢ LayerHint.below)
unfolding compute_desired_state
compute_desired_state-overlay i = (λ h. ground arith, λ h. ground arith)

-- On a window that is no overlay, what a rule says of a flag or of the layer holds whatever type
-- and hints say, but that a modal window is never put below the others.
pub compute_desired_state-rules :
    (i : DesiredStateInputs) (b : Bool) (l : LayerHint)
    → i.layer ≡ WindowLayer.normal
    → (i.rule_skip_taskbar ≡ some b → (compute_desired_state i).skip_taskbar ≡ b)
      × (i.rule_skip_pager ≡ some b → (compute_desired_state i).skip_pager ≡ b)
      × (i.rule_sticky ≡ some b → (compute_desired_state i).sticky ≡ b)
      × (i.rule_borderless ≡ some b → (compute_desired_state i).borderless ≡ b)
      × (i.rule_layer_hint ≡ some l
          → l ≢ LayerHint.below
          → (compute_desired_state i).layer_hint ≡ l)
      × (i.rule_layer_hint ≡ some LayerHint.below
          → i.ewmh_modal ≡ false
          → (compute_desired_state i).layer_hint ≡ LayerHint.below)
unfolding compute_desired_state
compute_desired_state-rules i b l h = (
  λ e. ground arith,
  λ e. ground arith,
  λ e. ground arith,
  λ e. ground arith,
  λ e n. ground arith,
  λ e n. ground arith,
)
