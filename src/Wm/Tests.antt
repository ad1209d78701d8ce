-- ===== src/Wm/Tests.antt =====
-- The window manager of Desk, on which the theorems are applied.
use mathlib.Core.List.{Perm}
use lwm.Base.{
  ℕ, ◌<◌, ◌≡◌, refl, ◌⊎◌, true, false, some, [], ◌∷◌, get_elem?, All, contains, count, ◌≤◌, arith,
}
use lwm.Base.Int.{◌+ℤ◌, to_i64}
use lwm.Base.Sort.{keep, stable_sort}
use lwm.Types.{xcb_none, Monitor}
use lwm.Policy.Visibility.{is_window_visible}
use lwm.Policy.Fullscreen.{is_offered, best_of, select_owner}
use lwm.Policy.Stacking.{tier_value, compute_tier, key_less, compute_order}
use lwm.Policy.Focus.{is_focus_eligible as accepts_focus, select_tiled, select_focus_candidate}
use lwm.Wm.State.{
  WindowManager, get_client, should_be_visible, is_physically_visible, is_suppressed_by_fullscreen,
  fullscreen_candidates, select_fullscreen_owner_for_monitor, compute_stack_tier, stack_inputs_of,
  is_focus_eligible, is_focus_candidate,
}
use lwm.Wm.Owner.{MayOwn, select_fullscreen_owner_for_monitor-MayOwn, compute_stack_tier-lt}
use lwm.Wm.Restack.{
  position_of, transient_can_stack, raise, restack_one, restack_pass, restack, stacking_order,
}
use lwm.Wm.Restack.Keeps.{IsNotOwnParent, stacking_order-perm}
use lwm.Wm.Restack.Own.{restack_one-own}
use lwm.Wm.Reconcile.{
  is_on, reconcile_client, reconcile_clients, with_owner, reconcile_visibility_for_monitor,
}
use lwm.Wm.Reconcile.Covered.{MayShow, reconcile_visibility_for_monitor-MayShow}
use lwm.Wm.Reconcile.Keeps.{IsConsistent}
use lwm.Wm.Reconcile.Showing.{IsShownRight}
use lwm.Wm.Reconcile.Shows.{is_elsewhere, reconcile_visibility_for_monitor-IsShownRight}
use lwm.Wm.Focus.{
  build_floating_candidates, sticky_tiled_candidates, focus_selection, is_at_point, index_at_point,
  monitor_index_at_point, pointer_move,
}
use lwm.Wm.Focus.Safe.{CanHaveFocus, focus_selection-CanHaveFocus}
use lwm.Wm.Rearrange.{collect_shown, finalize_visibility_on_monitor}
use lwm.Wm.Rearrange.Collect.{IsCollected, IsDistinct, collect_shown-IsCollected}
use lwm.Wm.Rearrange.Settles.{finalize_visibility_on_monitor-IsShownRight}
use lwm.Wm.Switch.{apply_workspace_switch}
use lwm.Wm.Switch.Lands.{HasSwitched, apply_workspace_switch-lands}
use lwm.Wm.Desk.{
  editor, player, dialog, loner, desk, screen, wm, wm_with_loner, settings, thousandths, no_hints,
}

program : Unit {0}
unfolding is_window_visible is_offered best_of select_owner compute_tier key_less compute_order
    accepts_focus select_tiled select_focus_candidate get_client should_be_visible
    is_physically_visible is_suppressed_by_fullscreen fullscreen_candidates
    select_fullscreen_owner_for_monitor compute_stack_tier stack_inputs_of is_focus_eligible
    is_focus_candidate position_of transient_can_stack raise restack_one restack_pass restack
    stacking_order build_floating_candidates sticky_tiled_candidates focus_selection to_i64
    stable_sort is_at_point index_at_point monitor_index_at_point pointer_move ◌+ℤ◌
program = tt

stacked : stacking_order wm ≡ 5 ∷ 6 ∷ 7 ∷ []
unfolding program
stacked = refl

desk-AllNotOwnParent : All IsNotOwnParent wm.clients
desk-AllNotOwnParent = (refl, (refl, (refl, tt)))

stacking_order-perm_example : Perm (stacking_order wm) (5 ∷ 6 ∷ 7 ∷ [])
stacking_order-perm_example = stacking_order-perm wm desk-AllNotOwnParent

loner_there : get_client wm_with_loner 8 ≡ some loner
unfolding program
loner_there = refl

loner_stacks : transient_can_stack wm_with_loner loner ≡ true
unfolding program
loner_stacks = refl

restack_one-own_example :
    (contains (5 ∷ 8 ∷ []) 8 ≡ true)
    × (contains (restack_one wm_with_loner (5 ∷ 8 ∷ []) 8).0 8 ≡ false)
restack_one-own_example =
    restack_one-own wm_with_loner (5 ∷ 8 ∷ []) 8 loner loner_there refl loner_stacks refl

select_fullscreen_owner_for_monitor-MayOwn_example :
    (select_fullscreen_owner_for_monitor wm 0 5 ≡ xcb_none)
    ⊎ MayOwn wm 0 (select_fullscreen_owner_for_monitor wm 0 5)
select_fullscreen_owner_for_monitor-MayOwn_example =
    select_fullscreen_owner_for_monitor-MayOwn wm 0 5

owner_chosen : select_fullscreen_owner_for_monitor wm 0 5 ≡ 6
unfolding program
owner_chosen = refl

editor_covered : is_suppressed_by_fullscreen wm editor ≡ true
unfolding program
editor_covered = refl

compute_stack_tier-lt_example :
    tier_value (compute_stack_tier wm editor) < tier_value (compute_stack_tier wm player)
compute_stack_tier-lt_example =
    compute_stack_tier-lt wm editor player editor_covered refl refl refl refl

player_selected :
    focus_selection wm 0 screen desk ≡ some (record { window = 6; is_floating = false })
unfolding program
player_selected = refl

focus_selection-CanHaveFocus_example : CanHaveFocus wm 6
focus_selection-CanHaveFocus_example =
    focus_selection-CanHaveFocus wm 0 screen desk (record { window = 6; is_floating = false })
      player_selected

wm-AllIsConsistent : All IsConsistent wm.clients
wm-AllIsConsistent = (refl, (refl, (refl, tt)))

-- The window behind the fullscreen window is moved off the screen.
reconciled :
    reconcile_visibility_for_monitor wm 0 0
    ≡ some (record wm { clients = record editor { hidden = true } ∷ player ∷ dialog ∷ [] })
unfolding program reconcile_client reconcile_clients with_owner reconcile_visibility_for_monitor
reconciled = refl

reconcile_visibility_for_monitor-IsShownRight_example :
    (wm' : WindowManager) × (reconcile_visibility_for_monitor wm 0 0 ≡ some wm')
    × (wm'.monitors ≡ (with_owner wm 0 0).monitors)
    × IsShownRight wm' 0 wm'.clients
    × (keep (is_elsewhere 0) wm'.clients ≡ [])
    × All IsConsistent wm'.clients
reconcile_visibility_for_monitor-IsShownRight_example =
    reconcile_visibility_for_monitor-IsShownRight wm 0 0 (omega arith) wm-AllIsConsistent

reconcile_visibility_for_monitor-MayShow_example :
    All (MayShow 6) (keep (is_on 0) (record editor { hidden = true } ∷ player ∷ dialog ∷ []))
reconcile_visibility_for_monitor-MayShow_example =
    reconcile_visibility_for_monitor-MayShow wm
      (record wm { clients = record editor { hidden = true } ∷ player ∷ dialog ∷ [] }) 0 0 6
      (omega arith) wm-AllIsConsistent reconciled refl (omega arith)

finalize_visibility_on_monitor-IsShownRight_example :
    (wm' : WindowManager) × (finalize_visibility_on_monitor thousandths settings wm 0 0 ≡ some wm')
    × (wm'.monitors ≡ (with_owner wm 0 0).monitors)
    × IsShownRight wm' 0 wm'.clients
finalize_visibility_on_monitor-IsShownRight_example =
    finalize_visibility_on_monitor-IsShownRight thousandths settings wm 0 0 screen desk refl refl
      (omega arith) wm-AllIsConsistent

desk_once : (a : ℕ) → count a desk.windows ≤ 1
desk_once a = ground arith

collect_shown-IsCollected_example :
    IsCollected wm (collect_shown wm screen desk) × IsDistinct (collect_shown wm screen desk)
collect_shown-IsCollected_example = collect_shown-IsCollected wm screen desk desk_once

-- The monitor with a second workspace, which is empty.
abbrev wide : Monitor
wide = record screen {
  workspaces = desk ∷ record desk { windows = []; focused_window = 0; focus_history = [] } ∷ [];
}

abbrev wide_wm : WindowManager
wide_wm = record wm { monitors = wide ∷ [] }

apply_workspace_switch-lands_example :
    (wm' : WindowManager) × (apply_workspace_switch thousandths settings no_hints wide_wm 0 1
      ≡ some (wm', true))
    × ((m' : Monitor) × (get_elem? wm'.monitors 0 ≡ some m') × HasSwitched wide m' 1)
    × IsShownRight wm' 0 wm'.clients
apply_workspace_switch-lands_example =
    apply_workspace_switch-lands thousandths settings no_hints wide_wm 0 1 wide refl (omega arith)
      (omega arith) wm-AllIsConsistent
