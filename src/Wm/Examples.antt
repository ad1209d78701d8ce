-- ===== src/Wm/Examples.antt =====
-- The desk of Desk with its registry in order, on which the theorems on runs of operations are
-- applied.
use lwm.Base.{
  Option, ℕ, zero, suc, ◌≡◌, refl, true, false, none, some, ◌>>=◌, [], ◌∷◌, map, count, arith,
}
use lwm.Base.Int.{ℤ, pos, negsuc, ◌+ℤ◌, ◌-ℤ◌, to_i16, to_u16, to_i32, max_ℤ, min_ℤ}
use lwm.Policy.Visibility.{is_window_visible}
use lwm.Wm.State.{WindowManager, get_client, should_be_visible}
use lwm.Types.{Client, floating_state, working_area, strut_extent, strut_offset}
use lwm.Wm.Reconcile.{
  apply_floating_geometry, apply_maximized_geometry, maximize_on, send_sync_request,
}
use lwm.Wm.Rearrange.{update}
use lwm.Wm.Place.{try_change, move_tiled_client_to_workspace}
use lwm.Wm.Place.Lands.{LandsAt, move_tiled_client_to_workspace-LandsAt}
use lwm.Wm.Modes.{set_window_maximized, enter_fullscreen, clear_fullscreen_state}
use lwm.Wm.Modes.Restores.{
  HasMode, floating_window, plain_mode, fullscreen_restores, maximize_restores,
}
use lwm.Wm.Commands.{focus_monitor}
use lwm.Wm.Commands.Inverse.{focus_monitor-inverse}
use lwm.Wm.Activate.{focus_any_window}
use lwm.Wm.Activate.Ends.{focus_any_window-Fine}
use lwm.Wm.Convert.{convert_window_to_floating, convert_window_to_tiled}
use lwm.Wm.Convert.Returns.{convert_window_to_tiled-convert_window_to_floating}
use lwm.Wm.Asserts.{assert_workspace_consistency, assert_floating_consistency}
use lwm.Wm.Asserts.Holds.{Reach-assert_workspace_consistency}
use lwm.Wm.Reach.{run, stay, after, make_maximized, iconify, Reach-InOrder}
use lwm.Wm.Place.{has_place}
use lwm.Wm.Registry.{entry, listed, tally}
use lwm.Wm.Registry.Order.{frame, InOrder, Fine}
use lwm.Wm.Desk.{desk, screen, area, editor, player, dialog, wm, settings, thousandths, no_hints}

desk_counted : (i j w : ℕ) → count w (listed wm.monitors i j) ≡ tally i j w (map entry wm.clients)
desk_counted zero zero w = ground arith
desk_counted zero (suc j) w = ground arith
desk_counted (suc i) j w = ground arith

desk-InOrder : InOrder (frame wm) wm
unfolding has_place
desk-InOrder = record {
  registered = record {
    unique = λ w. ground arith;
    in_place = ((λ _. refl, refl), ((λ _. refl, refl), ((λ _. refl, refl), tt)));
    counted = desk_counted;
    currents = (omega arith, tt);
  };
  count = refl;
  sizes = refl;
  windows = refl;
  focused = omega arith;
}

-- The dialog on the whole width of the screen.
abbrev wide_dialog : Client
wide_dialog = record dialog {
  maximized_horz = true;
  maximize_restore = some area;
  tiling_state = floating_state (record area { x = pos 0; width = 1024 }) none;
}

abbrev maximized_wm : WindowManager
maximized_wm = record wm { clients = editor ∷ player ∷ wide_dialog ∷ [] }

maximizes :
    run thousandths settings no_hints (λ w. area) (make_maximized 7 true false) wm
    ≡ some maximized_wm
unfolding run try_change set_window_maximized apply_maximized_geometry maximize_on
    apply_floating_geometry send_sync_request working_area update get_client should_be_visible
    is_window_visible to_i16 to_u16 ◌+ℤ◌ strut_extent strut_offset max_ℤ to_i32 ◌-ℤ◌ min_ℤ
maximizes = refl

Reach-InOrder_example :
    InOrder (frame wm) maximized_wm
    × Fine (frame wm) (run thousandths settings no_hints (λ w. area) (iconify 6) maximized_wm)
Reach-InOrder_example =
    Reach-InOrder thousandths settings no_hints (λ w. area) (frame wm) wm maximized_wm (iconify 6)
      desk-InOrder (after (make_maximized 7 true false) maximizes (stay maximized_wm))

focus_any_window-Fine_example :
    Fine (frame wm) (focus_any_window thousandths settings no_hints 3 wm 6 true 17)
focus_any_window-Fine_example =
    focus_any_window-Fine thousandths settings no_hints (frame wm) wm 6 true 17 desk-InOrder

-- The desk with an empty monitor on its right.
abbrev double_wm : WindowManager
double_wm = record wm {
  monitors =
      screen
      ∷ record screen {
        output = 2;
        x = pos 1024;
        workspaces = record desk { windows = []; focused_window = 0; focus_history = [] } ∷ [];
        fullscreen_owner = 0;
      }
      ∷ [];
}

double_counted :
    (i j w : ℕ)
    → count w (listed double_wm.monitors i j) ≡ tally i j w (map entry double_wm.clients)
double_counted zero zero w = ground arith
double_counted zero (suc j) w = ground arith
double_counted (suc zero) zero w = ground arith
double_counted (suc zero) (suc j) w = ground arith
double_counted (suc (suc i)) j w = ground arith

double-InOrder : InOrder (frame double_wm) double_wm
unfolding has_place
double-InOrder = record {
  registered = record {
    unique = λ w. ground arith;
    in_place = ((λ _. refl, refl), ((λ _. refl, refl), ((λ _. refl, refl), tt)));
    counted = double_counted;
    currents = (omega arith, (omega arith, tt));
  };
  count = refl;
  sizes = refl;
  windows = refl;
  focused = omega arith;
}

abbrev turn : ℤ → WindowManager → Option WindowManager
turn d x = focus_monitor thousandths settings no_hints x d

focus_monitor-inverse_example :
    ((wm1 : WindowManager) × (wm2 : WindowManager) × (turn (pos 1) double_wm ≡ some wm1)
      × (wm1.focused_monitor ≡ 1)
      × (turn (negsuc 0) wm1 ≡ some wm2)
      × (wm2.focused_monitor ≡ 0))
    × ((wm1 : WindowManager) × (wm2 : WindowManager) × (turn (negsuc 0) double_wm ≡ some wm1)
        × (wm1.focused_monitor ≡ 1)
        × (turn (pos 1) wm1 ≡ some wm2)
        × (wm2.focused_monitor ≡ 0))
focus_monitor-inverse_example =
    focus_monitor-inverse thousandths settings no_hints (frame double_wm) double_wm double-InOrder

fullscreen_restores_example :
    HasMode
      (plain_mode dialog area none)
      (enter_fullscreen (floating_window dialog area none) >>= clear_fullscreen_state wm)
fullscreen_restores_example = fullscreen_restores wm dialog area none

maximize_restores_example : HasMode (plain_mode dialog area none) (
    set_window_maximized wm true false (floating_window dialog area none)
    >>= set_window_maximized wm false false)
maximize_restores_example = maximize_restores wm dialog area none true false refl

editor_there : get_client wm 5 ≡ some editor
unfolding get_client
editor_there = refl

convert_window_to_tiled-convert_window_to_floating_example :
    (wm' : WindowManager) × ((convert_window_to_floating wm (λ w. area) 5
        >>= (λ mid. convert_window_to_tiled mid 5 (some area)))
      ≡ some wm')
    × ((i j : ℕ) → listed wm'.monitors i j ≡ listed wm.monitors i j)
convert_window_to_tiled-convert_window_to_floating_example =
    convert_window_to_tiled-convert_window_to_floating wm (λ w. area) (some area) editor
      desk-InOrder.registered editor_there refl

player_there : get_client wm 6 ≡ some player
unfolding get_client
player_there = refl

desk_place : has_place wm.monitors 0 0 ≡ true
unfolding has_place
desk_place = refl

-- The window is moved to the front of its workspace.
move_tiled_client_to_workspace-LandsAt_example :
    LandsAt 6 0 0 (move_tiled_client_to_workspace thousandths settings wm 6 0 0 (some 0))
move_tiled_client_to_workspace-LandsAt_example =
    move_tiled_client_to_workspace-LandsAt thousandths settings (frame wm) wm 6 0 0 (some 0) player
      desk-InOrder player_there refl desk_place

Reach-assert_workspace_consistency_example :
    (assert_workspace_consistency maximized_wm.clients maximized_wm.monitors ≡ true)
    × (assert_floating_consistency maximized_wm.monitors maximized_wm.clients ≡ true)
Reach-assert_workspace_consistency_example =
    Reach-assert_workspace_consistency thousandths settings no_hints (λ w. area) (frame wm) wm
      maximized_wm desk-InOrder (after (make_maximized 7 true false) maximizes (stay maximized_wm))
