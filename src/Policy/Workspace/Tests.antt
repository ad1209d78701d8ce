-- ===== src/Policy/Workspace/Tests.antt =====
-- A monitor with two workspaces, on which the theorems are applied.
use lwm.Base.{
  ℕ, ◌≡◌, refl, inl, inr, Bool, true, false, some, [], ◌∷◌, ◌==◌, contains, get_elem?, arith,
}
use lwm.Base.Int.{pos}
use lwm.Types.{Workspace, Monitor, LayoutStrategy, current}
use lwm.Policy.Workspace.Invariant.{IsValid, IsMonitorValid, window_count}
use lwm.Policy.Workspace.Remove.{remove_tiled_window-IsValid, remove_tiled_window-focus}
use lwm.Policy.Workspace.Move.{
  moves, move_tiled_window-IsMonitorValid, move_tiled_window-lands, move_tiled_window-total,
}
use lwm.Policy.Workspace.{
  validate_workspace_switch, push_focus_history, remove_from_focus_history, set_workspace_focus,
  heir, fixup_workspace_focus, remove_tiled_window, receive_tiled_window, transfer,
  move_tiled_window,
}

program : Unit {0}
unfolding validate_workspace_switch push_focus_history remove_from_focus_history set_workspace_focus
    heir fixup_workspace_focus remove_tiled_window receive_tiled_window transfer move_tiled_window
program = tt

abbrev first : Workspace
first = record {
  windows = 3 ∷ 5 ∷ 9 ∷ [];
  focused_window = 5;
  focus_history = 9 ∷ 3 ∷ 5 ∷ [];
  layout_strategy = LayoutStrategy.master_stack;
  split_ratios = [];
}

abbrev second : Workspace
second = record first { windows = 7 ∷ []; focused_window = 0; focus_history = [] }

abbrev desk : Monitor
desk = record {
  output = 1;
  name = "DP-1";
  x = pos 0;
  y = pos 0;
  width = 1920;
  height = 1080;
  workspaces = first ∷ second ∷ [];
  current_workspace = 0;
  previous_workspace = 1;
  strut = record { left = 0; right = 0; top = 30; bottom = 0 };
  fullscreen_owner = 0;
}

-- Window 9 is minimised.
abbrev iconic : ℕ → Bool
iconic w = w == 9

remove_focused : (remove_tiled_window first 5 iconic).0.focused_window ≡ 3
unfolding program
remove_focused = refl

remove_twice :
    (remove_tiled_window (remove_tiled_window first 5 iconic).0 3 iconic).0.focused_window ≡ 0
unfolding program
remove_twice = refl

first-IsValid : IsValid iconic first
first-IsValid = record {
  listed = record { distinct = λ a. ground arith; no_none = refl };
  history = record {
    windows = record { distinct = λ a. ground arith; no_none = refl };
    bounded = omega arith;
  };
  focus = inr (refl, refl);
}

second-IsValid : IsValid iconic second
second-IsValid = record {
  listed = record { distinct = λ a. ground arith; no_none = refl };
  history = record {
    windows = record { distinct = λ a. omega arith; no_none = refl };
    bounded = omega arith;
  };
  focus = inl refl;
}

desk-IsMonitorValid : IsMonitorValid iconic desk
desk-IsMonitorValid = record {
  each = (first-IsValid, (second-IsValid, tt));
  apart = λ a. ground arith;
  in_range = omega arith;
}

abbrev desk_after : Monitor
desk_after = record desk {
  workspaces =
      record first { windows = 3 ∷ 9 ∷ []; focused_window = 3; focus_history = 9 ∷ 3 ∷ [] }
      ∷ record second { windows = 7 ∷ 5 ∷ []; focused_window = 5; focus_history = 5 ∷ [] }
      ∷ [];
}

desk_moves : move_tiled_window desk 5 1 iconic ≡ some (desk_after, true)
unfolding program
desk_moves = refl

remove_tiled_window-IsValid_example : IsValid iconic (remove_tiled_window first 5 iconic).0
remove_tiled_window-IsValid_example = remove_tiled_window-IsValid iconic first 5 first-IsValid

abbrev last_awake : Workspace
last_awake = record first { windows = 5 ∷ 9 ∷ []; focus_history = 9 ∷ 5 ∷ [] }

last_awake-IsValid : IsValid iconic last_awake
last_awake-IsValid = record {
  listed = record { distinct = λ a. ground arith; no_none = refl };
  history = record {
    windows = record { distinct = λ a. ground arith; no_none = refl };
    bounded = omega arith;
  };
  focus = inr (refl, refl);
}

remove_tiled_window-focus_example : iconic 9 ≡ true
unfolding program
remove_tiled_window-focus_example =
    remove_tiled_window-focus iconic last_awake 5 9 last_awake-IsValid (omega arith) refl refl

move_tiled_window-IsMonitorValid_example :
    IsMonitorValid iconic desk_after
    × ((a : ℕ) → window_count a desk_after.workspaces ≡ window_count a desk.workspaces)
move_tiled_window-IsMonitorValid_example =
    move_tiled_window-IsMonitorValid iconic desk desk_after 5 1 desk-IsMonitorValid (omega arith)
      refl desk_moves

move_tiled_window-lands_example :
    (dest source : Workspace) × (get_elem? desk_after.workspaces 1 ≡ some dest)
    × (current desk_after ≡ some source)
    × (desk_after.current_workspace ≡ desk.current_workspace)
    × (dest.focused_window ≡ 5)
    × (contains dest.windows 5 ≡ true)
    × (contains source.windows 5 ≡ false)
move_tiled_window-lands_example =
    move_tiled_window-lands iconic desk desk_after 5 1 desk-IsMonitorValid desk_moves

move_tiled_window-total_example :
    (moves desk first 5 1 ≡ false → move_tiled_window desk 5 1 iconic ≡ some (desk, false))
    × (moves desk first 5 1 ≡ true
        → (m' : Monitor) × (move_tiled_window desk 5 1 iconic ≡ some (m', true)))
move_tiled_window-total_example =
    move_tiled_window-total iconic desk first 5 1 desk-IsMonitorValid refl
