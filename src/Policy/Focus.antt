-- ===== src/Policy/Focus.antt =====
-- namespace focus_policy of src/lwm/core/policy.hpp: which window takes the focus of a workspace,
-- and the cycle of windows that the focus can walk through.
pub mod Select
pub mod Build
pub mod Cycle
mod Tests
use lwm.Base.{
  ℕ, suc, ◌+◌, ◌-◌, ◌%◌, Bool, true, false, not, ◌&&◌, ◌||◌, Option, none, some, List, [], ◌∷◌,
  ◌++◌, map, ltb, ◌==◌, if◌then◌else◌, length, get_elem?, find_last,
}
use lwm.Base.Sort.{keep, stable_sort}
use lwm.Types.{Workspace, xcb_none, has_window}

unfoldable pub is_focus_eligible : Bool → Bool → Bool
is_focus_eligible accepts_input_focus supports_take_focus =
    accepts_input_focus || supports_take_focus

unfoldable pub should_apply_focus_border : Bool → Bool
should_apply_focus_border is_fullscreen = not is_fullscreen

pub record FloatingCandidate : Type 0 where
  pub id : ℕ
  pub monitor : ℕ
  pub workspace : ℕ
  pub sticky : Bool

pub record FocusSelection : Type 0 where
  pub window : ℕ
  pub is_floating : Bool

-- What the loops over the floating windows do not skip.
abbrev pub is_placed : ℕ → ℕ → FloatingCandidate → Bool
is_placed monitor_idx workspace_idx c =
    c.monitor == monitor_idx && (c.sticky || c.workspace == workspace_idx)

-- The result of a loop, and else what comes after it.
abbrev pub or_else {ℓ} : {A : Type ℓ} → Option A → Option A → Option A
or_else none b = b
or_else (some a) b = some a

abbrev pub tiled_selection : Option ℕ → Option FocusSelection
tiled_selection none = none
tiled_selection (some w) = some (record { window = w; is_floating = false })

abbrev pub floating_selection : Option FloatingCandidate → Option FocusSelection
floating_selection none = none
floating_selection (some c) = some (record { window = c.id; is_floating = true })

module _ (is_eligible : ℕ → Bool) where
  -- The λ of the same name.
  abbrev pub eligible : ℕ → Bool
  eligible window = not (window == xcb_none) && is_eligible window

  -- The focused window, the focus history, the windows of the workspace, the sticky ones.
  unfoldable pub select_tiled : Workspace → List ℕ → Option ℕ
  select_tiled workspace sticky_tiled =
      let focused = workspace.focused_window in
      or_else
        (if not (focused == xcb_none) && has_window workspace focused && eligible focused
          then some focused
          else none)
        (or_else (find_last (λ w. has_window workspace w && eligible w) workspace.focus_history)
          (or_else (find_last eligible workspace.windows) (find_last eligible sticky_tiled)))

  unfoldable pub select_focus_candidate :
      Workspace → ℕ → ℕ → List ℕ → List FloatingCandidate → Option FocusSelection
  select_focus_candidate workspace monitor_idx workspace_idx sticky_tiled floating_mru =
      or_else (tiled_selection (select_tiled workspace sticky_tiled)) (
        floating_selection
          (find_last (λ c. is_placed monitor_idx workspace_idx c && eligible c.id) floating_mru))

pub record FocusCycleCandidate : Type 0 where
  pub id : ℕ
  pub is_floating : Bool

pub record Ranked : Type 0 where
  pub candidate : FocusCycleCandidate
  pub mru : ℕ

-- The comparison of the sort, a.mru > b.mru.
abbrev pub more_recent : Ranked → Ranked → Bool
more_recent a b = ltb b.mru a.mru

module _ (is_eligible : ℕ → Bool) (get_mru_order : ℕ → ℕ) where
  abbrev pub rank_tiled : ℕ → Ranked
  rank_tiled w = record {
    candidate = record { id = w; is_floating = false };
    mru = get_mru_order w;
  }

  abbrev pub rank_floating : FloatingCandidate → Ranked
  rank_floating c = record {
    candidate = record { id = c.id; is_floating = true };
    mru = get_mru_order c.id;
  }

  -- The vector `ranked` before the sort.
  unfoldable pub ranked : List ℕ → List FloatingCandidate → ℕ → ℕ → List Ranked
  ranked tiled_windows floating_windows monitor_idx workspace_idx =
      map rank_tiled (keep is_eligible tiled_windows)
      ++ map rank_floating
          (keep (λ c. is_placed monitor_idx workspace_idx c && is_eligible c.id) floating_windows)

  unfoldable pub build_cycle_candidates :
      List ℕ → List FloatingCandidate → ℕ → ℕ → List FocusCycleCandidate
  build_cycle_candidates tiled_windows floating_windows monitor_idx workspace_idx =
      map (λ r. r.candidate)
        (stable_sort more_recent (ranked tiled_windows floating_windows monitor_idx workspace_idx))

-- The search for the position of the current window.
unfoldable pub find_candidate : List FocusCycleCandidate → ℕ → Option ℕ
find_candidate [] w = none
find_candidate (c ∷ cs) w =
    if c.id == w then some 0 else elim (find_candidate cs w) [ none ↦ none | some i ↦ some (suc i) ]

unfoldable pub cycle_focus_next : List FocusCycleCandidate → ℕ → Option FocusCycleCandidate
cycle_focus_next candidates current_window =
    if length candidates == 0 then none else elim (find_candidate candidates current_window) [
      | none ↦ get_elem? candidates 0
      | some current ↦ get_elem? candidates ((current + 1) % length candidates)
    ]

unfoldable pub cycle_focus_prev : List FocusCycleCandidate → ℕ → Option FocusCycleCandidate
cycle_focus_prev candidates current_window =
    if length candidates == 0 then none else elim (find_candidate candidates current_window) [
      | none ↦ get_elem? candidates (length candidates - 1)
      | some current ↦ get_elem? candidates ((current + length candidates - 1) % length candidates)
    ]
