-- ===== src/Policy/Focus/Tests.antt =====
-- A workspace with a tiled and a floating window, and a cycle of three windows.
use mathlib.Core.List.{Memᴰ}
use lwm.Base.{
  ℕ, ◌<◌, ◌≡◌, refl, ◌⊎◌, Bool, true, false, not, some, List, [], ◌∷◌, map, ◌==◌, length, arith,
}
use lwm.Base.Sort.{stable_sort}
use lwm.Types.{Workspace, LayoutStrategy}
use lwm.Policy.Focus.{
  FloatingCandidate, FocusCycleCandidate, eligible, ranked, select_tiled, select_focus_candidate,
  build_cycle_candidates, cycle_focus_next, cycle_focus_prev,
}
use lwm.Policy.Focus.Select.{
  IsListed, is_focusable_floating, IsFirstChoice, select_focus_candidate_sound,
  select_focus_candidate-recent,
}
use lwm.Policy.Focus.Cycle.{walk, cycle_focus-inverse, cycle_focus_next-reaches}

abbrev desk : Workspace
desk = record {
  windows = 3 ∷ 5 ∷ [];
  focused_window = 5;
  focus_history = 5 ∷ 3 ∷ [];
  layout_strategy = LayoutStrategy.master_stack;
  split_ratios = [];
}

abbrev floats : List FloatingCandidate
floats = record { id = 8; monitor = 0; workspace = 2; sticky = false } ∷ []

-- Window 5 does not take the focus.
abbrev takes : ℕ → Bool
takes w = not (w == 5)

abbrev only_floats : ℕ → Bool
only_floats w = w == 8

selected :
    select_focus_candidate only_floats desk 0 2 [] floats
    ≡ some (record { window = 8; is_floating = true })
unfolding select_focus_candidate select_tiled
selected = refl

select_focus_candidate_sound_example :
    (eligible only_floats 8 ≡ true)
    × (((true ≡ false) × IsListed only_floats desk [] 8)
        ⊎ ((true ≡ true)
            × ((c : FloatingCandidate) × Memᴰ c floats
                × (is_focusable_floating only_floats 0 2 c ≡ true)
                × (8 ≡ c.id))
            × ((w : ℕ) → IsListed only_floats desk [] w → eligible only_floats w ≡ false)))
select_focus_candidate_sound_example =
    select_focus_candidate_sound only_floats desk 0 2 [] floats
      (record { window = 8; is_floating = true }) selected

recent :
    select_focus_candidate takes desk 0 2 [] floats
    ≡ some (record { window = 3; is_floating = false })
unfolding select_focus_candidate select_tiled
recent = refl

select_focus_candidate-recent_example : IsFirstChoice takes desk [] 3
select_focus_candidate-recent_example =
    select_focus_candidate-recent takes desk 0 2 [] floats 3 recent

-- Windows used later have greater numbers.
abbrev mru : ℕ → ℕ
mru w = w

built :
    map (λ c. c.id) (build_cycle_candidates takes mru (3 ∷ 5 ∷ 4 ∷ []) floats 0 2) ≡ 8 ∷ 4 ∷ 3 ∷ []
unfolding build_cycle_candidates ranked stable_sort
built = refl

abbrev stop : ℕ → FocusCycleCandidate
stop w = record { id = w; is_floating = false }

abbrev cycle : List FocusCycleCandidate
cycle = stop 8 ∷ stop 4 ∷ stop 3 ∷ []

cycle_focus-inverse_example :
    ((d : FocusCycleCandidate) × (cycle_focus_next cycle 3 ≡ some d)
      × (cycle_focus_prev cycle d.id ≡ some (stop 3)))
    × ((d : FocusCycleCandidate) × (cycle_focus_prev cycle 3 ≡ some d)
        × (cycle_focus_next cycle d.id ≡ some (stop 3)))
cycle_focus-inverse_example = cycle_focus-inverse cycle 2 (λ a. ground arith) refl

cycle_focus_next-reaches_example : (k : ℕ) × (k < length cycle) × (walk cycle k 3 ≡ some 4)
cycle_focus_next-reaches_example =
    cycle_focus_next-reaches cycle 2 1 {d = stop 4} (λ a. ground arith) refl refl
