-- ===== src/Wm/Focus.antt =====
-- Which window gets the focus, in src/lwm/wm_focus.cpp (the selection of focus_or_fallback and the
-- target of cycle_focus), and which monitor is under the pointer, in src/lwm/core/focus.cpp.
pub mod Safe
pub mod Pointer
use lwm.Base.{
  ℕ, suc, ◌+◌, Bool, true, false, not, ◌&&◌, Option, none, some, List, [], ◌∷◌, ◌++◌, map,
  get_elem?, ltb, leb, ◌==◌, if◌then◌else◌,
}
use lwm.Base.Int.{ℤ, pos, ◌+ℤ◌, ltb_ℤ, leb_ℤ}
use lwm.Base.Sort.{keep, stable_sort}
use lwm.Types.{Client, Monitor, Workspace, current}
use lwm.Policy.Focus.{
  FloatingCandidate, FocusSelection, FocusCycleCandidate, select_focus_candidate,
  build_cycle_candidates, cycle_focus_next, cycle_focus_prev,
}
use lwm.Wm.State.{WindowManager, get_client, is_floating, is_focus_candidate}

-- The comparison of the sort, a.mru < b.mru.
abbrev pub used_before : Client → Client → Bool
used_before a b = ltb a.mru_order b.mru_order

abbrev pub candidate_of : Client → FloatingCandidate
candidate_of c = record {
  id = c.id;
  monitor = c.monitor;
  workspace = c.workspace;
  sticky = c.sticky;
}

-- std::sort leaves the order of windows with the same mru_order open; here they keep the order of
-- the clients, which is one that it may give.
unfoldable pub build_floating_candidates : WindowManager → List FloatingCandidate
build_floating_candidates wm =
    map candidate_of
      (stable_sort used_before (keep (λ (c : Client). is_floating c.kind) wm.clients))

-- require_client(window).sticky. The code aborts for a window that is no client, which is `false`
-- here; every listed window has a client in a state whose registry is in order.
abbrev pub is_sticky : WindowManager → ℕ → Bool
is_sticky wm w = elim (get_client wm w) [ none ↦ false | some c ↦ c.sticky ]

-- The loop over the workspaces from the index `i` on.
unfoldable pub sticky_tiled_candidates : WindowManager → ℕ → ℕ → List Workspace → List ℕ
sticky_tiled_candidates wm current_workspace i [] = []
sticky_tiled_candidates wm current_workspace i (ws ∷ workspaces) =
    (if i == current_workspace then [] else keep (is_sticky wm) ws.windows)
    ++ sticky_tiled_candidates wm current_workspace (suc i) workspaces

-- The selection of focus_or_fallback for a monitor at an index.
unfoldable pub focus_selection : WindowManager → ℕ → Monitor → Workspace → Option FocusSelection
focus_selection wm monitor_idx m ws =
    select_focus_candidate (is_focus_candidate wm) ws monitor_idx m.current_workspace
      (sticky_tiled_candidates wm m.current_workspace 0 m.workspaces) (build_floating_candidates wm)

abbrev pub mru_of : WindowManager → ℕ → ℕ
mru_of wm w = elim (get_client wm w) [ none ↦ 0 | some c ↦ c.mru_order ]

-- The candidates and the target of cycle_focus on the focused monitor and its current workspace.
unfoldable pub cycle_candidates : WindowManager → Monitor → Workspace → List FocusCycleCandidate
cycle_candidates wm m ws =
    build_cycle_candidates (is_focus_candidate wm) (mru_of wm) ws.windows
      (build_floating_candidates wm) wm.focused_monitor m.current_workspace

unfoldable pub cycle_target : WindowManager → Bool → Option FocusCycleCandidate
cycle_target wm forward = elim (get_elem? wm.monitors wm.focused_monitor) [
  | none ↦ none
  | some m ↦ elim (current m) [
    | none ↦ none
    | some ws ↦
        if forward
        then cycle_focus_next (cycle_candidates wm m ws) wm.active_window
        else cycle_focus_prev (cycle_candidates wm m ws) wm.active_window
  ]
]

-- The test on the point in monitor_index_at_point.
unfoldable pub is_at_point : Monitor → ℤ → ℤ → Bool
is_at_point m x y =
    leb_ℤ m.x x && ltb_ℤ x (m.x +ℤ pos m.width) && leb_ℤ m.y y && ltb_ℤ y (m.y +ℤ pos m.height)

-- The loop from the index `i` on.
unfoldable pub index_at_point : List Monitor → ℤ → ℤ → ℕ → Option ℕ
index_at_point [] x y i = none
index_at_point (m ∷ ms) x y i = if is_at_point m x y then some i else index_at_point ms x y (suc i)

unfoldable pub monitor_index_at_point : List Monitor → ℤ → ℤ → Option ℕ
monitor_index_at_point monitors x y = index_at_point monitors x y 0

pub data PointerTransition : Type 0 where
  unchanged monitor_changed_clear_focus : PointerTransition

pub record PointerFocusResult : Type 0 where
  pub transition : PointerTransition
  pub new_monitor : ℕ

unfoldable pub pointer_move : List Monitor → ℕ → ℤ → ℤ → PointerFocusResult
pointer_move monitors active_monitor x y = elim (monitor_index_at_point monitors x y) [
  | none ↦ record { transition = unchanged; new_monitor = active_monitor }
  | some i ↦
      if i == active_monitor
      then record { transition = unchanged; new_monitor = active_monitor }
      else record { transition = monitor_changed_clear_focus; new_monitor = i }
]
