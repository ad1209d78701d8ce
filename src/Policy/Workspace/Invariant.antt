-- ===== src/Policy/Workspace/Invariant.antt =====
-- What src/lwm/core/invariants.hpp asserts of a workspace's focus (assert_workspace_focus_valid),
-- with the facts on its lists that the code relies on.
use lwm.Base.{
  ℕ, zero, suc, ◌+◌, ◌≤◌, ◌<◌, ◌≡◌, ◌⊎◌, Bool, true, false, some, List, [], ◌∷◌, All, length,
  get_elem?, set, contains, count, arith,
}
use lwm.Types.{Workspace, Monitor, xcb_none}

-- A vector of distinct windows, none of them XCB_NONE.
pub record IsWindowList (l : List ℕ) : Type 0 where
  pub distinct : (a : ℕ) → count a l ≤ 1
  pub no_none : count xcb_none l ≡ 0

pub record IsHistory (l : List ℕ) : Type 0 where
  pub windows : IsWindowList l
  pub bounded : length l ≤ 16

pub record IsValid (is_iconic : ℕ → Bool) (ws : Workspace) : Type 0 where
  pub listed : IsWindowList ws.windows
  pub history : IsHistory ws.focus_history
  pub focus :
      (ws.focused_window ≡ xcb_none)
      ⊎ ((contains ws.windows ws.focused_window ≡ true) × (is_iconic ws.focused_window ≡ false))

-- How often a window is listed on a monitor.
abbrev pub window_count : ℕ → List Workspace → ℕ
window_count a [] = 0
window_count a (ws ∷ wss) = count a ws.windows + window_count a wss

-- The asserts of assert_workspace_consistency and assert_workspace_focus_valid that speak of one
-- monitor: its workspaces are valid, and no window is listed on two of them.
pub record IsMonitorValid (is_iconic : ℕ → Bool) (m : Monitor) : Type 0 where
  pub each : All (IsValid is_iconic) m.workspaces
  pub apart : (a : ℕ) → window_count a m.workspaces ≤ 1
  pub in_range : m.current_workspace < length m.workspaces

pub window_count-set :
    (a : ℕ) (wss : List Workspace) (i : ℕ) (old new : Workspace)
    → get_elem? wss i ≡ some old
    → window_count a (set wss i new) + count a old.windows
      ≡ window_count a wss + count a new.windows
window_count-set a [] i old new h = cc
window_count-set a (ws ∷ wss) zero old new h = ground arith
window_count-set a (ws ∷ wss) (suc i) old new h = omega (arith, window_count-set a wss i old new h)

pub count-le-window_count :
    (a : ℕ) (wss : List Workspace) (i : ℕ) (ws : Workspace)
    → get_elem? wss i ≡ some ws
    → count a ws.windows ≤ window_count a wss
count-le-window_count a [] i ws h = cc
count-le-window_count a (x ∷ wss) zero ws h = ground arith
count-le-window_count a (x ∷ wss) (suc i) ws h = omega (arith, count-le-window_count a wss i ws h)
