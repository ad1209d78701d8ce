-- ===== src/Policy/Workspace/Move.antt =====
-- Moving a tiled window to another workspace of its monitor.
use lwm.Base.{
  ℕ, ◌≡◌, ◌≢◌, inl, inr, Bool, true, false, not, ◌&&◌, some, ltb, ◌==◌, length, contains, get_elem?,
  set, get_elem?_total, All-get_elem?, Option-cases, arith,
}
use lwm.Types.{Workspace, Monitor, xcb_none, current}
use lwm.Policy.Workspace.Invariant.{IsValid, IsMonitorValid, window_count}
use lwm.Policy.Workspace.Transfer.{
  middle, receive-focus, move-Transfer, moved_target, moved_current, count_moved, moved_each,
  moved_length,
}
use lwm.Policy.Workspace.Remove.{remove_tiled_window-contains}
use lwm.Policy.Workspace.{remove_tiled_window, receive_tiled_window, transfer, move_tiled_window}

-- When a move is carried out.
abbrev pub moves : Monitor → Workspace → ℕ → ℕ → Bool
moves m source w target =
    ltb target (length m.workspaces)
    && not (target == m.current_workspace)
    && contains source.windows w

module _ (is_iconic : ℕ → Bool) where
  -- On a valid monitor, a move of a window other than XCB_NONE that is not iconic: where it is
  -- reported as done, it keeps the monitor valid, and every window is listed on the monitor as often
  -- as before, so none is lost and none is listed twice.
  pub move_tiled_window-IsMonitorValid :
      (m m' : Monitor) (w target : ℕ)
      → IsMonitorValid is_iconic m
      → w ≢ xcb_none
      → is_iconic w ≡ false
      → move_tiled_window m w target is_iconic ≡ some (m', true)
      → IsMonitorValid is_iconic m'
        × ((a : ℕ) → window_count a m'.workspaces ≡ window_count a m.workspaces)
  unfolding middle
  move_tiled_window-IsMonitorValid m m' w target v ne ni h =
      let t = move-Transfer is_iconic m m' w target h in
      rw t.result (
        record {
          each = moved_each is_iconic m m' w target t v ne ni;
          apart = λ a. omega (arith, count_moved is_iconic m m' w target t a, v.apart a);
          in_range = omega (arith, moved_length is_iconic m m' w target t, v.in_range);
        },
        count_moved is_iconic m m' w target t,
      )

  -- After a move on a valid monitor that is reported as done, the window is listed and focused on
  -- the target workspace, and no longer listed on the current one, which stays the current one.
  pub move_tiled_window-lands :
      (m m' : Monitor) (w target : ℕ)
      → IsMonitorValid is_iconic m
      → move_tiled_window m w target is_iconic ≡ some (m', true)
      → (dest source : Workspace) × (get_elem? m'.workspaces target ≡ some dest)
        × (current m' ≡ some source)
        × (m'.current_workspace ≡ m.current_workspace)
        × (dest.focused_window ≡ w)
        × (contains dest.windows w ≡ true)
        × (contains source.windows w ≡ false)
  unfolding middle
  move_tiled_window-lands m m' w target v h =
      let t = move-Transfer is_iconic m m' w target h in
      let valid =
        All-get_elem? (IsValid is_iconic) m.workspaces m.current_workspace v.each t.source_at in
      (
        receive_tiled_window t.dest w,
        (remove_tiled_window t.source w is_iconic).0,
        moved_target is_iconic m m' w target t,
        moved_current is_iconic m m' w target t (v.in_range),
        ground (arith, t.result),
        (receive-focus is_iconic t.dest w).0,
        (receive-focus is_iconic t.dest w).1,
        ground (arith, (remove_tiled_window-contains is_iconic t.source w w valid).1),
      )

  refuses :
      (m : Monitor) (source : Workspace) (w target : ℕ)
      → IsMonitorValid is_iconic m
      → current m ≡ some source
      → moves m source w target ≡ false
      → move_tiled_window m w target is_iconic ≡ some (m, false)
  unfolding move_tiled_window transfer remove_tiled_window
  refuses m source w target v e h = elim (Option-cases (get_elem? m.workspaces target)) [
    | inl out ↦ ground (arith, out, e, get_elem?_total m.workspaces target)
    | inr (dest, at) ↦ ground (arith, at, e)
  ]

  accepts :
      (m : Monitor) (source : Workspace) (w target : ℕ)
      → current m ≡ some source
      → moves m source w target ≡ true
      → (m' : Monitor) × (move_tiled_window m w target is_iconic ≡ some (m', true))
  unfolding move_tiled_window transfer remove_tiled_window
  accepts m source w target e h =
      let (dest, at) = get_elem?_total m.workspaces target (ground arith) in
      (
        record m {
          workspaces =
              set (set m.workspaces m.current_workspace (remove_tiled_window source w is_iconic).0)
                target (receive_tiled_window dest w);
        },
        ground (arith, at, e),
      )

  -- A move never leaves the bounds on a valid monitor. It is carried out exactly when the target
  -- is another workspace of the monitor and the current workspace lists the window; otherwise it
  -- is refused and changes nothing.
  pub move_tiled_window-total :
      (m : Monitor) (source : Workspace) (w target : ℕ)
      → IsMonitorValid is_iconic m
      → current m ≡ some source
      → (moves m source w target ≡ false → move_tiled_window m w target is_iconic ≡ some (m, false))
        × (moves m source w target ≡ true
            → (m' : Monitor) × (move_tiled_window m w target is_iconic ≡ some (m', true)))
  move_tiled_window-total m source w target v e =
      (refuses m source w target v e, accepts m source w target e)
