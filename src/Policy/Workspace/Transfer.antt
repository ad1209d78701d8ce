-- ===== src/Policy/Workspace/Transfer.antt =====
-- The parts of a move of a tiled window to another workspace of its monitor.
use lwm.Base.{
  ℕ, ◌+◌, ◌-◌, ◌≤◌, ◌<◌, ◌≡◌, sym, ap, get_elem?-lt, ◌∙◌, ◌≢◌, inl, inr, Bool, true, false, some,
  List, [], ◌∷◌, ◌++◌, ◌==◌, if◌then◌else◌, All, length, contains, contains-append, get_elem?, set,
  length-set, get_elem?-set_self, get_elem?-set_ne, All-set, All-get_elem?, erase_first, count,
  count-append, count-erase_first, contains-eq-count, Option-cases, arith,
}
use lwm.Types.{Workspace, Monitor, xcb_none, current}
use lwm.Policy.Workspace.Invariant.{
  IsValid, IsMonitorValid, window_count, window_count-set, count-le-window_count,
}
use lwm.Policy.Workspace.Remove.{set_focus-IsValid, fixup_windows, remove_tiled_window-IsValid}
use lwm.Policy.Workspace.{
  push_focus_history, remove_from_focus_history, set_workspace_focus, remove_tiled_window,
  receive_tiled_window, transfer, move_tiled_window,
}

module _ (is_iconic : ℕ → Bool) where
  receive-windows :
      (t : Workspace) (w : ℕ) → (receive_tiled_window t w).windows ≡ t.windows ++ w ∷ []
  unfolding receive_tiled_window set_workspace_focus push_focus_history
  receive-windows t w = ground arith

  pub receive-focus :
      (t : Workspace) (w : ℕ)
      → ((receive_tiled_window t w).focused_window ≡ w)
        × (contains (receive_tiled_window t w).windows w ≡ true)
  unfolding receive_tiled_window set_workspace_focus push_focus_history
  receive-focus t w = ground (arith, contains-append t.windows (w ∷ []) w)

  receive-IsValid :
      (t : Workspace) (w : ℕ)
      → IsValid is_iconic t
      → w ≢ xcb_none
      → is_iconic w ≡ false
      → count w t.windows ≡ 0
      → IsValid is_iconic (receive_tiled_window t w)
  unfolding receive_tiled_window
  receive-IsValid t w v ne ni c =
      set_focus-IsValid is_iconic (record t { windows = t.windows ++ w ∷ [] }) w
        (record {
          distinct = λ a. ground (arith, count-append a t.windows (w ∷ []), v.listed.distinct a);
          no_none = ground (arith, count-append xcb_none t.windows (w ∷ []), v.listed.no_none);
        })
        v.history (ground (arith, contains-append t.windows (w ∷ []) w)) ni

  count-remove :
      (ws : Workspace) (w a : ℕ)
      → (remove_tiled_window ws w is_iconic).1 ≡ true
      → count a (remove_tiled_window ws w is_iconic).0.windows
        ≡ count a ws.windows - (if w == a then 1 else 0)
  unfolding remove_tiled_window remove_from_focus_history
  count-remove ws w a h = ground (
    arith,
    fixup_windows is_iconic
        (remove_from_focus_history (record ws { windows = erase_first ws.windows w }) w) w,
    count-erase_first ws.windows w a,
  )

  -- A window that is removed was listed.
  remove-counts :
      (ws : Workspace) (w : ℕ)
      → (remove_tiled_window ws w is_iconic).1 ≡ true
      → 1 ≤ count w ws.windows
  unfolding remove_tiled_window
  remove-counts ws w h = ground (arith, contains-eq-count ws.windows w)

  count-remove_self :
      (ws : Workspace) (w : ℕ)
      → (remove_tiled_window ws w is_iconic).1 ≡ true
      → count w (remove_tiled_window ws w is_iconic).0.windows ≡ count w ws.windows - 1
  count-remove_self ws w h = ground (arith, count-remove ws w w h)

  -- A move between two workspaces, taken apart: what is read, and what the monitor becomes.
  pub record Transfer (m : Monitor) (w target : ℕ) (m' : Monitor) : Type 0 where
    pub source : Workspace
    pub dest : Workspace
    pub source_at : get_elem? m.workspaces m.current_workspace ≡ some source
    pub dest_at : get_elem? m.workspaces target ≡ some dest
    pub removed : (remove_tiled_window source w is_iconic).1 ≡ true
    pub apart : target ≢ m.current_workspace
    pub result : m' ≡ record m {
      workspaces =
          set
            (set m.workspaces m.current_workspace (remove_tiled_window source w is_iconic).0)
            target
            (receive_tiled_window dest w);
    }

  pub move-Transfer :
      (m m' : Monitor) (w target : ℕ)
      → move_tiled_window m w target is_iconic ≡ some (m', true)
      → Transfer m w target m'
  unfolding move_tiled_window transfer
  move-Transfer m m' w target h = elim (Option-cases (get_elem? m.workspaces m.current_workspace)) [
    | inl e ↦ absurd (ground (arith, e))
    | inr (s, e) ↦ elim (Option-cases (get_elem? m.workspaces target)) [
      | inl e' ↦ absurd (ground (arith, e, e'))
      | inr (d, e') ↦ record {
        source = s;
        dest = d;
        source_at = e;
        dest_at = e';
        removed = ground (arith, e, e');
        apart = ground (arith, e, e');
        result = ground (arith, e, e');
      }
    ]
  ]

  module _ (m m' : Monitor) (w target : ℕ) (t : Transfer m w target m') where
    unfoldable pub middle : List Workspace
    middle = set m.workspaces m.current_workspace (remove_tiled_window t.source w is_iconic).0

    dest_in_middle : get_elem? middle target ≡ some t.dest
    unfolding middle
    dest_in_middle =
        get_elem?-set_ne m.workspaces {i = m.current_workspace} {j = target} _
          (λ e. t.apart (sym e))
        ∙ t.dest_at

    count-middle :
        (a : ℕ)
        → window_count a middle + count a t.source.windows
          ≡ window_count a m.workspaces
            + count a (remove_tiled_window t.source w is_iconic).0.windows
    unfolding middle
    count-middle a = window_count-set a m.workspaces m.current_workspace t.source _ t.source_at

    pub count_moved :
        (a : ℕ)
        → window_count a (set middle target (receive_tiled_window t.dest w))
          ≡ window_count a m.workspaces
    count_moved a = ground (
      arith,
      count-middle a,
      window_count-set a middle target t.dest (receive_tiled_window t.dest w) dest_in_middle,
      count-remove t.source w a t.removed,
      remove-counts t.source w t.removed,
      receive-windows t.dest w,
      count-append a t.dest.windows (w ∷ []),
    )

    gone : window_count w m.workspaces ≤ 1 → count w t.dest.windows ≡ 0
    gone h = omega (
      arith,
      count-le-window_count w middle target t.dest dest_in_middle,
      count-middle w,
      count-remove_self t.source w t.removed,
      remove-counts t.source w t.removed,
    )

    middle_each : IsMonitorValid is_iconic m → All (IsValid is_iconic) middle
    unfolding middle
    middle_each v = All-set (IsValid is_iconic) m.workspaces m.current_workspace _ v.each (
        remove_tiled_window-IsValid is_iconic t.source w
          (All-get_elem? (IsValid is_iconic) m.workspaces m.current_workspace v.each t.source_at))

    pub moved_each :
        IsMonitorValid is_iconic m
        → w ≢ xcb_none
        → is_iconic w ≡ false
        → All (IsValid is_iconic) (set middle target (receive_tiled_window t.dest w))
    moved_each v ne ni = All-set (IsValid is_iconic) middle target _ (middle_each v) (
        receive-IsValid t.dest w
          (All-get_elem? (IsValid is_iconic) m.workspaces target v.each t.dest_at) ne ni
          (gone (v.apart w)))

    pub moved_length :
        length (set middle target (receive_tiled_window t.dest w)) ≡ length m.workspaces
    unfolding middle
    moved_length = length-set middle target _ ∙ length-set m.workspaces m.current_workspace _

    middle-length : length middle ≡ length m.workspaces
    unfolding middle
    middle-length = length-set m.workspaces m.current_workspace _

    pub moved_target : get_elem? m'.workspaces target ≡ some (receive_tiled_window t.dest w)
    unfolding middle
    moved_target =
        ap (λ (x : Monitor). get_elem? x.workspaces target) t.result
        ∙ get_elem?-set_self middle target _
            (omega (arith, middle-length, get_elem?-lt m.workspaces target t.dest_at))

    pub moved_current :
        m.current_workspace < length m.workspaces
        → current m' ≡ some (remove_tiled_window t.source w is_iconic).0
    unfolding middle
    moved_current h =
        ap (λ (x : Monitor). current x) t.result
        ∙ get_elem?-set_ne middle {i = target} {j = m.current_workspace} _ t.apart
        ∙ get_elem?-set_self m.workspaces m.current_workspace _ h
