-- ===== src/Policy/Workspace/Remove.antt =====
-- Taking a window out of a workspace: the invariant, and who inherits the focus.
use lwm.Base.{
  ℕ, ◌≡◌, refl, ◌≢◌, ◌⊎◌, inl, inr, Bool, true, false, not, ◌&&◌, none, some, List, ◌==◌, contains,
  erase_first, find_last_passes, find_last-contains, find_last-none, count-erase_first,
  contains-eq-count, Option-cases, Bool-cases, arith,
}
use lwm.Types.{Workspace, xcb_none, has_window}
use lwm.Policy.Workspace.Invariant.{IsWindowList, IsHistory, IsValid}
use lwm.Policy.Workspace.History.{push_focus_history-IsHistory}
use lwm.Policy.Workspace.{
  is_heir, heir, push_focus_history, remove_from_focus_history, set_workspace_focus,
  fixup_workspace_focus, remove_tiled_window,
}

module _ (is_iconic : ℕ → Bool) where
  -- The heir is listed and not iconic.
  heir_passes :
      (ws : Workspace) (r t : ℕ)
      → heir ws r is_iconic ≡ some t
      → (contains ws.windows t ≡ true) × (is_iconic t ≡ false)
  unfolding heir
  heir_passes ws r t h = ground (
    arith,
    find_last_passes (is_heir ws r is_iconic) ws.focus_history t,
    find_last_passes (λ (w : ℕ). not (is_iconic w)) ws.windows t,
    find_last-contains (λ (w : ℕ). not (is_iconic w)) ws.windows t,
  )

  heir-none :
      (ws : Workspace) (r a : ℕ)
      → heir ws r is_iconic ≡ none
      → contains ws.windows a ≡ true
      → is_iconic a ≡ true
  unfolding heir
  heir-none ws r a h c = ground (arith, find_last-none (λ (w : ℕ). not (is_iconic w)) ws.windows a)

  pub set_focus-IsValid :
      (ws : Workspace) (t : ℕ)
      → IsWindowList ws.windows
      → IsHistory ws.focus_history
      → contains ws.windows t ≡ true
      → is_iconic t ≡ false
      → IsValid is_iconic (set_workspace_focus ws t)
  unfolding set_workspace_focus push_focus_history
  set_focus-IsValid ws t l h c i = record {
    listed = ground (arith, l);
    history = ground (arith, push_focus_history-IsHistory (record ws { focused_window = t }) t h);
    focus = ground arith;
  }

  fixup-IsValid :
      (ws : Workspace) (r : ℕ)
      → IsWindowList ws.windows
      → IsHistory ws.focus_history
      → (ws.focused_window ≢ r
          → (ws.focused_window ≡ xcb_none)
            ⊎ ((contains ws.windows ws.focused_window ≡ true)
                × (is_iconic ws.focused_window ≡ false)))
      → IsValid is_iconic (fixup_workspace_focus ws r is_iconic)
  unfolding fixup_workspace_focus
  fixup-IsValid ws r l h f = elim (Bool-cases (ws.focused_window == r)) [
    | inr ne ↦ rw ne (record { listed = l; history = h; focus = f (ground arith) })
    | inl same ↦ elim (Option-cases (heir ws r is_iconic)) [
      | inl e ↦ rw (same, e) (record { listed = l; history = h; focus = inl refl })
      | inr (t, e) ↦
          rw (same, e)
            (set_focus-IsValid (record ws { focused_window = xcb_none }) t l h
              (heir_passes ws r t e).0 (heir_passes ws r t e).1)
    ]
  ]

  erase_first-IsWindowList : (l : List ℕ) (w : ℕ) → IsWindowList l → IsWindowList (erase_first l w)
  erase_first-IsWindowList l w v = record {
    distinct = λ a. ground (arith, count-erase_first l w a, v.distinct a);
    no_none = ground (arith, count-erase_first l w xcb_none, v.no_none);
  }

  contains-erase_first :
      (l : List ℕ) (w a : ℕ)
      → IsWindowList l
      → contains (erase_first l w) a ≡ (contains l a && not (w == a))
  contains-erase_first l w a v = ground (
    arith,
    contains-eq-count (erase_first l w) a,
    contains-eq-count l a,
    count-erase_first l w a,
    v.distinct a,
  )

  -- What is left of a workspace once a window is taken off its lists.
  unlisted : Workspace → ℕ → Workspace
  unlisted ws w = remove_from_focus_history (record ws { windows = erase_first ws.windows w }) w

  -- Removing a window keeps the workspace valid: its windows and its history stay distinct, and
  -- the focused window is again either none or a listed window that is not iconic.
  pub remove_tiled_window-IsValid :
      (ws : Workspace) (w : ℕ)
      → IsValid is_iconic ws
      → IsValid is_iconic (remove_tiled_window ws w is_iconic).0
  unfolding remove_tiled_window unlisted remove_from_focus_history
  remove_tiled_window-IsValid ws w v = elim (Bool-cases (has_window ws w)) [
    | inr absent ↦ rw absent v
    | inl there ↦ rw there (
        fixup-IsValid (unlisted ws w) w (erase_first-IsWindowList ws.windows w v.listed)
          (push_focus_history-IsHistory ws w v.history).1
          (λ ne.
            ground (arith, v.focus, contains-erase_first ws.windows w ws.focused_window v.listed)))
  ]

  pub fixup_windows :
      (ws : Workspace) (r : ℕ) → (fixup_workspace_focus ws r is_iconic).windows ≡ ws.windows
  unfolding fixup_workspace_focus set_workspace_focus push_focus_history
  fixup_windows ws r = ground arith

  -- Removing a window reports whether it was listed; it is listed no more, and every other window
  -- is listed as before.
  pub remove_tiled_window-contains :
      (ws : Workspace) (w a : ℕ)
      → IsValid is_iconic ws
      → ((remove_tiled_window ws w is_iconic).1 ≡ contains ws.windows w)
        × (contains (remove_tiled_window ws w is_iconic).0.windows a
            ≡ (contains ws.windows a && not (w == a)))
  unfolding remove_tiled_window unlisted remove_from_focus_history
  remove_tiled_window-contains ws w a v =
      ground (arith, fixup_windows (unlisted ws w) w, contains-erase_first ws.windows w a v.listed)

  fixup_abandons :
      (ws : Workspace) (r a : ℕ)
      → IsWindowList ws.windows
      → (fixup_workspace_focus ws r is_iconic).focused_window ≡ xcb_none
      → ws.focused_window ≢ xcb_none
      → contains ws.windows a ≡ true
      → is_iconic a ≡ true
  unfolding fixup_workspace_focus set_workspace_focus push_focus_history
  fixup_abandons ws r a l e ne c = elim (Option-cases (heir ws r is_iconic)) [
    | inl gone ↦ heir-none ws r a gone c
    | inr (t, heired) ↦ absurd (
        ground
          (arith, heired, heir_passes ws r t heired, contains-eq-count ws.windows t, l.no_none))
  ]

  -- A valid workspace that has a focused window is left without one by the removal of a window only
  -- when every window that remains is iconic.
  pub remove_tiled_window-focus :
      (ws : Workspace) (w a : ℕ)
      → IsValid is_iconic ws
      → ws.focused_window ≢ xcb_none
      → (remove_tiled_window ws w is_iconic).0.focused_window ≡ xcb_none
      → contains (remove_tiled_window ws w is_iconic).0.windows a ≡ true
      → is_iconic a ≡ true
  unfolding remove_tiled_window unlisted remove_from_focus_history
  remove_tiled_window-focus ws w a v f e c = ground (
    arith,
    fixup_abandons (unlisted ws w) w a (erase_first-IsWindowList ws.windows w v.listed),
    fixup_windows (unlisted ws w) w,
  )
