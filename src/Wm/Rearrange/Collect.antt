-- ===== src/Wm/Rearrange/Collect.antt =====
-- On rearrange_monitor of src/lwm/wm.cpp: the windows that are collected for the arrangement.
use lwm.Base.{
  ℕ, ◌+◌, ◌≤◌, ◌≡◌, Bool, true, false, not, ◌||◌, inl, inr, Bool-cases, choose, Option-cases,
  Option, none, some, List, [], ◌∷◌, All, All-append, contains, count, count-append,
  not-contains-count, ◌==◌, if◌then◌else◌, arith,
}
use lwm.Types.{Client, Monitor, Workspace}
use lwm.Wm.State.{WindowManager, get_client}
use lwm.Wm.Rearrange.{
  Shown, add_shown, is_seen, collect_window, collect_current, collect_sticky_window, collect_sticky,
  collect_workspaces, collect_shown,
}

-- A client that is on the screen, fullscreen or not.
abbrev pub IsOnScreen : WindowManager → Bool → ℕ → Type 0
IsOnScreen wm full w =
    (c : Client) × (get_client wm w ≡ some c) × (c.hidden ≡ false) × (c.fullscreen ≡ full)

abbrev pub shown_count : ℕ → Shown → ℕ
shown_count a s = count a s.visible_windows + count a s.visible_fullscreen_windows

pub record IsCollected (wm : WindowManager) (s : Shown) : Type 0 where
  pub tiles : All (IsOnScreen wm false) s.visible_windows
  pub fulls : All (IsOnScreen wm true) s.visible_fullscreen_windows

add_shown-IsCollected :
    (wm : WindowManager) (s : Shown) (w : ℕ) (c : Client)
    → get_client wm w ≡ some c
    → c.hidden ≡ false
    → IsCollected wm s
    → IsCollected wm (add_shown s w c)
add_shown-IsCollected wm s w c e there h =
    choose (IsCollected wm) c.fullscreen _ _
      (λ full. record {
        tiles = h.tiles;
        fulls =
            All-append _ s.visible_fullscreen_windows (w ∷ []) h.fulls ((c, e, there, full), tt);
      })
      (λ small. record {
        tiles = All-append _ s.visible_windows (w ∷ []) h.tiles ((c, e, there, small), tt);
        fulls = h.fulls;
      })

add_shown-count :
    (s : Shown) (w : ℕ) (c : Client) (a : ℕ)
    → shown_count a (add_shown s w c) ≡ shown_count a s + (if w == a then 1 else 0)
add_shown-count s w c a =
    choose (λ (t : Shown). shown_count a t ≡ shown_count a s + (if w == a then 1 else 0))
      c.fullscreen _ _ (λ _. omega (arith, count-append a s.visible_fullscreen_windows (w ∷ [])))
      (λ _. omega (arith, count-append a s.visible_windows (w ∷ [])))

collect_window-IsCollected :
    (wm : WindowManager) (s : Shown) (w : ℕ)
    → IsCollected wm s
    → IsCollected wm (collect_window s w (get_client wm w))
collect_window-IsCollected wm s w h = elim (Option-cases (get_client wm w)) [
  | inl e ↦ rw e h
  | inr (c, e) ↦ rw e (
      choose (IsCollected wm) c.hidden s _ (λ _. h)
        (λ there. add_shown-IsCollected wm s w c e there h))
]

collect_window-count :
    (s : Shown) (w : ℕ) (o : Option Client) (a : ℕ)
    → shown_count a (collect_window s w o) ≤ shown_count a s + (if w == a then 1 else 0)
collect_window-count s w none a = omega arith
collect_window-count s w (some c) a =
    choose (λ (t : Shown). shown_count a t ≤ shown_count a s + (if w == a then 1 else 0)) c.hidden s
      _ (λ _. omega arith) (λ _. omega (arith, add_shown-count s w c a))

collect_current-IsCollected :
    (wm : WindowManager) (ws : List ℕ) (s : Shown)
    → IsCollected wm s
    → IsCollected wm (collect_current wm ws s)
unfolding collect_current
collect_current-IsCollected wm [] s h = h
collect_current-IsCollected wm (w ∷ ws) s h =
    collect_current-IsCollected wm ws _ (collect_window-IsCollected wm s w h)

collect_current-count :
    (wm : WindowManager) (ws : List ℕ) (s : Shown) (a : ℕ)
    → shown_count a (collect_current wm ws s) ≤ shown_count a s + count a ws
unfolding collect_current
collect_current-count wm [] s a = omega arith
collect_current-count wm (w ∷ ws) s a = omega (
  arith,
  collect_current-count wm ws (collect_window s w (get_client wm w)) a,
  collect_window-count s w (get_client wm w) a,
)

-- No window is collected twice.
abbrev pub IsDistinct : Shown → Type 0
IsDistinct s = (a : ℕ) → shown_count a s ≤ 1

unseen-count : (s : Shown) (w : ℕ) → is_seen s w ≡ false → shown_count w s ≡ 0
unseen-count s w h =
    let a : contains s.visible_windows w ≡ false = ground (arith, h) in
    let b : contains s.visible_fullscreen_windows w ≡ false = ground (arith, h) in
    omega (
      arith,
      not-contains-count s.visible_windows w a,
      not-contains-count s.visible_fullscreen_windows w b,
    )

sticky_step : WindowManager → Shown → ℕ → Shown
sticky_step wm s w = if is_seen s w then s else collect_sticky_window s w (get_client wm w)

add_unseen-IsDistinct :
    (s : Shown) (w : ℕ) (c : Client)
    → is_seen s w ≡ false
    → IsDistinct s
    → IsDistinct (add_shown s w c)
add_unseen-IsDistinct s w c new h a = elim (Bool-cases (w == a)) [
  | inl e ↦
      let same : w ≡ a = ground (arith, e) in
      let zero_times : shown_count a s ≡ 0 = rw⁻¹ same (unseen-count s w new) in
      ground (arith, add_shown-count s w c a, zero_times, e)
  | inr e ↦ ground (arith, add_shown-count s w c a, h a, e)
]

sticky_step-keeps :
    (wm : WindowManager) (s : Shown) (w : ℕ)
    → IsCollected wm s
    → IsDistinct s
    → IsCollected wm (sticky_step wm s w) × IsDistinct (sticky_step wm s w)
unfolding sticky_step
sticky_step-keeps wm s w h d =
    choose (λ (t : Shown). IsCollected wm t × IsDistinct t) (is_seen s w) s _ (λ _. (h, d))
      (λ new. elim (Option-cases (get_client wm w)) [
        | inl e ↦ rw e (h, d)
        | inr (c, e) ↦ rw e (
            choose (λ (t : Shown). IsCollected wm t × IsDistinct t) (not c.sticky || c.hidden) s _
              (λ _. (h, d))
              (λ pass. (
                add_shown-IsCollected wm s w c e (ground (arith, pass)) h,
                add_unseen-IsDistinct s w c new d,
              )))
      ])

collect_sticky-keeps :
    (wm : WindowManager) (ws : List ℕ) (s : Shown)
    → IsCollected wm s
    → IsDistinct s
    → IsCollected wm (collect_sticky wm ws s) × IsDistinct (collect_sticky wm ws s)
unfolding collect_sticky sticky_step
collect_sticky-keeps wm [] s h d = (h, d)
collect_sticky-keeps wm (w ∷ ws) s h d =
    let (h', d') = sticky_step-keeps wm s w h d in
    collect_sticky-keeps wm ws (sticky_step wm s w) h' d'

collect_workspaces-keeps :
    (wm : WindowManager) (wss : List Workspace) (s : Shown)
    → IsCollected wm s
    → IsDistinct s
    → IsCollected wm (collect_workspaces wm wss s) × IsDistinct (collect_workspaces wm wss s)
unfolding collect_workspaces
collect_workspaces-keeps wm [] s h d = (h, d)
collect_workspaces-keeps wm (ws ∷ wss) s h d =
    let (h', d') = collect_sticky-keeps wm ws.windows s h d in
    collect_workspaces-keeps wm wss (collect_sticky wm ws.windows s) h' d'

-- The windows that are tiled are clients on the screen that are not fullscreen, the ones that get
-- the fullscreen geometry are fullscreen clients on the screen, and no window is collected twice,
-- where the current workspace lists no window twice.
pub collect_shown-IsCollected :
    (wm : WindowManager) (m : Monitor) (ws : Workspace)
    → ((a : ℕ) → count a ws.windows ≤ 1)
    → IsCollected wm (collect_shown wm m ws) × IsDistinct (collect_shown wm m ws)
unfolding collect_shown
collect_shown-IsCollected wm m ws once =
    let start : Shown = record { visible_windows = []; visible_fullscreen_windows = [] } in
    collect_workspaces-keeps wm m.workspaces (collect_current wm ws.windows start)
      (collect_current-IsCollected wm ws.windows start (record { tiles = tt; fulls = tt }))
      (λ a. omega (arith, collect_current-count wm ws.windows start a, once a))
