-- ===== src/Wm/Activate/Near.antt =====
-- On focus_or_fallback of src/lwm/wm_focus.cpp: the window that it selects is on the monitor.
use mathlib.Core.Path.{subst}
use lwm.Base.{
  ℕ, suc, ◌≡◌, refl, sym, ap, ◌∙◌, inl, inr, Bool, true, Bool-cases, choose, some, List, [], ◌∷◌,
  get_elem?, contains, contains-append, ◌==◌, if◌then◌else◌, arith,
}
use lwm.Base.Sort.{keep}
use lwm.Types.{Client, Monitor, Workspace, current}
use lwm.Policy.Focus.{FocusSelection}
use lwm.Policy.Focus.Select.{select_focus_candidate_sound}
use lwm.Wm.State.{WindowManager, get_client, is_focus_candidate}
use lwm.Wm.Focus.{is_sticky, build_floating_candidates, sticky_tiled_candidates, focus_selection}
use lwm.Wm.Place.{workspace_at}
use lwm.Wm.Registry.{IsRegistered}
use lwm.Wm.Registry.Lists.{listed_workspace}
use lwm.Wm.Registry.Unique.{listed_found}
use lwm.Wm.Activate.Settled.{IsOfClient, floating_clients, All-Memᴰ, some_client, workspace_now}

keep-contains :
    (p : ℕ → Bool) (xs : List ℕ) (w : ℕ) → contains (keep p xs) w ≡ true → contains xs w ≡ true
keep-contains p [] w h = cc
keep-contains p (x ∷ xs) w h = elim (Bool-cases (p x)) [
  | inl e ↦
      let h' = subst (λ b. contains (if b then x ∷ keep p xs else keep p xs) w ≡ true) e h in
      elim (Bool-cases (x == w)) [
        | inl s ↦ ground (arith, s)
        | inr s ↦ ground (arith, s, keep-contains p xs w (ground (arith, h', s)))
      ]
  | inr e ↦
      let h' = subst (λ b. contains (if b then x ∷ keep p xs else keep p xs) w ≡ true) e h in
      ground (arith, keep-contains p xs w h')
]

-- A sticky candidate is listed on a workspace.
sticky_from :
    (wm : WindowManager) (cur i : ℕ) (wss : List Workspace) (w : ℕ)
    → contains (sticky_tiled_candidates wm cur i wss) w ≡ true
    → (j : ℕ) × (ws : Workspace) × (get_elem? wss j ≡ some ws) × (contains ws.windows w ≡ true)
unfolding sticky_tiled_candidates
sticky_from wm cur i [] w h = cc
sticky_from wm cur i (ws ∷ wss) w h =
    let split =
      contains-append (if i == cur then [] else keep (is_sticky wm) ws.windows)
        (sticky_tiled_candidates wm cur (suc i) wss) w in
    elim (Bool-cases (contains (sticky_tiled_candidates wm cur (suc i) wss) w)) [
      | inl later ↦ let (j, v, e, l) = sticky_from wm cur (suc i) wss w later in (suc j, v, e, l)
      | inr none_later ↦
          let first : contains (if i == cur then [] else keep (is_sticky wm) ws.windows) w ≡ true =
            ground (arith, h, split, none_later) in
          (
            0,
            ws,
            refl,
            choose (λ xs. contains xs w ≡ true → contains ws.windows w ≡ true) (i == cur) [] _
                (λ _ k. ground (arith, k)) (λ _ k. keep-contains (is_sticky wm) ws.windows w k)
                first,
          )
    ]

listed_monitor :
    (wm : WindowManager) (w : ℕ) (c : Client) (i j : ℕ) (ws : Workspace)
    → IsRegistered wm
    → get_client wm w ≡ some c
    → workspace_at wm.monitors i j ≡ some ws
    → contains ws.windows w ≡ true
    → c.monitor ≡ i
unfolding get_client
listed_monitor wm w c i j ws r found e l =
    let on =
      listed_found w i j wm.clients wm.monitors c found r
        (subst (λ xs. contains xs w ≡ true) (sym (listed_workspace wm.monitors i j ws e)) l) in
    on.1.0

pub focus_selection-monitor :
    (wm : WindowManager) (i : ℕ) (m : Monitor) (ws : Workspace) (s : FocusSelection) (c : Client)
    → IsRegistered wm
    → get_elem? wm.monitors i ≡ some m
    → current m ≡ some ws
    → focus_selection wm i m ws ≡ some s
    → get_client wm s.window ≡ some c
    → c.monitor ≡ i
unfolding focus_selection workspace_at
focus_selection-monitor wm i m ws s c r e cur h found =
    let sound =
      select_focus_candidate_sound (is_focus_candidate wm) ws i m.current_workspace
        (sticky_tiled_candidates wm m.current_workspace 0 m.workspaces)
        (build_floating_candidates wm) s h in
    elim sound.1 [
      | inl (tiled, on) ↦ elim (Bool-cases (contains ws.windows s.window)) [
        | inl l ↦
            listed_monitor wm s.window c i m.current_workspace ws r found
              (workspace_now wm.monitors i m ws e cur) l
        | inr l ↦
            let (j, v, at, k) =
              sticky_from wm m.current_workspace 0 m.workspaces s.window (ground (arith, on, l)) in
            listed_monitor wm s.window c i j v r found (rw (e, workspace_at) at) k
      ]
      | inr (floats, (f, mem, q, is), _) ↦
          let k =
            All-Memᴰ (IsOfClient wm) (build_floating_candidates wm) f (floating_clients wm r) mem in
          let same : k.client ≡ c =
            some_client k.client c
              (sym k.registered ∙ subst (λ u. get_client wm u ≡ some c) is found) in
          let at : (f.monitor == i) ≡ true = ground (arith, q) in
          let here : f.monitor ≡ i = ground (arith, at) in
          sym (ap (λ (d : Client). d.monitor) same) ∙ (sym k.monitor ∙ here)
    ]
