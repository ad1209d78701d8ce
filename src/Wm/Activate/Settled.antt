-- ===== src/Wm/Activate/Settled.antt =====
-- On focus_or_fallback of src/lwm/wm_focus.cpp: the window that it selects is on the workspace that
-- the monitor shows, or sticky.
use mathlib.Core.List.{Memᴰ}
use mathlib.Core.Path.{subst}
use lwm.Base.{
  ℕ, suc, ◌≡◌, refl, sym, ◌∙◌, ◌⊎◌, inl, inr, Bool, true, false, ◌||◌, Bool-cases, choose, Option,
  none, some, List, [], ◌∷◌, map, All, get_elem?, contains, contains-append, ◌==◌, if◌then◌else◌,
  arith,
}
use lwm.Base.Sort.{keep, stable_sort, All-keep, All-stable_sort}
use lwm.Types.{Client, Monitor, Workspace, current}
use lwm.Policy.Focus.{FloatingCandidate, FocusSelection}
use lwm.Policy.Focus.Select.{select_focus_candidate_sound, is_focusable_floating}
use lwm.Wm.State.{WindowManager, get_client, is_floating, is_focus_candidate}
use lwm.Wm.Focus.{
  used_before, candidate_of, is_sticky, build_floating_candidates, sticky_tiled_candidates,
  focus_selection,
}
use lwm.Wm.Focus.Safe.{focus_selection-CanHaveFocus}
use lwm.Wm.Place.{workspace_at}
use lwm.Wm.Registry.{IsRegistered}
use lwm.Wm.Registry.Lists.{listed_workspace}
use lwm.Wm.Registry.Unique.{each_found, listed_found}

-- The client is sticky, or its monitor shows its workspace.
abbrev pub IsHere : List Monitor → Client → Type 0
IsHere ms c =
    (c.sticky ≡ true)
    ⊎ ((m : Monitor) × (get_elem? ms c.monitor ≡ some m) × (m.current_workspace ≡ c.workspace))

-- A window whose client is not iconic and is here.
pub record IsSettled (wm : WindowManager) (w : ℕ) : Type 0 where
  pub client : Client
  pub registered : get_client wm w ≡ some client
  pub not_iconic : client.iconic ≡ false
  pub is_here : IsHere wm.monitors client

contains-keep : (p : ℕ → Bool) (xs : List ℕ) (w : ℕ) → contains (keep p xs) w ≡ true → p w ≡ true
contains-keep p [] w h = cc
contains-keep p (x ∷ xs) w h = elim (Bool-cases (p x)) [
  | inl e ↦
      let h' = subst (λ b. contains (if b then x ∷ keep p xs else keep p xs) w ≡ true) e h in
      elim (Bool-cases (x == w)) [
        | inl s ↦ subst (λ v. p v ≡ true) (ground (arith, s)) e
        | inr s ↦ contains-keep p xs w (ground (arith, h', s))
      ]
  | inr e ↦
      contains-keep p xs w
        (subst (λ b. contains (if b then x ∷ keep p xs else keep p xs) w ≡ true) e h)
]

sticky_listed :
    (wm : WindowManager) (cur i : ℕ) (wss : List Workspace) (w : ℕ)
    → contains (sticky_tiled_candidates wm cur i wss) w ≡ true
    → is_sticky wm w ≡ true
unfolding sticky_tiled_candidates
sticky_listed wm cur i [] w h = cc
sticky_listed wm cur i (ws ∷ wss) w h =
    let split =
      contains-append (if i == cur then [] else keep (is_sticky wm) ws.windows)
        (sticky_tiled_candidates wm cur (suc i) wss) w in
    elim (Bool-cases (contains (sticky_tiled_candidates wm cur (suc i) wss) w)) [
      | inl later ↦ sticky_listed wm cur (suc i) wss w later
      | inr none_later ↦
          let first : contains (if i == cur then [] else keep (is_sticky wm) ws.windows) w ≡ true =
            ground (arith, h, split, none_later) in
          choose (λ xs. contains xs w ≡ true → is_sticky wm w ≡ true) (i == cur) [] _
            (λ _ k. ground (arith, k)) (λ _ k. contains-keep (is_sticky wm) ws.windows w k) first
    ]

-- A candidate that stands for a client.
pub record IsOfClient (wm : WindowManager) (f : FloatingCandidate) : Type 0 where
  pub client : Client
  pub registered : get_client wm f.id ≡ some client
  pub monitor : f.monitor ≡ client.monitor
  pub workspace : f.workspace ≡ client.workspace
  pub sticky : f.sticky ≡ client.sticky

pub floating_clients :
    (wm : WindowManager) → IsRegistered wm → All (IsOfClient wm) (build_floating_candidates wm)
unfolding build_floating_candidates get_client
floating_clients wm r =
    All-mapped wm (stable_sort used_before (keep (λ (c : Client). is_floating c.kind) wm.clients)) (
      All-stable_sort used_before (λ (c : Client). get_client wm c.id ≡ some c) _
        (All-keep (λ (c : Client). is_floating c.kind) (λ (c : Client). get_client wm c.id ≡ some c)
          wm.clients (each_found wm.clients r.unique)))
  where
    All-mapped :
        (wm : WindowManager) (cs : List Client)
        → All (λ (c : Client). get_client wm c.id ≡ some c) cs
        → All (IsOfClient wm) (map candidate_of cs)
    All-mapped wm [] h = tt
    All-mapped wm (c ∷ cs) h = (
      record { client = c; registered = h.0; monitor = refl; workspace = refl; sticky = refl },
      All-mapped wm cs h.1,
    )

pub All-Memᴰ {ℓ κ} :
    {A : Type ℓ} (P : A → Type κ) (xs : List A) (a : A) → All P xs → Memᴰ a xs → P a
All-Memᴰ P [] a h m = elim m [ ]
All-Memᴰ P (x ∷ xs) a h (Memᴰ.head e) = subst P (sym e) h.0
All-Memᴰ P (x ∷ xs) a h (Memᴰ.tail m) = All-Memᴰ P xs a h.1 m

pub some_client : (c d : Client) → some c ≡ some d → c ≡ d
some_client c d h = cc

sticky_here :
    (wm : WindowManager) (w : ℕ) (c : Client)
    → get_client wm w ≡ some c
    → is_sticky wm w ≡ true
    → c.sticky ≡ true
sticky_here wm w c e h =
    subst (λ (o : Option Client). elim o [ none ↦ false | some d ↦ d.sticky ] ≡ true) e h

pub workspace_now :
    (ms : List Monitor) (i : ℕ) (m : Monitor) (ws : Workspace)
    → get_elem? ms i ≡ some m
    → current m ≡ some ws
    → workspace_at ms i m.current_workspace ≡ some ws
unfolding workspace_at
workspace_now ms i m ws e cur = rw (e, workspace_at) cur

tiled-IsHere :
    (wm : WindowManager) (w : ℕ) (c : Client) (i : ℕ) (m : Monitor) (ws : Workspace)
    → IsRegistered wm
    → get_client wm w ≡ some c
    → get_elem? wm.monitors i ≡ some m
    → current m ≡ some ws
    → (contains ws.windows w
        || contains (sticky_tiled_candidates wm m.current_workspace 0 m.workspaces) w)
      ≡ true
    → IsHere wm.monitors c
unfolding get_client
tiled-IsHere wm w c i m ws r found e cur on = elim (Bool-cases (contains ws.windows w)) [
  | inl l ↦
      let le =
        listed_workspace wm.monitors i m.current_workspace ws
          (workspace_now wm.monitors i m ws e cur) in
      let (_, (at, on_it)) =
        listed_found w i m.current_workspace wm.clients wm.monitors c found r
          (subst (λ xs. contains xs w ≡ true) (sym le) l) in
      inr (m, subst (λ k. get_elem? wm.monitors k ≡ some m) (sym at) e, sym on_it)
  | inr l ↦ inl (
      sticky_here wm w c found
        (sticky_listed wm m.current_workspace 0 m.workspaces w (ground (arith, on, l))))
]

floating-IsHere :
    (wm : WindowManager) (w : ℕ) (c : Client) (i : ℕ) (m : Monitor) (f : FloatingCandidate)
    → IsOfClient wm f
    → get_client wm w ≡ some c
    → get_elem? wm.monitors i ≡ some m
    → w ≡ f.id
    → is_focusable_floating (is_focus_candidate wm) i m.current_workspace f ≡ true
    → IsHere wm.monitors c
floating-IsHere wm w c i m f k found e is q =
    let same : k.client ≡ c =
      some_client k.client c (sym k.registered ∙ subst (λ u. get_client wm u ≡ some c) is found) in
    let at : (f.monitor == i) ≡ true = ground (arith, q) in
    let on : (f.sticky || f.workspace == m.current_workspace) ≡ true = ground (arith, q) in
    subst (IsHere wm.monitors) same (elim (Bool-cases f.sticky) [
      | inl s ↦ inl (sym k.sticky ∙ s)
      | inr s ↦
          let on_it : f.workspace ≡ m.current_workspace = ground (arith, on, s) in
          let here : f.monitor ≡ i = ground (arith, at) in
          inr (
            m,
            subst (λ j. get_elem? wm.monitors j ≡ some m) (sym here ∙ k.monitor) e,
            sym on_it ∙ k.workspace,
          )
    ])

-- The window that a monitor falls back to.
pub focus_selection-IsSettled :
    (wm : WindowManager) (i : ℕ) (m : Monitor) (ws : Workspace) (s : FocusSelection)
    → IsRegistered wm
    → get_elem? wm.monitors i ≡ some m
    → current m ≡ some ws
    → focus_selection wm i m ws ≡ some s
    → IsSettled wm s.window
unfolding focus_selection get_client
focus_selection-IsSettled wm i m ws s r e cur h =
    let can = focus_selection-CanHaveFocus wm i m ws s h in
    let sound =
      select_focus_candidate_sound (is_focus_candidate wm) ws i m.current_workspace
        (sticky_tiled_candidates wm m.current_workspace 0 m.workspaces)
        (build_floating_candidates wm) s h in
    record {
      client = can.client;
      registered = can.registered;
      not_iconic = can.not_iconic;
      is_here = elim sound.1 [
        | inl (tiled, on) ↦ tiled-IsHere wm s.window can.client i m ws r can.registered e cur on
        | inr (floats, (f, mem, q, is), _) ↦
            floating-IsHere wm s.window can.client i m f
              (All-Memᴰ (IsOfClient wm) (build_floating_candidates wm) f (floating_clients wm r)
                mem)
              can.registered e is q
      ];
    }
