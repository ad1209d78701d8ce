-- ===== src/Wm/Convert/Lists.antt =====
-- On convert_window_to_tiled of src/lwm/wm.cpp: what the workspaces list.
use mathlib.Core.Path.{subst}
use lwm.Base.{
  ℕ, suc, ◌+◌, ◌≡◌, refl, sym, ap, ◌∙◌, true, false, ◌&&◌, choose, some, List, [], ◌∷◌, ◌++◌,
  length, contains, ltb, ◌==◌, Bool-cases, inl, inr, arith,
}
use lwm.Types.{Monitor, Workspace}
use lwm.Wm.State.{WindowManager}
use lwm.Wm.Place.{has_place, workspace_at, set_workspace}
use lwm.Wm.Place.Counts.{has_place-workspace}
use lwm.Wm.Registry.{listed}
use lwm.Wm.Registry.Lists.{
  listed_workspace, has_place-set_workspace, listed-set_self, listed-set_ne,
}
use lwm.Wm.Convert.{index_of, rotate_last, restore_position}
use lwm.Wm.Convert.Back.{moved}

pub index_of-contains :
    (xs : List ℕ) (w : ℕ) → contains xs w ≡ true → (i : ℕ) × (index_of xs w ≡ some i)
index_of-contains [] w h = cc
index_of-contains (x ∷ xs) w h = elim (Bool-cases (x == w)) [
  | inl e ↦ (0, rw e refl)
  | inr e ↦ let (i, at) = index_of-contains xs w (ground (arith, e, h)) in (suc i, rw (e, at) refl)
]

-- A list of the windows of each workspace, and of one in particular.
abbrev pub Lists : List Monitor → ℕ → ℕ → List Monitor → List ℕ → Type 0
Lists ms a b ns windows =
    (listed ns a b ≡ windows)
    × ((i j : ℕ) → (a == i && b == j) ≡ false → listed ns i j ≡ listed ms i j)

pub Lists-set :
    (ms ns : List Monitor) (a b : ℕ) (old new : Workspace) (windows : List ℕ)
    → workspace_at ns a b ≡ some old
    → Lists ms a b ns windows
    → Lists ms a b (set_workspace ns a b new) new.windows
Lists-set ms ns a b old new windows e (here, others) =
    (listed-set_self ns a b old new e, λ i j h. listed-set_ne ns a b old new e i j h ∙ others i j h)

-- The windows where the last one has been moved to its saved place.
pub restored-Lists :
    (ms : List Monitor) (wm : WindowManager) (a b k : ℕ) (ws : Workspace)
    → workspace_at wm.monitors a b ≡ some ws
    → Lists ms a b wm.monitors ws.windows
    → Lists ms a b
        (restore_position wm (some (record { index = k; monitor = a; workspace = b })) a b).monitors
        (moved ws.windows k)
unfolding restore_position
restored-Lists ms wm a b k ws e h =
    rw (e, restore_position)
      (choose (λ (x : WindowManager). Lists ms a b x.monitors (moved ws.windows k))
        ((a == a && b == b) && ltb (k + 1) (length ws.windows)) _ wm
        (λ yes.
          let short : ltb (k + 1) (length ws.windows) ≡ true = ground (arith, yes) in
          rw short (
            Lists-set ms wm.monitors a b ws (record ws { windows = rotate_last ws.windows k })
              ws.windows e h))
        (λ no.
          let long : ltb (k + 1) (length ws.windows) ≡ false = ground (arith, no) in rw long h))

-- The windows of a workspace, as a workspace at the indices.
pub has_workspace :
    (ms ns : List Monitor) (a b : ℕ) (windows : List ℕ)
    → has_place ns a b ≡ true
    → Lists ms a b ns windows
    → (ws : Workspace) × (workspace_at ns a b ≡ some ws) × (ws.windows ≡ windows)
has_workspace ms ns a b windows p (here, others) =
    let (ws, e) = has_place-workspace ns a b p in (ws, e, sym (listed_workspace ns a b ws e) ∙ here)

-- A window added at the end of a workspace and moved to its saved place.
pub tiled-Lists :
    (ms ns : List Monitor) (w a b k : ℕ) (windows : List ℕ) (ws : Workspace) (wm : WindowManager)
    → workspace_at ns a b ≡ some ws
    → ws.windows ≡ windows
    → has_place ns a b ≡ true
    → Lists ms a b ns windows
    → wm.monitors ≡ set_workspace ns a b (record ws { windows = ws.windows ++ w ∷ [] })
    → Lists ms a b
        (restore_position wm (some (record { index = k; monitor = a; workspace = b })) a b).monitors
        (moved (windows ++ w ∷ []) k)
tiled-Lists ms ns w a b k windows ws wm e is p h written =
    let new : Workspace = record ws { windows = ws.windows ++ w ∷ [] } in
    let there : has_place wm.monitors a b ≡ true =
      ap (λ xs. has_place xs a b) written ∙ (has_place-set_workspace ns a b ws new e a b ∙ p) in
    let listed_mid =
      subst (λ xs. Lists ms a b xs new.windows) (sym written)
        (Lists-set ms ns a b ws new windows e h) in
    let (ws2, e2, is2) = has_workspace ms wm.monitors a b new.windows there listed_mid in
    let end = restore_position wm (some (record { index = k; monitor = a; workspace = b })) a b in
    subst (λ l. Lists ms a b end.monitors (moved l k)) (is2 ∙ ap (λ l. l ++ w ∷ []) is)
      (restored-Lists ms wm a b k ws2 e2
        (subst (λ l. Lists ms a b wm.monitors l) (sym is2) listed_mid))

-- Where a workspace lists what it did, and all others do, all do.
pub all_listed :
    (ms ns : List Monitor) (a b : ℕ) (ws : Workspace)
    → workspace_at ms a b ≡ some ws
    → Lists ms a b ns ws.windows
    → (i j : ℕ) → listed ns i j ≡ listed ms i j
all_listed ms ns a b ws at (self, others) i j = elim (Bool-cases (a == i && b == j)) [
  | inl s ↦
      let same_i : a ≡ i = ground (arith, s) in
      let same_j : b ≡ j = ground (arith, s) in
      let here : listed ns a b ≡ listed ms a b = self ∙ sym (listed_workspace ms a b ws at) in
      subst (λ x. listed ns x j ≡ listed ms x j) same_i
        (subst (λ y. listed ns a y ≡ listed ms a y) same_j here)
  | inr s ↦ others i j s
]
