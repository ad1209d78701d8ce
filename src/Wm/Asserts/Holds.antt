-- ===== src/Wm/Asserts/Holds.antt =====
-- On the assertions of src/lwm/core/invariants.hpp: the states that the operations of src/lwm/wm.cpp
-- reach.
use lwm.Base.{
  ℕ, suc, zero, ◌+◌, ◌≤◌, ◌≡◌, refl, Bool, true, false, not, ◌&&◌, ◌||◌, Option, none, some, List,
  [], ◌∷◌, map, All, All-imp, count, count-append, contains, contains-eq-count, get_elem?, ltb,
  ◌==◌, Bool-cases, inl, inr, arith,
}
use lwm.Types.{Client, Geometry, Kind, Monitor, Workspace}
use lwm.Layout.Tree.{DoubleOps}
use lwm.Layout.Arrange.{LayoutSettings}
use lwm.Wm.Reach.{Reach, switch_back, Reach-InOrder}
use lwm.Wm.Registry.Order.{Frame, InOrder}
use lwm.Wm.State.{WindowManager, is_floating, is_managed_kind}
use lwm.Wm.Place.{is_tiled, has_place}
use lwm.Wm.Registry.{entry, listed, tally, IsInPlace, IsRegistered}
use lwm.Wm.Registry.Changes.{one, found, found_listed}
use lwm.Wm.Registry.Unique.{tally-found, each_found, listed_found}
use lwm.Wm.Asserts.{
  has_indices, windows_of, all_windows, is_tiled_client, windows_consistent, clients_listed,
  assert_workspace_consistency, assert_floating_consistency,
}

-- The windows of a workspace among several.
window_list : List Workspace → ℕ → List ℕ
window_list wss j = elim (get_elem? wss j) [ none ↦ [] | some ws ↦ ws.windows ]

-- Where a window is listed on no workspace but one, and there at most once, it is there once in all.
windows_of-count :
    (w : ℕ) (wss : List Workspace) (p : Bool) (b : ℕ)
    → ((j : ℕ) → count w (window_list wss j) ≤ one (p && b == j))
    → count w (windows_of wss) ≤ one p
unfolding window_list
windows_of-count w [] p b h = omega arith
windows_of-count w (ws ∷ wss) p zero h =
    let here = h 0 in
    let rest = windows_of-count w wss false 0 (λ j. ground (arith, h (suc j))) in
    ground (arith, here, rest, count-append w ws.windows (windows_of wss))
windows_of-count w (ws ∷ wss) p (suc b) h =
    let here = h 0 in
    let rest = windows_of-count w wss p b (λ j. ground (arith, h (suc j))) in
    ground (arith, here, rest, count-append w ws.windows (windows_of wss))

all_windows-count :
    (w : ℕ) (ms : List Monitor) (p : Bool) (a b : ℕ)
    → ((i j : ℕ) → count w (listed ms i j) ≤ one (p && a == i && b == j))
    → count w (all_windows ms) ≤ one p
unfolding window_list
all_windows-count w [] p a b h = omega arith
all_windows-count w (m ∷ ms) p zero b h =
    let here = windows_of-count w m.workspaces p b (λ j. ground (arith, h 0 j)) in
    let rest = all_windows-count w ms false 0 b (λ i j. ground (arith, h (suc i) j)) in
    ground (arith, here, rest, count-append w (windows_of m.workspaces) (all_windows ms))
all_windows-count w (m ∷ ms) p (suc a) b h =
    let here = windows_of-count w m.workspaces false b (λ j. ground (arith, h 0 j)) in
    let rest = all_windows-count w ms p a b (λ i j. ground (arith, h (suc i) j)) in
    ground (arith, here, rest, count-append w (windows_of m.workspaces) (all_windows ms))

-- What is listed once is not seen before.
windows_consistent_lem :
    (clients : List Client) (seen ws : List ℕ)
    → ((w : ℕ) → count w seen + count w ws ≤ 1)
    → ((w : ℕ) → 1 ≤ count w ws → is_tiled_client clients w ≡ true)
    → windows_consistent clients seen ws ≡ true
windows_consistent_lem clients seen [] once tiled = refl
windows_consistent_lem clients seen (w ∷ ws) once tiled =
    let self : (w == w) ≡ true = ground arith in
    let unseen : contains seen w ≡ false = ground (arith, contains-eq-count seen w, once w, self) in
    let is_one : is_tiled_client clients w ≡ true = tiled w (ground (arith, self)) in
    let rest =
      windows_consistent_lem clients (w ∷ seen) ws (λ v. ground (arith, once v))
        (λ v h. tiled v (ground (arith, h))) in
    ground (arith, unseen, is_one, rest)

-- A window that is counted has a tiled client.
tally-client :
    (i j w : ℕ) (cs : List Client)
    → 1 ≤ tally i j w (map entry cs)
    → (c : Client) × (found w cs ≡ some c)
tally-client i j w [] h = absurd (omega (arith, h))
tally-client i j w (c ∷ cs) h = elim (Bool-cases (c.id == w)) [
  | inl e ↦ (c, rw e refl)
  | inr e ↦ let (d, f) = tally-client i j w cs (ground (arith, h, e)) in (d, rw e f)
]

-- A workspace that lists a window of all.
where_listed :
    (w : ℕ) (wss : List Workspace)
    → 1 ≤ count w (windows_of wss)
    → (j : ℕ) × (1 ≤ count w (window_list wss j))
unfolding window_list
where_listed w [] h = absurd (omega (arith, h))
where_listed w (ws ∷ wss) h = elim (Bool-cases (ltb 0 (count w ws.windows))) [
  | inl e ↦ (0, ground (arith, e))
  | inr e ↦
      let (j, k) =
        where_listed w wss (ground (arith, e, h, count-append w ws.windows (windows_of wss))) in
      (suc j, k)
]

where_all_listed :
    (w : ℕ) (ms : List Monitor)
    → 1 ≤ count w (all_windows ms)
    → (i : ℕ) × (j : ℕ) × (1 ≤ count w (listed ms i j))
unfolding window_list
where_all_listed w [] h = absurd (omega (arith, h))
where_all_listed w (m ∷ ms) h = elim (Bool-cases (ltb 0 (count w (windows_of m.workspaces)))) [
  | inl e ↦ let (j, k) = where_listed w m.workspaces (ground (arith, e)) in (0, j, k)
  | inr e ↦
      let (i, j, k) =
        where_all_listed w ms
          (ground (arith, e, h, count-append w (windows_of m.workspaces) (all_windows ms))) in
      (suc i, j, k)
]

windows_of-le :
    (w j : ℕ) (wss : List Workspace) → count w (window_list wss j) ≤ count w (windows_of wss)
unfolding window_list
windows_of-le w j [] = omega arith
windows_of-le w zero (ws ∷ wss) = omega (arith, count-append w ws.windows (windows_of wss))
windows_of-le w (suc j) (ws ∷ wss) =
    omega (arith, windows_of-le w j wss, count-append w ws.windows (windows_of wss))

all_windows-le :
    (w i j : ℕ) (ms : List Monitor) → count w (listed ms i j) ≤ count w (all_windows ms)
unfolding window_list
all_windows-le w i j [] = omega arith
all_windows-le w zero j (m ∷ ms) = omega (
  arith,
  windows_of-le w j m.workspaces,
  count-append w (windows_of m.workspaces) (all_windows ms),
)
all_windows-le w (suc i) j (m ∷ ms) =
    omega
      (arith, all_windows-le w i j ms, count-append w (windows_of m.workspaces) (all_windows ms))

each_listed :
    (seen : List ℕ) (cs : List Client)
    → All (λ (c : Client). (not (is_tiled c.kind) || contains seen c.id) ≡ true) cs
    → clients_listed seen cs ≡ true
each_listed seen [] h = refl
each_listed seen (c ∷ cs) (h, hs) = ground (arith, h, each_listed seen cs hs)

each_in_place :
    (ms : List Monitor) (cs : List Client)
    → All (IsInPlace ms) (map entry cs)
    → assert_floating_consistency ms cs ≡ true
unfolding assert_floating_consistency has_place
each_in_place ms [] h = refl
each_in_place ms (c ∷ cs) (h, hs) =
    let rest = each_in_place ms cs hs in
    let here : (not (is_floating c.kind) || has_indices ms c) ≡ true =
      elim (Bool-cases (is_floating c.kind)) [
        | inl f ↦ rw (f, h.0 (managed c.kind f)) refl
        | inr f ↦ rw f refl
      ] in
    ground (arith, here, rest)
  where
    managed : (k : Kind) → is_floating k ≡ true → is_managed_kind k ≡ true
    managed k f = ground arith

module _ (wm : WindowManager) (r : IsRegistered wm) where
  -- The client of a listed window is tiled, and it is listed once.
  listed_client :
      (w : ℕ)
      → 1 ≤ count w (all_windows wm.monitors)
      → (is_tiled_client wm.clients w ≡ true) × (count w (all_windows wm.monitors) ≤ 1)
  listed_client w h =
      let (i, j, k) = where_all_listed w wm.monitors h in
      let (c, f) = tally-client i j w wm.clients (omega (arith, k, r.counted i j w)) in
      let inside : contains (listed wm.monitors i j) w ≡ true =
        ground (arith, contains-eq-count (listed wm.monitors i j) w, k) in
      let (tiled, place) = listed_found w i j wm.clients wm.monitors c f r inside in
      (
        rw (f, is_tiled_client) tiled,
        all_windows-count w wm.monitors true c.monitor c.workspace
            (λ i j. ground (arith, r.counted i j w, tally-found i j w wm.clients c f (r.unique w))),
      )

  workspace_consistency : assert_workspace_consistency wm.clients wm.monitors ≡ true
  unfolding assert_workspace_consistency
  workspace_consistency =
      let once : (w : ℕ) → 0 + count w (all_windows wm.monitors) ≤ 1 = λ w.
        elim (Bool-cases (ltb 0 (count w (all_windows wm.monitors)))) [
          | inl e ↦ omega (arith, (listed_client w (ground (arith, e))).1)
          | inr e ↦ ground (arith, e)
        ] in
      let windows =
        windows_consistent_lem wm.clients [] (all_windows wm.monitors) once
          (λ w h. (listed_client w h).0) in
      let clients = each_listed (all_windows wm.monitors) wm.clients (
        All-imp (λ (c : Client). found c.id wm.clients ≡ some c) _ wm.clients
          (λ c f. elim (Bool-cases (is_tiled c.kind)) [
            | inl t ↦
                let least = found_listed c.id wm.clients c wm.monitors f t r in
                let most = all_windows-le c.id c.monitor c.workspace wm.monitors in
                ground (arith, least, most, contains-eq-count (all_windows wm.monitors) c.id)
            | inr t ↦ rw t refl
          ])
          (each_found wm.clients r.unique)) in
      ground (arith, windows, clients)

-- A state that any operations, one after the other, reach from a state whose registry is as
-- asserted passes the debug assertions on workspaces and on floating clients: no window is listed
-- twice, each listed one has a tiled client, each tiled client is listed, and each floating client
-- has a monitor and a workspace.
pub Reach-assert_workspace_consistency :
    (ops : DoubleOps) (settings : LayoutSettings) (hints : ℕ → Option Bool)
    (geometries : ℕ → Geometry) (n : Frame) (wm wm' : WindowManager)
    → InOrder n wm
    → Reach ops settings hints geometries wm wm'
    → (assert_workspace_consistency wm'.clients wm'.monitors ≡ true)
      × (assert_floating_consistency wm'.monitors wm'.clients ≡ true)
Reach-assert_workspace_consistency ops settings hints geometries n wm wm' h reach =
    let r =
      (Reach-InOrder ops settings hints geometries n wm wm' switch_back h reach).0.registered in
    (workspace_consistency wm' r, each_in_place wm'.monitors wm'.clients r.in_place)
