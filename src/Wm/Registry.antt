-- ===== src/Wm/Registry.antt =====
-- The invariant of the clients and the workspaces of the window manager of src/lwm/wm.cpp: each
-- window has one client, a client stands on a workspace that there is, and the workspaces list the
-- tiled ones where they stand. It implies assertions of src/lwm/core/invariants.hpp (Asserts).
pub mod Keeps
pub mod Fine
pub mod Changes
pub mod Lists
pub mod Unique
pub mod View
pub mod Sizes
pub mod Order
use lwm.Base.{
  ℕ, suc, zero, ◌+◌, ◌≤◌, ◌<◌, ◌≡◌, refl, sym, ap, ◌∙◌, Bool, true, false, not, ◌&&◌, ◌||◌, Option,
  none, some, ◌>>=◌, List, [], ◌∷◌, map, All, length, get_elem?, set, count, find_first, ltb, ◌==◌,
  if◌then◌else◌, arith,
}
use lwm.Types.{xcb_none, Client, Kind, Monitor, Workspace, WindowLayer}
use lwm.Wm.State.{WindowManager, is_managed_kind, is_floating}
use lwm.Wm.Place.{is_tiled, has_place}
use lwm.Wm.Reconcile.Keeps.{holds_floating}

-- What is registered of a client.
pub record Entry : Type 0 where
  pub id : ℕ
  pub kind : Kind
  pub monitor : ℕ
  pub workspace : ℕ
  pub iconic : Bool
  pub sticky : Bool
  pub holds : Bool

abbrev pub entry : Client → Entry
entry c = record {
  id = c.id;
  kind = c.kind;
  monitor = c.monitor;
  workspace = c.workspace;
  iconic = c.iconic;
  sticky = c.sticky;
  holds = holds_floating c.tiling_state;
}

abbrev pub without_owner : Monitor → Monitor
without_owner m = record m { fullscreen_owner = xcb_none }

-- The windows of a workspace; none out of range.
abbrev pub listed : List Monitor → ℕ → ℕ → List ℕ
listed monitors i j = elim (get_elem? monitors i) [
  | none ↦ []
  | some m ↦ elim (get_elem? m.workspaces j) [ none ↦ [] | some ws ↦ ws.windows ]
]

-- How many clients are the tiled window `w` of a workspace.
abbrev pub stands_at : ℕ → ℕ → ℕ → Entry → Bool
stands_at i j w e = is_tiled e.kind && e.id == w && e.monitor == i && e.workspace == j

abbrev pub tally : ℕ → ℕ → ℕ → List Entry → ℕ
tally i j w [] = 0
tally i j w (e ∷ es) = (if stands_at i j w e then 1 else 0) + tally i j w es

abbrev pub id_count : ℕ → List Entry → ℕ
id_count w [] = 0
id_count w (e ∷ es) = (if e.id == w then 1 else 0) + id_count w es

-- A tiled or floating client has a workspace, and a floating one holds a floating state.
abbrev pub IsInPlace : List Monitor → Entry → Type 0
IsInPlace monitors e =
    (is_managed_kind e.kind ≡ true → has_place monitors e.monitor e.workspace ≡ true)
    × ((is_floating e.kind) ≡ e.holds)

pub record IsRegistry (entries : List Entry) (monitors : List Monitor) : Type 0 where
  pub unique : (w : ℕ) → id_count w entries ≤ 1
  pub in_place : All (IsInPlace monitors) entries
  pub counted : (i j w : ℕ) → count w (listed monitors i j) ≡ tally i j w entries
  pub currents : All (λ (m : Monitor). m.current_workspace < length m.workspaces) monitors

abbrev pub IsRegistered : WindowManager → Type 0
IsRegistered wm = IsRegistry (map entry wm.clients) wm.monitors
