-- ===== src/Wm/Asserts.antt =====
-- The debug assertions of src/lwm/core/invariants.hpp on clients, workspaces and floating clients,
-- each as a test that says whether it logs nothing.
pub mod Holds
use lwm.Base.{
  ℕ, Bool, true, false, not, ◌&&◌, ◌||◌, Option, none, some, List, [], ◌∷◌, ◌++◌, contains, length,
  find_first, get_elem?, ltb, ◌==◌,
}
use lwm.Types.{Client, Monitor, Workspace}
use lwm.Wm.State.{is_floating, is_managed_kind}
use lwm.Wm.Place.{is_tiled}

-- clients.find(w)
abbrev pub find_client : List Client → ℕ → Option Client
find_client clients w = find_first (λ (c : Client). c.id == w) clients

-- The indices of a client.
abbrev pub has_indices : List Monitor → Client → Bool
has_indices monitors c = elim (get_elem? monitors c.monitor) [
  | none ↦ false
  | some m ↦ ltb c.workspace (length m.workspaces)
]

unfoldable pub assert_client_managed : List Client → List Monitor → ℕ → Bool
assert_client_managed clients monitors window = elim (find_client clients window) [
  | none ↦ false
  | some c ↦ not (is_managed_kind c.kind) || has_indices monitors c
]

-- The windows in the order of the three loops.
abbrev pub windows_of : List Workspace → List ℕ
windows_of [] = []
windows_of (ws ∷ rest) = ws.windows ++ windows_of rest

abbrev pub all_windows : List Monitor → List ℕ
all_windows [] = []
all_windows (m ∷ rest) = windows_of m.workspaces ++ all_windows rest

abbrev pub is_tiled_client : List Client → ℕ → Bool
is_tiled_client clients w = elim (find_client clients w) [ none ↦ false | some c ↦ is_tiled c.kind ]

-- The loops over the windows, with those that are seen.
abbrev pub windows_consistent : List Client → List ℕ → List ℕ → Bool
windows_consistent clients seen [] = true
windows_consistent clients seen (w ∷ ws) =
    not (contains seen w) && is_tiled_client clients w && windows_consistent clients (w ∷ seen) ws

-- The loop over the clients.
abbrev pub clients_listed : List ℕ → List Client → Bool
clients_listed seen [] = true
clients_listed seen (c ∷ cs) =
    (not (is_tiled c.kind) || contains seen c.id) && clients_listed seen cs

unfoldable pub assert_workspace_consistency : List Client → List Monitor → Bool
assert_workspace_consistency clients monitors =
    windows_consistent clients [] (all_windows monitors)
    && clients_listed (all_windows monitors) clients

unfoldable pub assert_floating_consistency : List Monitor → List Client → Bool
assert_floating_consistency monitors [] = true
assert_floating_consistency monitors (c ∷ cs) =
    (not (is_floating c.kind) || has_indices monitors c) && assert_floating_consistency monitors cs
