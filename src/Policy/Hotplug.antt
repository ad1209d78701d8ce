-- ===== src/Policy/Hotplug.antt =====
-- namespace hotplug_policy of src/lwm/core/policy.hpp: where windows go when the set of monitors
-- changes. The unordered_map of saved workspace states is a function of the monitor's name.
pub mod Names
pub mod Bounds
mod Tests
use Prim.Native.String.{String}
use text.Mathlib.Text.{◌==◌ as str_eq}
use lwm.Base.{
  ℕ, zero, suc, ◌-◌, ◌≤◌, Bool, true, false, ◌&&◌, Option, none, some, List, [], ◌∷◌, ◌++◌, map,
  min, ltb, leb, ◌==◌, if◌then◌else◌, length, get_elem?,
}
use lwm.Types.{Monitor}

pub record SavedWindowLocation : Type 0 where
  pub id : ℕ
  pub monitor_name : String
  pub workspace : ℕ

pub record SavedWorkspaceState : Type 0 where
  pub current_workspace : ℕ
  pub previous_workspace : ℕ

pub record WindowRelocation : Type 0 where
  pub id : ℕ
  pub target_monitor : ℕ
  pub target_workspace : ℕ
  pub original_monitor_name : String

pub record HotplugPlan : Type 0 where
  pub tiled_relocations : List WindowRelocation
  pub floating_relocations : List WindowRelocation
  pub focused_monitor : ℕ
  pub workspace_current : List (ℕ × ℕ)
  pub workspace_previous : List (ℕ × ℕ)

-- name_to_index, filled in the order of the monitors: the last one of a name counts.
unfoldable pub name_to_index : List Monitor → ℕ → String → Option ℕ
name_to_index [] i name = none
name_to_index (m ∷ ms) i name = elim (name_to_index ms (suc i) name) [
  | some j ↦ some j
  | none ↦ if str_eq m.name name then some i else none
]

-- new_monitors[i].workspaces.size(), for an index within the bounds.
abbrev pub workspace_count : List Monitor → ℕ → ℕ
workspace_count ms i = elim (get_elem? ms i) [ none ↦ 0 | some m ↦ length m.workspaces ]

-- The index of a name, or 0.
unfoldable pub monitor_of : List Monitor → String → ℕ
monitor_of ms name = elim (name_to_index ms 0 name) [ none ↦ 0 | some i ↦ i ]

module _ (saved_ws_state : String → Option SavedWorkspaceState) where
  -- The loop that restores a workspace of each monitor from index `i` on.
  unfoldable pub restored : (SavedWorkspaceState → ℕ) → List Monitor → ℕ → List (ℕ × ℕ)
  restored field [] i = []
  restored field (m ∷ ms) i =
      let count = if length m.workspaces == 0 then 1 else length m.workspaces in
      elim (saved_ws_state m.name) [
        | none ↦ restored field ms (suc i)
        | some s ↦ (i, min (field s) (count - 1)) ∷ restored field ms (suc i)
      ]

  module _ (new_monitors : List Monitor) where
    -- The workspace of the saved state of a monitor, or 0, for a window that has lost its own.
    abbrev pub fallback_workspace : ℕ → ℕ
    fallback_workspace target = elim (get_elem? new_monitors target) [
      | none ↦ 0
      | some m ↦ elim (saved_ws_state m.name) [
        | none ↦ 0
        | some s ↦ min s.current_workspace (length m.workspaces - 1)
      ]
    ]

    unfoldable pub resolve_location : SavedWindowLocation → WindowRelocation
    resolve_location loc =
        let target_monitor = monitor_of new_monitors loc.monitor_name in
        let ws_count = workspace_count new_monitors target_monitor in
        record {
          id = loc.id;
          target_monitor = target_monitor;
          target_workspace =
              if ltb 0 ws_count && leb ws_count loc.workspace
              then fallback_workspace target_monitor
              else loc.workspace;
          original_monitor_name = loc.monitor_name;
        }

abbrev pub empty_plan : HotplugPlan
empty_plan = record {
  tiled_relocations = [];
  floating_relocations = [];
  focused_monitor = 0;
  workspace_current = [];
  workspace_previous = [];
}

unfoldable pub plan_hotplug :
    List Monitor
    → List SavedWindowLocation
    → List SavedWindowLocation
    → (String → Option SavedWorkspaceState)
    → String
    → HotplugPlan
plan_hotplug new_monitors tiled_locations floating_locations saved_ws_state focused_monitor_name =
    if length new_monitors == 0 then empty_plan else record {
      tiled_relocations = map (resolve_location saved_ws_state new_monitors) tiled_locations;
      floating_relocations = map (resolve_location saved_ws_state new_monitors) floating_locations;
      focused_monitor = monitor_of new_monitors focused_monitor_name;
      workspace_current = restored saved_ws_state (λ s. s.current_workspace) new_monitors 0;
      workspace_previous = restored saved_ws_state (λ s. s.previous_workspace) new_monitors 0;
    }
