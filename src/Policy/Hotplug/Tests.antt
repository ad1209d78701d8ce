-- ===== src/Policy/Hotplug/Tests.antt =====
-- Two monitors of which the second was there before, on which the theorems are applied.
use Prim.Native.String.{String}
use text.Mathlib.TextEquality.{eq_iff}
use lwm.Base.{
  sym, ◌∙◌, ℕ, suc, zero, ◌<◌, ◌≡◌, ◌≢◌, refl, some, Option, List, [], ◌∷◌, All, map, length, arith,
}
use lwm.Base.Int.{pos}
use lwm.Types.{Workspace, Monitor, LayoutStrategy}
use lwm.Policy.Hotplug.{
  SavedWindowLocation, SavedWorkspaceState, plan_hotplug, resolve_location, monitor_of,
  name_to_index, restored,
}
use lwm.Policy.Hotplug.Names.{HasDistinctNames}
use lwm.Policy.Hotplug.Bounds.{IsPlace, plan_hotplug-IsPlace}

abbrev blank : Workspace
blank = record {
  windows = [];
  focused_window = 0;
  focus_history = [];
  layout_strategy = LayoutStrategy.master_stack;
  split_ratios = [];
}

abbrev monitor : String → List Workspace → Monitor
monitor n ws = record {
  output = 1;
  name = n;
  x = pos 0;
  y = pos 0;
  width = 1920;
  height = 1080;
  workspaces = ws;
  current_workspace = 0;
  previous_workspace = 0;
  strut = record { left = 0; right = 0; top = 0; bottom = 0 };
  fullscreen_owner = 0;
}

abbrev new : Monitor
new = monitor "HDMI-1" (blank ∷ [])

abbrev old : Monitor
old = monitor "DP-1" (blank ∷ blank ∷ [])

abbrev monitors : List Monitor
monitors = new ∷ old ∷ []

abbrev saved : String → Option SavedWorkspaceState
saved n = some (record { current_workspace = 4; previous_workspace = 1 })

abbrev location : ℕ → String → ℕ → SavedWindowLocation
location w n k = record { id = w; monitor_name = n; workspace = k }

abbrev tiled : List SavedWindowLocation
tiled = location 3 "DP-1" 1 ∷ location 4 "VGA-1" 2 ∷ []

planned :
    map (λ r. r.target_monitor) (plan_hotplug monitors tiled [] saved "DP-1").tiled_relocations
    ≡ 1 ∷ 0 ∷ []
unfolding plan_hotplug resolve_location monitor_of name_to_index restored
planned = refl

plan_hotplug-IsPlace_example :
    All
      (λ r. IsPlace monitors r.target_monitor r.target_workspace)
      (plan_hotplug monitors tiled [] saved "DP-1").tiled_relocations
    × All
        (λ r. IsPlace monitors r.target_monitor r.target_workspace)
        (plan_hotplug monitors tiled [] saved "DP-1").floating_relocations
    × ((plan_hotplug monitors tiled [] saved "DP-1").focused_monitor < length monitors)
    × All
        (λ p. IsPlace monitors p.0 p.1)
        (plan_hotplug monitors tiled [] saved "DP-1").workspace_current
    × All
        (λ p. IsPlace monitors p.0 p.1)
        (plan_hotplug monitors tiled [] saved "DP-1").workspace_previous
plan_hotplug-IsPlace_example =
    plan_hotplug-IsPlace saved monitors tiled [] "DP-1" (λ e. cc) (omega arith)

name_of : {a b : Monitor} → some a ≡ some b → a.name ≡ b.name
name_of h = cc

other : new.name ≢ old.name
other e = ground (arith, eq_iff new.name old.name, e)

distinct : HasDistinctNames monitors
distinct zero zero m n h k e = refl
distinct zero (suc zero) m n h k e = absurd (other (name_of h ∙ (e ∙ sym (name_of k))))
distinct zero (suc (suc j)) m n h k e = cc
distinct (suc zero) zero m n h k e = absurd (other (name_of k ∙ (sym e ∙ sym (name_of h))))
distinct (suc zero) (suc zero) m n h k e = refl
distinct (suc zero) (suc (suc j)) m n h k e = cc
distinct (suc (suc i)) j m n h k e = cc
