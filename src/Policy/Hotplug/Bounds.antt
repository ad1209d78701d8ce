-- ===== src/Policy/Hotplug/Bounds.antt =====
-- On plan_hotplug of hotplug_policy: bounds of the indices, and the windows of a plan.
use Prim.Native.String.{String}
use lwm.Base.{
  ℕ, suc, ◌+◌, ◌-◌, ◌≤◌, ◌<◌, ◌≡◌, refl, ◌∙◌, ap, ◌≢◌, inl, inr, ◌&&◌, Option, some, List, [], ◌∷◌,
  map, map-map, All, All-get_elem?, All-imp, All-map, ltb, leb, if◌then◌else◌, length, get_elem?,
  get_elem?_total, Option-cases, arith,
}
use lwm.Types.{Monitor}
use lwm.Policy.Hotplug.{
  SavedWindowLocation, SavedWorkspaceState, monitor_of, workspace_count, fallback_workspace,
  restored, resolve_location, plan_hotplug,
}
use lwm.Policy.Hotplug.Names.{length-ne-zero, monitor_of-lt}

-- Every monitor has a workspace.
abbrev pub HasWorkspaces : List Monitor → Type 0
HasWorkspaces = All (λ m. 0 < length m.workspaces)

-- A place on the monitors.
abbrev pub IsPlace : List Monitor → ℕ → ℕ → Type 0
IsPlace ms i w = (m : Monitor) × (get_elem? ms i ≡ some m) × (w < length m.workspaces)

module _ (saved : String → Option SavedWorkspaceState) (ms : List Monitor) where
  -- The workspace that `resolve_location` chooses on the monitor at an index.
  abbrev chosen : ℕ → ℕ → ℕ
  chosen target w =
      if ltb 0 (workspace_count ms target) && leb (workspace_count ms target) w
      then fallback_workspace saved ms target
      else w

  chosen-lt :
      (target w : ℕ) (m : Monitor)
      → get_elem? ms target ≡ some m
      → 0 < length m.workspaces
      → chosen target w < length m.workspaces
  chosen-lt target w m e h = ground (arith, e)

  resolve-IsPlace :
      (loc : SavedWindowLocation)
      → ms ≢ []
      → HasWorkspaces ms
      → IsPlace ms
          (resolve_location saved ms loc).target_monitor
          (resolve_location saved ms loc).target_workspace
  unfolding resolve_location
  resolve-IsPlace loc ne h =
      let (m, e) =
        get_elem?_total ms (monitor_of ms loc.monitor_name)
          (monitor_of-lt ms loc.monitor_name ne) in
      (m, e, chosen-lt _ loc.workspace m e (All-get_elem? _ ms _ h e))

-- A restored pair names a monitor, and a workspace of it if it has any.
record IsRestored (l : List Monitor) (i : ℕ) (p : ℕ × ℕ) : Type 0 where
  offset : ℕ
  at : p.0 ≡ i + offset
  monitor : Monitor
  there : get_elem? l offset ≡ some monitor
  within : p.1 ≤ length monitor.workspaces - 1

IsRestored-cons :
    (m : Monitor) (l : List Monitor) (i : ℕ) (p : ℕ × ℕ)
    → IsRestored l (suc i) p
    → IsRestored (m ∷ l) i p
IsRestored-cons m l i p r = record {
  offset = suc r.offset;
  at = omega (arith, r.at);
  monitor = r.monitor;
  there = r.there;
  within = r.within;
}

module _ (saved : String → Option SavedWorkspaceState) where
  restored-IsRestored :
      (field : SavedWorkspaceState → ℕ) (l : List Monitor) (i : ℕ)
      → All (IsRestored l i) (restored saved field l i)
  unfolding restored
  restored-IsRestored field [] i = tt
  restored-IsRestored field (m ∷ l) i =
      let rest =
        All-imp (IsRestored l (suc i)) (IsRestored (m ∷ l) i) (restored saved field l (suc i))
          (IsRestored-cons m l i) (restored-IsRestored field l (suc i)) in
      elim (Option-cases (saved m.name)) [
        | inl e ↦ rw (e, restored) rest
        | inr (s, e) ↦
            rw (e, restored)
              (
                record {
                  offset = 0;
                  at = omega arith;
                  monitor = m;
                  there = refl;
                  within = ground arith;
                },
                rest,
              )
      ]

  IsRestored-IsPlace :
      (ms : List Monitor) (p : ℕ × ℕ) → HasWorkspaces ms → IsRestored ms 0 p → IsPlace ms p.0 p.1
  IsRestored-IsPlace ms p h r = (
    r.monitor,
    ap (get_elem? ms) (omega (arith, r.at)) ∙ r.there,
    omega (arith, r.within, All-get_elem? (λ m. 0 < length m.workspaces) ms r.offset h r.there),
  )

  restored-IsPlace :
      (field : SavedWorkspaceState → ℕ) (ms : List Monitor)
      → HasWorkspaces ms
      → All (λ p. IsPlace ms p.0 p.1) (restored saved field ms 0)
  restored-IsPlace field ms h =
      All-imp (IsRestored ms 0) _ (restored saved field ms 0) (λ p r. IsRestored-IsPlace ms p h r)
        (restored-IsRestored field ms 0)

  module _ (ms : List Monitor) (tiled floating : List SavedWindowLocation) (name : String) where
    -- On monitors that all have workspaces, every relocation leads to a workspace of a monitor,
    -- the focused monitor exists, and every workspace to be restored is one of its monitor.
    pub plan_hotplug-IsPlace :
        ms ≢ []
        → HasWorkspaces ms
        → All
            (λ r. IsPlace ms r.target_monitor r.target_workspace)
            (plan_hotplug ms tiled floating saved name).tiled_relocations
          × All
              (λ r. IsPlace ms r.target_monitor r.target_workspace)
              (plan_hotplug ms tiled floating saved name).floating_relocations
          × ((plan_hotplug ms tiled floating saved name).focused_monitor < length ms)
          × All
              (λ p. IsPlace ms p.0 p.1)
              (plan_hotplug ms tiled floating saved name).workspace_current
          × All
              (λ p. IsPlace ms p.0 p.1)
              (plan_hotplug ms tiled floating saved name).workspace_previous
    unfolding plan_hotplug
    plan_hotplug-IsPlace ne h = rw (length-ne-zero ms ne) (
      All-map _ (resolve_location saved ms) tiled (λ l. resolve-IsPlace saved ms l ne h),
      All-map _ (resolve_location saved ms) floating (λ l. resolve-IsPlace saved ms l ne h),
      monitor_of-lt ms name ne,
      restored-IsPlace (λ s. s.current_workspace) ms h,
      restored-IsPlace (λ s. s.previous_workspace) ms h,
    )

    -- Every saved window is relocated, in the order in which it was saved, with the name of the
    -- monitor that it came from.
    pub plan_hotplug_complete :
        ms ≢ []
        → (map (λ r. r.id) (plan_hotplug ms tiled floating saved name).tiled_relocations
            ≡ map (λ l. l.id) tiled)
          × (map
                (λ r. r.original_monitor_name)
                (plan_hotplug ms tiled floating saved name).tiled_relocations
              ≡ map (λ l. l.monitor_name) tiled)
          × (map (λ r. r.id) (plan_hotplug ms tiled floating saved name).floating_relocations
              ≡ map (λ l. l.id) floating)
          × (map
                (λ r. r.original_monitor_name)
                (plan_hotplug ms tiled floating saved name).floating_relocations
              ≡ map (λ l. l.monitor_name) floating)
    unfolding plan_hotplug resolve_location
    plan_hotplug_complete ne = rw (length-ne-zero ms ne) (
      map-map (λ r. r.id) (resolve_location saved ms) (λ l. l.id) tiled (λ l. refl),
      map-map (λ r. r.original_monitor_name) (resolve_location saved ms) (λ l. l.monitor_name) tiled
          (λ l. refl),
      map-map (λ r. r.id) (resolve_location saved ms) (λ l. l.id) floating (λ l. refl),
      map-map (λ r. r.original_monitor_name) (resolve_location saved ms) (λ l. l.monitor_name)
          floating (λ l. refl),
    )
