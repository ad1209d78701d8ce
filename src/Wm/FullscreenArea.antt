-- ===== src/Wm/FullscreenArea.antt =====
-- fullscreen_geometry_for_client of src/lwm/wm.cpp: the area of the monitors that a fullscreen window
-- names.
use lwm.Base.{
  ℕ, Option, none, some, ◌>>=◌, List, [], ◌∷◌, ◌++◌, length, get_elem?, ltb, ◌==◌, if◌then◌else◌,
}
use lwm.Base.Int.{ℤ, pos, ◌+ℤ◌, ◌-ℤ◌, max_ℤ, min_ℤ, to_u16}
use lwm.Types.{Client, FullscreenMonitors, Geometry, Monitor, geometry}

-- The monitors that the fullscreen specification names, in order.
abbrev pub named_monitors : FullscreenMonitors → ℕ → List ℕ
named_monitors spec total =
    (if ltb spec.top total then spec.top ∷ [] else [])
    ++ (if ltb spec.bottom total then spec.bottom ∷ [] else [])
    ++ (if ltb spec.left total then spec.left ∷ [] else [])
    ++ (if ltb spec.right total then spec.right ∷ [] else [])

-- The edges of a rectangle.
pub record Edges : Type 0 where
  pub min_x : ℤ
  pub min_y : ℤ
  pub max_x : ℤ
  pub max_y : ℤ

abbrev pub edges_of : Monitor → Edges
edges_of m = record {
  min_x = m.x;
  min_y = m.y;
  max_x = m.x +ℤ pos m.width;
  max_y = m.y +ℤ pos m.height;
}

-- The loop over the other monitors.
unfoldable pub union_edges : List Monitor → List ℕ → Edges → Option Edges
union_edges monitors [] e = some e
union_edges monitors (i ∷ is) e = get_elem? monitors i >>= (λ m. union_edges monitors is (record {
  min_x = min_ℤ e.min_x m.x;
  min_y = min_ℤ e.min_y m.y;
  max_x = max_ℤ e.max_x (m.x +ℤ pos m.width);
  max_y = max_ℤ e.max_y (m.y +ℤ pos m.height);
}))

abbrev pub area_of : Edges → Geometry
area_of e = record {
  x = e.min_x;
  y = e.min_y;
  width = to_u16 (max_ℤ (pos 1) (e.max_x -ℤ e.min_x));
  height = to_u16 (max_ℤ (pos 1) (e.max_y -ℤ e.min_y));
}

abbrev pub no_geometry : Geometry
no_geometry = record { x = pos 0; y = pos 0; width = 0; height = 0 }

-- fallback_monitor_geometry
unfoldable pub fallback_monitor_geometry : List Monitor → Client → Option Geometry
fallback_monitor_geometry monitors c = elim (get_elem? monitors c.monitor) [
  | some m ↦ some (geometry m)
  | none ↦ get_elem? monitors 0 >>= (λ m. some (geometry m))
]

-- The area of the named monitors.
unfoldable pub named_area : List Monitor → Client → List ℕ → Option Geometry
named_area monitors c [] = fallback_monitor_geometry monitors c
named_area monitors c (i ∷ is) =
    get_elem? monitors i >>= (λ m. union_edges monitors is (edges_of m)) >>= (λ e. some (area_of e))

unfoldable pub fullscreen_geometry_for_client : List Monitor → Client → Option Geometry
fullscreen_geometry_for_client monitors c =
    if length monitors == 0 then some no_geometry else elim c.fullscreen_monitors [
      | none ↦ fallback_monitor_geometry monitors c
      | some spec ↦ named_area monitors c (named_monitors spec (length monitors))
    ]
