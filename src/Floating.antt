-- ===== src/Floating.antt =====
-- src/lwm/core/floating.cpp: where floating windows are put, in int32_t arithmetic that stays in
-- range, with the casts to int16_t of the code.
pub mod Placement
pub mod Translate
mod Tests
use lwm.Base.{ℕ, Option, none, some, if◌then◌else◌}
use lwm.Base.Int.{ℤ, pos, ◌+ℤ◌, ◌-ℤ◌, ltb_ℤ, clamp_ℤ, half_ℤ, to_i16}
use lwm.Types.{Geometry}

-- The greatest coordinate at which a window of a size ends within the area, at least its start.
unfoldable pub max_coordinate : ℤ → ℕ → ℕ → ℤ
max_coordinate min extent size =
    let max = (min +ℤ pos extent) -ℤ pos size in if ltb_ℤ max min then min else max

-- One axis of the clamping, with the cast.
unfoldable pub clamp_axis : ℤ → ℤ → ℕ → ℕ → ℤ
clamp_axis target min extent size = to_i16 (clamp_ℤ target min (max_coordinate min extent size))

unfoldable pub clamp_geometry : Geometry → Geometry → Geometry
clamp_geometry area geometry = record geometry {
  x = clamp_axis geometry.x area.x area.width geometry.width;
  y = clamp_axis geometry.y area.y area.height geometry.height;
}

-- One axis of the centring of a size in an extent.
unfoldable pub centred : ℤ → ℕ → ℕ → ℤ
centred start extent size = start +ℤ half_ℤ (pos extent -ℤ pos size)

-- The parent, if there is one, and else the area.
abbrev pub base_of : Geometry → Option Geometry → Geometry
base_of area none = area
base_of area (some parent) = parent

unfoldable pub place_floating : Geometry → ℕ → ℕ → Option Geometry → Geometry
place_floating area width height parent =
    let base = base_of area parent in
    record {
      x = clamp_axis (centred base.x base.width width) area.x area.width width;
      y = clamp_axis (centred base.y base.height height) area.y area.height height;
      width = width;
      height = height;
    }

unfoldable pub clamp_to_area : Geometry → Geometry → Geometry
clamp_to_area area geometry = clamp_geometry area geometry

unfoldable pub translate_to_area : Geometry → Geometry → Geometry → Geometry
translate_to_area geometry source_area target_area = clamp_geometry target_area (record geometry {
  x = to_i16 (target_area.x +ℤ (geometry.x -ℤ source_area.x));
  y = to_i16 (target_area.y +ℤ (geometry.y -ℤ source_area.y));
})
