-- ===== src/Floating/Tests.antt =====
-- Two monitors side by side and a dialog, on which the theorems are applied.
use lwm.Base.{◌≤◌, ◌≡◌, refl, some, arith}
use lwm.Base.Int.{pos, negsuc, ◌+ℤ◌, ◌-ℤ◌, clamp_ℤ, half_ℤ, to_i16}
use lwm.Types.{Geometry}
use lwm.Types.WorkArea.{IsInside}
use lwm.Floating.{
  max_coordinate, clamp_axis, clamp_geometry, centred, place_floating, translate_to_area,
}
use lwm.Floating.Placement.{IsArea, place_floating-IsInside}

abbrev small : Geometry
small = record { x = pos 0; y = pos 0; width = 1280; height = 1024 }

abbrev large : Geometry
large = record { x = pos 1280; y = pos 24; width = 1920; height = 1056 }

abbrev dialog : Geometry
dialog = record { x = pos 100; y = pos 200; width = 400; height = 300 }

program : Unit {0}
unfolding place_floating clamp_geometry translate_to_area clamp_axis max_coordinate centred ◌+ℤ◌
    ◌-ℤ◌ clamp_ℤ half_ℤ to_i16
program = tt

placed :
    place_floating small 400 300 (some (record dialog { x = negsuc 299 }))
    ≡ record { x = pos 0; y = pos 200; width = 400; height = 300 }
unfolding program
placed = refl

translated : translate_to_area dialog small large ≡ record dialog { x = pos 1380; y = pos 224 }
unfolding program
translated = refl

small-IsArea : IsArea small
unfolding ◌+ℤ◌
small-IsArea = omega arith

large-IsArea : IsArea large
unfolding ◌+ℤ◌
large-IsArea = omega arith

dialog-IsInside : IsInside dialog small
unfolding ◌+ℤ◌
dialog-IsInside = omega arith

place_floating-IsInside_example :
    ((place_floating small 400 300 (some large)).width ≡ 400)
    × ((place_floating small 400 300 (some large)).height ≡ 300)
    × (400 ≤ small.width
        → 300 ≤ small.height
        → IsInside (place_floating small 400 300 (some large)) small)
    × (small.width ≤ 400
        → small.height ≤ 300
        → ((place_floating small 400 300 (some large)).x ≡ small.x)
          × ((place_floating small 400 300 (some large)).y ≡ small.y))
place_floating-IsInside_example = place_floating-IsInside small 400 300 (some large) small-IsArea
