-- ===== src/Types/Tests.antt =====
-- A monitor with a panel at the top, and a set of urgency sources, on which the theorems are
-- applied.
use lwm.Base.{◌≤◌, ◌≡◌, refl, [], arith}
use lwm.Base.Int.{pos, ◌+ℤ◌, ◌-ℤ◌, min_ℤ, max_ℤ, to_i16, to_u16, to_i32}
use lwm.Types.Urgency.{wm_initiated, app}
use lwm.Types.UrgencyLaws.{IsSetOf, Urgency-IsSetOf}
use lwm.Types.Monitors.{Monitor, geometry, strut_offset, strut_extent, working_area}
use lwm.Types.WorkArea.{IsInside, IsPlausible, working_area-IsInside}

abbrev screen : Monitor
screen = record {
  output = 1;
  name = "DP-1";
  x = pos 1920;
  y = pos 0;
  width = 1920;
  height = 1080;
  workspaces = [];
  current_workspace = 0;
  previous_workspace = 0;
  strut = record { left = 0; right = 0; top = 30; bottom = 2000 };
  fullscreen_owner = 0;
}

area :
    working_area (record screen { strut = record { left = 5; right = 7; top = 30; bottom = 0 } })
    ≡ record { x = pos 1925; y = pos 30; width = 1908; height = 1050 }
unfolding working_area strut_offset strut_extent ◌+ℤ◌ ◌-ℤ◌ min_ℤ max_ℤ to_i16 to_u16 to_i32
area = refl

screen-IsPlausible : IsPlausible screen
unfolding ◌+ℤ◌
screen-IsPlausible = omega arith

working_area-IsInside_example :
    IsInside (working_area screen) (geometry screen)
    × (1 ≤ (working_area screen).width)
    × (1 ≤ (working_area screen).height)
working_area-IsInside_example = working_area-IsInside screen screen-IsPlausible

Urgency-IsSetOf_example : IsSetOf (record { sources = 2 }) wm_initiated app
Urgency-IsSetOf_example = Urgency-IsSetOf (record { sources = 2 }) wm_initiated app (omega arith)
