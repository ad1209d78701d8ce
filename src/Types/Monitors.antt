-- ===== src/Types/Monitors.antt =====
-- Workspaces and monitors of src/lwm/core/types.hpp.
use Prim.Native.String.{String}
use lwm.Base.{ℕ, Bool, Option, List, contains, get_elem?, if◌then◌else◌}
use lwm.Base.Int.{ℤ, pos, ◌+ℤ◌, ◌-ℤ◌, min_ℤ, max_ℤ, leb_ℤ, to_i16, to_i32, to_u16}
use lwm.Types.Enums.{Double, Geometry, LayoutStrategy, Strut}

pub record SplitAddress : Type 0 where
  pub depth : ℕ  -- uint8_t
  pub path : ℕ  -- uint32_t

-- std::map<SplitAddress, double>: at most one entry for an address.
abbrev pub SplitRatioMap : Type 0
SplitRatioMap = List (SplitAddress × Double)

pub record Workspace : Type 0 where
  pub windows : List ℕ
  pub focused_window : ℕ
  pub focus_history : List ℕ  -- the back is the most recent
  pub layout_strategy : LayoutStrategy
  pub split_ratios : SplitRatioMap

-- find_window(id) != windows.end()
abbrev pub has_window : Workspace → ℕ → Bool
has_window ws w = contains ws.windows w

pub record Monitor : Type 0 where
  pub output : ℕ
  pub name : String
  pub x : ℤ  -- int16_t
  pub y : ℤ  -- int16_t
  pub width : ℕ  -- uint16_t
  pub height : ℕ  -- uint16_t
  pub workspaces : List Workspace
  pub current_workspace : ℕ
  pub previous_workspace : ℕ
  pub strut : Strut
  pub fullscreen_owner : ℕ

-- An index past the end is undefined behaviour in the code, and `none` here.
abbrev pub current : Monitor → Option Workspace
current m = get_elem? m.workspaces m.current_workspace

abbrev pub geometry : Monitor → Geometry
geometry m = record { x = m.x; y = m.y; width = m.width; height = m.height }

-- The offset of the work area: none where the struts use up the whole extent.
unfoldable pub strut_offset : ℤ → ℤ → ℤ → ℤ
strut_offset near far extent = if leb_ℤ extent (near +ℤ far) then pos 0 else near

-- The extent that the struts leave, at least 1.
unfoldable pub strut_extent : ℤ → ℤ → ℤ → ℤ
strut_extent near far extent = max_ℤ (pos 1) (extent -ℤ min_ℤ extent (near +ℤ far))

unfoldable pub working_area : Monitor → Geometry
working_area m = record {
  x = to_i16 (m.x +ℤ strut_offset left right w);
  y = to_i16 (m.y +ℤ strut_offset top bottom h);
  width = to_u16 (strut_extent left right w);
  height = to_u16 (strut_extent top bottom h);
}
  where
    w : ℤ
    w = pos m.width

    h : ℤ
    h = pos m.height

    left : ℤ
    left = to_i32 m.strut.left

    right : ℤ
    right = to_i32 m.strut.right

    top : ℤ
    top = to_i32 m.strut.top

    bottom : ℤ
    bottom = to_i32 m.strut.bottom
