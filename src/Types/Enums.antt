-- ===== src/Types/Enums.antt =====
-- The enumerations and plain structs of src/lwm/core/types.hpp.
use lwm.Base.{ℕ, Bool}
use lwm.Base.Int.{ℤ}

abbrev pub xcb_none : ℕ
xcb_none = 0

-- The bit pattern of a double.
abbrev pub Double : Type 0
Double = ℕ

pub data WindowType : Type 0 where
  desktop dock toolbar menu utility splash dialog dropdown_menu popup_menu tooltip : WindowType
  notification combo dnd normal : WindowType

pub data WindowLayer : Type 0 where
  normal overlay : WindowLayer

pub data LayerHint : Type 0 where
  normal above below : LayerHint

pub data LayoutStrategy : Type 0 where
  master_stack monocle : LayoutStrategy

pub record Geometry : Type 0 where
  pub x : ℤ  -- int16_t
  pub y : ℤ  -- int16_t
  pub width : ℕ  -- uint16_t
  pub height : ℕ  -- uint16_t

pub record Strut : Type 0 where
  pub left : ℕ
  pub right : ℕ
  pub top : ℕ
  pub bottom : ℕ

pub record FullscreenMonitors : Type 0 where
  pub top : ℕ
  pub bottom : ℕ
  pub left : ℕ
  pub right : ℕ

pub record AppPreferences : Type 0 where
  pub skip_taskbar : Bool
  pub skip_pager : Bool
  pub above : Bool
  pub below : Bool
