-- ===== src/Types/WorkArea.antt =====
-- Monitor::working_area of src/lwm/core/types.hpp: what the docks leave of a monitor.
use lwm.Base.{ℕ, ◌+◌, ◌≤◌, ◌<◌, ◌≡◌, Bool-cases, leb, inl, inr, arith}
use lwm.Base.Int.{
  ℤ, pos, ◌+ℤ◌, ◌-ℤ◌, ◌≤ℤ◌, min_ℤ, max_ℤ, to_i16, to_u16, to_i32, IsI16, int_laws, to_i16_id,
  IsI16-between,
}
use lwm.Types.Enums.{Geometry}
use lwm.Types.Monitors.{Monitor, geometry, strut_offset, strut_extent, working_area}

-- The first rectangle lies within the second.
pub record IsInside (inner outer : Geometry) : Type 0 where
  pub left : outer.x ≤ℤ inner.x
  pub right : inner.x +ℤ pos inner.width ≤ℤ outer.x +ℤ pos outer.width
  pub top : outer.y ≤ℤ inner.y
  pub bottom : inner.y +ℤ pos inner.height ≤ℤ outer.y +ℤ pos outer.height

-- The struts of one axis stay far below the range of int32_t.
abbrev pub IsSmall : ℕ → Type 0
IsSmall n = n < 1073741824

to_i32_small : (n : ℕ) → IsSmall n → to_i32 n ≡ pos n
unfolding to_i32
to_i32_small n h = ground arith

-- On one axis: the offset and the extent that the struts leave.
axis :
    (near far w : ℕ)
    → 0 < w
    → w < 65536
    → IsSmall near
    → IsSmall far
    → (o : ℕ) × (strut_offset (to_i32 near) (to_i32 far) (pos w) ≡ pos o)
      × (1 ≤ to_u16 (strut_extent (to_i32 near) (to_i32 far) (pos w)))
      × (o + to_u16 (strut_extent (to_i32 near) (to_i32 far) (pos w)) ≤ w)
unfolding strut_offset strut_extent ◌+ℤ◌ ◌-ℤ◌ min_ℤ max_ℤ to_u16
axis near far w p q n f =
    rw (to_i32_small near n, to_i32_small far f)
      (elim (Bool-cases (leb w (near + far))) [
        | inl full ↦ (0, ground arith, ground arith, ground arith)
        | inr room ↦ (near, ground arith, ground arith, ground arith)
      ])

-- Moving right within the range of int16_t loses nothing in the cast.
cast_within :
    (x : ℤ) (o w : ℕ) → IsI16 x → IsI16 (x +ℤ pos w) → o ≤ w → to_i16 (x +ℤ pos o) ≡ x +ℤ pos o
cast_within x o w a b h = to_i16_id (x +ℤ pos o) (IsI16-between x o w a b h)

axis_inside :
    (x : ℤ) (near far w : ℕ)
    → 0 < w
    → w < 65536
    → IsSmall near
    → IsSmall far
    → IsI16 x
    → IsI16 (x +ℤ pos w)
    → let p = to_i16 (x +ℤ strut_offset (to_i32 near) (to_i32 far) (pos w)) in
      let e = to_u16 (strut_extent (to_i32 near) (to_i32 far) (pos w)) in
      (1 ≤ e) × (x ≤ℤ p) × (p +ℤ pos e ≤ℤ x +ℤ pos w)
axis_inside x near far w a b n f i j =
    let (o, at, some_room, fits) = axis near far w a b n f in
    let here = cast_within x o w i j (omega arith) in
    rw (at, here) (some_room, omega int_laws, omega int_laws)

-- What is asked of a monitor: it is not empty, it and its corners are within the range of int16_t,
-- and its struts are far below that of int32_t.
pub record IsPlausible (m : Monitor) : Type 0 where
  pub wide : 0 < m.width
  pub high : 0 < m.height
  pub width_fits : m.width < 65536
  pub height_fits : m.height < 65536
  pub x_fits : IsI16 m.x
  pub y_fits : IsI16 m.y
  pub right_fits : IsI16 (m.x +ℤ pos m.width)
  pub bottom_fits : IsI16 (m.y +ℤ pos m.height)
  pub left_small : IsSmall m.strut.left
  pub right_small : IsSmall m.strut.right
  pub top_small : IsSmall m.strut.top
  pub bottom_small : IsSmall m.strut.bottom

-- The work area of a monitor lies inside the monitor and is never empty, where the monitor is not
-- empty, it and its corners are within the range of int16_t, and each of its struts is below 2^30:
-- also struts that claim more than the whole monitor leave an area inside it.
pub working_area-IsInside :
    (m : Monitor)
    → IsPlausible m
    → IsInside (working_area m) (geometry m)
      × (1 ≤ (working_area m).width)
      × (1 ≤ (working_area m).height)
unfolding working_area
working_area-IsInside m v =
    let (w, l, r) =
      axis_inside m.x m.strut.left m.strut.right m.width v.wide v.width_fits v.left_small
        v.right_small v.x_fits v.right_fits in
    let (h, t, b) =
      axis_inside m.y m.strut.top m.strut.bottom m.height v.high v.height_fits v.top_small
        v.bottom_small v.y_fits v.bottom_fits in
    (record { left = l; right = r; top = t; bottom = b }, w, h)
