-- ===== src/Floating/Placement.antt =====
-- On place_floating and clamp_to_area of src/lwm/core/floating.cpp: placed windows and their area.
use lwm.Base.{ℕ, ◌≤◌, ◌≡◌, refl, ap, ◌∙◌, Option, arith}
use lwm.Base.Int.{
  ℤ, pos, pos_part, neg_part, ◌+ℤ◌, ◌-ℤ◌, ◌≤ℤ◌, clamp_ℤ, to_i16, IsI16, int_laws, eq_of_parts,
  to_i16_id, clamp_bounds, clamp_id,
}
use lwm.Types.{Geometry}
use lwm.Types.WorkArea.{IsInside}
use lwm.Floating.{
  max_coordinate, clamp_axis, clamp_geometry, centred, base_of, place_floating, clamp_to_area,
}

-- An area whose corners are within the range of int16_t.
pub record IsArea (g : Geometry) : Type 0 where
  pub x_fits : IsI16 g.x
  pub y_fits : IsI16 g.y
  pub right_fits : IsI16 (g.x +ℤ pos g.width)
  pub bottom_fits : IsI16 (g.y +ℤ pos g.height)

pub IsI16-within : (a b c : ℤ) → IsI16 a → IsI16 c → a ≤ℤ b → b ≤ℤ c → IsI16 b
IsI16-within a b c p q h k = ground arith

max_coordinate_bounds :
    (min : ℤ) (extent size : ℕ)
    → (min ≤ℤ max_coordinate min extent size)
      × (max_coordinate min extent size ≤ℤ min +ℤ pos extent)
      × (size ≤ extent → max_coordinate min extent size +ℤ pos size ≡ min +ℤ pos extent)
      × (extent ≤ size → max_coordinate min extent size ≡ min)
unfolding max_coordinate ◌+ℤ◌ ◌-ℤ◌
max_coordinate_bounds min extent size =
    (ground arith, ground arith, λ h. ground arith, λ h. ground arith)

-- The clamped coordinate starts within the area, and the window ends in it if it is not too large.
axis_bounds :
    (target min : ℤ) (extent size : ℕ)
    → IsI16 min
    → IsI16 (min +ℤ pos extent)
    → (min ≤ℤ clamp_axis target min extent size)
      × (size ≤ extent → clamp_axis target min extent size +ℤ pos size ≤ℤ min +ℤ pos extent)
      × (extent ≤ size → clamp_axis target min extent size ≡ min)
unfolding clamp_axis
axis_bounds target min extent size p q =
    let (low, high, fits, full) = max_coordinate_bounds min extent size in
    let (above, below) = clamp_bounds target min (max_coordinate min extent size) low in
    let same =
      to_i16_id (clamp_ℤ target min (max_coordinate min extent size))
        (IsI16-within min _ _ p q above (omega (arith, below, high))) in
    rw same (
      above,
      λ h. omega (int_laws, below, ap pos_part (fits h), ap neg_part (fits h)),
      λ h.
          eq_of_parts _ _ (omega (arith, above, below, ap pos_part (full h), ap neg_part (full h))),
    )

-- A coordinate at which the window lies within the area is kept.
pub axis_id :
    (target min : ℤ) (extent size : ℕ)
    → IsI16 target
    → min ≤ℤ target
    → target +ℤ pos size ≤ℤ min +ℤ pos extent
    → clamp_axis target min extent size ≡ target
unfolding clamp_axis
axis_id target min extent size p h k =
    let (low, high, fits, full) = max_coordinate_bounds min extent size in
    let room : size ≤ extent = omega int_laws in
    ap to_i16 (
      clamp_id target min (max_coordinate min extent size) h
        (omega (int_laws, ap pos_part (fits room), ap neg_part (fits room))))
    ∙ to_i16_id target p

clamp-IsInside :
    (area g : Geometry)
    → IsArea area
    → g.width ≤ area.width
    → g.height ≤ area.height
    → IsInside (clamp_geometry area g) area
unfolding clamp_geometry
clamp-IsInside area g a w h =
    let (l, r, _) = axis_bounds g.x area.x area.width g.width a.x_fits a.right_fits in
    let (t, b, _) = axis_bounds g.y area.y area.height g.height a.y_fits a.bottom_fits in
    record { left = l; right = r w; top = t; bottom = b h }

pub clamp_id_inside :
    (area g : Geometry) → IsI16 g.x → IsI16 g.y → IsInside g area → clamp_geometry area g ≡ g
unfolding clamp_geometry
clamp_id_inside area g p q i =
    let ex = axis_id g.x area.x area.width g.width p i.left i.right in
    let ey = axis_id g.y area.y area.height g.height q i.top i.bottom in
    λ k. record { x = ex k; y = ey k; width = g.width; height = g.height }

-- On an area whose corners are all within the range of int16_t: a new floating window that is not
-- larger than the area is placed inside it, wherever its parent is, and a window that is at least as
-- large as the area, on both axes, starts at its corner. The size stays.
pub place_floating-IsInside :
    (area : Geometry) (w h : ℕ) (parent : Option Geometry)
    → IsArea area
    → ((place_floating area w h parent).width ≡ w)
      × ((place_floating area w h parent).height ≡ h)
      × (w ≤ area.width → h ≤ area.height → IsInside (place_floating area w h parent) area)
      × (area.width ≤ w
          → area.height ≤ h
          → ((place_floating area w h parent).x ≡ area.x)
            × ((place_floating area w h parent).y ≡ area.y))
unfolding place_floating
place_floating-IsInside area w h parent a =
    let (l, r, x) =
      axis_bounds (centred (base_of area parent).x (base_of area parent).width w) area.x area.width
        w a.x_fits a.right_fits in
    let (t, b, y) =
      axis_bounds (centred (base_of area parent).y (base_of area parent).height h) area.y
        area.height h a.y_fits a.bottom_fits in
    (refl, refl, λ p q. record { left = l; right = r p; top = t; bottom = b q }, λ p q. (x p, y q))

-- A window that is not larger than the area is brought inside it, and one that is inside it already
-- stays where it is.
pub clamp_to_area-IsInside :
    (area g : Geometry)
    → IsArea area
    → (g.width ≤ area.width → g.height ≤ area.height → IsInside (clamp_to_area area g) area)
      × (IsI16 g.x → IsI16 g.y → IsInside g area → clamp_to_area area g ≡ g)
unfolding clamp_to_area
clamp_to_area-IsInside area g a =
    (λ w h. clamp-IsInside area g a w h, λ p q i. clamp_id_inside area g p q i)
