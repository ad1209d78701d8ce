-- ===== src/Floating/Translate.antt =====
-- Moving a floating window to another monitor and back.
use lwm.Base.{ℕ, ◌≤◌, ◌≡◌, ◌∙◌}
use lwm.Base.Int.{ℤ, pos, ◌+ℤ◌, ◌-ℤ◌, ◌≤ℤ◌, IsI16, int_laws, to_i16_id}
use lwm.Types.{Geometry}
use lwm.Types.WorkArea.{IsInside}
use lwm.Floating.Placement.{IsArea, IsI16-within, clamp_id_inside}
use lwm.Floating.{translate_to_area}

-- The window at its place on the target.
abbrev moved : Geometry → Geometry → Geometry → Geometry
moved g s t = record g { x = t.x +ℤ (g.x -ℤ s.x); y = t.y +ℤ (g.y -ℤ s.y) }

-- The source area is not larger than the target.
pub record Fits (s t : Geometry) : Type 0 where
  pub width : s.width ≤ t.width
  pub height : s.height ≤ t.height

coordinate_fits :
    (c start : ℤ) (size extent : ℕ)
    → IsI16 start
    → IsI16 (start +ℤ pos extent)
    → start ≤ℤ c
    → c +ℤ pos size ≤ℤ start +ℤ pos extent
    → IsI16 c
coordinate_fits c start size extent p q h k = IsI16-within start c _ p q h (omega int_laws)

-- A window whose place on the target lies inside it is moved just there.
translate-moved :
    (g s t : Geometry) → IsArea t → IsInside (moved g s t) t → translate_to_area g s t ≡ moved g s t
unfolding translate_to_area
translate-moved g s t a i =
    let px =
      coordinate_fits (moved g s t).x t.x g.width t.width a.x_fits a.right_fits i.left i.right in
    let py =
      coordinate_fits (moved g s t).y t.y g.height t.height a.y_fits a.bottom_fits i.top i.bottom in
    rw (to_i16_id (moved g s t).x px, to_i16_id (moved g s t).y py)
      (clamp_id_inside t (moved g s t) px py i)

moved-IsInside : (g s t : Geometry) → IsInside g s → Fits s t → IsInside (moved g s t) t
moved-IsInside g s t i f = record {
  left = omega int_laws;
  right = omega int_laws;
  top = omega int_laws;
  bottom = omega int_laws;
}

moved-moved : (g s t : Geometry) → moved (moved g s t) t s ≡ g
moved-moved g s t =
    let ex : s.x +ℤ ((t.x +ℤ (g.x -ℤ s.x)) -ℤ t.x) ≡ g.x = omega int_laws in
    let ey : s.y +ℤ ((t.y +ℤ (g.y -ℤ s.y)) -ℤ t.y) ≡ g.y = omega int_laws in
    λ k. record { x = ex k; y = ey k; width = g.width; height = g.height }

-- A window inside an area that is moved to an area at least as large lies inside that one, keeps its
-- size, and comes back to where it was when it is moved back.
pub translate_to_area-inverse :
    (g s t : Geometry)
    → IsArea s
    → IsArea t
    → IsInside g s
    → Fits s t
    → IsInside (translate_to_area g s t) t × (translate_to_area (translate_to_area g s t) t s ≡ g)
translate_to_area-inverse g s t a b i f =
    let there = translate-moved g s t b (moved-IsInside g s t i f) in
    let back : IsInside (moved (moved g s t) t s) s = rw moved-moved i in
    rw there
      (moved-IsInside g s t i f, translate-moved (moved g s t) t s a back ∙ moved-moved g s t)
