-- ===== src/Layout/Slots/Divide.antt =====
-- On subdivide of src/lwm/layout/split_tree.cpp: the two parts of a rectangle.
use lwm.Base.{ℕ, ◌+◌, ◌*◌, ◌≤◌, ◌<◌, ◌≡◌, ◌⊎◌, inl, inr, arith}
use lwm.Base.Int.{ℤ, pos, ◌+ℤ◌, ◌≤ℤ◌, IsI16}
use lwm.Types.{Double, Geometry}
use lwm.Types.WorkArea.{IsInside}
use lwm.Layout.Tree.{DoubleOps, SplitDirection, horizontal, vertical}
use lwm.Layout.Slots.{gap_of, subdivide}
use lwm.Layout.Slots.Cut.{IsSlim, gap_of_slim, IsWide, divide-Cut, sides}

-- A rectangle that is not empty, within the ranges of its fields.
pub record IsBox (g : Geometry) : Type 0 where
  pub wide : 1 ≤ g.width
  pub high : 1 ≤ g.height
  pub width_fits : g.width < 65536
  pub height_fits : g.height < 65536
  pub x_fits : IsI16 g.x
  pub y_fits : IsI16 g.y
  pub right_fits : IsI16 (g.x +ℤ pos g.width)
  pub bottom_fits : IsI16 (g.y +ℤ pos g.height)

-- Two rectangles without a common point.
abbrev pub IsDisjoint : Geometry → Geometry → Type 0
IsDisjoint g h =
    (g.x +ℤ pos g.width ≤ℤ h.x)
    ⊎ (h.x +ℤ pos h.width ≤ℤ g.x)
    ⊎ (g.y +ℤ pos g.height ≤ℤ h.y)
    ⊎ (h.y +ℤ pos h.height ≤ℤ g.y)

-- Two parts of a rectangle, not empty, within it and apart.
pub record IsSplit (whole left right : Geometry) : Type 0 where
  pub left_box : IsBox left
  pub right_box : IsBox right
  pub left_inside : IsInside left whole
  pub right_inside : IsInside right whole
  pub apart : IsDisjoint left right

IsSplit-across :
    (g : Geometry) (l r gap : ℕ)
    → IsBox g
    → l + gap + r ≡ g.width
    → 1 ≤ l
    → 1 ≤ r
    → IsSplit g (record g { width = l }) (record g { x = g.x +ℤ pos (l + gap); width = r })
IsSplit-across g l r gap b whole hl hr =
    let s = sides g.x l gap r g.width b.x_fits b.right_fits whole in
    record {
      left_box = record {
        wide = hl;
        high = b.high;
        width_fits = omega arith;
        height_fits = b.height_fits;
        x_fits = b.x_fits;
        y_fits = b.y_fits;
        right_fits = s.first_end;
        bottom_fits = b.bottom_fits;
      };
      right_box = record {
        wide = hr;
        high = b.high;
        width_fits = omega arith;
        height_fits = b.height_fits;
        x_fits = s.second_start;
        y_fits = b.y_fits;
        right_fits = rw s.second_end b.right_fits;
        bottom_fits = b.bottom_fits;
      };
      left_inside = record {
        left = omega arith;
        right = s.first_within;
        top = omega arith;
        bottom = omega arith;
      };
      right_inside = record {
        left = s.second_within;
        right = rw s.second_end (omega arith);
        top = omega arith;
        bottom = omega arith;
      };
      apart = inl s.apart;
    }

IsSplit-down :
    (g : Geometry) (l r gap : ℕ)
    → IsBox g
    → l + gap + r ≡ g.height
    → 1 ≤ l
    → 1 ≤ r
    → IsSplit g (record g { height = l }) (record g { y = g.y +ℤ pos (l + gap); height = r })
IsSplit-down g l r gap b whole hl hr =
    let s = sides g.y l gap r g.height b.y_fits b.bottom_fits whole in
    record {
      left_box = record {
        wide = b.wide;
        high = hl;
        width_fits = b.width_fits;
        height_fits = omega arith;
        x_fits = b.x_fits;
        y_fits = b.y_fits;
        right_fits = b.right_fits;
        bottom_fits = s.first_end;
      };
      right_box = record {
        wide = b.wide;
        high = hr;
        width_fits = b.width_fits;
        height_fits = omega arith;
        x_fits = b.x_fits;
        y_fits = s.second_start;
        right_fits = b.right_fits;
        bottom_fits = rw s.second_end b.bottom_fits;
      };
      left_inside = record {
        left = omega arith;
        right = omega arith;
        top = omega arith;
        bottom = s.first_within;
      };
      right_inside = record {
        left = omega arith;
        right = omega arith;
        top = s.second_within;
        bottom = rw s.second_end (omega arith);
      };
      apart = inr (inr (inl s.apart));
    }

-- The axis along which a split divides keeps room for both parts.
abbrev pub HasRoom : DoubleOps → SplitDirection → Geometry → Double → ℤ → Type 0
HasRoom ops horizontal g ratio gap = IsWide ops g.x g.width ratio gap
HasRoom ops vertical g ratio gap = IsWide ops g.y g.height ratio gap

pub subdivide-IsSplit :
    (ops : DoubleOps) (g : Geometry) (d : SplitDirection) (ratio : Double)
    (padding border_width : ℕ)
    → IsBox g
    → IsSlim padding border_width
    → HasRoom ops d g ratio (gap_of padding border_width)
    → IsSplit g
        (subdivide ops g d ratio padding border_width).left_rect
        (subdivide ops g d ratio padding border_width).right_rect
unfolding subdivide
subdivide-IsSplit ops g horizontal ratio padding border_width b slim h =
    let c =
      divide-Cut ops g.x g.width (padding + 2 * border_width) ratio _
        (gap_of_slim padding border_width slim) b.width_fits b.x_fits b.right_fits h in
    rw (c.left_is, c.right_is, c.start_is)
      (IsSplit-across g c.left c.right (padding + 2 * border_width) b c.whole c.left_pos
        c.right_pos)
subdivide-IsSplit ops g vertical ratio padding border_width b slim h =
    let c =
      divide-Cut ops g.y g.height (padding + 2 * border_width) ratio _
        (gap_of_slim padding border_width slim) b.height_fits b.y_fits b.bottom_fits h in
    rw (c.left_is, c.right_is, c.start_is)
      (IsSplit-down g c.left c.right (padding + 2 * border_width) b c.whole c.left_pos c.right_pos)
