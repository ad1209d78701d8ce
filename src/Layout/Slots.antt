-- ===== src/Layout/Slots.antt =====
-- The geometry of the slots in src/lwm/layout/split_tree.cpp: a content rectangle divided along the
-- tree. Arithmetic is that of int32_t within its range, with the casts of the code; padding and
-- border width are uint32_t.
pub mod Cut
pub mod Divide
pub mod Arrange
pub mod Tiling
use lwm.Base.{
  ℕ, zero, suc, ◌+◌, ◌*◌, ◌-◌, ◌%◌, ◌^◌, List, [], ◌∷◌, ◌++◌, set, length, leb, if◌then◌else◌,
}
use lwm.Base.Int.{ℤ, pos, ◌+ℤ◌, ◌-ℤ◌, max_ℤ, half_ℤ, to_i16, to_u16, to_i32}
use lwm.Types.{Double, Geometry}
use lwm.Layout.Tree.{DoubleOps, SplitDirection, horizontal, vertical, TreeNode, leaf, split}

-- static_cast<int32_t>(padding + 2 * border_width)
unfoldable pub gap_of : ℕ → ℕ → ℤ
gap_of padding border_width = to_i32 ((padding + 2 * border_width) % 2 ^ 32)

unfoldable pub working_area_to_content_rect : Geometry → ℕ → ℕ → Geometry
working_area_to_content_rect wa padding border_width =
    let inset = to_i32 ((padding + border_width) % 2 ^ 32) in
    let w = max_ℤ (pos 1) (pos wa.width -ℤ (inset +ℤ inset)) in
    let h = max_ℤ (pos 1) (pos wa.height -ℤ (inset +ℤ inset)) in
    record {
      x = to_i16 (wa.x +ℤ inset);
      y = to_i16 (wa.y +ℤ inset);
      width = to_u16 w;
      height = to_u16 h;
    }

-- The numbers of `subdivide`, on the axis along which it divides.
pub record Division : Type 0 where
  pub first_extent : ℤ  -- left_w, top_h
  pub second_extent : ℤ  -- right_w, bottom_h
  pub second_start : ℤ
  pub split_pixel_pos : ℤ
  pub available : ℤ

pub record SplitResult : Type 0 where
  pub left_rect : Geometry
  pub right_rect : Geometry
  pub split_pixel_pos : ℤ
  pub available : ℤ

module _ (ops : DoubleOps) where
  unfoldable pub divide : ℤ → ℕ → Double → ℤ → Division
  divide start extent ratio gap =
      let avail = max_ℤ (pos 0) (pos extent -ℤ gap) in
      let first = ops.floor_scale avail ratio in
      record {
        first_extent = first;
        second_extent = avail -ℤ first;
        second_start = (start +ℤ first) +ℤ gap;
        split_pixel_pos = (start +ℤ first) +ℤ half_ℤ gap;
        available = avail;
      }

  unfoldable pub subdivide : Geometry → SplitDirection → Double → ℕ → ℕ → SplitResult
  subdivide rect horizontal ratio padding border_width =
      let d = divide rect.x rect.width ratio (gap_of padding border_width) in
      record {
        left_rect = record rect { width = to_u16 (max_ℤ (pos 1) d.first_extent) };
        right_rect = record rect {
          x = to_i16 d.second_start;
          width = to_u16 (max_ℤ (pos 1) d.second_extent);
        };
        split_pixel_pos = d.split_pixel_pos;
        available = d.available;
      }
  subdivide rect vertical ratio padding border_width =
      let d = divide rect.y rect.height ratio (gap_of padding border_width) in
      record {
        left_rect = record rect { height = to_u16 (max_ℤ (pos 1) d.first_extent) };
        right_rect = record rect {
          y = to_i16 d.second_start;
          height = to_u16 (max_ℤ (pos 1) d.second_extent);
        };
        split_pixel_pos = d.split_pixel_pos;
        available = d.available;
      }

-- Geometry {}
abbrev pub no_geometry : Geometry
no_geometry = record { x = pos 0; y = pos 0; width = 0; height = 0 }

-- out.resize(n), where that makes `out` longer.
abbrev pub grow : List Geometry → ℕ → List Geometry
grow [] zero = []
grow [] (suc n) = no_geometry ∷ grow [] n
grow (g ∷ out) zero = g ∷ out
grow (g ∷ out) (suc n) = g ∷ grow out n

abbrev pub store : List Geometry → ℕ → Geometry → List Geometry
store out i g = set (if leb (length out) i then grow out (i + 1) else out) i g

module _ (ops : DoubleOps) (padding border_width : ℕ) where
  unfoldable pub compute_geometries_impl : TreeNode → Geometry → List Geometry → List Geometry
  compute_geometries_impl (leaf i) rect out = store out i rect
  compute_geometries_impl (split d r left right) rect out =
      let parts = subdivide ops rect d r padding border_width in
      compute_geometries_impl right parts.right_rect
        (compute_geometries_impl left parts.left_rect out)

  unfoldable pub compute_geometries : TreeNode → Geometry → List Geometry
  compute_geometries node content_rect = compute_geometries_impl node content_rect []
