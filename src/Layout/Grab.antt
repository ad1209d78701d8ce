-- ===== src/Layout/Grab.antt =====
-- The borders between slots, and the border under the pointer: collect_split_borders and
-- hit_test_split of src/lwm/layout/split_tree.cpp, and Layout::hit_test of layout.cpp.
pub mod Reach
use lwm.Base.{
  ℕ, zero, suc, ◌+◌, ◌%◌, ◌^◌, Bool, ◌&&◌, ◌||◌, not, Option, none, some, List, [], ◌∷◌, ◌++◌, ltb,
  leb, if◌then◌else◌,
}
use lwm.Base.Int.{ℤ, pos, pos_part, neg_part, ◌+ℤ◌, ◌-ℤ◌, ltb_ℤ, leb_ℤ, to_i32}
use lwm.Types.{Double, Geometry, LayoutStrategy, SplitAddress, SplitRatioMap}
use lwm.Layout.Tree.{
  DoubleOps, SplitDirection, horizontal, vertical, TreeNode, leaf, split, right_path, prepare_tree,
}
use lwm.Layout.Slots.{SplitResult, subdivide}
use lwm.Layout.Arrange.{LayoutSettings, content_rect}

pub record SplitHitResult : Type 0 where
  pub address : SplitAddress
  pub direction : SplitDirection
  pub ratio : Double
  pub split_pixel_pos : ℤ
  pub available_extent : ℤ
  pub cross_min : ℤ
  pub cross_max : ℤ

abbrev pub cross_start : SplitDirection → Geometry → ℤ
cross_start horizontal rect = rect.y
cross_start vertical rect = rect.x

abbrev pub cross_end : SplitDirection → Geometry → ℤ
cross_end horizontal rect = rect.y +ℤ pos rect.height
cross_end vertical rect = rect.x +ℤ pos rect.width

module _ (ops : DoubleOps) (padding border_width : ℕ) where
  -- The borders that the code appends to `out`, in order.
  unfoldable pub collect_split_borders : TreeNode → Geometry → ℕ → ℕ → List SplitHitResult
  collect_split_borders (leaf i) rect depth path = []
  collect_split_borders (split d r left right) rect depth path =
      let parts = subdivide ops rect d r padding border_width in
      record {
        address = record { depth = depth; path = path };
        direction = d;
        ratio = r;
        split_pixel_pos = parts.split_pixel_pos;
        available_extent = parts.available;
        cross_min = cross_start d rect;
        cross_max = cross_end d rect;
      }
        ∷ collect_split_borders left parts.left_rect ((depth + 1) % 2 ^ 8) path
      ++ collect_split_borders right parts.right_rect ((depth + 1) % 2 ^ 8) (right_path depth path)

-- std::abs of a difference
abbrev pub distance : ℤ → ℤ → ℕ
distance a b = pos_part (a -ℤ b) + neg_part (a -ℤ b)

unfoldable pub border_distance : SplitDirection → SplitHitResult → ℤ → ℤ → ℕ
border_distance horizontal b x y = distance x b.split_pixel_pos
border_distance vertical b x y = distance y b.split_pixel_pos

abbrev pub cross_coord : SplitDirection → ℤ → ℤ → ℤ
cross_coord horizontal x y = y
cross_coord vertical x y = x

-- The guard on the perpendicular coordinate.
unfoldable pub is_beside : SplitHitResult → ℤ → ℤ → Bool
is_beside b x y =
    ltb_ℤ (cross_coord b.direction x y) b.cross_min
    || ltb_ℤ b.cross_max (cross_coord b.direction x y)

-- The loop over the borders, on the variables `best` and `best_dist`.
unfoldable pub nearest_border :
    List SplitHitResult → ℤ → ℤ → ℤ → Option SplitHitResult → ℕ → Option SplitHitResult
nearest_border [] x y thresh best best_dist = best
nearest_border (b ∷ borders) x y thresh best best_dist =
    let dist = border_distance b.direction b x y in
    let better = not (is_beside b x y) && leb_ℤ (pos dist) thresh && ltb dist best_dist in
    nearest_border borders x y thresh (if better then some b else best)
      (if better then dist else best_dist)

unfoldable pub hit_test_split :
    DoubleOps → TreeNode → Geometry → ℕ → ℕ → ℤ → ℤ → ℕ → Option SplitHitResult
hit_test_split ops node rect padding border_width x y threshold =
    nearest_border (collect_split_borders ops padding border_width node rect 0 0) x y
      (to_i32 threshold) none 2147483647

unfoldable pub hit_test :
    DoubleOps
    → LayoutSettings
    → ℕ
    → Geometry
    → LayoutStrategy
    → SplitRatioMap
    → ℤ
    → ℤ
    → Option SplitHitResult
hit_test ops settings window_count working_area LayoutStrategy.monocle ratios x y = none
hit_test ops settings window_count working_area LayoutStrategy.master_stack ratios x y =
    if ltb window_count 2
    then none
    else hit_test_split ops
        (prepare_tree ops LayoutStrategy.master_stack window_count settings.default_ratio ratios)
        (content_rect settings working_area) settings.padding settings.border_width x y
        settings.resize_grab_threshold
