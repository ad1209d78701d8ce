-- ===== src/Layout/Tests.antt =====
-- Three tiled windows on a screen: the layout and the pointer on concrete input.
use lwm.Base.{
  ℕ, ◌*◌, ◌/◌, ◌≤◌, ◌≡◌, refl, ◌⊎◌, true, none, some, List, [], ◌∷◌, length, get_elem?, All, arith,
}
use lwm.Base.Sort.{keep}
use lwm.Base.Int.{pos, pos_part, max_ℤ, ◌+ℤ◌, ◌-ℤ◌, to_u16, to_i16, to_i32, half_ℤ}
use lwm.Types.{Geometry, LayoutStrategy}
use lwm.Layout.Tree.{
  DoubleOps, TreeNode, find_ratio, overlay_ratios, stack_loop, build_master_stack,
  build_layout_tree, prepare_tree,
}
use lwm.Layout.Slots.{gap_of, divide, subdivide, compute_geometries_impl, compute_geometries}
use lwm.Layout.Slots.Arrange.{slots, compute_geometries-slots}
use lwm.Layout.Slots.Divide.{IsBox}
use lwm.Layout.Slots.Tiling.{IsRoomy, IsSlotOf, IsPairwiseDisjoint, compute_geometries-IsTiling}
use lwm.Layout.Arrange.{LayoutSettings, arrange, slot_distance, nearest_slot_index}
use lwm.Layout.Arrange.Nearest.{IsOnScreen, nearest_slot_index-nearest}
use lwm.Layout.Grab.{SplitHitResult, collect_split_borders, hit_test_split}
use lwm.Layout.Grab.Reach.{in_reach, gap_to, hit_test_split-nearest}

-- Ratios in thousandths.
abbrev thousandths : DoubleOps
thousandths = record {
  reciprocal = λ n. 1000 / n;
  floor_scale = λ a r. pos (pos_part a * r / 1000);
}

abbrev settings : LayoutSettings
settings = record { padding = 10; border_width = 2; default_ratio = 500; resize_grab_threshold = 8 }

abbrev screen : Geometry
screen = record { x = pos 0; y = pos 0; width = 1024; height = 768 }

abbrev tree : TreeNode
tree = prepare_tree thousandths LayoutStrategy.master_stack 3 500 []

program : Unit {0}
unfolding compute_geometries compute_geometries_impl prepare_tree build_layout_tree
    build_master_stack stack_loop overlay_ratios find_ratio subdivide divide gap_of to_i32 to_u16
    to_i16 max_ℤ ◌+ℤ◌ ◌-ℤ◌ half_ℤ
program = tt

screen-IsBox : IsBox screen
unfolding ◌+ℤ◌
screen-IsBox = record {
  wide = omega arith;
  high = omega arith;
  width_fits = omega arith;
  height_fits = omega arith;
  x_fits = ground arith;
  y_fits = ground arith;
  right_fits = ground arith;
  bottom_fits = ground arith;
}

three_slots :
    compute_geometries thousandths 10 2 tree screen
    ≡ record { x = pos 0; y = pos 0; width = 505; height = 768 }
      ∷ record { x = pos 519; y = pos 0; width = 505; height = 377 }
      ∷ record { x = pos 519; y = pos 391; width = 505; height = 377 }
      ∷ []
unfolding program
three_slots = refl

tree-IsRoomy : IsRoomy thousandths 10 2 tree screen
unfolding program
tree-IsRoomy = ((omega arith, omega arith), tt, ((omega arith, omega arith), tt, tt))

compute_geometries-slots_example :
    (compute_geometries thousandths 10 2 tree screen ≡ slots thousandths 10 2 tree screen)
    × (length (compute_geometries thousandths 10 2 tree screen) ≡ 3)
compute_geometries-slots_example =
    compute_geometries-slots thousandths 10 2 3 500 [] screen (omega arith)

compute_geometries-IsTiling_example :
    All (IsSlotOf screen) (compute_geometries thousandths 10 2 tree screen)
    × IsPairwiseDisjoint (compute_geometries thousandths 10 2 tree screen)
compute_geometries-IsTiling_example =
    compute_geometries-IsTiling thousandths 10 2 3 500 [] screen (omega arith) (omega arith)
      screen-IsBox tree-IsRoomy

abbrev arranged : List Geometry
arranged =
    (arrange thousandths settings (7 ∷ 8 ∷ 9 ∷ []) screen LayoutStrategy.master_stack [] []).0

abbrev two_slots : List Geometry
two_slots =
    record { x = pos 0; y = pos 0; width = 505; height = 768 }
    ∷ record { x = pos 519; y = pos 0; width = 505; height = 377 }
    ∷ []

slots-IsOnScreen : All IsOnScreen two_slots
slots-IsOnScreen = (
  record {
    x_fits = ground arith;
    y_fits = ground arith;
    width_fits = omega arith;
    height_fits = omega arith;
  },
  (
    record {
      x_fits = ground arith;
      y_fits = ground arith;
      width_fits = omega arith;
      height_fits = omega arith;
    },
    tt,
  ),
)

nearest_slot_index-nearest_example :
    (g : Geometry) × (get_elem? two_slots (nearest_slot_index two_slots (pos 600) (pos 500))
      ≡ some g)
    × All
        (λ (h : Geometry).
          slot_distance g (pos 600) (pos 500) ≤ slot_distance h (pos 600) (pos 500))
        two_slots
nearest_slot_index-nearest_example =
    nearest_slot_index-nearest (pos 600) (pos 500) two_slots (ground arith) (ground arith)
      slots-IsOnScreen (omega arith)

hit_test_split-nearest_example :
    ((hit_test_split thousandths tree screen 10 2 (pos 512) (pos 300) 8 ≡ none)
      × (keep
            (in_reach (pos 512) (pos 300) (to_i32 8))
            (collect_split_borders thousandths 10 2 tree screen 0 0)
          ≡ []))
    ⊎ ((k : ℕ) × (g : SplitHitResult) × (hit_test_split thousandths tree screen 10 2
            (pos 512)
            (pos 300)
            8
          ≡ some g)
        × (get_elem? (collect_split_borders thousandths 10 2 tree screen 0 0) k ≡ some g)
        × (in_reach (pos 512) (pos 300) (to_i32 8) g ≡ true)
        × All
            (λ (b : SplitHitResult). gap_to (pos 512) (pos 300) g ≤ gap_to (pos 512) (pos 300) b)
            (keep
              (in_reach (pos 512) (pos 300) (to_i32 8))
              (collect_split_borders thousandths 10 2 tree screen 0 0)))
hit_test_split-nearest_example =
    hit_test_split-nearest (pos 512) (pos 300) thousandths tree screen 10 2 8 (omega arith)
