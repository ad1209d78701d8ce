-- ===== src/Layout/Slots/Tiling.antt =====
-- On compute_geometries of src/lwm/layout/split_tree.cpp: the slots and the content rectangle.
use lwm.Base.{ℕ, ◌≤◌, List, [], ◌∷◌, ◌++◌, All, All-append, All-imp, arith}
use lwm.Types.{Double, Geometry, LayoutStrategy, SplitRatioMap}
use lwm.Types.WorkArea.{IsInside}
use lwm.Layout.Tree.{DoubleOps, TreeNode, leaf, split, prepare_tree}
use lwm.Layout.Slots.{gap_of, subdivide, compute_geometries}
use lwm.Layout.Slots.Arrange.{slots, compute_geometries-slots}
use lwm.Layout.Slots.Cut.{IsSlim}
use lwm.Layout.Slots.Divide.{IsBox, IsDisjoint, HasRoom, subdivide-IsSplit}

-- Every rectangle is apart from all later ones.
abbrev pub IsPairwiseDisjoint : List Geometry → Type 0
IsPairwiseDisjoint [] = Unit
IsPairwiseDisjoint (g ∷ gs) = All (IsDisjoint g) gs × IsPairwiseDisjoint gs

-- A rectangle within `outer` that has a pixel.
pub record IsSlotOf (outer g : Geometry) : Type 0 where
  pub inside : IsInside g outer
  pub wide : 1 ≤ g.width
  pub high : 1 ≤ g.height

IsInside-trans : (a b c : Geometry) → IsInside a b → IsInside b c → IsInside a c
IsInside-trans a b c h k = record {
  left = omega arith;
  right = omega arith;
  top = omega arith;
  bottom = omega arith;
}

apart_within : (a b c d : Geometry) → IsInside c a → IsInside d b → IsDisjoint a b → IsDisjoint c d
apart_within a b c d h k apart = ground arith

pairwise-append :
    (xs ys : List Geometry)
    → IsPairwiseDisjoint xs
    → IsPairwiseDisjoint ys
    → All (λ (x : Geometry). All (IsDisjoint x) ys) xs
    → IsPairwiseDisjoint (xs ++ ys)
pairwise-append [] ys h k c = k
pairwise-append (x ∷ xs) ys (hx, h) k (cx, c) =
    (All-append (IsDisjoint x) xs ys hx cx, pairwise-append xs ys h k c)

widen :
    (xs : List Geometry) (a rect : Geometry)
    → IsInside a rect
    → All (IsSlotOf a) xs
    → All (IsSlotOf rect) xs
widen xs a rect h = All-imp (IsSlotOf a) (IsSlotOf rect) xs (λ (g : Geometry) (s : IsSlotOf a g).
    record { inside = IsInside-trans g a rect s.inside h; wide = s.wide; high = s.high })

cross :
    (xs ys : List Geometry) (a c : Geometry)
    → IsDisjoint a c
    → All (IsSlotOf a) xs
    → All (IsSlotOf c) ys
    → All (λ (x : Geometry). All (IsDisjoint x) ys) xs
cross xs ys a c apart hx hy =
    All-imp (IsSlotOf a) (λ (x : Geometry). All (IsDisjoint x) ys) xs
      (λ (x : Geometry) (s : IsSlotOf a x).
        All-imp (IsSlotOf c) (IsDisjoint x) ys
          (λ (y : Geometry) (t : IsSlotOf c y). apart_within a c x y s.inside t.inside apart) hy)
      hx

module _ (ops : DoubleOps) (padding border_width : ℕ) where
  -- Every split of the tree has room for both of its parts.
  abbrev pub IsRoomy : TreeNode → Geometry → Type 0
  IsRoomy (leaf i) rect = Unit
  IsRoomy (split d r left right) rect =
      HasRoom ops d rect r (gap_of padding border_width)
      × IsRoomy left (subdivide ops rect d r padding border_width).left_rect
      × IsRoomy right (subdivide ops rect d r padding border_width).right_rect

  slots_tile :
      (t : TreeNode) (rect : Geometry)
      → IsSlim padding border_width
      → IsBox rect
      → IsRoomy t rect
      → All (IsSlotOf rect) (slots ops padding border_width t rect)
        × IsPairwiseDisjoint (slots ops padding border_width t rect)
  slots_tile (leaf i) rect slim b h =
      let self : IsInside rect rect = record {
        left = omega arith;
        right = omega arith;
        top = omega arith;
        bottom = omega arith;
      } in
      ((record { inside = self; wide = b.wide; high = b.high }, tt), (tt, tt))
  slots_tile (split d r s t) rect slim b (room, hs, ht) =
      let parts = subdivide ops rect d r padding border_width in
      let a = parts.left_rect in
      let c = parts.right_rect in
      let cut = subdivide-IsSplit ops rect d r padding border_width b slim room in
      let (in_a, apart_a) = slots_tile s a slim cut.left_box hs in
      let (in_c, apart_c) = slots_tile t c slim cut.right_box ht in
      (
        All-append (IsSlotOf rect) _ _ (widen _ a rect cut.left_inside in_a)
            (widen _ c rect cut.right_inside in_c),
        pairwise-append _ _ apart_a apart_c (cross _ _ a c cut.apart in_a in_c),
      )

  -- In the master-stack layout the geometries of the windows lie within the content rectangle, have
  -- a width and a height of at least 1 and no two of them overlap, for a content rectangle that is
  -- not empty and whose edges fit their types, where every split of the tree leaves at least one
  -- pixel for both parts and the gap stays within the range of int32_t.
  pub compute_geometries-IsTiling :
      (n : ℕ) (r : Double) (ratios : SplitRatioMap) (rect : Geometry)
      → 1 ≤ n
      → IsSlim padding border_width
      → IsBox rect
      → IsRoomy (prepare_tree ops LayoutStrategy.master_stack n r ratios) rect
      → let rects =
          compute_geometries ops padding border_width
            (prepare_tree ops LayoutStrategy.master_stack n r ratios)
            rect in
        All (IsSlotOf rect) rects × IsPairwiseDisjoint rects
  compute_geometries-IsTiling n r ratios rect h slim b room =
      let tree = prepare_tree ops LayoutStrategy.master_stack n r ratios in
      rw (compute_geometries-slots ops padding border_width n r ratios rect h).0
        (slots_tile tree rect slim b room)
