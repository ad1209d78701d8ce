-- ===== src/Layout/Slots/Arrange.antt =====
-- On compute_geometries of src/lwm/layout/split_tree.cpp: the order and the number of the slots.
use mathlib.Core.List.{append_assoc, tail}
use mathlib.Core.Path.{ap₂}
use lwm.Base.{
  ℕ, zero, suc, ◌+◌, ◌≤◌, ◌≡◌, refl, sym, ap, ◌∙◌, true, List, [], ◌∷◌, ◌++◌, length, length-append,
  set, leb, arith,
}
use lwm.Types.{Double, Geometry, LayoutStrategy, SplitRatioMap}
use lwm.Layout.Tree.{DoubleOps, TreeNode, leaf, split, prepare_tree}
use lwm.Layout.Tree.Shape.{leaves, count_from, leaves-prepare_tree}
use lwm.Layout.Slots.{subdivide, grow, store, compute_geometries_impl, compute_geometries}

set-grow :
    (out : List Geometry) (g : Geometry)
    → set (grow out (suc (length out))) (length out) g ≡ out ++ g ∷ []
set-grow [] g = refl
set-grow (h ∷ out) g = ap (◌∷◌ h) (set-grow out g)

store-end : (out : List Geometry) (g : Geometry) → store out (length out) g ≡ out ++ g ∷ []
store-end out g =
    let full : leb (length out) (length out) ≡ true = ground arith in
    let next : length out + 1 ≡ suc (length out) = omega arith in rw (full, next) (set-grow out g)

length-count_from : (k n : ℕ) → length (count_from k n) ≡ n
length-count_from k zero = refl
length-count_from k (suc n) = ap suc (length-count_from (suc k) n)

whole : (ys : List ℕ) (k n : ℕ) → ys ≡ count_from k n → ys ≡ count_from (k + 0) (length ys)
whole ys k n h =
    let size : length ys ≡ n = ap length h ∙ length-count_from k n in
    let start : k + 0 ≡ k = omega arith in rw (size, start) h

-- Where an interval is cut in two, both parts are intervals.
count_from-cut :
    (xs ys : List ℕ) (k n : ℕ)
    → xs ++ ys ≡ count_from k n
    → (xs ≡ count_from k (length xs)) × (ys ≡ count_from (k + length xs) (length ys))
count_from-cut [] ys k n h = (refl, whole ys k n h)
count_from-cut (x ∷ xs) ys k zero h = cc
count_from-cut (x ∷ xs) ys k (suc n) h =
    let (hx, hy) = count_from-cut xs ys (suc k) n (ap tail h) in
    (ap₂ ◌∷◌ (ground (arith, h)) hx, hy ∙ ap (λ (i : ℕ). count_from i (length ys)) (omega arith))

module _ (ops : DoubleOps) (padding border_width : ℕ) where
  -- The rectangles of the leaves, from left to right and from top to bottom.
  abbrev pub slots : TreeNode → Geometry → List Geometry
  slots (leaf i) rect = rect ∷ []
  slots (split d r left right) rect =
      slots left (subdivide ops rect d r padding border_width).left_rect
      ++ slots right (subdivide ops rect d r padding border_width).right_rect

  length-slots : (t : TreeNode) (rect : Geometry) → length (slots t rect) ≡ length (leaves t)
  length-slots (leaf i) rect = refl
  length-slots (split d r a b) rect =
      let parts = subdivide ops rect d r padding border_width in
      omega (
        arith,
        length-append (slots a parts.left_rect) (slots b parts.right_rect),
        length-append (leaves a) (leaves b),
        length-slots a parts.left_rect,
        length-slots b parts.right_rect,
      )

  impl-slots :
      (t : TreeNode) (rect : Geometry) (out : List Geometry)
      → leaves t ≡ count_from (length out) (length (leaves t))
      → compute_geometries_impl ops padding border_width t rect out ≡ out ++ slots t rect
  unfolding compute_geometries_impl
  impl-slots (leaf i) rect out h =
      let i_last : i ≡ length out = ground (arith, h) in rw i_last (store-end out rect)
  impl-slots (split d r a b) rect out h =
      let parts = subdivide ops rect d r padding border_width in
      let (ha, hb) = count_from-cut (leaves a) (leaves b) (length out) _ h in
      let first = impl-slots a parts.left_rect out ha in
      let size = length-append out (slots a parts.left_rect) in
      let count = length-slots a parts.left_rect in
      let next : length out + length (leaves a) ≡ length (out ++ slots a parts.left_rect) =
        omega arith in
      rw first (
        impl-slots b parts.right_rect (out ++ slots a parts.left_rect)
          (hb ∙ ap (λ (i : ℕ). count_from i (length (leaves b))) next)
        ∙ append_assoc out (slots a parts.left_rect) (slots b parts.right_rect))

  -- The geometries computed for a workspace in the master-stack layout are the rectangles of the
  -- leaves of its tree, exactly one for each window, in the order of the windows.
  pub compute_geometries-slots :
      (n : ℕ) (r : Double) (ratios : SplitRatioMap) (rect : Geometry)
      → 1 ≤ n
      → let tree = prepare_tree ops LayoutStrategy.master_stack n r ratios in
        (compute_geometries ops padding border_width tree rect ≡ slots tree rect)
        × (length (compute_geometries ops padding border_width tree rect) ≡ n)
  unfolding compute_geometries
  compute_geometries-slots n r ratios rect h =
      let tree = prepare_tree ops LayoutStrategy.master_stack n r ratios in
      let shape = leaves-prepare_tree ops n r ratios h in
      let size : length (leaves tree) ≡ n = ap length shape ∙ length-count_from 0 n in
      let all = impl-slots tree rect [] (shape ∙ ap (count_from 0) (sym size)) in
      (all, ap length all ∙ (length-slots tree rect ∙ size))
