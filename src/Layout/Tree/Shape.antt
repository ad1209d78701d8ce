-- ===== src/Layout/Tree/Shape.antt =====
-- On the tree of src/lwm/layout/strategy.cpp: its leaves from left to right.
use lwm.Base.{
  ℕ, zero, suc, ◌+◌, ◌-◌, ◌≤◌, ◌≡◌, refl, ap, ◌∙◌, false, List, [], ◌∷◌, ◌++◌, leb, ◌==◌, arith,
}
use lwm.Types.{Double, LayoutStrategy, SplitRatioMap}
use lwm.Layout.Tree.{
  DoubleOps, TreeNode, leaf, split, overlay_ratios, stack_loop, build_master_stack, prepare_tree,
  build_layout_tree,
}

-- The windows of a tree, from left to right and from top to bottom.
abbrev pub leaves : TreeNode → List ℕ
leaves (leaf i) = i ∷ []
leaves (split d r left right) = leaves left ++ leaves right

-- `n` numbers from `i` on.
abbrev pub count_from : ℕ → ℕ → List ℕ
count_from i zero = []
count_from i (suc n) = i ∷ count_from (suc i) n

-- The ratios that are kept change no window's place in the tree.
pub leaves-overlay_ratios :
    (t : TreeNode) (ratios : SplitRatioMap) (depth path : ℕ)
    → leaves (overlay_ratios t ratios depth path) ≡ leaves t
unfolding overlay_ratios
leaves-overlay_ratios (leaf i) ratios depth path = refl
leaves-overlay_ratios (split d r a b) ratios depth path =
    rw (leaves-overlay_ratios a, leaves-overlay_ratios b)

module _ (ops : DoubleOps) where
  leaves-stack_loop :
      (k sc n : ℕ) (t : TreeNode)
      → leaves t ≡ count_from (suc k) n
      → leaves (stack_loop ops k sc t) ≡ count_from 1 (k + n)
  unfolding stack_loop
  leaves-stack_loop zero sc n t h = h ∙ ap (count_from 1) (omega arith)
  leaves-stack_loop (suc k) sc n t h =
      leaves-stack_loop k sc (suc n) _ (rw h) ∙ ap (count_from 1) (omega arith)

  leaves-build : (n : ℕ) (r : Double) → 1 ≤ n → leaves (build_master_stack ops n r) ≡ count_from 0 n
  unfolding build_master_stack
  leaves-build zero r h = absurd (omega arith)
  leaves-build (suc zero) r h = refl
  leaves-build (suc (suc zero)) r h = refl
  leaves-build (suc (suc (suc k))) r h =
      let n : ℕ = suc (suc (suc k)) in
      let big : leb n 1 ≡ false = ground arith in
      let many : (n == 2) ≡ false = ground arith in
      let chain =
        leaves-stack_loop (n - 1 - 1) (n - 1) 1 (leaf (n - 1))
          (ap (λ (i : ℕ). i ∷ []) (omega arith)) in
      let all : n - 1 - 1 + 1 ≡ suc (suc k) = omega arith in
      rw (big, many) (ap (◌∷◌ 0) (chain ∙ ap (count_from 1) all))

  -- The tree of a workspace in the master-stack layout has one leaf for each window, in the order
  -- of the windows, whatever ratios are kept.
  pub leaves-prepare_tree :
      (n : ℕ) (r : Double) (ratios : SplitRatioMap)
      → 1 ≤ n
      → leaves (prepare_tree ops LayoutStrategy.master_stack n r ratios) ≡ count_from 0 n
  unfolding prepare_tree build_layout_tree
  leaves-prepare_tree n r ratios h =
      leaves-overlay_ratios (build_master_stack ops n r) ratios 0 0 ∙ leaves-build n r h
