-- ===== src/Layout/Tree.antt =====
-- The tree of src/lwm/layout/split_tree.hpp, its construction in src/lwm/layout/strategy.cpp, and
-- the ratios that a workspace keeps for its splits. Doubles are bit patterns; what the code
-- computes with them is given by a DoubleOps.
pub mod Shape
use Prim.Native.Nat.{bit_or}
use lwm.Base.{
  ℕ, zero, suc, ◌+◌, ◌-◌, ◌%◌, ◌^◌, Bool, ◌&&◌, Option, none, some, List, [], ◌∷◌, ◌++◌, value_or,
  leb, ◌==◌, if◌then◌else◌,
}
use lwm.Base.Int.{ℤ}
use lwm.Types.{Double, LayoutStrategy, SplitAddress, SplitRatioMap}

-- The operations on doubles that the layout uses.
pub record DoubleOps : Type 0 where
  pub reciprocal : ℕ → Double  -- 1.0 / static_cast<double>(n)
  pub floor_scale : ℤ → Double → ℤ  -- static_cast<int32_t>(std::floor(avail * ratio))

pub data SplitDirection : Type 0 where
  horizontal vertical : SplitDirection

pub data TreeNode : Type 0 where
  leaf : ℕ → TreeNode
  split : SplitDirection → Double → TreeNode → TreeNode → TreeNode

-- ratios.find(addr)
unfoldable pub find_ratio : SplitRatioMap → SplitAddress → Option Double
find_ratio [] a = none
find_ratio ((b, r) ∷ m) a =
    if b.depth == a.depth && b.path == a.path then some r else find_ratio m a

-- The path of the right child: a shift by 32 or more is undefined in the code.
abbrev pub right_path : ℕ → ℕ → ℕ
right_path depth path = bit_or path (2 ^ depth % 2 ^ 32)

unfoldable pub overlay_ratios : TreeNode → SplitRatioMap → ℕ → ℕ → TreeNode
overlay_ratios (leaf i) ratios depth path = leaf i
overlay_ratios (split d r left right) ratios depth path =
    split d (value_or (find_ratio ratios (record { depth = depth; path = path })) r)
      (overlay_ratios left ratios ((depth + 1) % 2 ^ 8) path)
      (overlay_ratios right ratios ((depth + 1) % 2 ^ 8) (right_path depth path))

module _ (ops : DoubleOps) where
  -- The loop from `i` down to 1, on the variable `stack`.
  unfoldable pub stack_loop : ℕ → ℕ → TreeNode → TreeNode
  stack_loop zero stack_count stack = stack
  stack_loop (suc k) stack_count stack =
      stack_loop k stack_count
        (split vertical (ops.reciprocal (stack_count - k)) (leaf (suc k)) stack)

  unfoldable pub build_master_stack : ℕ → Double → TreeNode
  build_master_stack window_count default_ratio =
      if leb window_count 1
      then leaf 0
      else if window_count == 2
      then split horizontal default_ratio (leaf 0) (leaf 1)
      else split horizontal default_ratio (leaf 0)
          (stack_loop (window_count - 1 - 1) (window_count - 1) (leaf (window_count - 1)))

  unfoldable pub build_layout_tree : LayoutStrategy → ℕ → Double → TreeNode
  build_layout_tree LayoutStrategy.master_stack window_count default_ratio =
      build_master_stack window_count default_ratio
  build_layout_tree LayoutStrategy.monocle window_count default_ratio = leaf 0

  -- Layout::prepare_tree of src/lwm/layout/layout.cpp
  unfoldable pub prepare_tree : LayoutStrategy → ℕ → Double → SplitRatioMap → TreeNode
  prepare_tree strategy count default_ratio ratios =
      overlay_ratios (build_layout_tree strategy count default_ratio) ratios 0 0
