-- ===== src/Layout/Arrange.antt =====
-- Layout::arrange and Layout::drop_target_index of src/lwm/layout/layout.cpp. The requests to the
-- X server are the list of the windows that are configured, with their new geometry.
pub mod Nearest
use mathlib.Core.List.{map}
use lwm.Base.{
  ℕ, zero, suc, ◌+◌, ◌*◌, ◌<◌, Bool, ◌&&◌, false, Option, none, some, List, [], ◌∷◌, length, ltb,
  leb, ◌==◌, if◌then◌else◌,
}
use lwm.Base.Int.{ℤ, pos, pos_part, neg_part, ◌+ℤ◌, ◌-ℤ◌, ltb_ℤ, same_ℤ}
use lwm.Types.{Double, Geometry, LayoutStrategy, SplitRatioMap}
use lwm.Layout.Tree.{DoubleOps, prepare_tree}
use lwm.Layout.Slots.{working_area_to_content_rect, compute_geometries}

-- The fields of AppearanceConfig and LayoutConfig that the layout reads.
pub record LayoutSettings : Type 0 where
  pub padding : ℕ
  pub border_width : ℕ
  pub default_ratio : Double
  pub resize_grab_threshold : ℕ

-- The call of configure_window for a window.
pub record Configure : Type 0 where
  pub window : ℕ
  pub geometry : Geometry

unfoldable pub content_rect : LayoutSettings → Geometry → Geometry
content_rect s wa = working_area_to_content_rect wa s.padding s.border_width

-- slots.assign(n, cr)
abbrev pub repeat : ℕ → Geometry → List Geometry
repeat zero g = []
repeat (suc n) g = g ∷ repeat n g

unfoldable pub apply_size_hints : Geometry → Geometry
apply_size_hints g = record g {
  width = (if ltb g.width 1 then 1 else g.width);
  height = (if ltb g.height 1 then 1 else g.height);
}

unfoldable pub same_geometry : Geometry → Geometry → Bool
same_geometry old g =
    same_ℤ old.x g.x && same_ℤ old.y g.y && old.width == g.width && old.height == g.height

-- The slots with their size hints, and the calls of configure_window, where `old` holds the old
-- geometries of the windows that have one.
unfoldable pub apply_slots : List ℕ → List Geometry → List Geometry → List Geometry × List Configure
apply_slots [] slots old = (slots, [])
apply_slots (w ∷ ws) [] old = ([], [])
apply_slots (w ∷ ws) (g ∷ slots) [] =
    let (gs, calls) = apply_slots ws slots [] in
    (apply_size_hints g ∷ gs, record { window = w; geometry = apply_size_hints g } ∷ calls)
apply_slots (w ∷ ws) (g ∷ slots) (o ∷ old) =
    let (gs, calls) = apply_slots ws slots old in
    (
      apply_size_hints g ∷ gs,
      if same_geometry o (apply_size_hints g)
          then calls
          else record { window = w; geometry = apply_size_hints g } ∷ calls,
    )

-- The distance of a coordinate from an interval: dx, dy
unfoldable pub axis_gap : ℤ → ℤ → ℤ → ℤ
axis_gap p low high = if ltb_ℤ p low then low -ℤ p else if ltb_ℤ high p then p -ℤ high else pos 0

abbrev pub square : ℤ → ℕ
square a = (pos_part a + neg_part a) * (pos_part a + neg_part a)

unfoldable pub slot_distance : Geometry → ℤ → ℤ → ℕ
slot_distance slot x y =
    square (axis_gap x slot.x (slot.x +ℤ pos slot.width))
    + square (axis_gap y slot.y (slot.y +ℤ pos slot.height))

-- The loop of nearest_slot_index from the slot `i` on.
unfoldable pub nearest_from : List Geometry → ℤ → ℤ → ℕ → ℕ → ℕ → ℕ
nearest_from [] x y i best_idx best_dist = best_idx
nearest_from (slot ∷ slots) x y i best_idx best_dist =
    let dist = slot_distance slot x y in
    let closer = ltb dist best_dist in
    nearest_from slots x y (i + 1) (if closer then i else best_idx)
      (if closer then dist else best_dist)

unfoldable pub nearest_slot_index : List Geometry → ℤ → ℤ → ℕ
nearest_slot_index slots x y = nearest_from slots x y 0 0 9223372036854775807

module _ (ops : DoubleOps) (settings : LayoutSettings) where
  -- The slots of a number of windows, which is not zero.
  unfoldable pub slots_of : ℕ → Geometry → LayoutStrategy → SplitRatioMap → List Geometry
  slots_of n geometry LayoutStrategy.monocle ratios = repeat n (content_rect settings geometry)
  slots_of n geometry LayoutStrategy.master_stack ratios =
      compute_geometries ops settings.padding settings.border_width
        (prepare_tree ops LayoutStrategy.master_stack n settings.default_ratio ratios)
        (content_rect settings geometry)

  -- `old` is empty where no old geometries are given.
  unfoldable pub arrange :
      List ℕ
      → Geometry
      → LayoutStrategy
      → SplitRatioMap
      → List Geometry
      → List Geometry × List Configure
  arrange [] geometry strategy ratios old = ([], [])
  arrange (w ∷ ws) geometry strategy ratios old =
      apply_slots (w ∷ ws) (slots_of (length (w ∷ ws)) geometry strategy ratios) old

  unfoldable pub drop_target_index : ℕ → Geometry → LayoutStrategy → SplitRatioMap → ℤ → ℤ → ℕ
  drop_target_index count geometry LayoutStrategy.monocle ratios x y = 0
  drop_target_index count geometry LayoutStrategy.master_stack ratios x y =
      if count == 0
      then 0
      else nearest_slot_index (slots_of count geometry LayoutStrategy.master_stack ratios) x y
