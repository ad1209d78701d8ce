-- ===== src/Layout/Grab/Reach.antt =====
-- On hit_test_split of src/lwm/layout/split_tree.cpp: the borders within reach of the pointer.
use lwm.Base.{
  ℕ, suc, ◌≤◌, ◌<◌, ◌≡◌, refl, Bool, ◌&&◌, not, true, false, ◌⊎◌, inl, inr, Option, none, some,
  List, [], ◌∷◌, get_elem?, All, All-imp, Bool-cases, ltb, arith,
}
use lwm.Base.Sort.{keep}
use lwm.Base.Int.{ℤ, pos, leb_ℤ, to_i32}
use lwm.Types.{Geometry}
use lwm.Layout.Tree.{DoubleOps, TreeNode}
use lwm.Layout.Grab.{
  SplitHitResult, border_distance, is_beside, nearest_border, collect_split_borders, hit_test_split,
}

keep-none {ℓ} :
    {A : Type ℓ} (p : A → Bool) (xs : List A) → All (λ (a : A). p a ≡ false) xs → keep p xs ≡ []
keep-none p [] h = refl
keep-none p (x ∷ xs) h = rw (h.0) (keep-none p xs h.1)

keep-All {ℓ κ} :
    {A : Type ℓ} (p : A → Bool) (Q : A → Type κ) (xs : List A)
    → All (λ (a : A). p a ≡ true → Q a) xs
    → All Q (keep p xs)
keep-All p Q [] h = tt
keep-All p Q (x ∷ xs) (hx, h) = elim (Bool-cases (p x)) [
  | inl e ↦ rw e (hx e, keep-All p Q xs h)
  | inr e ↦ rw e (keep-All p Q xs h)
]

module _ (x y : ℤ) where
  abbrev pub gap_to : SplitHitResult → ℕ
  gap_to b = border_distance b.direction b x y

  -- The pointer is alongside the border and not further from it than the threshold.
  abbrev pub in_reach : ℤ → SplitHitResult → Bool
  in_reach thresh b = not (is_beside b x y) && leb_ℤ (pos (gap_to b)) thresh

  -- The loop keeps its candidate, or finds a border in reach that is nearer than it and not
  -- further than any other in reach.
  abbrev Outcome :
      List SplitHitResult → ℤ → Option SplitHitResult → ℕ → Option SplitHitResult → Type 0
  Outcome bs thresh best d r =
      ((r ≡ best) × All (λ (b : SplitHitResult). in_reach thresh b ≡ true → d ≤ gap_to b) bs)
      ⊎ ((k : ℕ) × (g : SplitHitResult) × (r ≡ some g)
          × (get_elem? bs k ≡ some g)
          × (in_reach thresh g ≡ true)
          × (gap_to g < d)
          × All (λ (b : SplitHitResult). in_reach thresh b ≡ true → gap_to g ≤ gap_to b) bs)

  too_far :
      (threshold : ℕ)
      → threshold < 2147483647
      → (b : SplitHitResult) → (in_reach (to_i32 threshold) b ≡ true → 2147483647 ≤ gap_to b)
      → in_reach (to_i32 threshold) b ≡ false
  unfolding to_i32
  too_far threshold h b f = elim (Bool-cases (in_reach (to_i32 threshold) b)) [
    | inl near ↦ let far = f near in absurd (ground (arith, near, far))
    | inr away ↦ away
  ]

  nearest_border-Outcome :
      (bs : List SplitHitResult) (thresh : ℤ) (best : Option SplitHitResult) (d : ℕ)
      → Outcome bs thresh best d (nearest_border bs x y thresh best d)
  unfolding nearest_border
  nearest_border-Outcome [] thresh best d = inl (refl, tt)
  nearest_border-Outcome (b ∷ bs) thresh best d =
      elim (Bool-cases
        (not (is_beside b x y) && leb_ℤ (pos (gap_to b)) thresh && ltb (gap_to b) d)) [
          | inl hit ↦ rw hit (elim (nearest_border-Outcome bs thresh (some b) (gap_to b)) [
            | inl (same, far) ↦ inr (
              0,
              b,
              same,
              refl,
              ground (arith, hit),
              ground (arith, hit),
              (λ _. omega arith, far),
            )
            | inr (k, g, at, is, near, less, far) ↦
                inr (suc k, g, at, is, near, ground (arith, hit, less), (λ _. omega arith, far))
          ])
          | inr miss ↦ rw miss (elim (nearest_border-Outcome bs thresh best d) [
            | inl (same, far) ↦ inl (same, (λ h. ground (arith, h, miss), far))
            | inr (k, g, at, is, near, less, far) ↦
                inr (suc k, g, at, is, near, less, (λ h. ground (arith, h, miss, less), far))
          ])
        ]

  -- For a threshold below the largest int32_t, with the sums of int32_t taken as exact: no border is
  -- grabbed where none is in reach of the pointer. Otherwise the one that is grabbed is a border of the tree, the pointer is alongside it
  -- and within the threshold, and no border in reach is nearer.
  pub hit_test_split-nearest :
      (ops : DoubleOps) (t : TreeNode) (rect : Geometry) (padding border_width threshold : ℕ)
      → threshold < 2147483647
      → let bs = collect_split_borders ops padding border_width t rect 0 0 in
        let hit = hit_test_split ops t rect padding border_width x y threshold in
        ((hit ≡ none) × (keep (in_reach (to_i32 threshold)) bs ≡ []))
        ⊎ ((k : ℕ) × (g : SplitHitResult) × (hit ≡ some g)
            × (get_elem? bs k ≡ some g)
            × (in_reach (to_i32 threshold) g ≡ true)
            × All
                (λ (b : SplitHitResult). gap_to g ≤ gap_to b)
                (keep (in_reach (to_i32 threshold)) bs))
  unfolding hit_test_split
  hit_test_split-nearest ops t rect padding border_width threshold h =
      let bs = collect_split_borders ops padding border_width t rect 0 0 in
      let reach = in_reach (to_i32 threshold) in
      elim (nearest_border-Outcome bs (to_i32 threshold) none 2147483647) [
        | inl (same, far) ↦
            inl (same, keep-none reach bs (All-imp _ _ bs (too_far threshold h) far))
        | inr (k, g, at, is, near, less, far) ↦ inr (
          k,
          g,
          at,
          is,
          near,
          keep-All reach (λ (b : SplitHitResult). gap_to g ≤ gap_to b) bs far,
        )
      ]
