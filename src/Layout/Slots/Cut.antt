-- ===== src/Layout/Slots/Cut.antt =====
-- One axis of a division in numbers: where the two parts begin and end.
use lwm.Base.{ℕ, ◌+◌, ◌*◌, ◌-◌, ◌≤◌, ◌<◌, ◌≡◌, ap, ◌∙◌, arith}
use lwm.Base.Int.{
  ℤ, pos, negsuc, ◌+ℤ◌, ◌-ℤ◌, ◌≤ℤ◌, max_ℤ, to_i16, to_u16, to_i32, IsI16, int_laws, to_i16_id,
  IsI16-between,
}
use lwm.Types.{Double}
use lwm.Layout.Tree.{DoubleOps}
use lwm.Layout.Slots.{gap_of, divide}

-- Padding and border together stay within the range of int32_t.
abbrev pub IsSlim : ℕ → ℕ → Type 0
IsSlim padding border_width = padding + 2 * border_width < 2147483648

pub gap_of_slim :
    (padding border_width : ℕ)
    → IsSlim padding border_width
    → gap_of padding border_width ≡ pos (padding + 2 * border_width)
unfolding gap_of to_i32
gap_of_slim padding border_width h = ground arith

-- The extents of a division in numbers, where neither part is empty.
pub record Cut (start : ℤ) (extent gap : ℕ) (first second second_start : ℤ) : Type 0 where
  pub left : ℕ
  pub right : ℕ
  pub left_is : to_u16 (max_ℤ (pos 1) first) ≡ left
  pub right_is : to_u16 (max_ℤ (pos 1) second) ≡ right
  pub start_is : to_i16 second_start ≡ start +ℤ pos (left + gap)
  pub whole : left + gap + right ≡ extent
  pub left_pos : 1 ≤ left
  pub right_pos : 1 ≤ right

shift_shift : (x : ℤ) (a b : ℕ) → x +ℤ pos a +ℤ pos b ≡ x +ℤ pos (a + b)
unfolding ◌+ℤ◌
shift_shift x a b = ground arith

Cut-numbers :
    (start : ℤ) (extent gap : ℕ) (first : ℤ)
    → extent < 65536
    → IsI16 start
    → IsI16 (start +ℤ pos extent)
    → pos 1 ≤ℤ first
    → pos 1 ≤ℤ max_ℤ (pos 0) (pos extent -ℤ pos gap) -ℤ first
    → Cut start extent gap first
        (max_ℤ (pos 0) (pos extent -ℤ pos gap) -ℤ first)
        ((start +ℤ first) +ℤ pos gap)
unfolding ◌+ℤ◌ ◌-ℤ◌ max_ℤ to_u16
Cut-numbers start extent gap (pos a) f i j l r =
    let room : a + gap + 1 ≤ extent = ground arith in
    record {
      left = a;
      right = extent - gap - a;
      left_is = ground arith;
      right_is = ground arith;
      start_is =
          rw (shift_shift start a gap)
            (to_i16_id _ (IsI16-between start (a + gap) extent i j (omega arith)));
      whole = omega arith;
      left_pos = ground arith;
      right_pos = omega arith;
    }
Cut-numbers start extent gap (negsuc a) f i j l r = ground arith

-- Both parts of the division are at least one pixel wide.
abbrev pub IsWide : DoubleOps → ℤ → ℕ → Double → ℤ → Type 0
IsWide ops start extent ratio gap =
    (pos 1 ≤ℤ (divide ops start extent ratio gap).first_extent)
    × (pos 1 ≤ℤ (divide ops start extent ratio gap).second_extent)

pub divide-Cut :
    (ops : DoubleOps) (start : ℤ) (extent k : ℕ) (ratio : Double) (gap : ℤ)
    → gap ≡ pos k
    → extent < 65536
    → IsI16 start
    → IsI16 (start +ℤ pos extent)
    → IsWide ops start extent ratio gap
    → Cut start extent k
        (divide ops start extent ratio gap).first_extent
        (divide ops start extent ratio gap).second_extent
        (divide ops start extent ratio gap).second_start
unfolding divide
divide-Cut ops start extent k ratio gap e f i j =
    rw e (λ (h : IsWide ops start extent ratio (pos k)).
      Cut-numbers start extent k (ops.floor_scale (max_ℤ (pos 0) (pos extent -ℤ pos k)) ratio) f i j
        h.0 h.1)

-- Where an axis from `x` over `w` is cut into `l` and `r` with a gap between.
pub record Sides (x : ℤ) (l gap r w : ℕ) : Type 0 where
  pub first_end : IsI16 (x +ℤ pos l)
  pub second_start : IsI16 (x +ℤ pos (l + gap))
  pub second_end : (x +ℤ pos (l + gap)) +ℤ pos r ≡ x +ℤ pos w
  pub first_within : x +ℤ pos l ≤ℤ x +ℤ pos w
  pub second_within : x ≤ℤ x +ℤ pos (l + gap)
  pub apart : x +ℤ pos l ≤ℤ x +ℤ pos (l + gap)

pub sides :
    (x : ℤ) (l gap r w : ℕ) → IsI16 x → IsI16 (x +ℤ pos w) → l + gap + r ≡ w → Sides x l gap r w
sides x l gap r w i j e = record {
  first_end = IsI16-between x l w i j (omega arith);
  second_start = IsI16-between x (l + gap) w i j (omega arith);
  second_end = shift_shift x (l + gap) r ∙ ap (λ (n : ℕ). x +ℤ pos n) e;
  first_within = omega int_laws;
  second_within = omega int_laws;
  apart = omega int_laws;
}
