-- ===== src/Base/Int.antt =====
-- Signed integers over the native numbers (`int32_t` arithmetic that stays in range), the C++
-- casts between widths, `std::min`, `std::max`, `std::clamp` and the division of C++.
use Prim.Native.Nat.{ℕ, suc, ◌+◌, ◌-◌, ◌/◌, ◌%◌, ◌≤◌, ◌<◌}
use mathlib.Core.Bool.{Bool}
use mathlib.Core.Path.{◌≡◌}
use native.Mathlib.Omega.{arith}
use lwm.Base.Tests.{ltb, leb, ◌==◌, if◌then◌else◌}

-- `negsuc n` is -(n + 1).
pub data ℤ : Type 0 where
  pos : ℕ → ℤ
  negsuc : ℕ → ℤ

abbrev pub pos_part : ℤ → ℕ
pos_part (pos n) = n
pos_part (negsuc n) = 0

abbrev pub neg_part : ℤ → ℕ
neg_part (pos n) = 0
neg_part (negsuc n) = suc n

abbrev pub sub_ℕ : ℕ → ℕ → ℤ
sub_ℕ a b = if leb b a then pos (a - b) else negsuc (b - a - 1)

infixl 65 ◌+ℤ◌ ◌-ℤ◌
infix 50 ◌≤ℤ◌ ◌<ℤ◌
unfoldable pub ◌+ℤ◌ : ℤ → ℤ → ℤ
a +ℤ b = sub_ℕ (pos_part a + pos_part b) (neg_part a + neg_part b)

unfoldable pub ◌-ℤ◌ : ℤ → ℤ → ℤ
a -ℤ b = sub_ℕ (pos_part a + neg_part b) (neg_part a + pos_part b)

abbrev pub ◌≤ℤ◌ : ℤ → ℤ → Type 0
a ≤ℤ b = pos_part a + neg_part b ≤ pos_part b + neg_part a

abbrev pub ◌<ℤ◌ : ℤ → ℤ → Type 0
a <ℤ b = pos_part a + neg_part b < pos_part b + neg_part a

abbrev pub ltb_ℤ : ℤ → ℤ → Bool
ltb_ℤ a b = ltb (pos_part a + neg_part b) (pos_part b + neg_part a)

abbrev pub leb_ℤ : ℤ → ℤ → Bool
leb_ℤ a b = leb (pos_part a + neg_part b) (pos_part b + neg_part a)

abbrev pub same_ℤ : ℤ → ℤ → Bool
same_ℤ a b = pos_part a + neg_part b == pos_part b + neg_part a

unfoldable pub min_ℤ : ℤ → ℤ → ℤ
min_ℤ a b = if ltb_ℤ b a then b else a

unfoldable pub max_ℤ : ℤ → ℤ → ℤ
max_ℤ a b = if ltb_ℤ a b then b else a

-- std::clamp(v, lo, hi)
unfoldable pub clamp_ℤ : ℤ → ℤ → ℤ → ℤ
clamp_ℤ v lo hi = if ltb_ℤ v lo then lo else if ltb_ℤ hi v then hi else v

-- v / 2, which rounds towards zero.
unfoldable pub half_ℤ : ℤ → ℤ
half_ℤ a = sub_ℕ (pos_part a / 2) (neg_part a / 2)

-- The residue of an integer modulo 2^16, as in static_cast<uint16_t>.
unfoldable pub to_u16 : ℤ → ℕ
to_u16 (pos n) = n % 65536
to_u16 (negsuc n) = 65535 - n % 65536

-- static_cast<int16_t>
unfoldable pub to_i16 : ℤ → ℤ
unfolding to_u16
to_i16 a = if ltb (to_u16 a) 32768 then pos (to_u16 a) else negsuc (65535 - to_u16 a)

-- static_cast<int32_t> of a uint32_t
unfoldable pub to_i32 : ℕ → ℤ
to_i32 n =
    if ltb (n % 4294967296) 2147483648
    then pos (n % 4294967296)
    else negsuc (4294967295 - n % 4294967296)

-- static_cast<long long> of a uint64_t
unfoldable pub to_i64 : ℕ → ℤ
to_i64 n = if ltb n 9223372036854775808 then pos n else negsuc (18446744073709551615 - n)

abbrev pub IsI16 : ℤ → Type 0
IsI16 a = (pos_part a < 32768) × (neg_part a ≤ 32768)

pub +ℤ_parts :
    (a b : ℤ)
    → pos_part (a +ℤ b) + neg_part a + neg_part b ≡ neg_part (a +ℤ b) + pos_part a + pos_part b
unfolding ◌+ℤ◌
+ℤ_parts a b = ground arith

pub -ℤ_parts :
    (a b : ℤ)
    → pos_part (a -ℤ b) + neg_part a + pos_part b ≡ neg_part (a -ℤ b) + pos_part a + neg_part b
unfolding ◌-ℤ◌
-ℤ_parts a b = ground arith

pub eq_of_parts : (a b : ℤ) → pos_part a + neg_part b ≡ pos_part b + neg_part a → a ≡ b
eq_of_parts a b h = ground arith

pub ruleset int_laws = (arith, +ℤ_parts, -ℤ_parts, eq_of_parts)

-- A value that an int16_t can hold is left as it is.
pub to_i16_id : (a : ℤ) → IsI16 a → to_i16 a ≡ a
unfolding to_i16
to_i16_id (pos n) h = ground arith
to_i16_id (negsuc n) h = ground arith

pub to_i16-IsI16 : (a : ℤ) → IsI16 (to_i16 a)
unfolding to_i16
to_i16-IsI16 (pos n) = ground arith
to_i16-IsI16 (negsuc n) = ground arith

pub clamp_bounds : (v lo hi : ℤ) → lo ≤ℤ hi → (lo ≤ℤ clamp_ℤ v lo hi) × (clamp_ℤ v lo hi ≤ℤ hi)
unfolding clamp_ℤ
clamp_bounds v lo hi h = ground arith

pub clamp_id : (v lo hi : ℤ) → lo ≤ℤ v → v ≤ℤ hi → clamp_ℤ v lo hi ≡ v
unfolding clamp_ℤ
clamp_id v lo hi h k = ground arith

pub IsI16-between : (x : ℤ) (o w : ℕ) → IsI16 x → IsI16 (x +ℤ pos w) → o ≤ w → IsI16 (x +ℤ pos o)
unfolding ◌+ℤ◌
IsI16-between x o w p q l = ground arith
