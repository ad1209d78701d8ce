-- ===== src/Types/Urgency.antt =====
-- struct Urgency of src/lwm/core/types.hpp: who asks for attention, as a set of flags in a uint8_t.
use Prim.Native.Nat.{bit_and, bit_or}
use lwm.Base.{ℕ, ◌-◌, Bool, not, ◌==◌}

pub data UrgencySource : Type 0 where
  wm_initiated app : UrgencySource

abbrev pub source_bit : UrgencySource → ℕ
source_bit wm_initiated = 1
source_bit app = 2

pub record Urgency : Type 0 where
  pub sources : ℕ  -- uint8_t

unfoldable pub active : Urgency → Bool
active u = not (u.sources == 0)

unfoldable pub has : Urgency → UrgencySource → Bool
has u source = not (bit_and u.sources (source_bit source) == 0)

-- The new set, and whether it has changed.
unfoldable pub add : Urgency → UrgencySource → Urgency × Bool
add u source = (
  record { sources = bit_or u.sources (source_bit source) },
  bit_and u.sources (source_bit source) == 0,
)

unfoldable pub remove : Urgency → UrgencySource → Urgency × Bool
remove u source = (
  record { sources = bit_and u.sources (255 - source_bit source) },
  not (bit_and u.sources (source_bit source) == 0),
)

unfoldable pub clear : Urgency → Urgency × Bool
clear u = (record { sources = 0 }, not (u.sources == 0))
