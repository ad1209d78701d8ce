-- ===== src/Policy/Ewmh/RoundTrip.antt =====
-- A desktop number and the indices that it stands for.
use native.Mathlib.Nat.{div-add-mod', mod-lt}
use lwm.Base.{ℕ, ◌+◌, ◌*◌, ◌/◌, ◌%◌, ◌^◌, ◌<◌, ◌≡◌, some, arith}
use lwm.Policy.Ewmh.{desktop_index, desktop_to_indices}

mul-add-div : (m w n : ℕ) → w < n → (m * n + w) / n ≡ m
mul-add-div m w n h = grind arith

mul-add-mod : (m w n : ℕ) → w < n → (m * n + w) % n ≡ w
mul-add-mod m w n h = grind arith

-- The desktop number of a workspace stands for that workspace, as long as the monitor's
-- workspaces are counted from it and the numbers fit into 32 bits.
pub desktop_to_indices-desktop_index :
    (m w n : ℕ)
    → w < n
    → m * n + w < 2 ^ 32
    → desktop_to_indices (desktop_index m w n) n ≡ some (m, w)
unfolding desktop_index desktop_to_indices
desktop_to_indices-desktop_index m w n h fits =
    let whole : (m * n + w) % 2 ^ 64 % 2 ^ 32 ≡ m * n + w = omega arith in
    rw whole (ground (arith, mul-add-div m w n h, mul-add-mod m w n h))

-- Every 32-bit desktop number stands for a pair of indices with that number, the second of them a
-- workspace of a monitor with the given count.
pub desktop_index-desktop_to_indices :
    (d n m w : ℕ)
    → d < 2 ^ 32
    → desktop_to_indices d n ≡ some (m, w)
    → (desktop_index m w n ≡ d) × (w < n)
unfolding desktop_index desktop_to_indices
desktop_index-desktop_to_indices d n m w fits h = ground (arith, div-add-mod' d n, mod-lt d {m = n})
