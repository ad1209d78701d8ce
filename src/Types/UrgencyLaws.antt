-- ===== src/Types/UrgencyLaws.antt =====
-- The operations of Urgency (src/lwm/core/types.hpp) against sets of sources.
use lwm.Base.{ℕ, zero, suc, ◌<◌, ◌≡◌, Bool, true, false, not, ◌&&◌, ◌||◌, arith}
use lwm.Types.Urgency.{UrgencySource, wm_initiated, app, Urgency, active, has, add, remove, clear}

abbrev pub same_source : UrgencySource → UrgencySource → Bool
same_source wm_initiated wm_initiated = true
same_source app app = true
same_source _ _ = false

-- What the operations do to a set of sources.
pub record IsSetOf (u : Urgency) (s t : UrgencySource) : Type 0 where
  pub has_add : has (add u s).0 t ≡ (same_source s t || has u t)
  pub add_changes : (add u s).1 ≡ not (has u s)
  pub has_remove : has (remove u s).0 t ≡ (not (same_source s t) && has u t)
  pub remove_changes : (remove u s).1 ≡ has u s
  pub has_clear : has (clear u).0 t ≡ false
  pub clear_changes : (clear u).1 ≡ (has u wm_initiated || has u app)
  pub active_any : active u ≡ (has u wm_initiated || has u app)
  pub add_flags : (add u s).0.sources < 4
  pub remove_flags : (remove u s).0.sources < 4

-- Each of the four sets.
IsSetOf-value : (x : ℕ) (s t : UrgencySource) → x < 4 → IsSetOf (record { sources = x }) s t
unfolding has add remove clear active
IsSetOf-value zero s t h = ground arith
IsSetOf-value (suc zero) s t h = ground arith
IsSetOf-value (suc (suc zero)) s t h = ground arith
IsSetOf-value (suc (suc (suc zero))) s t h = ground arith
IsSetOf-value (suc (suc (suc (suc x)))) s t h = absurd (omega arith)

-- A pair of flags is a set of sources: a source is in it after it is added, and not after it is
-- removed or all are cleared, other sources are left alone, each operation tells whether the set
-- has changed, and the set is active while it has a source. No other bit is ever set.
pub Urgency-IsSetOf : (u : Urgency) (s t : UrgencySource) → u.sources < 4 → IsSetOf u s t
Urgency-IsSetOf u s t h = IsSetOf-value u.sources s t h
