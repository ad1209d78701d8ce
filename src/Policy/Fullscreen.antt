-- ===== src/Policy/Fullscreen.antt =====
-- namespace fullscreen_policy of src/lwm/core/policy.hpp: which window owns the fullscreen of a
-- monitor.
pub mod Owner
mod Tests
use lwm.Base.{ℕ, Bool, true, false, ◌&&◌, ◌||◌, List, [], ◌∷◌, ltb, ◌==◌, if◌then◌else◌}
use lwm.Types.{xcb_none}

pub record FullscreenCandidate : Type 0 where
  pub window : ℕ
  pub eligible : Bool
  pub order : ℕ

-- The first loop: some candidate is the window, and eligible.
unfoldable pub is_offered : ℕ → List FullscreenCandidate → Bool
is_offered w [] = false
is_offered w (c ∷ cs) = (c.window == w && c.eligible) || is_offered w cs

-- The second loop, on its variables `best` and `best_order`.
unfoldable pub best_of : ℕ → ℕ → List FullscreenCandidate → ℕ
best_of best best_order [] = best
best_of best best_order (c ∷ cs) =
    let take = c.eligible && (best == xcb_none || ltb best_order c.order) in
    best_of (if take then c.window else best) (if take then c.order else best_order) cs

unfoldable pub select_owner : ℕ → List FullscreenCandidate → ℕ
select_owner current_owner candidates =
    if is_offered current_owner candidates then current_owner else best_of xcb_none 0 candidates
