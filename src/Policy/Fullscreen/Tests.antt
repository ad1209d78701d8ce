-- ===== src/Policy/Fullscreen/Tests.antt =====
-- Candidates for the fullscreen of a monitor, on which the theorem is applied.
use lwm.Base.{◌≡◌, ◌⊎◌, refl, true, false, List, [], ◌∷◌, All, arith}
use lwm.Types.{xcb_none}
use lwm.Policy.Fullscreen.{FullscreenCandidate, is_offered, best_of, select_owner}
use lwm.Policy.Fullscreen.Owner.{IsLatest, select_owner-latest}

abbrev three : List FullscreenCandidate
three =
    record { window = 5; eligible = true; order = 2 }
    ∷ record { window = 6; eligible = true; order = 8 }
    ∷ record { window = 7; eligible = false; order = 9 }
    ∷ []

owners : (select_owner 5 three ≡ 5) × (select_owner 7 three ≡ 6) × (select_owner 5 [] ≡ 0)
unfolding select_owner is_offered best_of
owners = (refl, refl, refl)

select_owner-latest_example :
    ((is_offered 7 three ≡ true) × (select_owner 7 three ≡ 7))
    ⊎ ((is_offered 7 three ≡ false)
        × (((select_owner 7 three ≡ xcb_none) × All (λ c. c.eligible ≡ false) three)
            ⊎ IsLatest three (select_owner 7 three)))
select_owner-latest_example = select_owner-latest 7 three (omega arith)
