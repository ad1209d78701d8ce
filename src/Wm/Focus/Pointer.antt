-- ===== src/Wm/Focus/Pointer.antt =====
-- On pointer_move of src/lwm/core/focus.cpp: the monitor under the pointer.
use lwm.Base.{
  ℕ, suc, ◌+◌, ◌≡◌, ◌≢◌, refl, true, false, ◌⊎◌, inl, inr, Bool-cases, none, some, List, [], ◌∷◌,
  All, get_elem?, ◌==◌, arith,
}
use lwm.Base.Int.{ℤ}
use lwm.Types.{Monitor}
use lwm.Wm.Focus.{
  is_at_point, index_at_point, monitor_index_at_point, unchanged, monitor_changed_clear_focus,
  pointer_move,
}

index_at_point_cases :
    (ms : List Monitor) (x y : ℤ) (i : ℕ)
    → ((index_at_point ms x y i ≡ none) × All (λ (m : Monitor). is_at_point m x y ≡ false) ms)
      ⊎ ((k : ℕ) × (m : Monitor) × (index_at_point ms x y i ≡ some (i + k))
          × (get_elem? ms k ≡ some m)
          × (is_at_point m x y ≡ true))
unfolding index_at_point
index_at_point_cases [] x y i = inl (refl, tt)
index_at_point_cases (m ∷ ms) x y i = elim (Bool-cases (is_at_point m x y)) [
  | inl e ↦ inr (0, m, ground (arith, e), refl, e)
  | inr e ↦ elim (index_at_point_cases ms x y (suc i)) [
    | inl (n, away) ↦ inl (ground (arith, e, n), (e, away))
    | inr (k, m', at, is, there) ↦ inr (suc k, m', ground (arith, e, at), is, there)
  ]
]

-- After a move of the pointer the monitor is one that contains the point, and the focus is cleared
-- exactly where that is not the active monitor. Where no monitor contains the point the active
-- monitor stays and the focus is not cleared.
pub pointer_move_cases :
    (ms : List Monitor) (active : ℕ) (x y : ℤ)
    → ((pointer_move ms active x y ≡ record { transition = unchanged; new_monitor = active })
        × All (λ (m : Monitor). is_at_point m x y ≡ false) ms)
      ⊎ ((k : ℕ) × (m : Monitor) × (get_elem? ms k ≡ some m)
          × (is_at_point m x y ≡ true)
          × (((k ≡ active)
                × (pointer_move ms active x y ≡ record { transition = unchanged; new_monitor = k }))
              ⊎ ((k ≢ active)
                  × (pointer_move ms active x y
                      ≡ record { transition = monitor_changed_clear_focus; new_monitor = k }))))
unfolding pointer_move monitor_index_at_point
pointer_move_cases ms active x y = elim (index_at_point_cases ms x y 0) [
  | inl (n, away) ↦ inl (ground (arith, n), away)
  | inr (k, m, at, is, there) ↦
      let at' : index_at_point ms x y 0 ≡ some k = ground (arith, at) in
      elim (Bool-cases (k == active)) [
        | inl e ↦
            let same : k ≡ active = ground (arith, e) in
            inr (k, m, is, there, inl (same, ground (arith, at', e)))
        | inr e ↦ inr (k, m, is, there, inr (ground (arith, e), ground (arith, at', e)))
      ]
]
