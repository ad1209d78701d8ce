-- ===== src/Wm/Restack/Own.antt =====
-- On apply_stacking of src/lwm/wm.cpp: a floating window that names itself as its transient
-- parent.
use lwm.Base.{
  ℕ, ◌≡◌, true, false, inl, inr, Option-cases, some, List, count, contains, erase_first, arith,
  count-erase_first, contains-eq-count,
}
use lwm.Types.{Client}
use lwm.Wm.State.{WindowManager, get_client}
use lwm.Wm.Restack.{position_of, transient_can_stack, raise, is_under, restack_one}
use lwm.Wm.Restack.Keeps.{has_value-position_of}

-- A window that is its own transient parent and shows is taken out of the order and not put back,
-- where the order lists it once.
pub restack_one-own :
    (wm : WindowManager) (order : List ℕ) (w : ℕ) (c : Client)
    → get_client wm w ≡ some c
    → c.transient_for ≡ w
    → transient_can_stack wm c ≡ true
    → count w order ≡ 1
    → (contains order w ≡ true) × (contains (restack_one wm order w).0 w ≡ false)
unfolding restack_one raise
restack_one-own wm order w c h own can once =
    let listed : contains order w ≡ true = ground (arith, contains-eq-count order w) in
    let gone : contains (erase_first order w) w ≡ false =
      ground (arith, contains-eq-count (erase_first order w) w, count-erase_first order w w) in
    let nowhere = has_value-position_of (erase_first order w) w in
    elim (Option-cases (position_of order w)) [
      | inl n ↦ absurd (ground (arith, n, has_value-position_of order w, listed))
      | inr (i, at) ↦ elim (Option-cases (position_of (erase_first order w) w)) [
        | inr (j, at') ↦ absurd (ground (arith, at', nowhere, gone))
        | inl n ↦
            let under : is_under (some i) (some i) ≡ true = ground arith in
            (listed, rw (h, restack_one) (rw can (rw (own, at) (rw under (rw (n, raise) gone)))))
      ]
    ]
