-- ===== src/Wm/Restack/Keeps.antt =====
-- On apply_stacking of src/lwm/wm.cpp: the windows of the order before and after transients are
-- raised.
use mathlib.Core.List.{Perm}
use mathlib.Core.List.Perm
use lwm.Base.{
  ℕ, zero, suc, ◌+◌, ◌≡◌, refl, sym, Bool, false, ◌&&◌, Bool-cases, Option-cases, inl, inr,
  has_value, find_first, some, List, [], ◌∷◌, map, map-map, length, All, ltb, ◌==◌, contains,
  erase_first, arith,
}
use lwm.Base.Sort.{stable_sort-perm}
use lwm.Types.{Client}
use lwm.Policy.Stacking.{ClientStackInputs, key_less, compute_order}
use lwm.Wm.State.{WindowManager, get_client, stack_inputs_of}
use lwm.Wm.Restack.{
  position_of, transient_can_stack, insert_at, raise, is_under, restack_one, restack_pass, restack,
  stacking_order,
}

insert_at-perm : (xs : List ℕ) (i a : ℕ) → Perm (insert_at xs i a) (a ∷ xs)
insert_at-perm xs zero a = Perm.refl (a ∷ xs)
insert_at-perm [] (suc i) a = Perm.refl (a ∷ [])
insert_at-perm (x ∷ xs) (suc i) a =
    Perm.trans (Perm.cons x (insert_at-perm xs i a)) (Perm.swap a x xs)

-- A window with a position can be taken out.
position_of-perm :
    (xs : List ℕ) (w i : ℕ) → position_of xs w ≡ some i → Perm (w ∷ erase_first xs w) xs
unfolding position_of
position_of-perm [] w i h = cc
position_of-perm (x ∷ xs) w i h = elim (Bool-cases (x == w)) [
  | inl e ↦ let same : x ≡ w = ground (arith, e) in rw (e, same) (Perm.refl (w ∷ xs))
  | inr e ↦ elim (Option-cases (position_of xs w)) [
    | inl n ↦ absurd (ground (arith, h, e, n))
    | inr (j, s) ↦
        rw e
          (Perm.trans (Perm.swap x w (erase_first xs w)) (Perm.cons x (position_of-perm xs w j s)))
  ]
]

pub has_value-position_of : (xs : List ℕ) (p : ℕ) → has_value (position_of xs p) ≡ contains xs p
unfolding position_of
has_value-position_of [] p = refl
has_value-position_of (x ∷ xs) p = ground (arith, has_value-position_of xs p)

contains-erase_first :
    (xs : List ℕ) (w p : ℕ) → (w == p) ≡ false → contains (erase_first xs w) p ≡ contains xs p
contains-erase_first [] w p ne = refl
contains-erase_first (x ∷ xs) w p ne = ground (arith, contains-erase_first xs w p ne)

-- Raising a child above another window only changes the order.
raise-perm :
    (order : List ℕ) (child parent i j : ℕ)
    → (child == parent) ≡ false
    → position_of order child ≡ some i
    → position_of order parent ≡ some j
    → Perm (raise order child parent).0 order
unfolding raise
raise-perm order child parent i j ne hc hp =
    elim (Option-cases (position_of (erase_first order child) parent)) [
      | inl gone ↦
          let before = has_value-position_of order parent in
          let after = has_value-position_of (erase_first order child) parent in
          let kept = contains-erase_first order child parent ne in
          absurd (ground (arith, before, after, kept, gone, hp))
      | inr (k, at) ↦
          rw (at, raise)
            (Perm.trans (insert_at-perm (erase_first order child) (k + 1) child)
              (position_of-perm order child i hc))
    ]

-- The client is not its own transient parent.
abbrev pub IsNotOwnParent : Client → Type 0
IsNotOwnParent c = (c.id == c.transient_for) ≡ false

find_first-IsNotOwnParent :
    (clients : List Client) (w : ℕ) (c : Client)
    → All IsNotOwnParent clients
    → find_first (λ (c : Client). c.id == w) clients ≡ some c
    → (w == c.transient_for) ≡ false
find_first-IsNotOwnParent [] w c a h = cc
find_first-IsNotOwnParent (d ∷ clients) w c (own, a) h = elim (Bool-cases (d.id == w)) [
  | inl e ↦ ground (arith, h, e, own)
  | inr e ↦ find_first-IsNotOwnParent clients w c a (ground (arith, h, e))
]

module _ (wm : WindowManager) (own : All IsNotOwnParent wm.clients) where
  restack_one-perm : (order : List ℕ) (w : ℕ) → Perm (restack_one wm order w).0 order
  unfolding restack_one get_client
  restack_one-perm order w = elim (Option-cases (get_client wm w)) [
    | inl e ↦ rw (e, restack_one) (Perm.refl order)
    | inr (c, e) ↦
        rw (e, restack_one)
          (elim (Bool-cases (
            transient_can_stack wm c
            && is_under (position_of order w) (position_of order c.transient_for))) [
              | inr skip ↦ rw skip (Perm.refl order)
              | inl move ↦ rw move (elim (Option-cases (position_of order w)) [
                | inl n ↦ absurd (ground (arith, move, n))
                | inr (i, hc) ↦ elim (Option-cases (position_of order c.transient_for)) [
                  | inl n ↦ absurd (ground (arith, move, hc, n))
                  | inr (j, hp) ↦
                      raise-perm order w c.transient_for i j
                        (find_first-IsNotOwnParent wm.clients w c own e) hc hp
                ]
              ])
            ])
  ]

  restack_pass-perm :
      (snapshot order : List ℕ) (changed : Bool)
      → Perm (restack_pass wm snapshot order changed).0 order
  unfolding restack_pass
  restack_pass-perm [] order changed = Perm.refl order
  restack_pass-perm (w ∷ snapshot) order changed =
      Perm.trans (restack_pass-perm snapshot (restack_one wm order w).0 _)
        (restack_one-perm order w)

  restack-perm : (fuel pass : ℕ) (order : List ℕ) → Perm (restack wm fuel pass order) order
  unfolding restack
  restack-perm zero pass order = Perm.refl order
  restack-perm (suc fuel) pass order =
      let one = restack_pass-perm order order false in
      let rest = restack-perm fuel (suc pass) (restack_pass wm order order false).0 in
      elim (Bool-cases (ltb pass (length order))) [
        | inr done ↦ rw done (Perm.refl order)
        | inl more ↦ rw more (elim (Bool-cases (restack_pass wm order order false).1) [
          | inl changed ↦ rw changed (Perm.trans rest one)
          | inr settled ↦ rw settled one
        ])
      ]

  -- The stacking order lists the clients, each as often as the registry does, where no client is
  -- its own transient parent.
  pub stacking_order-perm : Perm (stacking_order wm) (map (λ (c : Client). c.id) wm.clients)
  unfolding stacking_order compute_order stack_inputs_of
  stacking_order-perm =
      let inputs = map (stack_inputs_of wm) wm.clients in
      let ids =
        map-map (λ (i : ClientStackInputs). i.id) (stack_inputs_of wm) (λ (c : Client). c.id)
          wm.clients (λ c. refl) in
      Perm.trans (restack-perm (length (compute_order inputs)) 0 (compute_order inputs)) (
        rw (sym ids)
          (Perm.map (λ (i : ClientStackInputs). i.id) (stable_sort-perm key_less inputs)))
