-- ===== src/Policy/Fullscreen/Owner.antt =====
-- On select_owner of fullscreen_policy: the current owner and the other candidates.
use mathlib.Core.List.{Memᴰ}
use lwm.Base.{
  ℕ, ◌≤◌, ◌<◌, ◌≡◌, refl, sym, ◌≢◌, ◌⊎◌, inl, inr, true, false, ◌&&◌, ◌||◌, List, [], ◌∷◌, All, ltb,
  ◌==◌, Bool-cases, arith,
}
use lwm.Types.{xcb_none}
use lwm.Policy.Fullscreen.{FullscreenCandidate, is_offered, best_of, select_owner}

-- `w` belongs to an eligible candidate of which no eligible candidate has a greater order.
pub record IsLatest (cs : List FullscreenCandidate) (w : ℕ) : Type 0 where
  pub choice : FullscreenCandidate
  pub listed : Memᴰ choice cs
  pub chosen : choice.window ≡ w
  pub fits : choice.eligible ≡ true
  pub latest : All (λ d. d.eligible ≡ true → d.order ≤ choice.order) cs

abbrev IsNamed : List FullscreenCandidate → Type 0
IsNamed = All (λ c. c.window ≢ xcb_none)

abbrev NoneEligible : List FullscreenCandidate → Type 0
NoneEligible = All (λ c. c.eligible ≡ false)

latest_of_head :
    (c : FullscreenCandidate) (cs : List FullscreenCandidate) (w : ℕ)
    → w ≡ c.window
    → c.eligible ≡ true
    → All (λ d. d.eligible ≡ true → d.order ≤ c.order) cs
    → IsLatest (c ∷ cs) w
latest_of_head c cs w e f a = record {
  choice = c;
  listed = Memᴰ.head refl;
  chosen = sym e;
  fits = f;
  latest = (λ _. omega arith, a);
}

latest_of_tail :
    (c : FullscreenCandidate) (cs : List FullscreenCandidate) (w : ℕ) (l : IsLatest cs w)
    → (c.eligible ≡ true → c.order ≤ l.choice.order)
    → IsLatest (c ∷ cs) w
latest_of_tail c cs w l h = record {
  choice = l.choice;
  listed = Memᴰ.tail l.listed;
  chosen = l.chosen;
  fits = l.fits;
  latest = (h, l.latest);
}

-- The loop from a window that was found before: it is kept, or a later one is found.
best_of_found :
    (b o : ℕ) (cs : List FullscreenCandidate)
    → IsNamed cs
    → b ≢ xcb_none
    → ((best_of b o cs ≡ b) × All (λ d. d.eligible ≡ true → d.order ≤ o) cs)
      ⊎ ((l : IsLatest cs (best_of b o cs)) × (o < l.choice.order))
unfolding best_of latest_of_tail
best_of_found b o [] n ne = inl (refl, tt)
best_of_found b o (c ∷ cs) n ne = elim (Bool-cases (c.eligible && ltb o c.order)) [
  | inl take ↦
      let e : (c.eligible && (b == xcb_none || ltb o c.order)) ≡ true = ground arith in
      rw e (
        inr (elim (best_of_found c.window c.order cs n.1 n.0) [
          | inl (r, a) ↦ (latest_of_head c cs _ r (ground arith) a, ground arith)
          | inr (l, later) ↦ (latest_of_tail c cs _ l (λ _. omega arith), ground arith)
        ]))
  | inr pass ↦
      let e : (c.eligible && (b == xcb_none || ltb o c.order)) ≡ false = ground arith in
      rw e (elim (best_of_found b o cs n.1 ne) [
        | inl (r, a) ↦ inl (r, (λ f. ground arith, a))
        | inr (l, later) ↦ inr (latest_of_tail c cs _ l (λ f. ground arith), later)
      ])
]

best_of_none :
    (cs : List FullscreenCandidate)
    → IsNamed cs
    → ((best_of xcb_none 0 cs ≡ xcb_none) × NoneEligible cs) ⊎ IsLatest cs (best_of xcb_none 0 cs)
unfolding best_of
best_of_none [] n = inl (refl, tt)
best_of_none (c ∷ cs) n = elim (Bool-cases c.eligible) [
  | inl take ↦
      let e : (c.eligible && (xcb_none == xcb_none || ltb 0 c.order)) ≡ true = ground arith in
      rw e (
        inr (elim (best_of_found c.window c.order cs n.1 n.0) [
          | inl (r, a) ↦ latest_of_head c cs _ r take a
          | inr (l, later) ↦ latest_of_tail c cs _ l (λ _. omega arith)
        ]))
  | inr pass ↦
      let e : (c.eligible && (xcb_none == xcb_none || ltb 0 c.order)) ≡ false = ground arith in
      rw e (elim (best_of_none cs n.1) [
        | inl (r, a) ↦ inl (r, (pass, a))
        | inr l ↦ inr (latest_of_tail c cs _ l (λ f. absurd (ground arith)))
      ])
]

-- Among candidates none of which is XCB_NONE: an eligible current owner keeps the fullscreen. If it is not among the eligible candidates, the
-- owner is an eligible window with the greatest order, or none where no window is eligible.
pub select_owner-latest :
    (current : ℕ) (cs : List FullscreenCandidate)
    → All (λ c. c.window ≢ xcb_none) cs
    → ((is_offered current cs ≡ true) × (select_owner current cs ≡ current))
      ⊎ ((is_offered current cs ≡ false)
          × (((select_owner current cs ≡ xcb_none) × All (λ c. c.eligible ≡ false) cs)
              ⊎ IsLatest cs (select_owner current cs)))
unfolding select_owner
select_owner-latest current cs n = elim (Bool-cases (is_offered current cs)) [
  | inl o ↦ inl (o, rw o refl)
  | inr o ↦ inr (o, rw o (best_of_none cs n))
]
