-- ===== src/Policy/Focus/Cycle.antt =====
-- On cycle_focus_next and cycle_focus_prev of focus_policy: walking forward and back.
use native.Mathlib.Nat.{mod-lt, mod-eq_of_lt, mod-add-mod}
use lwm.Base.{
  ℕ, zero, suc, ◌+◌, ◌-◌, ◌%◌, ◌≤◌, ◌<◌, ◌≡◌, ap, ◌∙◌, Option, none, some, List, [], ◌∷◌, map,
  length, get_elem?, count, get_elem?-lt, get_elem?_total, arith,
}
use lwm.Policy.Focus.{FocusCycleCandidate, find_candidate, cycle_focus_next, cycle_focus_prev}

abbrev pub ids : List FocusCycleCandidate → List ℕ
ids = map (λ c. c.id)

-- No window stands twice in the cycle.
abbrev pub IsDistinct : List FocusCycleCandidate → Type 0
IsDistinct cs = (a : ℕ) → count a (ids cs) ≤ 1

count-get_elem? :
    (cs : List FocusCycleCandidate) (i : ℕ) {c : FocusCycleCandidate}
    → get_elem? cs i ≡ some c
    → 1 ≤ count c.id (ids cs)
count-get_elem? [] i h = cc
count-get_elem? (x ∷ cs) zero h = ground arith
count-get_elem? (x ∷ cs) (suc i) h = ground (arith, count-get_elem? cs i h)

-- The search finds the only position of a window.
pub find_candidate-get_elem? :
    (cs : List FocusCycleCandidate) (i : ℕ) {c : FocusCycleCandidate}
    → IsDistinct cs
    → get_elem? cs i ≡ some c
    → find_candidate cs c.id ≡ some i
unfolding find_candidate
find_candidate-get_elem? [] i d h = cc
find_candidate-get_elem? (x ∷ cs) zero d h = ground arith
find_candidate-get_elem? (x ∷ cs) (suc i) {c} d h = ground (
  arith,
  count-get_elem? cs i {c = c} h,
  d c.id,
  find_candidate-get_elem? cs i {c = c} (λ a. ground (arith, d a)) h,
)

next_at :
    (cs : List FocusCycleCandidate) (i : ℕ) {c : FocusCycleCandidate}
    → IsDistinct cs
    → get_elem? cs i ≡ some c
    → cycle_focus_next cs c.id ≡ get_elem? cs ((i + 1) % length cs)
unfolding cycle_focus_next
next_at cs i {c} d h =
    ground (arith, find_candidate-get_elem? cs i {c = c} d h, get_elem?-lt cs i h)

prev_at :
    (cs : List FocusCycleCandidate) (i : ℕ) {c : FocusCycleCandidate}
    → IsDistinct cs
    → get_elem? cs i ≡ some c
    → cycle_focus_prev cs c.id ≡ get_elem? cs ((i + length cs - 1) % length cs)
unfolding cycle_focus_prev
prev_at cs i {c} d h =
    ground (arith, find_candidate-get_elem? cs i {c = c} d h, get_elem?-lt cs i h)

next-prev_index : (i n : ℕ) → i < n → ((i + 1) % n + n - 1) % n ≡ i
next-prev_index i n h = grind arith

prev-next_index : (i n : ℕ) → i < n → ((i + n - 1) % n + 1) % n ≡ i
prev-next_index i n h = grind arith

offset_index : (i j n : ℕ) → i < n → j < n → (i + (j + n - i) % n) % n ≡ j
offset_index i j n h k = grind arith

step_index : (i k n : ℕ) → ((i + 1) % n + k) % n ≡ (i + suc k) % n
step_index i k n = mod-add-mod (i + 1) n k ∙ ap (λ (x : ℕ). x % n) (omega arith)

at_mod :
    (cs : List FocusCycleCandidate) (i j : ℕ) {c : FocusCycleCandidate}
    → get_elem? cs i ≡ some c
    → (d : FocusCycleCandidate) × (get_elem? cs (j % length cs) ≡ some d)
at_mod cs i j h = get_elem?_total cs (j % length cs) (mod-lt j (omega (arith, get_elem?-lt cs i h)))

-- Going forward from a window of the cycle and then back returns to it, and so does going back and
-- then forward, where no window stands in the cycle twice.
pub cycle_focus-inverse :
    (cs : List FocusCycleCandidate) (i : ℕ) {c : FocusCycleCandidate}
    → IsDistinct cs
    → get_elem? cs i ≡ some c
    → ((d : FocusCycleCandidate) × (cycle_focus_next cs c.id ≡ some d)
        × (cycle_focus_prev cs d.id ≡ some c))
      × ((d : FocusCycleCandidate) × (cycle_focus_prev cs c.id ≡ some d)
          × (cycle_focus_next cs d.id ≡ some c))
cycle_focus-inverse cs i {c} d h =
    let n = length cs in
    let lt = get_elem?-lt cs i h in
    let (a, ea) = at_mod cs i (i + 1) h in
    let (b, eb) = at_mod cs i (i + n - 1) h in
    (
      (
        a,
        next_at cs i d h ∙ ea,
        prev_at cs ((i + 1) % n) d ea ∙ (ap (get_elem? cs) (next-prev_index i n lt) ∙ h),
      ),
      (
        b,
        prev_at cs i d h ∙ eb,
        next_at cs ((i + n - 1) % n) d eb ∙ (ap (get_elem? cs) (prev-next_index i n lt) ∙ h),
      ),
    )

-- `k` steps forward from a window.
pub walk : List FocusCycleCandidate → ℕ → ℕ → Option ℕ
walk cs zero w = some w
walk cs (suc k) w = elim (cycle_focus_next cs w) [ none ↦ none | some c ↦ walk cs k c.id ]

walk_index :
    (cs : List FocusCycleCandidate) (k i : ℕ) {c d : FocusCycleCandidate}
    → IsDistinct cs
    → get_elem? cs i ≡ some c
    → get_elem? cs ((i + k) % length cs) ≡ some d
    → walk cs k c.id ≡ some d.id
unfolding walk
walk_index cs zero i {c} {d} u h e =
    ground (arith, mod-eq_of_lt {n = i} {m = length cs}, get_elem?-lt cs i h)
walk_index cs (suc k) i {c} {d} u h e =
    let (a, ea) = at_mod cs i (i + 1) h in
    rw (next_at cs i u h, ea, walk)
      (walk_index cs k ((i + 1) % length cs) u ea
        (ap (get_elem? cs) (step_index i k (length cs)) ∙ e))

-- From any window of the cycle every other one is reached by going forward, in fewer steps than
-- the cycle has windows, where no window stands in the cycle twice.
pub cycle_focus_next-reaches :
    (cs : List FocusCycleCandidate) (i j : ℕ) {c d : FocusCycleCandidate}
    → IsDistinct cs
    → get_elem? cs i ≡ some c
    → get_elem? cs j ≡ some d
    → (k : ℕ) × (k < length cs) × (walk cs k c.id ≡ some d.id)
cycle_focus_next-reaches cs i j u h e =
    let n = length cs in
    let li = get_elem?-lt cs i h in
    let lj = get_elem?-lt cs j e in
    (
      (j + n - i) % n,
      mod-lt _ (omega arith),
      walk_index cs _ i u h (ap (get_elem? cs) (offset_index i j n li lj) ∙ e),
    )
