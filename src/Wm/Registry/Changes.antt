-- ===== src/Wm/Registry/Changes.antt =====
-- On the clients and workspaces that src/lwm/wm.cpp changes together: one client, and the lists of
-- its old and its new workspace.
use mathlib.Core.Path.{subst}
use lwm.Base.{
  Bool-cases, ℕ, ◌+◌, ◌<◌, ◌≤◌, ◌≡◌, refl, sym, ap, ◌∙◌, Bool, true, Option, some, List, [], ◌∷◌,
  ◌++◌, map, All, length, ◌==◌, if◌then◌else◌, inl, inr, find_first, arith, count,
}
use lwm.Types.{Client, Monitor}
use lwm.Wm.Place.{is_tiled, has_place}
use lwm.Wm.Rearrange.{update}
use lwm.Wm.Registry.View.{IsInPlace-shape}
use lwm.Wm.Registry.{Entry, entry, IsRegistry, IsInPlace, listed, stands_at, tally, id_count}

abbrev pub one : Bool → ℕ
one b = if b then 1 else 0

abbrev pub found : ℕ → List Client → Option Client
found w cs = find_first (λ (c : Client). c.id == w) cs

-- The place of the client that get_client finds.
pub record Split (w : ℕ) (cs : List Client) (c : Client) : Type 0 where
  pub before : List Client
  pub after : List Client
  pub whole : cs ≡ before ++ c ∷ after
  pub updated : (f : Client → Client) → update f w cs ≡ before ++ f c ∷ after

some_same : {A : Type 0} (a b : A) → some a ≡ some b → a ≡ b
some_same a b h = cc

pub found-Split : (w : ℕ) (cs : List Client) (c : Client) → found w cs ≡ some c → Split w cs c
unfolding update
found-Split w [] c e = cc
found-Split w (d ∷ cs) c e = elim (Bool-cases (d.id == w)) [
  | inl h ↦
      let first : found w (d ∷ cs) ≡ some d = rw h refl in
      let is : d ≡ c = some_same d c (sym first ∙ e) in
      record {
        before = [];
        after = cs;
        whole = ap (λ x. x ∷ cs) is;
        updated = λ f. rw h (ap (λ (x : Client). f x ∷ cs) is);
      }
  | inr h ↦
      let later : found w (d ∷ cs) ≡ found w cs = rw h refl in
      let s = found-Split w cs c (sym later ∙ e) in
      record {
        before = d ∷ s.before;
        after = s.after;
        whole = ap (λ xs. d ∷ xs) s.whole;
        updated = λ f. rw h (ap (λ xs. d ∷ xs) (s.updated f));
      }
]

-- A client that is changed in the fields that do not identify it is found changed.
pub found-update :
    (f : Client → Client) (w : ℕ) (cs : List Client) (c : Client)
    → found w cs ≡ some c
    → (f c).id ≡ c.id
    → found w (update f w cs) ≡ some (f c)
unfolding update
found-update f w [] c e id = cc
found-update f w (d ∷ cs) c e id = elim (Bool-cases (d.id == w)) [
  | inl s ↦
      let first : found w (d ∷ cs) ≡ some d = rw s refl in
      let is : d ≡ c = some_same d c (sym first ∙ e) in
      let named : ((f d).id == w) ≡ true =
        ap (λ k. k == w)
          (ap (λ (x : Client). (f x).id) is ∙ (id ∙ sym (ap (λ (x : Client). x.id) is)))
        ∙ s in
      rw s (rw named (ap (λ x. some (f x)) is))
  | inr s ↦
      let later : found w (d ∷ cs) ≡ found w cs = rw s refl in
      rw s (rw s (found-update f w cs c (sym later ∙ e) id))
]

pub tally-middle :
    (i j v : ℕ) (xs : List Client) (c : Client) (ys : List Client)
    → tally i j v (map entry (xs ++ c ∷ ys))
      ≡ tally i j v (map entry (xs ++ ys)) + one (stands_at i j v (entry c))
tally-middle i j v [] c ys = omega arith
tally-middle i j v (x ∷ xs) c ys = omega (arith, tally-middle i j v xs c ys)

pub id_count-middle :
    (v : ℕ) (xs : List Client) (c : Client) (ys : List Client)
    → id_count v (map entry (xs ++ c ∷ ys)) ≡ id_count v (map entry (xs ++ ys)) + one (c.id == v)
id_count-middle v [] c ys = omega arith
id_count-middle v (x ∷ xs) c ys = omega (arith, id_count-middle v xs c ys)

module _ (P : Entry → Type 0) where
  in_middle :
      (xs : List Client) (c : Client) (ys : List Client)
      → All P (map entry (xs ++ c ∷ ys))
      → P (entry c)
  in_middle [] c ys h = h.0
  in_middle (x ∷ xs) c ys h = in_middle xs c ys h.1

  change_middle :
      (xs : List Client) (c d : Client) (ys : List Client)
      → P (entry d)
      → All P (map entry (xs ++ c ∷ ys))
      → All P (map entry (xs ++ d ∷ ys))
  change_middle [] c d ys p h = (p, h.1)
  change_middle (x ∷ xs) c d ys p h = (h.0, change_middle xs c d ys p h.1)

-- What a change of one client and of the lists has to satisfy.
pub record Fits (c d : Client) (ms ns : List Monitor) : Type 0 where
  pub id : d.id ≡ c.id
  pub in_place : IsInPlace ms (entry d)
  pub places : (i j : ℕ) → has_place ns i j ≡ has_place ms i j
  pub currents : All (λ (m : Monitor). m.current_workspace < length m.workspaces) ns
  pub counted :
      (i j v : ℕ)
      → count v (listed ns i j) + one (stands_at i j v (entry c))
        ≡ count v (listed ms i j) + one (stands_at i j v (entry d))

IsRegistry-at :
    (xs : List Client) (c d : Client) (ys : List Client) (ms ns : List Monitor)
    → Fits c d ms ns
    → IsRegistry (map entry (xs ++ c ∷ ys)) ms
    → IsRegistry (map entry (xs ++ d ∷ ys)) ns
IsRegistry-at xs c d ys ms ns h r = record {
  unique = λ v. rw (id_count-middle v xs d ys, h.id, ← id_count-middle v xs c ys) (r.unique v);
  in_place =
      IsInPlace-shape ms ns (map entry (xs ++ d ∷ ys)) h.places
        (change_middle (IsInPlace ms) xs c d ys h.in_place r.in_place);
  counted = λ i j v. omega (
    arith,
    h.counted i j v,
    r.counted i j v,
    tally-middle i j v xs c ys,
    tally-middle i j v xs d ys,
  );
  currents = h.currents;
}

-- A change of the client that get_client finds, with a change of the lists.
pub IsRegistry-change :
    (w : ℕ) (cs : List Client) (c : Client) (f : Client → Client) (ms ns : List Monitor)
    → found w cs ≡ some c
    → Fits c (f c) ms ns
    → IsRegistry (map entry cs) ms
    → IsRegistry (map entry (update f w cs)) ns
IsRegistry-change w cs c f ms ns e h r =
    let s = found-Split w cs c e in
    let start = subst (λ xs. IsRegistry (map entry xs) ms) s.whole r in
    subst (λ xs. IsRegistry (map entry xs) ns) (sym (s.updated f))
      (IsRegistry-at s.before c (f c) s.after ms ns h start)

-- The client that is found is in its place.
pub found-IsInPlace :
    (w : ℕ) (cs : List Client) (c : Client) (ms : List Monitor)
    → found w cs ≡ some c
    → IsRegistry (map entry cs) ms
    → IsInPlace ms (entry c)
found-IsInPlace w cs c ms e r =
    let s = found-Split w cs c e in
    in_middle (IsInPlace ms) s.before c s.after
      (subst (λ xs. All (IsInPlace ms) (map entry xs)) s.whole r.in_place)

-- A tiled client that is found is listed on its workspace.
pub found_listed :
    (w : ℕ) (cs : List Client) (c : Client) (ms : List Monitor)
    → found w cs ≡ some c
    → is_tiled c.kind ≡ true
    → IsRegistry (map entry cs) ms
    → 1 ≤ count c.id (listed ms c.monitor c.workspace)
found_listed w cs c ms e t r =
    let s = found-Split w cs c e in
    let here : stands_at c.monitor c.workspace c.id (entry c) ≡ true = ground (arith, t) in
    omega (
      arith,
      r.counted c.monitor c.workspace c.id,
      ap (λ xs. tally c.monitor c.workspace c.id (map entry xs)) s.whole,
      tally-middle c.monitor c.workspace c.id s.before c s.after,
      ap one here,
    )

-- Two changes of the same client are one.
pub update-update :
    (f g : Client → Client) (w : ℕ) (cs : List Client)
    → ((c : Client) → (f c).id ≡ c.id)
    → update g w (update f w cs) ≡ update (λ (c : Client). g (f c)) w cs
unfolding update
update-update f g w [] id = refl
update-update f g w (d ∷ cs) id = elim (Bool-cases (d.id == w)) [
  | inl s ↦ let named : ((f d).id == w) ≡ true = ap (λ k. k == w) (id d) ∙ s in rw s (rw named refl)
  | inr s ↦ rw s (rw s (ap (λ xs. d ∷ xs) (update-update f g w cs id)))
]
