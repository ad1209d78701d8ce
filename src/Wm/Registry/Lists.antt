-- ===== src/Wm/Registry/Lists.antt =====
-- On the windows that src/lwm/wm.cpp lists on its workspaces: writing one workspace.
use mathlib.Core.Path.{subst}
use lwm.Base.{
  ℕ, ◌+◌, ◌<◌, ◌≡◌, refl, sym, ap, ◌∙◌, false, ◌&&◌, none, some, ◌>>=◌, List, All, length,
  length-set, get_elem?, get_elem?-set_self, get_elem?-set_ne, get_elem?-lt, All-set, All-get_elem?,
  ◌≢◌, set, ltb, ◌==◌, if◌then◌else◌, Option-cases, Bool-cases, inl, inr, arith, count,
}
use lwm.Types.{Monitor, Workspace}
use lwm.Wm.Place.{has_place, workspace_at, set_workspace}
use lwm.Wm.Registry.{listed}

abbrev pub AllCurrent : List Monitor → Type 0
AllCurrent = All (λ (m : Monitor). m.current_workspace < length m.workspaces)

-- The monitor and its workspace.
pub workspace_parts :
    (ms : List Monitor) (a b : ℕ) (ws : Workspace)
    → workspace_at ms a b ≡ some ws
    → (m : Monitor) × (get_elem? ms a ≡ some m) × (get_elem? m.workspaces b ≡ some ws)
unfolding workspace_at
workspace_parts ms a b ws e = elim (Option-cases (get_elem? ms a)) [
  | inl f ↦ absurd (
      none_is_not_some
        (subst (λ o. (o >>= (λ (m : Monitor). get_elem? m.workspaces b)) ≡ some ws) f e))
  | inr (m, f) ↦
      (m, f, subst (λ o. (o >>= (λ (m : Monitor). get_elem? m.workspaces b)) ≡ some ws) f e)
]
  where
    none_is_not_some : none ≢ some ws
    none_is_not_some h = cc

abbrev pub with_new : Monitor → ℕ → Workspace → Monitor
with_new m b ws = record m { workspaces = set m.workspaces b ws }

pub set_is :
    (ms : List Monitor) (a b : ℕ) (m : Monitor) (ws : Workspace)
    → get_elem? ms a ≡ some m
    → set_workspace ms a b ws ≡ set ms a (with_new m b ws)
unfolding set_workspace
set_is ms a b m ws e = rw (e, set_workspace) refl

pub has_place_at :
    (ms : List Monitor) (a b : ℕ) (m : Monitor)
    → get_elem? ms a ≡ some m
    → has_place ms a b ≡ ltb b (length m.workspaces)
unfolding has_place
has_place_at ms a b m e = rw (e, has_place) refl

listed_at :
    (ms : List Monitor) (a b : ℕ) (m : Monitor) (ws : Workspace)
    → get_elem? ms a ≡ some m
    → get_elem? m.workspaces b ≡ some ws
    → listed ms a b ≡ ws.windows
listed_at ms a b m ws e f = rw (e, listed) (rw f refl)

pub listed_workspace :
    (ms : List Monitor) (a b : ℕ) (ws : Workspace)
    → workspace_at ms a b ≡ some ws
    → listed ms a b ≡ ws.windows
listed_workspace ms a b ws e =
    let (m, f, g) = workspace_parts ms a b ws e in listed_at ms a b m ws f g

pub length-set_workspace :
    (ms : List Monitor) (a b : ℕ) (ws : Workspace) → length (set_workspace ms a b ws) ≡ length ms
unfolding set_workspace
length-set_workspace ms a b ws = elim (Option-cases (get_elem? ms a)) [
  | inl e ↦ rw (e, set_workspace) refl
  | inr (m, e) ↦ rw (e, set_workspace) (length-set ms a _)
]

-- Two monitors at an index that list the same there.
listed_same :
    (ms ns : List Monitor) (i j : ℕ) (m n : Monitor)
    → get_elem? ms i ≡ some m
    → get_elem? ns i ≡ some n
    → get_elem? n.workspaces j ≡ get_elem? m.workspaces j
    → listed ns i j ≡ listed ms i j
listed_same ms ns i j m n e f h = rw (f, listed) (rw (e, listed) (rw h refl))

has_place_ne :
    (ms : List Monitor) (a i j : ℕ) (n : Monitor)
    → a ≢ i
    → has_place (set ms a n) i j ≡ has_place ms i j
unfolding has_place
has_place_ne ms a i j n apart = rw (get_elem?-set_ne ms n apart, has_place) refl

module _ (ms : List Monitor) (a b : ℕ) (old ws : Workspace)
    (e : workspace_at ms a b ≡ some old) where
  pub listed-set_self : listed (set_workspace ms a b ws) a b ≡ ws.windows
  listed-set_self =
      let (m, f, g) = workspace_parts ms a b old e in
      rw (set_is ms a b m ws f) (
        listed_at (set ms a (with_new m b ws)) a b (with_new m b ws) ws
          (get_elem?-set_self ms a _ (get_elem?-lt ms a f))
          (get_elem?-set_self m.workspaces b ws (get_elem?-lt m.workspaces b g)))

  pub listed-set_ne :
      (i j : ℕ) → (a == i && b == j) ≡ false → listed (set_workspace ms a b ws) i j ≡ listed ms i j
  listed-set_ne i j h =
      let (m, f, g) = workspace_parts ms a b old e in
      let new = with_new m b ws in
      rw (set_is ms a b m ws f) (elim (Bool-cases (a == i)) [
        | inl s ↦
            let is : a ≡ i = ground (arith, s) in
            let apart : b ≢ j = λ p. ground (arith, s, h, p) in
            subst (λ k. listed (set ms a new) k j ≡ listed ms k j) is
              (listed_same ms (set ms a new) a j m new f
                (get_elem?-set_self ms a new (get_elem?-lt ms a f))
                (get_elem?-set_ne m.workspaces ws apart))
        | inr s ↦
            let apart : a ≢ i = λ p. ground (arith, s, p) in
            rw (get_elem?-set_ne ms new apart, listed) refl
      ])

  pub has_place-set_workspace :
      (i j : ℕ) → has_place (set_workspace ms a b ws) i j ≡ has_place ms i j
  has_place-set_workspace i j =
      let (m, f, g) = workspace_parts ms a b old e in
      let new = with_new m b ws in
      rw (set_is ms a b m ws f) (elim (Bool-cases (a == i)) [
        | inl s ↦
            let is : a ≡ i = ground (arith, s) in
            subst (λ k. has_place (set ms a new) k j ≡ has_place ms k j) is
              (has_place_at (set ms a new) a j new
                  (get_elem?-set_self ms a new (get_elem?-lt ms a f))
                ∙ (ap (ltb j) (length-set m.workspaces b ws) ∙ sym (has_place_at ms a j m f)))
        | inr s ↦ let apart : a ≢ i = λ p. ground (arith, s, p) in has_place_ne ms a i j new apart
      ])

  pub AllCurrent-set_workspace : AllCurrent ms → AllCurrent (set_workspace ms a b ws)
  AllCurrent-set_workspace h =
      let (m, f, g) = workspace_parts ms a b old e in
      rw (set_is ms a b m ws f) (
        All-set (λ (m : Monitor). m.current_workspace < length m.workspaces) ms a (with_new m b ws)
          h
          (omega (
            arith,
            length-set m.workspaces b ws,
            All-get_elem? (λ (m : Monitor). m.current_workspace < length m.workspaces) ms a h f,
          )))

  pub count-set_workspace :
      (i j v : ℕ)
      → count v (listed (set_workspace ms a b ws) i j)
          + (if a == i && b == j then count v old.windows else 0)
        ≡ count v (listed ms i j) + (if a == i && b == j then count v ws.windows else 0)
  count-set_workspace i j v = elim (Bool-cases (a == i && b == j)) [
    | inl h ↦
        let p : a ≡ i = ground (arith, h) in
        let q : b ≡ j = ground (arith, h) in
        rw h (
          subst
            (λ i.
              count v (listed (set_workspace ms a b ws) i j) + count v old.windows
              ≡ count v (listed ms i j) + count v ws.windows)
            p
            (subst
              (λ j.
                count v (listed (set_workspace ms a b ws) a j) + count v old.windows
                ≡ count v (listed ms a j) + count v ws.windows)
              q
              (omega (
                arith,
                ap (count v) listed-set_self,
                ap (count v) (listed_workspace ms a b old e),
              ))))
    | inr h ↦ rw h (ap (λ xs. count v xs + 0) (listed-set_ne i j h))
  ]
