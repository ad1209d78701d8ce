-- ===== src/Policy/Focus/Select.antt =====
-- On select_focus_candidate of focus_policy: which window takes the focus.
use mathlib.Core.List.{Memᴰ}
use mathlib.Core.Path.{subst}
use lwm.Base.{
  ℕ, ◌≡◌, ◌⊎◌, ap, Bool-cases, ◌++◌, inl, inr, Bool, true, false, ◌&&◌, ◌||◌, none, some, List, [],
  ◌∷◌, All, contains, find_last, find_last_passes, find_last-contains, find_last-none, Option-cases,
  arith,
}
use lwm.Types.{Workspace, has_window}
use lwm.Policy.Focus.{
  FloatingCandidate, FocusSelection, is_placed, eligible, select_tiled, select_focus_candidate,
}

-- A floating candidate that may be focused on the workspace.
abbrev pub is_focusable_floating : (ℕ → Bool) → ℕ → ℕ → FloatingCandidate → Bool
is_focusable_floating is_eligible mi wi c = is_placed mi wi c && eligible is_eligible c.id

find_last-Memᴰ {ℓ} :
    {A : Type ℓ} (p : A → Bool) (xs : List A) (a : A)
    → find_last p xs ≡ some a
    → Memᴰ a xs × (p a ≡ true)
find_last-Memᴰ p [] a h = cc
find_last-Memᴰ p (x ∷ xs) a h = elim (Option-cases (find_last p xs)) [
  | inl e ↦ (Memᴰ.head (ground (arith, e)), ground (arith, e))
  | inr (y, e) ↦ let (m, q) = find_last-Memᴰ p xs a (ground (arith, e)) in (Memᴰ.tail m, q)
]

find_last-none-All {ℓ} :
    {A : Type ℓ} (p : A → Bool) (xs : List A) → find_last p xs ≡ none → All (λ a. p a ≡ false) xs
find_last-none-All p [] h = tt
find_last-none-All p (x ∷ xs) h = (ground arith, find_last-none-All p xs (ground arith))

-- The last element of a list that passes a test.
pub record IsLast (p : ℕ → Bool) (xs : List ℕ) (w : ℕ) : Type 0 where
  pub before : List ℕ
  pub after : List ℕ
  pub is : xs ≡ before ++ w ∷ after
  pub passes : p w ≡ true
  pub none_after : All (λ v. p v ≡ false) after

find_last-IsLast : (p : ℕ → Bool) (xs : List ℕ) (w : ℕ) → find_last p xs ≡ some w → IsLast p xs w
find_last-IsLast p [] w h = cc
find_last-IsLast p (x ∷ xs) w h = elim (Option-cases (find_last p xs)) [
  | inl e ↦
      let is : x ≡ w = ground (arith, e) in
      record {
        before = [];
        after = xs;
        is = ap (λ v. v ∷ xs) is;
        passes = ground (arith, e);
        none_after = find_last-none-All p xs e;
      }
  | inr (y, e) ↦
      let l = find_last-IsLast p xs w (ground (arith, e)) in
      record {
        before = x ∷ l.before;
        after = l.after;
        is = ap (λ ys. x ∷ ys) l.is;
        passes = l.passes;
        none_after = l.none_after;
      }
]

module _ (is_eligible : ℕ → Bool) where
  abbrev pub IsListed : Workspace → List ℕ → ℕ → Type 0
  IsListed ws sticky w = (contains ws.windows w || contains sticky w) ≡ true

  select_tiled-some :
      (ws : Workspace) (sticky : List ℕ) (w : ℕ)
      → select_tiled is_eligible ws sticky ≡ some w
      → (eligible is_eligible w ≡ true) × IsListed ws sticky w
  unfolding select_tiled
  select_tiled-some ws sticky w h = ground (
    arith,
    find_last_passes (λ (v : ℕ). has_window ws v && eligible is_eligible v) ws.focus_history w,
    find_last_passes (eligible is_eligible) ws.windows w,
    find_last-contains (eligible is_eligible) ws.windows w,
    find_last_passes (eligible is_eligible) sticky w,
    find_last-contains (eligible is_eligible) sticky w,
  )

  select_tiled-none :
      (ws : Workspace) (sticky : List ℕ) (w : ℕ)
      → select_tiled is_eligible ws sticky ≡ none
      → IsListed ws sticky w
      → eligible is_eligible w ≡ false
  unfolding select_tiled
  select_tiled-none ws sticky w h l = ground (
    arith,
    find_last-none (eligible is_eligible) ws.windows w,
    find_last-none (eligible is_eligible) sticky w,
  )

  -- A window of the workspace that may be focused.
  abbrev pub is_choice : Workspace → ℕ → Bool
  is_choice ws w = contains ws.windows w && eligible is_eligible w

  -- Why a tiled window is the first choice.
  pub data IsFirstChoice (ws : Workspace) (sticky : List ℕ) (w : ℕ) : Type 0 where
    focused : ws.focused_window ≡ w → is_choice ws w ≡ true → IsFirstChoice ws sticky w
    remembered :
        is_choice ws ws.focused_window ≡ false
        → IsLast (is_choice ws) ws.focus_history w
        → IsFirstChoice ws sticky w
    listed :
        is_choice ws ws.focused_window ≡ false
        → All (λ v. is_choice ws v ≡ false) ws.focus_history
        → IsLast (eligible is_eligible) ws.windows w
        → IsFirstChoice ws sticky w
    stuck :
        is_choice ws ws.focused_window ≡ false
        → All (λ v. is_choice ws v ≡ false) ws.focus_history
        → All (λ v. eligible is_eligible v ≡ false) ws.windows
        → IsLast (eligible is_eligible) sticky w
        → IsFirstChoice ws sticky w

  select_tiled-IsFirstChoice :
      (ws : Workspace) (sticky : List ℕ) (w : ℕ)
      → select_tiled is_eligible ws sticky ≡ some w
      → IsFirstChoice ws sticky w
  unfolding select_tiled
  select_tiled-IsFirstChoice ws sticky w h = elim (Bool-cases (is_choice ws ws.focused_window)) [
    | inl e ↦
        let is : ws.focused_window ≡ w = ground (arith, e) in
        focused is (subst (λ v. is_choice ws v ≡ true) is e)
    | inr e ↦ elim (Option-cases (find_last (is_choice ws) ws.focus_history)) [
      | inr (v, f) ↦
          remembered e (find_last-IsLast (is_choice ws) ws.focus_history w (ground (arith, e, f)))
      | inl f ↦
          let none_remembered = find_last-none-All (is_choice ws) ws.focus_history f in
          elim (Option-cases (find_last (eligible is_eligible) ws.windows)) [
            | inr (v, g) ↦
                listed e none_remembered
                  (find_last-IsLast (eligible is_eligible) ws.windows w (ground (arith, e, f, g)))
            | inl g ↦
                stuck e none_remembered (find_last-none-All (eligible is_eligible) ws.windows g)
                  (find_last-IsLast (eligible is_eligible) sticky w (ground (arith, e, f, g)))
          ]
    ]
  ]

  module _ (ws : Workspace) (mi wi : ℕ) (sticky : List ℕ) (floating : List FloatingCandidate) where
    -- A selected window is eligible. A tiled one is listed on the workspace or sticky; a floating
    -- one is a candidate placed on the workspace, and then no tiled window is eligible.
    pub select_focus_candidate_sound :
        (s : FocusSelection)
        → select_focus_candidate is_eligible ws mi wi sticky floating ≡ some s
        → (eligible is_eligible s.window ≡ true)
          × (((s.is_floating ≡ false) × IsListed ws sticky s.window)
              ⊎ ((s.is_floating ≡ true)
                  × ((c : FloatingCandidate) × Memᴰ c floating
                      × (is_focusable_floating is_eligible mi wi c ≡ true)
                      × (s.window ≡ c.id))
                  × ((w : ℕ) → IsListed ws sticky w → eligible is_eligible w ≡ false)))
    unfolding select_focus_candidate
    select_focus_candidate_sound s h = elim (Option-cases (select_tiled is_eligible ws sticky)) [
      | inr (w, e) ↦ ground (arith, e, select_tiled-some ws sticky w)
      | inl e ↦ elim (Option-cases (find_last (is_focusable_floating is_eligible mi wi) floating)) [
        | inl e' ↦ absurd (ground (arith, e, e'))
        | inr (c, e') ↦
            let (m, q) = find_last-Memᴰ (is_focusable_floating is_eligible mi wi) floating c e' in
            (
              ground (arith, e, e', q),
              inr (
                ground (arith, e, e'),
                (c, m, q, ground (arith, e, e')),
                λ w l. select_tiled-none ws sticky w e l,
              ),
            )
      ]
    ]

    -- No window is selected only where none is eligible: neither a listed or sticky tiled window
    -- nor a floating window placed on the workspace.
    pub select_focus_candidate-none :
        select_focus_candidate is_eligible ws mi wi sticky floating ≡ none
        → ((w : ℕ) → IsListed ws sticky w → eligible is_eligible w ≡ false)
          × All (λ c. is_focusable_floating is_eligible mi wi c ≡ false) floating
    unfolding select_focus_candidate
    select_focus_candidate-none h = (
      λ w l. select_tiled-none ws sticky w (ground arith) l,
      find_last-none-All (is_focusable_floating is_eligible mi wi) floating (ground arith),
    )

    -- A tiled window that is selected is the first choice there is: the focused window, where it is
    -- listed and eligible; else the last of the focus history that is; else the last of the listed
    -- windows that is eligible; else the last of the sticky ones that is.
    pub select_focus_candidate-recent :
        (w : ℕ)
        → select_focus_candidate is_eligible ws mi wi sticky floating
          ≡ some (record { window = w; is_floating = false })
        → IsFirstChoice ws sticky w
    unfolding select_focus_candidate
    select_focus_candidate-recent w h = select_tiled-IsFirstChoice ws sticky w (ground (arith, h))
