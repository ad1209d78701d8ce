-- ===== src/Wm/Registry/Order.antt =====
-- The states of src/lwm/wm.cpp in which what src/lwm/core/invariants.hpp asserts of places and of lists of
-- windows holds, with as many monitors and workspaces and the same windows as a given frame.
use mathlib.Core.Path.{subst}
use lwm.Base.{
  ℕ, ◌<◌, ◌≡◌, ◌≢◌, refl, sym, ◌∙◌, ap, List, [], ◌∷◌, ◌++◌, ◌==◌, if◌then◌else◌, Bool-cases,
  Option-cases, inl, inr, Bool, Option, none, some, ◌>>=◌, map, length,
}
use lwm.Types.{Client}
use lwm.Wm.State.{WindowManager, is_managed_kind}
use lwm.Wm.Rearrange.{update}
use lwm.Wm.Registry.{Entry, entry, IsRegistered}
use lwm.Wm.Registry.Changes.{found, found-Split}
use lwm.Wm.Registry.Sizes.{size}

-- How many monitors and workspaces there are, and the windows, each with whether it is tiled or floating.
pub record Frame : Type 0 where
  pub count : ℕ
  pub sizes : List ℕ
  pub windows : List (ℕ × Bool)

abbrev pub as_window : Entry → ℕ × Bool
as_window e = (e.id, is_managed_kind e.kind)

-- The registry is in order, with those monitors and windows.
pub record InOrder (n : Frame) (wm : WindowManager) : Type 0 where
  pub registered : IsRegistered wm
  pub count : length wm.monitors ≡ n.count
  pub sizes : map size wm.monitors ≡ n.sizes
  pub windows : map as_window (map entry wm.clients) ≡ n.windows
  pub focused : wm.focused_monitor < n.count

abbrev pub frame : WindowManager → Frame
frame wm = record {
  count = length wm.monitors;
  sizes = map size wm.monitors;
  windows = map as_window (map entry wm.clients);
}

-- A result in order.
abbrev pub Fine : Frame → Option WindowManager → Type 0
Fine n r = (wm : WindowManager) × (r ≡ some wm) × InOrder n wm

-- The same of an operation that also says whether it did anything.
abbrev pub FineSaying : Frame → Option (WindowManager × Bool) → Type 0
FineSaying n r = (wm : WindowManager) × (b : Bool) × (r ≡ some (wm, b)) × InOrder n wm

pub windows-update :
    (f : Client → Client) (w : ℕ) (cs : List Client) (c : Client)
    → found w cs ≡ some c
    → (f c).id ≡ c.id
    → is_managed_kind (f c).kind ≡ is_managed_kind c.kind
    → map as_window (map entry (update f w cs)) ≡ map as_window (map entry cs)
windows-update f w cs c e id kind =
    let s = found-Split w cs c e in
    ap (λ xs. map as_window (map entry xs)) (s.updated f)
    ∙ (at s.before s.after ∙ ap (λ xs. map as_window (map entry xs)) (sym s.whole))
  where
    at :
        (xs ys : List Client)
        → map as_window (map entry (xs ++ f c ∷ ys)) ≡ map as_window (map entry (xs ++ c ∷ ys))
    at [] ys = rw (id, kind) refl
    at (x ∷ xs) ys = ap (λ zs. as_window (entry x) ∷ zs) (at xs ys)

pub look_up : ℕ → List (ℕ × Bool) → Option Bool
look_up w [] = none
look_up w (x ∷ xs) = if x.0 == w then some x.1 else look_up w xs

abbrev pub managed_of : ℕ → List Client → Option Bool
managed_of w cs = found w cs >>= (λ c. some (is_managed_kind c.kind))

pub looked_up :
    (w : ℕ) (cs : List Client) → look_up w (map as_window (map entry cs)) ≡ managed_of w cs
unfolding look_up
looked_up w [] = refl
looked_up w (c ∷ cs) = elim (Bool-cases (c.id == w)) [
  | inl e ↦ rw (e, managed_of) refl
  | inr e ↦ rw (e, managed_of) (looked_up w cs)
]

pub found_managed :
    (w : ℕ) (cs : List Client) (b : Bool)
    → managed_of w cs ≡ some b
    → (c : Client) × (found w cs ≡ some c) × (is_managed_kind c.kind ≡ b)
found_managed w cs b h = elim (Option-cases (found w cs)) [
  | inl e ↦ absurd (
      out
        (subst (λ (o : Option Client). (o >>= (λ c. some (is_managed_kind c.kind))) ≡ some b) e h))
  | inr (c, e) ↦ (
    c,
    e,
    same (subst (λ (o : Option Client). (o >>= (λ c. some (is_managed_kind c.kind))) ≡ some b) e h),
  )
]
  where
    out : none ≢ some b
    out k = cc

    same : {a : Bool} → some a ≡ some b → a ≡ b
    same k = cc
