-- ===== src/Wm/Registry/View.antt =====
-- The part of the state of src/lwm/wm.cpp that showing, hiding and arranging windows leaves as it is,
-- and that what src/lwm/core/invariants.hpp asserts depends on.
use mathlib.Core.Path.{subst}
use lwm.Base.{
  ◌≢◌, Bool-cases, map-map, ℕ, suc, zero, ◌<◌, ◌≡◌, refl, sym, ap, ◌∙◌, Bool, Option, none, some,
  ◌>>=◌, List, [], ◌∷◌, map, All, length, length-map, ◌==◌, inl, inr, find_first, arith, count,
}
use lwm.Types.{Client, Monitor}
use lwm.Wm.State.{WindowManager, get_client}
use lwm.Wm.Place.{has_place}
use lwm.Wm.Reconcile.Keeps.{IsConsistent}
use lwm.Wm.Registry.{Entry, entry, without_owner, IsRegistry, IsRegistered, IsInPlace, listed}

-- What showing, hiding and arranging windows does not change.
pub record View : Type 0 where
  pub entries : List Entry
  pub monitors : List Monitor
  pub focused_monitor : ℕ
  pub active_window : ℕ
  pub showing_desktop : Bool

abbrev pub view : WindowManager → View
view wm = record {
  entries = map entry wm.clients;
  monitors = map without_owner wm.monitors;
  focused_monitor = wm.focused_monitor;
  active_window = wm.active_window;
  showing_desktop = wm.showing_desktop;
}

-- A result with the same view.
abbrev pub Keeps : WindowManager → Option WindowManager → Type 0
Keeps wm r = (wm' : WindowManager) × (r ≡ some wm') × (view wm' ≡ view wm)

pub Keeps-trans :
    (wm wm' : WindowManager) (r : Option WindowManager)
    → view wm' ≡ view wm
    → Keeps wm' r
    → Keeps wm r
Keeps-trans wm wm' r h (wm2, e, k) = (wm2, e, k ∙ h)

-- The steps of a do block.
pub Keeps-bind :
    (wm : WindowManager) (r : Option WindowManager) (f : WindowManager → Option WindowManager)
    → Keeps wm r
    → ((wm' : WindowManager) → view wm' ≡ view wm → Keeps wm' (f wm'))
    → Keeps wm (r >>= f)
Keeps-bind wm r f (wm', e, h) k = rw e (Keeps-trans wm wm' (f wm') h (k wm' h))

pub listed-shape : (ms : List Monitor) (i j : ℕ) → listed (map without_owner ms) i j ≡ listed ms i j
listed-shape [] i j = refl
listed-shape (m ∷ ms) zero j = refl
listed-shape (m ∷ ms) (suc i) j = listed-shape ms i j

pub has_place-shape :
    (ms : List Monitor) (i j : ℕ) → has_place (map without_owner ms) i j ≡ has_place ms i j
unfolding has_place
has_place-shape [] i j = refl
has_place-shape (m ∷ ms) zero j = refl
has_place-shape (m ∷ ms) (suc i) j = has_place-shape ms i j

pub IsInPlace-shape :
    (ms ns : List Monitor) (es : List Entry)
    → ((i j : ℕ) → has_place ns i j ≡ has_place ms i j)
    → All (IsInPlace ms) es
    → All (IsInPlace ns) es
IsInPlace-shape ms ns [] h p = tt
IsInPlace-shape ms ns (e ∷ es) h (p, ps) =
    ((λ k. h e.monitor e.workspace ∙ p.0 k, p.1), IsInPlace-shape ms ns es h ps)

pub currents_of_shape :
    (ms : List Monitor)
    → All (λ (m : Monitor). m.current_workspace < length m.workspaces) (map without_owner ms)
    → All (λ (m : Monitor). m.current_workspace < length m.workspaces) ms
currents_of_shape [] h = tt
currents_of_shape (m ∷ ms) h = (h.0, currents_of_shape ms h.1)

pub shape-currents :
    (ms : List Monitor)
    → All (λ (m : Monitor). m.current_workspace < length m.workspaces) ms
    → All (λ (m : Monitor). m.current_workspace < length m.workspaces) (map without_owner ms)
shape-currents [] h = tt
shape-currents (m ∷ ms) h = (h.0, shape-currents ms h.1)

pub IsRegistry-shape :
    (es : List Entry) (ms : List Monitor) → IsRegistry es ms → IsRegistry es (map without_owner ms)
IsRegistry-shape es ms r = record {
  unique = r.unique;
  in_place = IsInPlace-shape ms (map without_owner ms) es (has_place-shape ms) r.in_place;
  counted = λ i j w. ap (count w) (listed-shape ms i j) ∙ r.counted i j w;
  currents = shape-currents ms r.currents;
}

pub IsRegistry-of_shape :
    (es : List Entry) (ms : List Monitor) → IsRegistry es (map without_owner ms) → IsRegistry es ms
IsRegistry-of_shape es ms r = record {
  unique = r.unique;
  in_place =
      IsInPlace-shape (map without_owner ms) ms es (λ i j. sym (has_place-shape ms i j)) r.in_place;
  counted = λ i j w. ap (count w) (sym (listed-shape ms i j)) ∙ r.counted i j w;
  currents = currents_of_shape ms r.currents;
}

-- The invariant speaks of the view only.
pub IsRegistered-view :
    (wm wm' : WindowManager) → view wm' ≡ view wm → IsRegistered wm → IsRegistered wm'
IsRegistered-view wm wm' h r =
    let kept : IsRegistry (view wm').entries (view wm').monitors =
      subst (λ (v : View). IsRegistry v.entries v.monitors) (sym h)
        (IsRegistry-shape (map entry wm.clients) wm.monitors r) in
    IsRegistry-of_shape (map entry wm'.clients) wm'.monitors kept

pub IsConsistent-clients :
    (ms : List Monitor) (cs : List Client) → All (IsInPlace ms) (map entry cs) → All IsConsistent cs
IsConsistent-clients ms [] h = tt
IsConsistent-clients ms (c ∷ cs) (p, ps) = (ground (arith, p.1), IsConsistent-clients ms cs ps)

pub IsRegistered-IsConsistent : (wm : WindowManager) → IsRegistered wm → All IsConsistent wm.clients
IsRegistered-IsConsistent wm r = IsConsistent-clients wm.monitors wm.clients r.in_place

pub length-view :
    (wm wm' : WindowManager) → view wm' ≡ view wm → length wm'.monitors ≡ length wm.monitors
length-view wm wm' h =
    sym (length-map without_owner wm'.monitors)
    ∙ (ap (λ (v : View). length v.monitors) h ∙ length-map without_owner wm.monitors)

pub entry_of : ℕ → List Entry → Option Entry
entry_of w es = find_first (λ (e : Entry). e.id == w) es

pub entry_found :
    (w : ℕ) (cs : List Client)
    → entry_of w (map entry cs)
      ≡ (find_first (λ (c : Client). c.id == w) cs >>= (λ c. some (entry c)))
unfolding entry_of
entry_found w [] = refl
entry_found w (c ∷ cs) = elim (Bool-cases (c.id == w)) [
  | inl e ↦ rw e refl
  | inr e ↦ rw e (entry_found w cs)
]

-- A client is found with the same entry.
pub found_kept :
    (wm wm' : WindowManager) (w : ℕ) (c : Client)
    → view wm' ≡ view wm
    → get_client wm w ≡ some c
    → (c' : Client) × (get_client wm' w ≡ some c') × (entry c' ≡ entry c)
unfolding get_client
found_kept wm wm' w c h e =
    let there : entry_of w (map entry wm'.clients) ≡ some (entry c) =
      ap (λ (v : View). entry_of w v.entries) h
      ∙ (entry_found w wm.clients ∙ ap (λ (o : Option Client). o >>= (λ d. some (entry d))) e) in
    of_some (find_first (λ (d : Client). d.id == w) wm'.clients)
      (sym (entry_found w wm'.clients) ∙ there)
  where
    of_some :
        (o : Option Client)
        → (o >>= (λ d. some (entry d))) ≡ some (entry c)
        → (c' : Client) × (o ≡ some c') × (entry c' ≡ entry c)
    of_some none k = absurd (no_entry k)
      where
        no_entry : none ≢ some (entry c)
        no_entry q = cc
    of_some (some d) k = (d, refl, same k)
      where
        same : some (entry d) ≡ some (entry c) → entry d ≡ entry c
        same q = cc

pub sizes-view :
    (wm wm' : WindowManager)
    → view wm' ≡ view wm
    → map (λ (m : Monitor). length m.workspaces) wm'.monitors
      ≡ map (λ (m : Monitor). length m.workspaces) wm.monitors
sizes-view wm wm' h =
    let size = λ (m : Monitor). length m.workspaces in
    sym (map-map size without_owner size wm'.monitors (λ m. refl))
    ∙ (ap (λ (v : View). map size v.monitors) h
        ∙ map-map size without_owner size wm.monitors (λ m. refl))
