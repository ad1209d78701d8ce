-- ===== src/Policy/Hotplug/Names.antt =====
-- Looking up monitors by their names.
use Prim.Native.String.{String}
use text.Mathlib.TextEquality.{eq_iff}
use lwm.Base.{
  ℕ, zero, suc, ◌+◌, ◌<◌, ◌≡◌, refl, ◌≢◌, inl, inr, false, none, some, List, [], ◌∷◌, ◌==◌, length,
  get_elem?, get_elem?-lt, Option-cases, arith,
}
use lwm.Types.{Monitor}
use lwm.Policy.Hotplug.{name_to_index, monitor_of}

-- What a found index is: within the bounds, and of a monitor of that name.
pub record IsNamed (ms : List Monitor) (i : ℕ) (name : String) (j : ℕ) : Type 0 where
  pub offset : ℕ
  pub at : j ≡ i + offset
  pub monitor : Monitor
  pub there : get_elem? ms offset ≡ some monitor
  pub named : monitor.name ≡ name

pub name_to_index-IsNamed :
    (ms : List Monitor) (i : ℕ) (name : String) (j : ℕ)
    → name_to_index ms i name ≡ some j
    → IsNamed ms i name j
unfolding name_to_index
name_to_index-IsNamed [] i name j h = cc
name_to_index-IsNamed (m ∷ ms) i name j h = elim (Option-cases (name_to_index ms (suc i) name)) [
  | inr (k, e) ↦
      let r = name_to_index-IsNamed ms (suc i) name j (ground (arith, e)) in
      record {
        offset = suc r.offset;
        at = omega (arith, r.at);
        monitor = r.monitor;
        there = r.there;
        named = r.named;
      }
  | inl e ↦ record {
    offset = 0;
    at = ground (arith, e);
    monitor = m;
    there = refl;
    named = ground (arith, e, eq_iff m.name name);
  }
]

pub length-ne-zero : (ms : List Monitor) → ms ≢ [] → (length ms == 0) ≡ false
length-ne-zero [] ne = absurd (ne refl)
length-ne-zero (m ∷ ms) ne = ground arith

pub monitor_of-lt : (ms : List Monitor) (name : String) → ms ≢ [] → monitor_of ms name < length ms
unfolding monitor_of
monitor_of-lt [] name ne = absurd (ne refl)
monitor_of-lt (m ∷ ms) name ne = elim (Option-cases (name_to_index (m ∷ ms) 0 name)) [
  | inl e ↦ ground (arith, e)
  | inr (j, e) ↦
      let r = name_to_index-IsNamed (m ∷ ms) 0 name j e in
      ground (arith, e, r.at, get_elem?-lt (m ∷ ms) r.offset r.there)
]

-- No two monitors have one name.
abbrev pub HasDistinctNames : List Monitor → Type 0
HasDistinctNames ms =
    (i j : ℕ) (m n : Monitor)
    → get_elem? ms i ≡ some m
    → get_elem? ms j ≡ some n
    → m.name ≡ n.name
    → i ≡ j

name_to_index-total :
    (ms : List Monitor) (i j : ℕ) (m : Monitor)
    → get_elem? ms j ≡ some m
    → name_to_index ms i m.name ≢ none
unfolding name_to_index
name_to_index-total [] i j m h = cc
name_to_index-total (x ∷ ms) i zero m h = ground (arith, eq_iff x.name m.name)
name_to_index-total (x ∷ ms) i (suc j) m h = ground (arith, name_to_index-total ms (suc i) j m)

pub monitor_of_name :
    (ms : List Monitor) (i : ℕ) (m : Monitor)
    → HasDistinctNames ms
    → get_elem? ms i ≡ some m
    → monitor_of ms m.name ≡ i
unfolding monitor_of
monitor_of_name ms i m d h = elim (Option-cases (name_to_index ms 0 m.name)) [
  | inl e ↦ absurd (name_to_index-total ms 0 i m h e)
  | inr (j, e) ↦
      let r = name_to_index-IsNamed ms 0 m.name j e in
      let same = d r.offset i r.monitor m r.there h r.named in ground (arith, e, r.at, same)
]
