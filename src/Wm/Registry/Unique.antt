-- ===== src/Wm/Registry/Unique.antt =====
-- On the clients of src/lwm/wm.cpp, no two of which have the same window: the one that get_client
-- finds, and the workspace on which it is listed.
use lwm.Base.{
  ℕ, ◌+◌, ◌≤◌, ◌≡◌, refl, ap, Bool, true, false, ◌&&◌, find_first_passes, some, List, [], ◌∷◌, ◌++◌,
  map, All, All-imp, contains, contains-count, ◌==◌, arith,
}
use lwm.Types.{Client, Monitor}
use lwm.Wm.Place.{is_tiled}
use lwm.Wm.Registry.{Entry, entry, IsRegistry, listed, stands_at, tally, id_count}
use lwm.Wm.Registry.Changes.{one, found, found-Split, tally-middle, id_count-middle}

tally-le-id_count : (i j w : ℕ) (es : List Entry) → tally i j w es ≤ id_count w es
tally-le-id_count i j w [] = omega arith
tally-le-id_count i j w (e ∷ es) =
    head (is_tiled e.kind) (e.id == w) (e.monitor == i) (e.workspace == j) (tally i j w es)
      (id_count w es) (tally-le-id_count i j w es)
  where
    head : (t s p q : Bool) (n m : ℕ) → n ≤ m → one (t && s && p && q) + n ≤ one s + m
    head t s p q n m h = ground arith

found_id : (w : ℕ) (cs : List Client) (c : Client) → found w cs ≡ some c → (c.id == w) ≡ true
found_id w cs c h = find_first_passes (λ (d : Client). d.id == w) cs c h

-- The one client of a window decides where it is listed.
pub tally-found :
    (i j w : ℕ) (cs : List Client) (c : Client)
    → found w cs ≡ some c
    → id_count w (map entry cs) ≤ 1
    → tally i j w (map entry cs) ≡ one (stands_at i j w (entry c))
tally-found i j w cs c h u =
    let s = found-Split w cs c h in
    omega (
      arith,
      ap (λ xs. tally i j w (map entry xs)) s.whole,
      ap (λ xs. id_count w (map entry xs)) s.whole,
      tally-middle i j w s.before c s.after,
      id_count-middle w s.before c s.after,
      tally-le-id_count i j w (map entry (s.before ++ s.after)),
      ap one (found_id w cs c h),
      u,
    )

found_count :
    (w : ℕ) (cs : List Client) (c : Client) → found w cs ≡ some c → 1 ≤ id_count w (map entry cs)
found_count w cs c h =
    let s = found-Split w cs c h in
    omega (
      arith,
      ap (λ xs. id_count w (map entry xs)) s.whole,
      id_count-middle w s.before c s.after,
      ap one (found_id w cs c h),
    )

-- Every client is the one that is found for its window.
pub each_found :
    (cs : List Client)
    → ((w : ℕ) → id_count w (map entry cs) ≤ 1)
    → All (λ (c : Client). found c.id cs ≡ some c) cs
each_found [] u = tt
each_found (x ∷ xs) u =
    let self : (x.id == x.id) ≡ true = ground arith in
    (
      rw self refl,
      All-imp (λ (c : Client). found c.id xs ≡ some c)
          (λ (c : Client). found c.id (x ∷ xs) ≡ some c) xs
          (λ c h.
            let apart : (x.id == c.id) ≡ false =
              apart_if (x.id == c.id) (id_count c.id (map entry xs)) (u c.id)
                (found_count c.id xs c h) in
            rw apart h)
          (each_found xs (λ w. omega (arith, u w))),
    )
  where
    apart_if : (b : Bool) (n : ℕ) → one b + n ≤ 1 → 1 ≤ n → b ≡ false
    apart_if b n h k = ground arith

-- A window that is listed on a workspace has its client there.
pub listed_found :
    (w i j : ℕ) (cs : List Client) (ms : List Monitor) (c : Client)
    → found w cs ≡ some c
    → IsRegistry (map entry cs) ms
    → contains (listed ms i j) w ≡ true
    → (is_tiled c.kind ≡ true) × ((c.monitor ≡ i) × (c.workspace ≡ j))
listed_found w i j cs ms c h r l =
    let there = contains-count (listed ms i j) w l in
    let stands =
      stands_if (stands_at i j w (entry c))
        (omega (arith, there, r.counted i j w, tally-found i j w cs c h (r.unique w))) in
    (ground (arith, stands), ground (arith, stands))
  where
    stands_if : (b : Bool) → 1 ≤ one b → b ≡ true
    stands_if b k = ground arith
