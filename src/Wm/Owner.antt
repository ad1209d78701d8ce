-- ===== src/Wm/Owner.antt =====
-- On select_fullscreen_owner_for_monitor and compute_stack_tier of src/lwm/wm.cpp: the owner and
-- the windows that it covers.
use mathlib.Core.List.{append_assoc}
use lwm.Base.{
  ℕ, ltb, ◌≤◌, ◌∙◌, ap, ◌<◌, ◌≡◌, refl, sym, Bool, true, false, not, ◌&&◌, ◌||◌, ◌⊎◌, inl, inr,
  Bool-cases, choose, Option-cases, some, List, [], ◌∷◌, ◌++◌, ◌==◌, arith,
}
use lwm.Types.{xcb_none, Client, Kind}
use lwm.Policy.Fullscreen.{FullscreenCandidate, is_offered, best_of, select_owner}
use lwm.Policy.Stacking.{tier_value, compute_tier}
use lwm.Wm.State.{
  WindowManager, is_managed_kind, on_overlay, is_above, is_below, should_be_visible, owner_of,
  is_covered_by, is_suppressed_by_fullscreen, fullscreen_candidates, is_eligible_window,
  select_fullscreen_owner_for_monitor, tier_of, compute_stack_tier,
}

-- A tiled or floating fullscreen client of the monitor that shows and is not iconic.
pub record MayOwn (wm : WindowManager) (i w : ℕ) : Type 0 where
  pub client : Client
  pub listed : (before after : List Client) × (wm.clients ≡ before ++ client ∷ after)
  pub same : client.id ≡ w
  pub on_monitor : client.monitor ≡ i
  pub managed : is_managed_kind client.kind ≡ true
  pub is_fullscreen : client.fullscreen ≡ true
  pub not_iconic : client.iconic ≡ false
  pub shows : should_be_visible wm client ≡ true

offered_tail :
    (r : ℕ) (c : FullscreenCandidate) (cs : List FullscreenCandidate)
    → is_offered r cs ≡ true
    → is_offered r (c ∷ cs) ≡ true
unfolding is_offered
offered_tail r c cs h = ground (arith, h)

offered_head :
    (r : ℕ) (c : FullscreenCandidate) (cs : List FullscreenCandidate)
    → r ≡ c.window
    → c.eligible ≡ true
    → is_offered r (c ∷ cs) ≡ true
unfolding is_offered
offered_head r c cs h e = ground (arith, h, e)

best_of_nil : (b o : ℕ) → best_of b o [] ≡ b
unfolding best_of
best_of_nil b o = refl

best_of_step :
    (b o : ℕ) (c : FullscreenCandidate) (cs : List FullscreenCandidate)
    → ((c.eligible ≡ true) × (best_of b o (c ∷ cs) ≡ best_of c.window c.order cs))
      ⊎ (best_of b o (c ∷ cs) ≡ best_of b o cs)
unfolding best_of
best_of_step b o c cs = elim (Bool-cases (c.eligible && (b == xcb_none || ltb o c.order))) [
  | inl take ↦ inl (ground (arith, take), rw take refl)
  | inr pass ↦ inr (rw pass refl)
]

best_of_offered :
    (b o : ℕ) (cs : List FullscreenCandidate)
    → (best_of b o cs ≡ b) ⊎ (is_offered (best_of b o cs) cs ≡ true)
best_of_offered b o [] = inl (best_of_nil b o)
best_of_offered b o (c ∷ cs) = elim (best_of_step b o c cs) [
  | inl (fits, e) ↦ elim (best_of_offered c.window c.order cs) [
    | inl same ↦ inr (offered_head _ c cs (e ∙ same) fits)
    | inr f ↦ inr (offered_tail _ c cs (ap (λ (r : ℕ). is_offered r cs) e ∙ f))
  ]
  | inr e ↦ elim (best_of_offered b o cs) [
    | inl same ↦ inl (e ∙ same)
    | inr f ↦ inr (offered_tail _ c cs (ap (λ (r : ℕ). is_offered r cs) e ∙ f))
  ]
]

select_owner_offered :
    (owner : ℕ) (cs : List FullscreenCandidate)
    → (select_owner owner cs ≡ xcb_none) ⊎ (is_offered (select_owner owner cs) cs ≡ true)
unfolding select_owner
select_owner_offered owner cs = elim (Bool-cases (is_offered owner cs)) [
  | inl e ↦ rw e (inr e)
  | inr e ↦ rw e (best_of_offered xcb_none 0 cs)
]

is_eligible_window-offered :
    (w : ℕ) (cs : List FullscreenCandidate) → is_eligible_window w cs ≡ is_offered w cs
unfolding is_offered
is_eligible_window-offered w [] = refl
is_eligible_window-offered w (c ∷ cs) = ground (arith, is_eligible_window-offered w cs)

module _ (wm : WindowManager) (i w : ℕ) where
  -- What an offered candidate says of its client.
  candidates-MayOwn :
      (before rest : List Client)
      → wm.clients ≡ before ++ rest
      → is_offered w (fullscreen_candidates wm i rest) ≡ true
      → MayOwn wm i w
  unfolding fullscreen_candidates is_offered
  candidates-MayOwn before [] e h = cc
  candidates-MayOwn before (c ∷ rest) e h =
      let next = e ∙ sym (append_assoc before (c ∷ []) rest) in
      elim (Bool-cases (c.monitor == i && is_managed_kind c.kind)) [
        | inr skip ↦ candidates-MayOwn (before ++ c ∷ []) rest next (ground (arith, h, skip))
        | inl take ↦
            elim (Bool-cases
              (c.id == w && (c.fullscreen && not c.iconic && should_be_visible wm c))) [
                | inl hit ↦ record {
                  client = c;
                  listed = (before, rest, e);
                  same = ground (arith, hit);
                  on_monitor = ground (arith, take);
                  managed = ground (arith, take);
                  is_fullscreen = ground (arith, hit);
                  not_iconic = ground (arith, hit);
                  shows = ground (arith, hit);
                }
                | inr miss ↦
                    candidates-MayOwn (before ++ c ∷ []) rest next (ground (arith, h, take, miss))
              ]
      ]

-- The fullscreen owner that is chosen for a monitor is none, or a tiled or floating fullscreen
-- client of that monitor that shows and is not iconic, also where a window is preferred.
pub select_fullscreen_owner_for_monitor-MayOwn :
    (wm : WindowManager) (i preferred : ℕ)
    → let owner = select_fullscreen_owner_for_monitor wm i preferred in
      (owner ≡ xcb_none) ⊎ MayOwn wm i owner
unfolding select_fullscreen_owner_for_monitor
select_fullscreen_owner_for_monitor-MayOwn wm i preferred =
    let cs = fullscreen_candidates wm i wm.clients in
    let Fits = λ (r : ℕ). (r ≡ xcb_none) ⊎ MayOwn wm i r in
    let offered = candidates-MayOwn wm i in
    elim (Option-cases (owner_of wm i)) [
      | inl e ↦ rw (e, select_fullscreen_owner_for_monitor) (inl refl)
      | inr (owner, e) ↦
          rw (e, select_fullscreen_owner_for_monitor)
            (choose Fits wm.showing_desktop xcb_none _ (λ _. inl refl)
              (λ _.
                choose Fits (not (preferred == xcb_none) && is_eligible_window preferred cs)
                  preferred (select_owner owner cs)
                  (λ take. inr (
                    offered preferred [] wm.clients refl
                      (ground (arith, take, is_eligible_window-offered preferred cs))))
                  (λ _. elim (select_owner_offered owner cs) [
                    | inl nobody ↦ inl nobody
                    | inr f ↦ inr (offered (select_owner owner cs) [] wm.clients refl f)
                  ])))
    ]

owner_uncovered :
    (wm : WindowManager) (o : Client)
    → owner_of wm o.monitor ≡ some o.id
    → is_suppressed_by_fullscreen wm o ≡ false
unfolding is_suppressed_by_fullscreen
owner_uncovered wm o h =
    let open_owner : is_covered_by o (some o.id) ≡ false = ground arith in
    rw (h, open_owner) (ground arith)

covered_tier :
    (k : Kind) (over covered full above below modal : Bool)
    → is_managed_kind k ≡ true
    → over ≡ false
    → covered ≡ true
    → tier_value (tier_of k (compute_tier over covered full above below modal)) ≡ 0
unfolding compute_tier
covered_tier k over covered full above below modal m o c = ground (arith, m, o, c)

owner_tier :
    (k : Kind) (over covered full above below modal : Bool)
    → is_managed_kind k ≡ true
    → covered ≡ false
    → full ≡ true
    → 3 ≤ tier_value (tier_of k (compute_tier over covered full above below modal))
unfolding compute_tier
owner_tier k over covered full above below modal m c f = ground (arith, m, c, f)

covered_facts :
    (wm : WindowManager) (c : Client)
    → is_suppressed_by_fullscreen wm c ≡ true
    → (is_managed_kind c.kind ≡ true) × (on_overlay c.layer ≡ false)
unfolding is_suppressed_by_fullscreen
covered_facts wm c h = (ground (arith, h), ground (arith, h))

-- A window that is covered by a fullscreen window is stacked in a lower tier than the owner of the
-- fullscreen of its monitor, where that is a tiled or floating fullscreen client on the monitor.
pub compute_stack_tier-lt :
    (wm : WindowManager) (c o : Client)
    → is_suppressed_by_fullscreen wm c ≡ true
    → owner_of wm o.monitor ≡ some o.id
    → o.monitor ≡ c.monitor
    → is_managed_kind o.kind ≡ true
    → o.fullscreen ≡ true
    → tier_value (compute_stack_tier wm c) < tier_value (compute_stack_tier wm o)
unfolding compute_stack_tier
compute_stack_tier-lt wm c o covered owns same managed full =
    let (kind, layer) = covered_facts wm c covered in
    let low =
      covered_tier c.kind (on_overlay c.layer) (is_suppressed_by_fullscreen wm c) c.fullscreen
        (is_above c.layer_hint) (is_below c.layer_hint) c.modal kind layer covered in
    let high =
      owner_tier o.kind (on_overlay o.layer) (is_suppressed_by_fullscreen wm o) o.fullscreen
        (is_above o.layer_hint) (is_below o.layer_hint) o.modal managed (owner_uncovered wm o owns)
        full in
    omega arith
