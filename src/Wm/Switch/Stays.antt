-- ===== src/Wm/Switch/Stays.antt =====
-- On apply_workspace_switch of src/lwm/wm_workspace.cpp: what src/lwm/core/invariants.hpp asserts.
use mathlib.Core.Path.{subst}
use lwm.Base.{
  ℕ, ◌<◌, ◌≡◌, refl, ap, ◌∙◌, Bool, true, false, not, ◌||◌, choose, Option, none, some, List, [],
  map, map-map, All-set, length, length-set, get_elem?, get_elem?-lt, get_elem?-set_ne,
  get_elem?-set_self, set, ltb, ◌==◌, Option-cases, Bool-cases, inl, inr, count, arith,
}
use lwm.Types.{Client, Monitor}
use lwm.Types.Urgency.{active}
use lwm.Policy.Workspace.{WorkspaceSwitchResult, validate_workspace_switch}
use lwm.Layout.Tree.{DoubleOps}
use lwm.Layout.Arrange.{LayoutSettings}
use lwm.Wm.State.{WindowManager}
use lwm.Wm.Rearrange.{finalize_visibility_on_monitor}
use lwm.Wm.Switch.{
  sync_client_urgency_state, sync_urgency, with_switch, switch_to, apply_workspace_switch,
}
use lwm.Wm.Place.{has_place}
use lwm.Wm.Registry.{Entry, entry, listed, IsRegistry}
use lwm.Wm.Registry.View.{IsInPlace-shape}
use lwm.Wm.Registry.Keeps.{map-set, finalize_visibility_on_monitor-Keeps}
use lwm.Wm.Registry.Sizes.{size}
use lwm.Wm.Registry.Order.{Frame, InOrder, FineSaying}
use lwm.Wm.Registry.Fine.{fine_saying, Fine-say, Keeps-Fine, InOrder-entries}

valid_lt :
    (m : Monitor) (target : ℕ) (r : WorkspaceSwitchResult)
    → validate_workspace_switch m target ≡ some r
    → r.new_workspace < length m.workspaces
unfolding validate_workspace_switch
valid_lt m target r h = ground arith

current_none :
    (m : Monitor) (target : ℕ)
    → m.current_workspace ≡ target
    → validate_workspace_switch m target ≡ none
unfolding validate_workspace_switch
current_none m target h = ground arith

-- A monitor is written with the same workspaces.
module _ (ms : List Monitor) (i : ℕ) (m m' : Monitor) (e : get_elem? ms i ≡ some m)
    (h : m'.workspaces ≡ m.workspaces) where
  -- What is read of the monitor at an index.
  abbrev ReadsSame {κ} : {A : Type κ} → (Option Monitor → A) → Type κ
  ReadsSame f = (k : ℕ) → f (get_elem? (set ms i m') k) ≡ f (get_elem? ms k)

  at_index {κ} : {A : Type κ} (f : Option Monitor → A) → f (some m') ≡ f (some m) → ReadsSame f
  at_index f changed k = elim (Bool-cases (i == k)) [
    | inl s ↦
        let is : i ≡ k = ground (arith, s) in
        subst (λ k. f (get_elem? (set ms i m') k) ≡ f (get_elem? ms k)) is
          (rw (e, get_elem?-set_self ms i m' (get_elem?-lt ms i e)) changed)
    | inr s ↦ ap f (get_elem?-set_ne ms m' (λ (p : i ≡ k). ground (arith, s, p)))
  ]

  same_has_place : (a b : ℕ) → has_place (set ms i m') a b ≡ has_place ms a b
  unfolding has_place
  same_has_place a b =
      at_index (λ o. elim o [ none ↦ false | some n ↦ ltb b (length n.workspaces) ])
        (ap (λ wss. ltb b (length wss)) h) a

  same_listed : (a b : ℕ) → listed (set ms i m') a b ≡ listed ms a b
  same_listed a b =
      at_index
        (λ o. elim o [
          | none ↦ []
          | some n ↦ elim (get_elem? n.workspaces b) [ none ↦ [] | some ws ↦ ws.windows ]
        ])
        (ap (λ wss. elim (get_elem? wss b) [ none ↦ [] | some ws ↦ ws.windows ]) h) a

  pub IsRegistry-set_monitor :
      (es : List Entry)
      → m'.current_workspace < length m.workspaces
      → IsRegistry es ms
      → IsRegistry es (set ms i m')
  IsRegistry-set_monitor es lt r = record {
    unique = r.unique;
    in_place = IsInPlace-shape ms (set ms i m') es same_has_place r.in_place;
    counted = λ a b v. ap (count v) (same_listed a b) ∙ r.counted a b v;
    currents =
        All-set (λ (n : Monitor). n.current_workspace < length n.workspaces) ms i m' r.currents
          (rw h lt);
  }

module _ (ops : DoubleOps) (settings : LayoutSettings) (hints : ℕ → Option Bool) where
  sync_urgency-entry : (w : ℕ) (c : Client) → entry (sync_urgency hints w c) ≡ entry c
  unfolding sync_urgency sync_client_urgency_state
  sync_urgency-entry w c =
      choose (λ (d : Client). entry d ≡ entry c) (not (active c.urgency) || c.id == w) _ _
        (λ _. refl) (λ _. refl)

  -- Switching a workspace gives a state in order, with as many monitors.
  pub apply_workspace_switch-FineSaying :
      (n : Frame) (wm : WindowManager) (i target : ℕ)
      → InOrder n wm
      → FineSaying n (apply_workspace_switch ops settings hints wm i target)
  unfolding apply_workspace_switch switch_to with_switch
  apply_workspace_switch-FineSaying n wm i target o =
      elim (Option-cases (get_elem? wm.monitors i)) [
        | inl e ↦ rw (e, apply_workspace_switch) (fine_saying wm false o)
        | inr (m, e) ↦ elim (Option-cases (validate_workspace_switch m target)) [
          | inl v ↦ rw (e, apply_workspace_switch) (rw v (fine_saying wm false o))
          | inr (r, v) ↦
              let m' : Monitor = record m {
                previous_workspace = r.old_workspace;
                current_workspace = r.new_workspace;
              } in
              let mid = with_switch wm i m r in
              let o' : InOrder n mid = record {
                registered =
                    IsRegistry-set_monitor wm.monitors i m m' e refl (map entry wm.clients)
                      (valid_lt m target r v) o.registered;
                count = length-set wm.monitors i m' ∙ o.count;
                sizes = map-set size wm.monitors i m m' e refl ∙ o.sizes;
                windows = o.windows;
                focused = o.focused;
              } in
              rw (e, apply_workspace_switch)
                (rw v (
                  Fine-say (finalize_visibility_on_monitor ops settings mid i 0) _
                    (Keeps-Fine mid _ o'
                      (finalize_visibility_on_monitor-Keeps ops settings mid i 0 o'.registered))
                    (λ wm' p. fine_saying _ true (
                      InOrder-entries wm'
                        (record wm' {
                          clients = map (sync_urgency hints wm'.active_window) wm'.clients;
                        })
                        (map-map entry (sync_urgency hints wm'.active_window) entry wm'.clients
                          (sync_urgency-entry wm'.active_window))
                        refl refl p))))
        ]
      ]

  -- The current workspace is no target.
  pub apply_workspace_switch_current :
      (wm : WindowManager) (i target : ℕ) (m : Monitor)
      → get_elem? wm.monitors i ≡ some m
      → m.current_workspace ≡ target
      → apply_workspace_switch ops settings hints wm i target ≡ some (wm, false)
  unfolding apply_workspace_switch
  apply_workspace_switch_current wm i target m e c =
      let stays : validate_workspace_switch m target ≡ none = current_none m target c in
      rw (e, apply_workspace_switch) (rw stays refl)
