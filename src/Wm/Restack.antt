-- ===== src/Wm/Restack.antt =====
-- WindowManager::apply_stacking of src/lwm/wm.cpp: the stacking order of all clients, in which
-- transient windows are raised above their parents. What is sent to the X server is the order.
pub mod Keeps
pub mod Own
use lwm.Base.{
  ℕ, zero, suc, ◌+◌, Bool, true, false, not, ◌&&◌, ◌||◌, Option, none, some, List, [], ◌∷◌, map,
  length, ltb, ◌==◌, if◌then◌else◌, erase_first,
}
use lwm.Types.{xcb_none, Client}
use lwm.Policy.Stacking.{compute_order}
use lwm.Wm.State.{
  WindowManager, get_client, is_floating, is_physically_visible, is_suppressed_by_fullscreen,
  stack_inputs_of,
}

unfoldable pub position_of : List ℕ → ℕ → Option ℕ
position_of [] w = none
position_of (x ∷ order) w =
    if x == w then some 0 else elim (position_of order w) [ none ↦ none | some i ↦ some (suc i) ]

abbrev pub shows_above : WindowManager → Option Client → Bool
shows_above wm none = false
shows_above wm (some c) = is_physically_visible wm c && not (is_suppressed_by_fullscreen wm c)

unfoldable pub transient_can_stack : WindowManager → Client → Bool
transient_can_stack wm c =
    not (not (is_floating c.kind) || c.transient_for == xcb_none)
    && shows_above wm (some c)
    && shows_above wm (get_client wm c.transient_for)

-- order.insert(order.begin() + i, child)
abbrev pub insert_at : List ℕ → ℕ → ℕ → List ℕ
insert_at order zero child = child ∷ order
insert_at [] (suc i) child = child ∷ []
insert_at (x ∷ order) (suc i) child = x ∷ insert_at order i child

-- The order with the child behind its parent, after it is erased.
unfoldable pub raise : List ℕ → ℕ → ℕ → List ℕ × Bool
raise order child parent = elim (position_of (erase_first order child) parent) [
  | none ↦ (erase_first order child, false)
  | some p ↦ (insert_at (erase_first order child) (p + 1) child, true)
]

-- The test on the positions of the child and of the parent.
abbrev pub is_under : Option ℕ → Option ℕ → Bool
is_under none p = false
is_under (some c) none = false
is_under (some c) (some p) = not (ltb p c)

-- The body of the loop over the snapshot: the new order, and whether it changes.
unfoldable pub restack_one : WindowManager → List ℕ → ℕ → List ℕ × Bool
restack_one wm order window = elim (get_client wm window) [
  | none ↦ (order, false)
  | some c ↦
      if transient_can_stack wm c
        && is_under (position_of order window) (position_of order c.transient_for)
      then raise order window c.transient_for
      else (order, false)
]

unfoldable pub restack_pass : WindowManager → List ℕ → List ℕ → Bool → List ℕ × Bool
restack_pass wm [] order changed = (order, changed)
restack_pass wm (w ∷ snapshot) order changed =
    let (next, raised) = restack_one wm order w in restack_pass wm snapshot next (raised || changed)

-- The loop over the passes. The order never grows, so its first length is fuel enough.
unfoldable pub restack : WindowManager → ℕ → ℕ → List ℕ → List ℕ
restack wm zero pass order = order
restack wm (suc fuel) pass order =
    let (next, changed) = restack_pass wm order order false in
    let rest = restack wm fuel (suc pass) next in
    if ltb pass (length order) then (if changed then rest else next) else order

unfoldable pub stacking_order : WindowManager → List ℕ
stacking_order wm =
    let order = compute_order (map (stack_inputs_of wm) wm.clients) in
    restack wm (length order) 0 order
