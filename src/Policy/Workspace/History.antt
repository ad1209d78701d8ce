-- ===== src/Policy/Workspace/History.antt =====
-- The focus history of a workspace in workspace_policy: its entries, their number and their order.
use mathlib.Core.List.{tail, get_last?}
use lwm.Base.{
  ℕ, ◌≤◌, ◌<◌, ◌≡◌, refl, ◌≢◌, true, some, List, [], ◌∷◌, ◌++◌, length, length-append, contains,
  erase_all, count, count-append, count-erase_all, length-erase_all-le, contains-append,
  contains-erase_all, arith,
}
use lwm.Types.{Workspace, xcb_none}
use lwm.Policy.Workspace.Invariant.{IsHistory}
use lwm.Policy.Workspace.{trim, push_focus_history, remove_from_focus_history}

count-tail-le : (a : ℕ) (l : List ℕ) → count a (tail l) ≤ count a l
count-tail-le a [] = omega arith
count-tail-le a (x ∷ l) = ground arith

count-trim-le : (a : ℕ) (l : List ℕ) → count a (trim l) ≤ count a l
count-trim-le a l = ground (arith, count-tail-le a l)

length-trim-le : (l : List ℕ) → length l ≤ 17 → length (trim l) ≤ 16
length-trim-le [] h = omega arith
length-trim-le (x ∷ l) h = ground arith

length-pushed-le : (h : List ℕ) (w : ℕ) → length h ≤ 16 → length (erase_all h w ++ w ∷ []) ≤ 17
length-pushed-le h w b =
    omega (arith, length-append (erase_all h w) (w ∷ []), length-erase_all-le h w)

count-pushed-le : (h : List ℕ) (w a : ℕ) → count a h ≤ 1 → count a (erase_all h w ++ w ∷ []) ≤ 1
count-pushed-le h w a b =
    ground (arith, count-append a (erase_all h w) (w ∷ []), count-erase_all h w a)

get_last?-snoc : (l : List ℕ) (w : ℕ) → get_last? (l ++ w ∷ []) ≡ some w
get_last?-snoc [] w = refl
get_last?-snoc (x ∷ []) w = refl
get_last?-snoc (x ∷ y ∷ l) w = get_last?-snoc (y ∷ l) w

pushed-IsHistory :
    (h : List ℕ) (w : ℕ) → w ≢ xcb_none → IsHistory h → IsHistory (trim (erase_all h w ++ w ∷ []))
pushed-IsHistory h w ne v = record {
  windows = record {
    distinct = λ a. omega (
      arith,
      count-trim-le a (erase_all h w ++ w ∷ []),
      count-pushed-le h w a (v.windows.distinct a),
    );
    no_none = ground (
      arith,
      count-trim-le xcb_none (erase_all h w ++ w ∷ []),
      count-append xcb_none (erase_all h w) (w ∷ []),
      count-erase_all h w xcb_none,
      v.windows.no_none,
    );
  };
  bounded = length-trim-le _ (length-pushed-le h w v.bounded);
}

-- The history of focused windows stays a list of at most sixteen distinct windows when a window
-- is pushed or removed, XCB_NONE included.
pub push_focus_history-IsHistory :
    (ws : Workspace) (w : ℕ)
    → IsHistory ws.focus_history
    → IsHistory (push_focus_history ws w).focus_history
      × IsHistory (remove_from_focus_history ws w).focus_history
unfolding push_focus_history remove_from_focus_history
push_focus_history-IsHistory ws w v = (
  ground (arith, v, pushed-IsHistory ws.focus_history w),
  record {
    windows = record {
      distinct = λ a. ground (arith, count-erase_all ws.focus_history w a, v.windows.distinct a);
      no_none = ground (arith, count-erase_all ws.focus_history w xcb_none, v.windows.no_none);
    };
    bounded = omega (arith, length-erase_all-le ws.focus_history w, v.bounded);
  },
)

get_last?-tail : (x : ℕ) (l : List ℕ) (w : ℕ) → get_last? (tail (x ∷ l ++ w ∷ [])) ≡ some w
get_last?-tail x l w = get_last?-snoc l w

-- A pushed window is the most recent one, and only the oldest of a full history is forgotten: any
-- other window stays, unless it is the first of sixteen windows that are not the pushed one.
pub push_focus_history-keeps :
    (ws : Workspace) (w a : ℕ)
    → w ≢ xcb_none
    → length (erase_all ws.focus_history w) < 16
    → contains ws.focus_history a ≡ true
    → (get_last? (push_focus_history ws w).focus_history ≡ some w)
      × (contains (push_focus_history ws w).focus_history a ≡ true)
unfolding push_focus_history
push_focus_history-keeps ws w a ne room c = ground (
  arith,
  get_last?-snoc (erase_all ws.focus_history w) w,
  length-append (erase_all ws.focus_history w) (w ∷ []),
  contains-append (erase_all ws.focus_history w) (w ∷ []) a,
  contains-erase_all ws.focus_history w a,
)
