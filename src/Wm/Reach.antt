-- ===== src/Wm/Reach.antt =====
-- Runs of the operations of src/lwm/wm.cpp, wm_focus.cpp and wm_workspace.cpp, one after the other,
-- as the event handlers of src/lwm/wm_events.cpp call them. Each operation takes the window that
-- the event names; for a window that is not managed the handlers do nothing.
use mathlib.Core.Path.{subst}
use lwm.Base.{ℕ, ◌≡◌, sym, ◌∙◌, Bool, Option, none, some, ◌>>=◌, choose_some}
use lwm.Base.Int.{ℤ}
use lwm.Types.{Client, Geometry}
use lwm.Layout.Tree.{DoubleOps}
use lwm.Layout.Arrange.{LayoutSettings}
use lwm.Wm.State.{WindowManager, get_client}
use lwm.Wm.Place.{try_change, move_tiled_client_to_workspace, move_floating_client_to_workspace}
use lwm.Wm.Place.Stays.{move_tiled_client_to_workspace-FineSaying}
use lwm.Wm.Place.Floats.{move_floating_client_to_workspace-FineSaying}
use lwm.Wm.Registry.Order.{Frame, InOrder, Fine, FineSaying}
use lwm.Wm.Registry.Fine.{fine, FineSaying-bind}
use lwm.Wm.Activate.{
  focus_fuel, focus_any_window, deiconify_window, iconify_window,
  repair_focus_after_visibility_change, cycle_focus,
}
use lwm.Wm.Activate.Ends.{focus_any_window-Fine}
use lwm.Wm.Activate.Stays.{
  deiconify_window-Fine, iconify_window-Fine, repair_focus_after_visibility_change-Fine,
  cycle_focus-Fine,
}
use lwm.Wm.Commands.{
  switch_workspace, toggle_workspace, move_window_to_workspace, focus_monitor,
  move_window_to_monitor,
}
use lwm.Wm.Commands.Stays.{
  switch_workspace-Fine, toggle_workspace-Fine, move_window_to_workspace-Fine,
}
use lwm.Wm.Commands.Monitors.{focus_monitor-Fine, move_window_to_monitor-Fine}
use lwm.Wm.Convert.{toggle_window_float}
use lwm.Wm.Convert.Toggles.{toggle_window_float-Fine}
use lwm.Wm.Modes.{set_window_maximized, set_fullscreen, set_window_sticky}
use lwm.Wm.Modes.Stays.{set_fullscreen-Fine, set_window_sticky-Fine, set_window_maximized-Fine}

pub data Operation : Type 0 where
  focus : ℕ → Bool → ℕ → Operation
  cycle : Bool → Operation
  repair : ℕ → Bool → Operation
  iconify : ℕ → Operation
  deiconify : ℕ → Bool → Operation
  switch_to_workspace : ℕ → Operation
  switch_back : Operation
  send_to_workspace : ℕ → Operation
  go_to_monitor : ℤ → Operation
  send_to_monitor : ℤ → Operation
  move_tiled_to : ℕ → ℕ → ℕ → Option ℕ → Operation
  move_floating_to : ℕ → ℕ → ℕ → Bool → Operation
  toggle_float : ℕ → Operation
  make_fullscreen : ℕ → Bool → Operation
  make_maximized : ℕ → Bool → Bool → Operation
  make_sticky : ℕ → Bool → Operation

-- An operation on a client, where the window has one.
abbrev pub for_client : WindowManager → ℕ → (Client → Option WindowManager) → Option WindowManager
for_client wm w f = elim (get_client wm w) [ none ↦ some wm | some c ↦ f c ]

abbrev pub state_of : WindowManager × Bool → Option WindowManager
state_of r = some r.0

some_state : (a b : WindowManager) → some a ≡ some b → a ≡ b
some_state a b h = cc

module _ (ops : DoubleOps) (settings : LayoutSettings) (hints : ℕ → Option Bool)
    (geometries : ℕ → Geometry) where
  unfoldable pub run : Operation → WindowManager → Option WindowManager
  run (focus w r t) wm = focus_any_window ops settings hints focus_fuel wm w r t
  run (cycle forward) wm = cycle_focus ops settings hints wm forward
  run (repair i r) wm = repair_focus_after_visibility_change ops settings hints wm i r
  run (iconify w) wm = iconify_window ops settings hints wm w
  run (deiconify w f) wm = deiconify_window ops settings hints wm w f
  run (switch_to_workspace ws) wm = switch_workspace ops settings hints wm ws
  run switch_back wm = toggle_workspace ops settings hints wm
  run (send_to_workspace ws) wm = move_window_to_workspace ops settings hints wm ws
  run (go_to_monitor d) wm = focus_monitor ops settings hints wm d
  run (send_to_monitor d) wm = move_window_to_monitor ops settings hints wm d
  run (move_tiled_to w i j at) wm =
      for_client wm w (λ c. move_tiled_client_to_workspace ops settings wm w i j at >>= state_of)
  run (move_floating_to w i j place) wm =
      for_client wm w
        (λ c. move_floating_client_to_workspace ops settings wm w i j place >>= state_of)
  run (toggle_float w) wm = toggle_window_float ops settings hints geometries wm w
  run (make_fullscreen w b) wm = for_client wm w (λ c. set_fullscreen ops settings hints wm w b)
  run (make_maximized w h v) wm =
      for_client wm w (λ c. try_change (set_window_maximized wm h v) w wm)
  run (make_sticky w b) wm = for_client wm w (λ c. set_window_sticky ops settings hints wm w b)

  -- The states that come one after the other.
  pub data Reach : WindowManager → WindowManager → Type 0 where
    stay : (wm : WindowManager) → Reach wm wm
    after :
        {wm mid end : WindowManager}
        → (op : Operation) → run op wm ≡ some mid
        → Reach mid end
        → Reach wm end

  module _ (n : Frame) where
    for_client-Fine :
        (wm : WindowManager) (w : ℕ) (f : Client → Option WindowManager)
        → InOrder n wm
        → ((c : Client) → get_client wm w ≡ some c → Fine n (f c))
        → Fine n (for_client wm w f)
    for_client-Fine wm w f h k = choose_some (Fine n) (get_client wm w) _ _ (λ _. fine wm h) k

    state-Fine : (r : Option (WindowManager × Bool)) → FineSaying n r → Fine n (r >>= state_of)
    state-Fine r h = FineSaying-bind r state_of h (λ wm b k. fine wm k)

    run-Fine : (op : Operation) (wm : WindowManager) → InOrder n wm → Fine n (run op wm)
    unfolding run
    run-Fine (focus w r t) wm h = focus_any_window-Fine ops settings hints n wm w r t h
    run-Fine (cycle forward) wm h = cycle_focus-Fine ops settings hints n wm forward h
    run-Fine (repair i r) wm h =
        repair_focus_after_visibility_change-Fine ops settings hints n wm i r h
    run-Fine (iconify w) wm h = iconify_window-Fine ops settings hints n wm w h
    run-Fine (deiconify w f) wm h = deiconify_window-Fine ops settings hints n wm w f h
    run-Fine (switch_to_workspace ws) wm h = switch_workspace-Fine ops settings hints n wm ws h
    run-Fine switch_back wm h = toggle_workspace-Fine ops settings hints n wm h
    run-Fine (send_to_workspace ws) wm h =
        move_window_to_workspace-Fine ops settings hints n wm ws h
    run-Fine (go_to_monitor d) wm h = focus_monitor-Fine ops settings hints n wm d h
    run-Fine (send_to_monitor d) wm h = move_window_to_monitor-Fine ops settings hints n wm d h
    run-Fine (move_tiled_to w i j at) wm h = for_client-Fine wm w _ h (λ c e.
        state-Fine (move_tiled_client_to_workspace ops settings wm w i j at)
          (move_tiled_client_to_workspace-FineSaying ops settings n wm w i j at c e h))
    run-Fine (move_floating_to w i j place) wm h = for_client-Fine wm w _ h (λ c e.
        state-Fine (move_floating_client_to_workspace ops settings wm w i j place)
          (move_floating_client_to_workspace-FineSaying ops settings n wm w i j place c e h))
    run-Fine (toggle_float w) wm h = toggle_window_float-Fine n ops settings hints geometries wm w h
    run-Fine (make_fullscreen w b) wm h =
        for_client-Fine wm w _ h (λ c e. set_fullscreen-Fine ops settings hints n wm w b c e h)
    run-Fine (make_maximized w hz v) wm h =
        for_client-Fine wm w _ h
          (λ c e. set_window_maximized-Fine ops settings hints n wm w hz v c e h)
    run-Fine (make_sticky w b) wm h =
        for_client-Fine wm w _ h (λ c e. set_window_sticky-Fine ops settings hints n wm w b c e h)

    -- Every operation gives a state, from every state that comes out of a state in order: none of
    -- them reads a list out of bounds or calls itself too deeply. The state is in order again, with
    -- as many monitors and workspaces and with the same windows.
    pub Reach-InOrder :
        (wm wm' : WindowManager) (op : Operation)
        → InOrder n wm
        → Reach wm wm'
        → InOrder n wm' × Fine n (run op wm')
    Reach-InOrder wm wm' op h (stay _) = (h, run-Fine op wm h)
    Reach-InOrder wm wm' op h (after {mid = mid} step e rest) =
        let (next, is, k) = run-Fine step wm h in
        Reach-InOrder mid wm' op (subst (InOrder n) (some_state next mid (sym is ∙ e)) k) rest
