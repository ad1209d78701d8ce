-- ===== src/Wm/Active.antt =====
-- The active window of the window manager in src/lwm/wm_focus.cpp, and what focusing changes in its
-- client, with clear_client_urgency of src/lwm/wm.cpp.
use lwm.Base.{
  ℕ, ◌+◌, ◌%◌, ◌^◌, Bool, false, not, ◌&&◌, Option, none, some, leb, ◌==◌, if◌then◌else◌,
}
use lwm.Types.{Client, xcb_none}
use lwm.Types.Urgency.{clear, active}
use lwm.Wm.State.{WindowManager, get_client, is_suppressed_by_fullscreen}
use lwm.Wm.Rearrange.{change}
use lwm.Wm.Switch.{sync_client_urgency_state}

unfoldable pub clear_focus : WindowManager → WindowManager
clear_focus wm = record wm { active_window = xcb_none }

abbrev pub with_mru_order : ℕ → Client → Client
with_mru_order n c = record c { mru_order = n }

-- client->mru_order = next_mru_order_++; active_window_ = window
unfoldable pub activate : WindowManager → ℕ → WindowManager
activate wm window = record (change (with_mru_order wm.next_mru_order) window wm) {
  next_mru_order = (wm.next_mru_order + 1) % 2 ^ 64;
  active_window = window;
}

abbrev pub with_iconic : Bool → Client → Client
with_iconic b c = record c { iconic = b }

unfoldable pub clear_client_urgency : (ℕ → Option Bool) → Client → Client
clear_client_urgency hints c =
    let (urgency, changed) = clear c.urgency in
    if changed then sync_client_urgency_state hints (record c { urgency = urgency }) else c

-- The time of the focus, where it is recorded and does not go back.
unfoldable pub with_user_time : ℕ → Bool → ℕ → Client → Client
with_user_time last_event_time record_user_time focus_timestamp c =
    let candidate = if focus_timestamp == 0 then last_event_time else focus_timestamp in
    if record_user_time && not (candidate == 0) && leb c.user_time candidate
    then record c { user_time = candidate }
    else c

-- The last part of focus_any_window.
unfoldable pub finish_focus : (ℕ → Option Bool) → WindowManager → ℕ → Bool → ℕ → WindowManager
finish_focus hints wm window record_user_time focus_timestamp =
    if not (wm.active_window == window)
    then wm
    else change
        (λ (c : Client).
          with_user_time wm.last_event_time record_user_time focus_timestamp
            (if active c.urgency then clear_client_urgency hints c else c))
        window wm

-- is_suppressed_by_fullscreen(*client) on the client as it is now.
abbrev pub is_suppressed : WindowManager → ℕ → Bool
is_suppressed wm window = elim (get_client wm window) [
  | none ↦ false
  | some c ↦ is_suppressed_by_fullscreen wm c
]
