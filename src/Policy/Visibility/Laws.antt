-- ===== src/Policy/Visibility/Laws.antt =====
-- On is_window_visible of visibility_policy: when a window shows.
use lwm.Base.{ℕ, ◌≡◌, ◌≢◌, ◌↔◌, ◌⊎◌, Bool, true, false, none, List, get_elem?, arith}
use lwm.Types.{Monitor}
use lwm.Policy.Visibility.{is_workspace_visible, is_window_visible}

-- A window shows exactly when it is not iconic, its monitor exists, and it is sticky or its
-- workspace shows. A sticky window shows also while the desktop is shown.
pub is_window_visible_iff :
    (showing iconic sticky : Bool) (mi wi : ℕ) (ms : List Monitor)
    → (is_window_visible showing iconic sticky mi wi ms ≡ true) ↔ (
        (iconic ≡ false)
        × (get_elem? ms mi ≢ none)
        × ((sticky ≡ true) ⊎ (is_workspace_visible showing mi wi ms ≡ true)))
unfolding is_window_visible is_workspace_visible
is_window_visible_iff showing iconic sticky mi wi ms = (λ h. ground arith, λ h. ground arith)

-- Of one monitor at most one workspace shows, the current one, and none while the desktop is shown.
pub visible_workspace_unique :
    (showing : Bool) (mi wi wi' : ℕ) (ms : List Monitor)
    → is_workspace_visible showing mi wi ms ≡ true
    → is_workspace_visible showing mi wi' ms ≡ true
    → (wi ≡ wi') × (showing ≡ false)
unfolding is_workspace_visible
visible_workspace_unique showing mi wi wi' ms h h' = ground arith
