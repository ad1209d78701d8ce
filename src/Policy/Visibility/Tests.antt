-- ===== src/Policy/Visibility/Tests.antt =====
-- One monitor that shows its second workspace.
use lwm.Base.{ℕ, ◌≡◌, refl, false, List, [], ◌∷◌}
use lwm.Base.Int.{pos}
use lwm.Types.{Monitor}
use lwm.Policy.Visibility.{is_workspace_visible}
use lwm.Policy.Visibility.Laws.{visible_workspace_unique}

abbrev one : List Monitor
one =
    record {
      output = 1;
      name = "DP-1";
      x = pos 0;
      y = pos 0;
      width = 1920;
      height = 1080;
      workspaces = [];
      current_workspace = 1;
      previous_workspace = 0;
      strut = record { left = 0; right = 0; top = 0; bottom = 0 };
      fullscreen_owner = 0;
    }
    ∷ []

visible_workspace_unique_example : (◌≡◌ {A = ℕ} 1 1) × (false ≡ false)
unfolding is_workspace_visible
visible_workspace_unique_example = visible_workspace_unique false 0 1 1 one refl refl
