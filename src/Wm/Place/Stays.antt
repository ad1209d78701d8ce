-- ===== src/Wm/Place/Stays.antt =====
-- On the moves of src/lwm/wm.cpp between workspaces: what src/lwm/core/invariants.hpp asserts.
use mathlib.Core.Path.{subst}
use lwm.Base.{
  ℕ, ◌+◌, ◌≡◌, refl, sym, ap, ◌∙◌, true, false, not, ◌&&◌, ◌||◌, choose, Option, some, ◌>>=◌,
  has_value, List, length, leb, ◌==◌, arith, count, contains, count-erase_first, erase_first,
}
use lwm.Types.{Client, Monitor, Workspace, has_window}
use lwm.Layout.Tree.{DoubleOps}
use lwm.Layout.Arrange.{LayoutSettings}
use lwm.Wm.State.{WindowManager, get_client}
use lwm.Wm.Reconcile.{reconcile_visibility_for_monitor}
use lwm.Wm.Rearrange.{update, change, rearrange_monitor}
use lwm.Wm.Place.{
  is_tiled, has_place, window_is_iconic, workspace_at, set_workspace, with_workspace, placed_at,
  assign_window_workspace, source_without, target_with, rearrange_both, finalize_move_visibility,
  add_moved, move_tiled, move_tiled_client, move_tiled_client_to_workspace,
}
use lwm.Wm.Registry.{entry, listed, IsRegistered, IsInPlace}
use lwm.Wm.Registry.View.{
  Keeps, Keeps-bind, IsRegistered-view, IsRegistered-IsConsistent, length-view,
}
use lwm.Wm.Registry.Keeps.{reconcile_visibility_for_monitor-Keeps, rearrange_monitor-Keeps}
use lwm.Wm.Registry.Changes.{one, Fits, IsRegistry-change, found-IsInPlace}
use lwm.Wm.Registry.Sizes.{sizes-set_workspace}
use lwm.Wm.Registry.Lists.{
  AllCurrent, has_place-set_workspace, AllCurrent-set_workspace, count-set_workspace,
  length-set_workspace,
}
use lwm.Wm.Registry.Order.{Frame, InOrder, FineSaying}
use lwm.Wm.Registry.Fine.{InOrder-moved, fine_saying, Keeps-Fine, Fine-bind, Fine-say}
use lwm.Wm.Place.Counts.{
  count-insert, source_windows, has_place-workspace, get_client_id, one-le-count, managed_if_tiled,
  move_counts,
}

module _ (ops : DoubleOps) (settings : LayoutSettings) where
  pub finalize_move_visibility-Keeps :
      (wm : WindowManager) (a b : ℕ)
      → IsRegistered wm
      → Keeps wm (finalize_move_visibility ops settings wm a b)
  unfolding finalize_move_visibility rearrange_both
  finalize_move_visibility-Keeps wm a b r =
      choose (Keeps wm) (leb (length wm.monitors) a || leb (length wm.monitors) b) _ _
        (λ _. (wm, refl, refl))
        (λ h.
          Keeps-bind wm (reconcile_visibility_for_monitor wm a 0 >>= _) _
            (Keeps-bind wm (reconcile_visibility_for_monitor wm a 0) _
              (reconcile_visibility_for_monitor-Keeps wm a 0 (IsRegistered-IsConsistent wm r))
              (λ wm' k.
                choose (Keeps wm') (b == a) _ _ (λ _. (wm', refl, refl))
                  (λ _.
                    reconcile_visibility_for_monitor-Keeps wm' b 0
                      (IsRegistered-IsConsistent wm' (IsRegistered-view wm wm' k r)))))
            (λ wm' k.
              let r' = IsRegistered-view wm wm' k r in
              let n = length-view wm wm' k in
              Keeps-bind wm' (rearrange_monitor ops settings wm' a false) _
                (rearrange_monitor-Keeps ops settings wm' a false r' (ground (arith, h, n)))
                (λ wm2 k2.
                  choose (Keeps wm2) (b == a) _ _ (λ _. (wm2, refl, refl))
                    (λ _.
                      rearrange_monitor-Keeps ops settings wm2 b false
                        (IsRegistered-view wm' wm2 k2 r')
                        (ground (arith, h, n, length-view wm' wm2 k2))))))

  move-Fits :
      (c : Client) (ms : List Monitor) (a' b' : ℕ) (source left target new : Workspace)
      → is_tiled c.kind ≡ true
      → IsInPlace ms (entry c)
      → AllCurrent ms
      → has_place ms a' b' ≡ true
      → workspace_at ms c.monitor c.workspace ≡ some source
      → contains source.windows c.id ≡ true
      → left.windows ≡ erase_first source.windows c.id
      → workspace_at (set_workspace ms c.monitor c.workspace left) a' b' ≡ some target
      → ((v : ℕ) → count v new.windows ≡ count v target.windows + one (c.id == v))
      → Fits c
          (placed_at a' b' c)
          ms
          (set_workspace (set_workspace ms c.monitor c.workspace left) a' b' new)
  move-Fits c ms a' b' source left target new t p cur there e has le e' n =
      let mid = set_workspace ms c.monitor c.workspace left in
      record {
        id = refl;
        in_place = (λ _. there, p.1);
        places = λ i j.
            has_place-set_workspace mid a' b' target new e' i j
            ∙ has_place-set_workspace ms c.monitor c.workspace source left e i j;
        currents =
            AllCurrent-set_workspace mid a' b' target new e'
              (AllCurrent-set_workspace ms c.monitor c.workspace source left e cur);
        counted = λ i j v.
            let first = count-set_workspace ms c.monitor c.workspace source left e i j v in
            let second = count-set_workspace mid a' b' target new e' i j v in
            let taken = ap (count v) le ∙ count-erase_first source.windows c.id v in
            move_counts (c.monitor == i) (c.workspace == j) (a' == i) (b' == j) (is_tiled c.kind)
              (c.id == v) (count v source.windows) (count v left.windows) (count v target.windows)
              (count v new.windows) (count v (listed ms i j)) (count v (listed mid i j))
              (count v (listed (set_workspace mid a' b' new) i j)) t
              (one-le-count source.windows c.id v has) taken (n v) first second;
      }

  -- The move of a tiled client, before the visibility of the monitors is finalized.
  moved-IsRegistered :
      (wm : WindowManager) (w : ℕ) (c : Client) (a' b' : ℕ) (source left target new : Workspace)
      → get_client wm w ≡ some c
      → IsRegistered wm
      → is_tiled c.kind ≡ true
      → has_place wm.monitors a' b' ≡ true
      → workspace_at wm.monitors c.monitor c.workspace ≡ some source
      → contains source.windows c.id ≡ true
      → left.windows ≡ erase_first source.windows c.id
      → workspace_at (set_workspace wm.monitors c.monitor c.workspace left) a' b' ≡ some target
      → ((v : ℕ) → count v new.windows ≡ count v target.windows + one (c.id == v))
      → IsRegistered (
          with_workspace
            (change (placed_at a' b') c.id (with_workspace wm c.monitor c.workspace left))
            a'
            b'
            new)
  unfolding get_client
  moved-IsRegistered wm w c a' b' source left target new found r t there e has le e' n =
      let is : w ≡ c.id = sym (get_client_id wm w c found) in
      let found' = subst (λ u. get_client wm u ≡ some c) is found in
      IsRegistry-change c.id wm.clients c (placed_at a' b') wm.monitors
        (set_workspace (set_workspace wm.monitors c.monitor c.workspace left) a' b' new) found'
        (move-Fits c wm.monitors a' b' source left target new t
          (found-IsInPlace w wm.clients c wm.monitors found r) r.currents there e has le e' n)
        r

  pub add_moved-placed :
      (n : Frame) (wm : WindowManager) (w : ℕ) (c : Client) (a' b' : ℕ) (insert_index : Option ℕ)
      (source left : Workspace)
      → get_client wm w ≡ some c
      → InOrder n wm
      → is_tiled c.kind ≡ true
      → has_place wm.monitors a' b' ≡ true
      → workspace_at wm.monitors c.monitor c.workspace ≡ some source
      → contains source.windows c.id ≡ true
      → left.windows ≡ erase_first source.windows c.id
      → (wm' : WindowManager) × (add_moved ops settings
            (with_workspace wm c.monitor c.workspace left)
            c.id
            a'
            b'
            insert_index
          ≡ some wm')
        × InOrder n wm'
        × (wm'.clients ≡ update (placed_at a' b') c.id wm.clients)
  unfolding add_moved assign_window_workspace target_with get_client
  add_moved-placed n wm w c a' b' insert_index source left found r t there e has le =
      let mid = set_workspace wm.monitors c.monitor c.workspace left in
      let there' : has_place mid a' b' ≡ true =
        has_place-set_workspace wm.monitors c.monitor c.workspace source left e a' b' ∙ there in
      let (target, e') = has_place-workspace mid a' b' there' in
      let moved =
        moved-IsRegistered wm w c a' b' source left target (target_with target c.id insert_index)
          found r.registered t there e has le e' (λ v. count-insert target.windows _ c.id v) in
      rw (there', add_moved)
        (rw e' (
          _,
          refl,
          InOrder-moved (placed_at a' b') c.id c wm _
              (subst (λ u. get_client wm u ≡ some c) (sym (get_client_id wm w c found)) found) refl
              (length-set_workspace mid a' b' _
                ∙ length-set_workspace wm.monitors c.monitor c.workspace left)
              (sizes-set_workspace mid a' b' _
                ∙ sizes-set_workspace wm.monitors c.monitor c.workspace left)
              refl refl moved refl r,
          refl,
        ))

  move_tiled-FineSaying :
      (n : Frame) (wm : WindowManager) (w : ℕ) (c : Client) (a' b' : ℕ) (insert_index : Option ℕ)
      (source : Workspace)
      → get_client wm w ≡ some c
      → InOrder n wm
      → is_tiled c.kind ≡ true
      → has_place wm.monitors a' b' ≡ true
      → workspace_at wm.monitors c.monitor c.workspace ≡ some source
      → FineSaying n (move_tiled ops settings wm c a' b' insert_index source)
  unfolding move_tiled
  move_tiled-FineSaying n wm w c a' b' insert_index source found r t there e =
      let same = c.monitor == a' && c.workspace == b' in
      let left = source_without source c.id same (window_is_iconic wm) in
      let mid = with_workspace wm c.monitor c.workspace left in
      choose (FineSaying n) (not (has_window source c.id)) _ _ (λ _. fine_saying wm false r)
        (λ h.
          Fine-say
            (add_moved ops settings mid c.id a' b' insert_index
              >>= (λ wm'. finalize_move_visibility ops settings wm' c.monitor a'))
            _
            (Fine-bind (add_moved ops settings mid c.id a' b' insert_index) _
              (let (wm1, is, k, same_clients) =
                  add_moved-placed n wm w c a' b' insert_index source left found r t there e
                    (ground (arith, h)) (source_windows source c.id same (window_is_iconic wm)) in
                (wm1, is, k))
              (λ wm' r'.
                Keeps-Fine wm' _ r'
                  (finalize_move_visibility-Keeps wm' c.monitor a' r'.registered)))
            (λ wm' r'. fine_saying wm' true r'))

  -- Moving a window to a workspace of any monitor, at any index, never reads a list out of bounds and
  -- gives a state, where the clients and the workspaces satisfy the asserted invariants: they do
  -- again after it.
  pub move_tiled_client_to_workspace-FineSaying :
      (n : Frame) (wm : WindowManager) (w a b : ℕ) (insert_index : Option ℕ) (c : Client)
      → get_client wm w ≡ some c
      → InOrder n wm
      → FineSaying n (move_tiled_client_to_workspace ops settings wm w a b insert_index)
  unfolding move_tiled_client_to_workspace move_tiled_client get_client
  move_tiled_client_to_workspace-FineSaying n wm w a b insert_index c found r =
      rw (found, move_tiled_client_to_workspace)
        (choose (FineSaying n) (not (is_tiled c.kind)) _ _ (λ _. fine_saying wm false r)
          (λ t.
            choose (FineSaying n) (not (has_place wm.monitors a b)) _ _
              (λ _. fine_saying wm false r)
              (λ p.
                choose (FineSaying n)
                  (c.monitor == a && c.workspace == b && not (has_value insert_index)) _ _
                  (λ _. fine_saying wm true r)
                  (λ _.
                    let tiled : is_tiled c.kind ≡ true = ground (arith, t) in
                    let place = found-IsInPlace w wm.clients c wm.monitors found r.registered in
                    let (source, e) =
                      has_place-workspace wm.monitors c.monitor c.workspace
                        (place.0 (managed_if_tiled c.kind tiled)) in
                    rw e (
                      move_tiled-FineSaying n wm w c a b insert_index source found r tiled
                        (ground (arith, p)) e)))))
