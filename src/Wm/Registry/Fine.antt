-- ===== src/Wm/Registry/Fine.antt =====
-- On the steps of src/lwm/wm.cpp: results that keep what src/lwm/core/invariants.hpp asserts.
use lwm.Base.{ℕ, ◌<◌, ◌≡◌, refl, sym, ◌∙◌, ap, Bool, Option, some, ◌>>=◌, map, length}
use lwm.Types.{Client}
use lwm.Wm.State.{WindowManager, is_managed_kind}
use lwm.Wm.Reconcile.Keeps.{holds_floating}
use lwm.Wm.Place.{has_place}
use lwm.Wm.Rearrange.{update, change}
use lwm.Wm.Registry.{entry, IsRegistered}
use lwm.Wm.Registry.Changes.{found, found-IsInPlace, IsRegistry-change}
use lwm.Wm.Registry.Sizes.{size, has_place_same}
use lwm.Wm.Registry.View.{View, view, Keeps, IsRegistered-view, length-view, sizes-view}
use lwm.Wm.Registry.Keeps.{entries-update}
use lwm.Wm.Registry.Order.{
  Frame, as_window, InOrder, Fine, FineSaying, windows-update, look_up, managed_of, looked_up,
  found_managed,
}

module _ {n : Frame} where
  pub fine : (wm : WindowManager) → InOrder n wm → Fine n (some wm)
  fine wm h = (wm, refl, h)

  pub fine_saying : (wm : WindowManager) (b : Bool) → InOrder n wm → FineSaying n (some (wm, b))
  fine_saying wm b h = (wm, b, refl, h)

  pub Fine-bind :
      (r : Option WindowManager) (f : WindowManager → Option WindowManager)
      → Fine n r
      → ((wm : WindowManager) → InOrder n wm → Fine n (f wm))
      → Fine n (r >>= f)
  Fine-bind r f (wm, e, h) k = rw e (k wm h)

  pub Fine-say :
      (r : Option WindowManager) (f : WindowManager → Option (WindowManager × Bool))
      → Fine n r
      → ((wm : WindowManager) → InOrder n wm → FineSaying n (f wm))
      → FineSaying n (r >>= f)
  Fine-say r f (wm, e, h) k = rw e (k wm h)

  pub FineSaying-bind :
      (r : Option (WindowManager × Bool)) (f : WindowManager × Bool → Option WindowManager)
      → FineSaying n r
      → ((wm : WindowManager) (b : Bool) → InOrder n wm → Fine n (f (wm, b)))
      → Fine n (r >>= f)
  FineSaying-bind r f (wm, b, e, h) k = rw e (k wm b h)

  pub InOrder-view : (wm wm' : WindowManager) → view wm' ≡ view wm → InOrder n wm → InOrder n wm'
  InOrder-view wm wm' k h = record {
    registered = IsRegistered-view wm wm' k h.registered;
    count = length-view wm wm' k ∙ h.count;
    sizes = sizes-view wm wm' k ∙ h.sizes;
    windows = ap (λ (v : View). map as_window v.entries) k ∙ h.windows;
    focused = rw (ap (λ (v : View). v.focused_monitor) k) h.focused;
  }

  pub Keeps-Fine :
      (wm : WindowManager) (r : Option WindowManager) → InOrder n wm → Keeps wm r → Fine n r
  Keeps-Fine wm r h (wm', e, k) = (wm', e, InOrder-view wm wm' k h)

  -- The entries of the clients and the monitors are all that matters.
  pub InOrder-entries :
      (wm wm' : WindowManager)
      → map entry wm'.clients ≡ map entry wm.clients
      → wm'.monitors ≡ wm.monitors
      → wm'.focused_monitor ≡ wm.focused_monitor
      → InOrder n wm
      → InOrder n wm'
  InOrder-entries wm wm' e m f h = record {
    registered = rw (e, m) h.registered;
    count = ap length m ∙ h.count;
    sizes = ap (map size) m ∙ h.sizes;
    windows = ap (map as_window) e ∙ h.windows;
    focused = rw f h.focused;
  }

  -- The same places in all states.
  pub InOrder-has_place :
      (wm wm' : WindowManager) (i j : ℕ)
      → InOrder n wm
      → InOrder n wm'
      → has_place wm'.monitors i j ≡ has_place wm.monitors i j
  InOrder-has_place wm wm' i j h h' =
      has_place_same wm.monitors wm'.monitors i j (h'.sizes ∙ sym h.sizes)

  -- Another monitor has the focus.
  pub InOrder-focused :
      (wm : WindowManager) (i : ℕ)
      → i < n.count
      → InOrder n wm
      → InOrder n (record wm { focused_monitor = i })
  InOrder-focused wm i lt h = record {
    registered = h.registered;
    count = h.count;
    sizes = h.sizes;
    windows = h.windows;
    focused = lt;
  }

  -- A change of a client that its entry does not see.
  pub InOrder-change :
      (f : Client → Client) (w : ℕ) (wm : WindowManager)
      → ((c : Client) → entry (f c) ≡ entry c)
      → InOrder n wm
      → InOrder n (change f w wm)
  InOrder-change f w wm h o =
      InOrder-entries wm (change f w wm) (entries-update f w wm.clients h) refl refl o

  -- A change of the client that is found, which stays tiled or floating, and of the lists.
  pub InOrder-moved :
      (f : Client → Client) (w : ℕ) (c : Client) (wm wm' : WindowManager)
      → found w wm.clients ≡ some c
      → wm'.clients ≡ update f w wm.clients
      → length wm'.monitors ≡ length wm.monitors
      → map size wm'.monitors ≡ map size wm.monitors
      → (f c).id ≡ c.id
      → is_managed_kind (f c).kind ≡ is_managed_kind c.kind
      → IsRegistered wm'
      → wm'.focused_monitor ≡ wm.focused_monitor
      → InOrder n wm
      → InOrder n wm'
  InOrder-moved f w c wm wm' e changed len sizes id kind r f' h = record {
    registered = r;
    count = len ∙ h.count;
    sizes = sizes ∙ h.sizes;
    windows =
        ap (λ cs. map as_window (map entry cs)) changed
        ∙ (windows-update f w wm.clients c e id kind ∙ h.windows);
    focused = rw f' h.focused;
  }

  -- A window that is found in one state is found in the other.
  pub found_again :
      (w : ℕ) (c : Client) (wm wm' : WindowManager)
      → found w wm.clients ≡ some c
      → InOrder n wm
      → InOrder n wm'
      → (c' : Client) × (found w wm'.clients ≡ some c')
        × (is_managed_kind c'.kind ≡ is_managed_kind c.kind)
  found_again w c wm wm' e h h' =
      let there : managed_of w wm.clients ≡ some (is_managed_kind c.kind) = rw e refl in
      let same =
        sym (looked_up w wm'.clients)
        ∙ (ap (look_up w) (h'.windows ∙ sym h.windows) ∙ looked_up w wm.clients) in
      found_managed w wm'.clients (is_managed_kind c.kind) (same ∙ there)

  -- A change of a client that leaves it where it is.
  pub InOrder-update :
      (f : Client → Client) (w : ℕ) (c : Client) (wm : WindowManager)
      → found w wm.clients ≡ some c
      → (f c).id ≡ c.id
      → (f c).kind ≡ c.kind
      → (f c).monitor ≡ c.monitor
      → (f c).workspace ≡ c.workspace
      → holds_floating (f c).tiling_state ≡ holds_floating c.tiling_state
      → InOrder n wm
      → InOrder n (change f w wm)
  InOrder-update f w c wm e id kind monitor workspace holds h =
      InOrder-moved f w c wm (change f w wm) e refl refl refl id (ap is_managed_kind kind)
        (IsRegistry-change w wm.clients c f wm.monitors wm.monitors e
          (record {
            id = id;
            in_place =
                rw (kind, monitor, workspace, holds)
                  (found-IsInPlace w wm.clients c wm.monitors e h.registered);
            places = λ i j. refl;
            currents = h.registered.currents;
            counted = λ i j v. rw (id, kind, monitor, workspace) refl;
          })
          h.registered)
        refl h
