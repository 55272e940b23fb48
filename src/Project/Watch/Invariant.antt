-- ===== src/Project/Watch/Invariant.antt =====
-- While the page is mounted it watches its devices and no others, and asks for one animation frame.
use ops_sys.Base.{
  ℕ, ◌+◌, Bool, false, ◌≡◌, refl, sym, ap, ◌∙◌, ◌||◌, ◌&&◌, not, arith, if◌then◌else◌, List, [],
  ◌∷◌, ◌++◌, none, some, inl, inr, subst, ◌⊎◌,
}
use ops_sys.Base.Text.{Text}
use ops_sys.Base.Sets.{has, is_one}
use ops_sys.Fleet.{Vehicle}
use ops_sys.Frames.{LiveFrame, alert, assistance_request, other}
use ops_sys.Telemetry.{Telemetry}
use ops_sys.Ws.{World, Message, binary, text, on_message}
use ops_sys.Project.{Page, ids_of, tick}
use ops_sys.Project.Devices.{has-mount, has-unmount}
use ops_sys.Project.Watch.{
  Watch, no_devices, cancel, callback, request_frame, start, clean_up, set_devices, animation_frame,
  call, Event, sets, frame, receives, after, run, leave,
}

-- The vehicles of a world.
abbrev pub Subscribes : World → List Vehicle → Type 0
Subscribes w devices = (v : Text) → has v w.subscribed_ids ≡ is_one v (ids_of devices)

-- One callback is pending, for the devices of now, or none if there are no devices.
abbrev pub awaited : ℕ → List Vehicle → List (ℕ × List Text)
awaited raf devices = if no_devices devices then [] else (raf, ids_of devices) ∷ []

pub record IsWatching (s : Watch) : Type 0 where
  pub subscribed : Subscribes s.world s.page.devices
  pub pending : s.requested ≡ awaited s.raf s.page.devices

or_false : (b c : Bool) → c ≡ false → (b || c) ≡ b
or_false b c h = ground arith

and_not : (b c : Bool) → c ≡ b → (not b && c) ≡ false
and_not b c h = ground arith

start-IsWatching :
    (ds : List Vehicle) (s : Watch)
    → s.page.devices ≡ ds
    → Subscribes s.world []
    → s.requested ≡ []
    → IsWatching (start ds s)
unfolding start request_frame
start-IsWatching [] s e sub req = record {
  subscribed = λ v. sub v ∙ ap (λ ds. is_one v (ids_of ds)) (sym e);
  pending = req ∙ ap (awaited s.raf) (sym e);
}
start-IsWatching (d ∷ ds) s e sub req = record {
  subscribed = λ v.
      (has-mount (d ∷ ds) s.world v).0
      ∙ or_false (is_one v (ids_of (d ∷ ds))) (has v s.world.subscribed_ids) (sub v)
      ∙ ap (λ ds'. is_one v (ids_of ds')) (sym e);
  pending =
      ap (λ rs. rs ++ (s.next_handle, ids_of (d ∷ ds)) ∷ []) req
      ∙ ap (awaited s.next_handle) (sym e);
}

cancel_only : (raf : ℕ) (ids : List Text) → cancel raf ((raf, ids) ∷ []) ≡ []
unfolding cancel
cancel_only raf ids = ground arith

-- What is subscribed is the devices' own, so the clean-up leaves nothing.
pub clean_up-quiet :
    (ds : List Vehicle) (s : Watch)
    → Subscribes s.world ds
    → s.requested ≡ awaited s.raf ds
    → Subscribes (clean_up ds s).world [] × ((clean_up ds s).requested ≡ [])
unfolding clean_up
clean_up-quiet [] s sub req = (sub, req)
clean_up-quiet (d ∷ ds) s sub req = (
  λ v.
      has-unmount (d ∷ ds) s.world v
      ∙ and_not (is_one v (ids_of (d ∷ ds))) (has v s.world.subscribed_ids) (sub v),
  ap (cancel s.raf) req ∙ cancel_only s.raf (ids_of (d ∷ ds)),
)

pub set_devices-IsWatching :
    (ds : List Vehicle) (s : Watch) → IsWatching s → IsWatching (set_devices ds s)
unfolding set_devices
set_devices-IsWatching ds s h =
    let (sub, req) = clean_up-quiet s.page.devices s h.subscribed h.pending in
    let cleaned = clean_up s.page.devices s in
    start-IsWatching ds (record cleaned { page = record cleaned.page { devices = ds } }) refl sub
      req

pub devices-tick :
    (ids : List Text) (store : Telemetry) (p : Page) → (tick ids store p).devices ≡ p.devices
unfolding tick
devices-tick ids store p = ground arith

frame_unknown : (h : ℕ) (s : Watch) → callback h s.requested ≡ none → animation_frame h s ≡ s
unfolding animation_frame call
frame_unknown h s e = ap (λ o. call o h s) e

-- The state after a callback with those ids.
abbrev ticked : List Text → Watch → Watch
ticked ids s = record s {
  page = tick ids s.world.telemetry s.page;
  raf = s.next_handle;
  requested = (s.next_handle, ids) ∷ [];
  next_handle = s.next_handle + 1;
}

frame_called :
    (h : ℕ) (ids : List Text) (s : Watch)
    → callback h s.requested ≡ some ids
    → cancel h s.requested ≡ []
    → animation_frame h s ≡ ticked ids s
unfolding animation_frame call request_frame
frame_called h ids s e none_left =
    ap (λ o. call o h s) e
    ∙ ap
        (λ rs.
          request_frame ids (record s { requested = rs; page = tick ids s.world.telemetry s.page }))
        none_left

awaited_some :
    (raf : ℕ) (ds : List Vehicle) → no_devices ds ≡ false → awaited raf ds ≡ (raf, ids_of ds) ∷ []
awaited_some raf ds h = rw h refl

ticked-IsWatching :
    (ds : List Vehicle) (s : Watch)
    → s.page.devices ≡ ds
    → no_devices ds ≡ false
    → IsWatching s
    → IsWatching (ticked (ids_of ds) s)
ticked-IsWatching ds s e some_devices w = record {
  subscribed = λ v. w.subscribed v ∙ ap (λ ds'. is_one v (ids_of ds')) (sym kept);
  pending =
      sym (ap (awaited s.next_handle) (kept ∙ e) ∙ awaited_some s.next_handle ds some_devices);
}
  where
    kept : (tick (ids_of ds) s.world.telemetry s.page).devices ≡ s.page.devices
    kept = devices-tick (ids_of ds) s.world.telemetry s.page

found :
    (h raf : ℕ) (ids : List Text)
    → (callback h ((raf, ids) ∷ []) ≡ none)
      ⊎ ((callback h ((raf, ids) ∷ []) ≡ some ids) × (cancel h ((raf, ids) ∷ []) ≡ []))
unfolding callback cancel
found h raf ids = ground arith

-- A callback that is called asks for the next with the same ids.
pub called :
    (h : ℕ) (ds : List Vehicle) (s : Watch)
    → s.page.devices ≡ ds
    → IsWatching s
    → IsWatching (animation_frame h s)
unfolding callback
called h [] s e w =
    subst IsWatching (sym (frame_unknown h s (ap (callback h) (w.pending ∙ ap (awaited s.raf) e))))
      w
called h (d ∷ ds) s e w =
    let req : s.requested ≡ (s.raf, ids_of (d ∷ ds)) ∷ [] = w.pending ∙ ap (awaited s.raf) e in
    elim (found h s.raf (ids_of (d ∷ ds))) [
      | inl unknown ↦ subst IsWatching (sym (frame_unknown h s (ap (callback h) req ∙ unknown))) w
      | inr (mine, none_left) ↦
          subst IsWatching
            (sym (
              frame_called h (ids_of (d ∷ ds)) s (ap (callback h) req ∙ mine)
                (ap (cancel h) req ∙ none_left)))
            (ticked-IsWatching (d ∷ ds) s e refl w)
    ]

on_message-ids : (m : Message) (w : World) → (on_message m w).subscribed_ids ≡ w.subscribed_ids
unfolding on_message
on_message-ids binary w = refl
on_message-ids (text none) w = refl
on_message-ids (text (some (LiveFrame.telemetry f))) w = refl
on_message-ids (text (some (alert a))) w = refl
on_message-ids (text (some (assistance_request r))) w = refl
on_message-ids (text (some other)) w = refl

after-IsWatching : (s : Watch) (e : Event) → IsWatching s → IsWatching (after s e)
after-IsWatching s (sets ds) h = set_devices-IsWatching ds s h
after-IsWatching s (frame k) h = called k s.page.devices s refl h
after-IsWatching s (receives m) h = record {
  subscribed = λ v. ap (has v) (on_message-ids m s.world) ∙ h.subscribed v;
  pending = h.pending;
}

run-IsWatching : (s : Watch) (es : List Event) → IsWatching s → IsWatching (run s es)
run-IsWatching s [] h = h
run-IsWatching s (e ∷ es) h = run-IsWatching (after s e) es (after-IsWatching s e h)

-- On a page that was mounted without devices while nothing was subscribed, whatever devices come and
-- go, whatever frames are drawn and messages received: exactly the devices of now are subscribed, and
-- exactly one callback is pending, for them, or none if there are none. When the page goes away
-- nothing stays subscribed and no callback stays pending.
pub run-leave :
    (s : Watch) (es : List Event)
    → s.page.devices ≡ []
    → s.requested ≡ []
    → s.world.subscribed_ids ≡ []
    → IsWatching (run s es)
      × Subscribes (leave (run s es)).world []
      × ((leave (run s es)).requested ≡ [])
run-leave s es none_yet no_request unused = (
  held,
  (clean_up-quiet (run s es).page.devices (run s es) held.subscribed held.pending).0,
  (clean_up-quiet (run s es).page.devices (run s es) held.subscribed held.pending).1,
)
  where
    held : IsWatching (run s es)
    held = run-IsWatching s es (record {
      subscribed =
          λ v. ap (has v) unused ∙ unfold has in ap (λ ds. is_one v (ids_of ds)) (sym none_yet);
      pending = no_request ∙ ap (awaited s.raf) (sym none_yet);
    })
