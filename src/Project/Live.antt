-- ===== src/Project/Live.antt =====
-- From the connection to the page: what `onmessage` puts into the stores, `tick` and the selector of
-- the alerts take out of them.
use ops_sys.Base.{
  ◌≡◌, ◌≢◌, refl, sym, ap, ◌∙◌, subst, arith, List, [], ◌∷◌, ◌++◌, none, some, take, filter,
}
use ops_sys.Base.Text.{Text}
use ops_sys.Base.Sets.{has, set_of, is_one, has-set_of}
use ops_sys.Frames.{LiveFrame, TelemetryFrame, AlertFrame, alert, assistance_request, other}
use ops_sys.Alerts.{Alerts}
use ops_sys.Telemetry
use ops_sys.Telemetry.{Telemetry, pushes, animation_frame, capacity}
use ops_sys.Telemetry.Buffers.{since}
use ops_sys.Buffer.History.{newest}
use ops_sys.Ws.{World, Message, binary, text, on_message}
use ops_sys.Ws.Dispatch.{receive_all, frames_of, alerts_of, alerts-receive}
use ops_sys.Project.{Page, ids_of, tick, alerts_shown}
use ops_sys.Project.Feed.{IsFeed, gathered, tick_lem}

-- A message of the open connection, or an animation frame.
pub data Happening : Type 0 where
  arrives : Message → Happening
  frame : Happening

abbrev pub happens : World → Happening → World
happens w (arrives m) = on_message m w
happens w frame = record w { telemetry = Telemetry.step w.telemetry animation_frame }

abbrev pub live : World → List Happening → World
live w [] = w
live w (h ∷ hs) = live (happens w h) hs

abbrev pub messages_of : List Happening → List Message
messages_of [] = []
messages_of (arrives m ∷ hs) = m ∷ messages_of hs
messages_of (frame ∷ hs) = messages_of hs

-- What the telemetry store sees of it.
abbrev pub events_of : List Happening → List Telemetry.Event
events_of [] = []
events_of (frame ∷ hs) = animation_frame ∷ events_of hs
events_of (arrives (text (some (LiveFrame.telemetry f))) ∷ hs) =
    pushes f.vehicle_id f ∷ events_of hs
events_of (arrives _ ∷ hs) = events_of hs

telemetry-live :
    (hs : List Happening) (w : World)
    → (live w hs).telemetry ≡ Telemetry.run w.telemetry (events_of hs)
unfolding on_message Telemetry.run Telemetry.step
telemetry-live [] w = refl
telemetry-live (frame ∷ hs) w = telemetry-live hs (happens w frame)
telemetry-live (arrives binary ∷ hs) w = telemetry-live hs w
telemetry-live (arrives (text none) ∷ hs) w = telemetry-live hs w
telemetry-live (arrives (text (some (LiveFrame.telemetry f))) ∷ hs) w = telemetry-live hs _
telemetry-live (arrives (text (some (alert a))) ∷ hs) w = telemetry-live hs _
telemetry-live (arrives (text (some (assistance_request r))) ∷ hs) w = telemetry-live hs _
telemetry-live (arrives (text (some other)) ∷ hs) w = telemetry-live hs w

since-frames_of :
    (v : Text) (hs : List Happening) (seen : List TelemetryFrame)
    → since v seen (events_of hs) ≡ frames_of v seen (messages_of hs)
since-frames_of v [] seen = refl
since-frames_of v (frame ∷ hs) seen = since-frames_of v hs seen
since-frames_of v (arrives binary ∷ hs) seen = since-frames_of v hs seen
since-frames_of v (arrives (text none) ∷ hs) seen = since-frames_of v hs seen
since-frames_of v (arrives (text (some (LiveFrame.telemetry f))) ∷ hs) seen = since-frames_of v hs _
since-frames_of v (arrives (text (some (alert a))) ∷ hs) seen = since-frames_of v hs seen
since-frames_of v (arrives (text (some (assistance_request r))) ∷ hs) seen =
    since-frames_of v hs seen
since-frames_of v (arrives (text (some other)) ∷ hs) seen = since-frames_of v hs seen

-- For each vehicle in turn, the last thousand frames that came for it.
abbrev pub received : List Happening → List Text → List TelemetryFrame
received hs [] = []
received hs (id ∷ ids) = newest capacity (frames_of id [] (messages_of hs)) ++ received hs ids

pub gathered-received :
    (hs : List Happening) (ids : List Text) → gathered (events_of hs) ids ≡ received hs ids
gathered-received hs [] = refl
gathered-received hs (id ∷ ids) = rw (since-frames_of id hs [], gathered-received hs ids) refl

alerts_of-cons :
    (m : Message) (seen : List AlertFrame) (ms : List Message)
    → alerts_of (alerts_of seen (m ∷ [])) ms ≡ alerts_of seen (m ∷ ms)
alerts_of-cons binary seen ms = refl
alerts_of-cons (text none) seen ms = refl
alerts_of-cons (text (some (LiveFrame.telemetry f))) seen ms = refl
alerts_of-cons (text (some (alert a))) seen ms = refl
alerts_of-cons (text (some (assistance_request r))) seen ms = refl
alerts_of-cons (text (some other)) seen ms = refl

alerts-live :
    (hs : List Happening) (w : World) (seen : List AlertFrame)
    → w.alerts ≡ take 200 seen
    → (live w hs).alerts ≡ take 200 (alerts_of seen (messages_of hs))
alerts-live [] w seen h = h
alerts-live (frame ∷ hs) w seen h = alerts-live hs (happens w frame) seen h
alerts-live (arrives m ∷ hs) w seen h =
    alerts-live hs (on_message m w) (alerts_of seen (m ∷ []))
      (unfold receive_all in alerts-receive (m ∷ []) w seen h)
    ∙ ap (take 200) (alerts_of-cons m seen (messages_of hs))

has_of_ids : (ids : List Text) (v : Text) → has v (set_of [] ids) ≡ is_one v ids
unfolding has
has_of_ids ids v = has-set_of v [] ids ∙ ground arith

-- The alerts of a list whose device is one of the ids.
abbrev pub alerts_for : List Text → List AlertFrame → List AlertFrame
alerts_for ids = filter (λ a. is_one a.device ids)

alerts_in_set :
    (ids : List Text) (store : Alerts)
    → filter (λ a. has a.device (set_of [] ids)) store ≡ alerts_for ids store
alerts_in_set ids [] = refl
alerts_in_set ids (a ∷ store) = rw (has_of_ids ids a.device, alerts_in_set ids store) refl

pub alerts_shown_for :
    (store : Alerts) (p : Page) → alerts_shown store p ≡ alerts_for (ids_of p.devices) store
unfolding alerts_shown
alerts_shown_for store p = alerts_in_set (ids_of p.devices) store

-- Fresh stores run from their first state.
pub telemetry-ran :
    (hs : List Happening) (w : World)
    → w.telemetry ≡ Telemetry.initial
    → (live w hs).telemetry ≡ Telemetry.run Telemetry.initial (events_of hs)
telemetry-ran hs w fresh = telemetry-live hs w ∙ ap (λ s. Telemetry.run s (events_of hs)) fresh

-- After any messages and animation frames over fresh stores, a tick of a page that has not seen the
-- counter shows at most five hundred frames, newest first, out of the last thousand that came for
-- each of its devices, and leaves out none that is newer; and the page shows, out of the newest two
-- hundred alerts and requests for assistance that came for any device, those of its own devices.
pub tick-live :
    (hs : List Happening) (w : World) (p : Page)
    → w.telemetry ≡ Telemetry.initial
    → w.alerts ≡ []
    → (live w hs).telemetry.generation ≢ p.generation_seen
    → IsFeed
        (tick (ids_of p.devices) (live w hs).telemetry p).feed_rows
        (received hs (ids_of p.devices))
      × (alerts_shown (live w hs).alerts p
          ≡ alerts_for (ids_of p.devices) (take 200 (alerts_of [] (messages_of hs))))
tick-live hs w p fresh empty new = (
  subst (λ fs. IsFeed (tick (ids_of p.devices) (live w hs).telemetry p).feed_rows fs)
      (gathered-received hs (ids_of p.devices)) feed,
  alerts_shown_for (live w hs).alerts p
      ∙ ap (alerts_for (ids_of p.devices)) (alerts-live hs w [] (rw empty refl)),
)
  where
    ran : (live w hs).telemetry ≡ Telemetry.run Telemetry.initial (events_of hs)
    ran = telemetry-ran hs w fresh

    feed :
        IsFeed
          (tick (ids_of p.devices) (live w hs).telemetry p).feed_rows
          (gathered (events_of hs) (ids_of p.devices))
    feed =
        subst
          (λ (s : Telemetry).
            IsFeed (tick (ids_of p.devices) s p).feed_rows
              (gathered (events_of hs) (ids_of p.devices)))
          (sym ran)
          (tick_lem (events_of hs) (ids_of p.devices) p
            (subst (λ (s : Telemetry). s.generation ≢ p.generation_seen) ran new)).0
