-- ===== src/Project/Screen/Rows.antt =====
-- The rows of the stream on the screen, and the names of their devices.
use ops_sys.Base.{
  ℕ, zero, suc, true, ◌≡◌, ◌≢◌, refl, ap, ◌∙◌, arith, if◌then◌else◌, List, [], ◌∷◌, ◌++◌, none,
  some, map, take, drop, All, Bool-cases, inl, inr,
}
use ops_sys.Base.Text.{Text, text_eq, text_eq_iff, text_eq_refl}
use ops_sys.Base.Sets.{is_one}
use ops_sys.Fleet.{Vehicle}
use ops_sys.Frames.{LiveFrame, TelemetryFrame, alert, assistance_request, other}
use ops_sys.Alerts.{Alerts}
use ops_sys.Auth.{AuthState}
use ops_sys.Telemetry
use ops_sys.Telemetry.{Telemetry, capacity}
use ops_sys.Buffer.History.{newest}
use ops_sys.Ws.{World, Message, binary, text}
use ops_sys.Ws.Dispatch.{frames_of}
use ops_sys.Project.{
  Page, stream, ids_of, tick, sort_frames, insert_frame, max_feed_rows, alerts_shown,
}
use ops_sys.Project.Feed.{tick_new, all_frames-gathered}
use ops_sys.Project.Live.{
  Happening, live, messages_of, events_of, received, gathered-received, telemetry-ran,
}
use ops_sys.Project.Screen.{Formats, stream_row, stream_tab, tab_content, screen}
use ops_sys.Project.Screen.Labels.{IsNamed, label-IsNamed}

-- The frame is of one of the vehicles.
abbrev pub IsOf : List Text → TelemetryFrame → Type 0
IsOf ids f = is_one f.vehicle_id ids ≡ true

module _ (P : TelemetryFrame → Type 0) where
  All-insert :
      (f : TelemetryFrame) (fs : List TelemetryFrame) → P f → All P fs → All P (insert_frame f fs)
  unfolding insert_frame
  All-insert f [] p h = (p, tt)
  All-insert f (g ∷ gs) p h = ground (arith, All-insert f gs p h.1)

  All-sort : (fs : List TelemetryFrame) → All P fs → All P (sort_frames fs)
  unfolding sort_frames
  All-sort [] h = tt
  All-sort (f ∷ fs) h = All-insert f (sort_frames fs) h.0 (All-sort fs h.1)

  All-take : (n : ℕ) (fs : List TelemetryFrame) → All P fs → All P (take n fs)
  All-take zero fs h = tt
  All-take (suc n) [] h = tt
  All-take (suc n) (f ∷ fs) h = (h.0, All-take n fs h.1)

  All-drop : (n : ℕ) (fs : List TelemetryFrame) → All P fs → All P (drop n fs)
  All-drop zero fs h = h
  All-drop (suc n) [] h = tt
  All-drop (suc n) (f ∷ fs) h = All-drop n fs h.1

  All-append : (fs gs : List TelemetryFrame) → All P fs → All P gs → All P (fs ++ gs)
  All-append [] gs h k = k
  All-append (f ∷ fs) gs h k = (h.0, All-append fs gs h.1 k)

-- The frames that come for a vehicle are its own.
frames_of-own :
    (v : Text) (seen : List TelemetryFrame) (ms : List Message)
    → All (λ f. text_eq f.vehicle_id v ≡ true) seen
    → All (λ f. text_eq f.vehicle_id v ≡ true) (frames_of v seen ms)
frames_of-own v seen [] h = h
frames_of-own v seen (binary ∷ ms) h = frames_of-own v seen ms h
frames_of-own v seen (text none ∷ ms) h = frames_of-own v seen ms h
frames_of-own v seen (text (some (alert a)) ∷ ms) h = frames_of-own v seen ms h
frames_of-own v seen (text (some (assistance_request r)) ∷ ms) h = frames_of-own v seen ms h
frames_of-own v seen (text (some other) ∷ ms) h = frames_of-own v seen ms h
frames_of-own v seen (text (some (LiveFrame.telemetry f)) ∷ ms) h =
    frames_of-own v (if text_eq f.vehicle_id v then seen ++ f ∷ [] else seen) ms
      (elim (Bool-cases (text_eq f.vehicle_id v)) [
        | inl own ↦ rw own (All-append _ seen (f ∷ []) h (own, tt))
        | inr foreign ↦ rw foreign h
      ])

All-mono {ℓ κ} :
    {P : TelemetryFrame → Type ℓ} {Q : TelemetryFrame → Type κ} (fs : List TelemetryFrame)
    → ((f : TelemetryFrame) → P f → Q f)
    → All P fs
    → All Q fs
All-mono [] i h = tt
All-mono (f ∷ fs) i h = (i f h.0, All-mono fs i h.1)

one_of : (v id : Text) (ids : List Text) → text_eq v id ≡ true → is_one v (id ∷ ids) ≡ true
one_of v id ids h = rw ((text_eq_iff v id).0 h, text_eq_refl id) refl

received-IsOf : (hs : List Happening) (ids : List Text) → All (IsOf ids) (received hs ids)
received-IsOf hs [] = tt
received-IsOf hs (id ∷ ids) =
    All-append (IsOf (id ∷ ids)) (newest capacity (frames_of id [] (messages_of hs)))
      (received hs ids)
      (All-drop (IsOf (id ∷ ids)) _ (frames_of id [] (messages_of hs)) (
        All-mono (frames_of id [] (messages_of hs)) (λ f. one_of f.vehicle_id id ids)
          (frames_of-own id [] (messages_of hs) tt)))
      (All-mono (received hs ids) (λ f h. ground arith) (received-IsOf hs ids))

feed_rows-IsOf :
    (hs : List Happening) (w : World) (ids : List Text) (p : Page)
    → w.telemetry ≡ Telemetry.initial
    → (live w hs).telemetry.generation ≢ p.generation_seen
    → All (IsOf ids) (tick ids (live w hs).telemetry p).feed_rows
feed_rows-IsOf hs w ids p fresh new =
    rw
      (
        tick_new ids (live w hs).telemetry p new,
        telemetry-ran hs w fresh,
        all_frames-gathered (events_of hs) ids,
        gathered-received hs ids,
      )
      (All-take (IsOf ids) max_feed_rows _ (All-sort (IsOf ids) _ (received-IsOf hs ids)))

IsNamed-rows :
    (fmt : Formats) (ds : List Vehicle) (fs : List TelemetryFrame)
    → All (IsOf (ids_of ds)) fs
    → All (λ f. IsNamed ds f.vehicle_id (stream_row fmt ds f).device) fs
unfolding stream_row
IsNamed-rows fmt ds [] h = tt
IsNamed-rows fmt ds (f ∷ fs) h = (label-IsNamed ds f.vehicle_id h.0, IsNamed-rows fmt ds fs h.1)

tab-tick :
    (ids : List Text) (store : Telemetry) (p : Page)
    → store.generation ≢ p.generation_seen
    → ((tick ids store p).tab ≡ p.tab) × ((tick ids store p).devices ≡ p.devices)
tab-tick ids store p new = rw (tick_new ids store p new) (refl, refl)

content-stream :
    (fmt : Formats) (s : AuthState) (store : Alerts) (p : Page)
    → p.tab ≡ stream
    → (screen fmt s store p).content ≡ stream_tab (map (stream_row fmt p.devices) p.feed_rows)
unfolding screen tab_content
content-stream fmt s store p on_stream =
    ap (tab_content fmt p.devices p.feed_rows (alerts_shown store p)) on_stream

-- After any messages and animation frames over fresh stores and a tick that sees them, the open tab
-- of the stream has one row for each frame of the feed, in its order, each labelled by the name of a
-- device of the project that has the id of the frame, and never by a part of the id.
pub screen-stream :
    (fmt : Formats) (s : AuthState) (hs : List Happening) (w : World) (p : Page)
    → w.telemetry ≡ Telemetry.initial
    → (live w hs).telemetry.generation ≢ p.generation_seen
    → p.tab ≡ stream
    → let p' = tick (ids_of p.devices) (live w hs).telemetry p in
      ((screen fmt s (live w hs).alerts p').content
        ≡ stream_tab (map (stream_row fmt p.devices) p'.feed_rows))
      × All (λ f. IsNamed p.devices f.vehicle_id (stream_row fmt p.devices f).device) p'.feed_rows
screen-stream fmt s hs w p fresh new on_stream =
    let (same_tab, same_devices) = tab-tick (ids_of p.devices) (live w hs).telemetry p new in
    (
      content-stream fmt s (live w hs).alerts (tick (ids_of p.devices) (live w hs).telemetry p)
            (same_tab ∙ on_stream)
          ∙ ap
              (λ ds. stream_tab (
                map (stream_row fmt ds)
                  (tick (ids_of p.devices) (live w hs).telemetry p).feed_rows))
              same_devices,
      IsNamed-rows fmt p.devices (tick (ids_of p.devices) (live w hs).telemetry p).feed_rows
          (feed_rows-IsOf hs w (ids_of p.devices) p fresh new),
    )
