-- ===== src/Telemetry/Buffers.antt =====
-- The buffers of the store are those of the frames that came since the last reset.
use mathlib.Core.Option.{some-injective}
use ops_sys.Base.{
  ◌≡◌, refl, sym, ap, subst, ◌∙◌, Option, none, some, List, [], ◌∷◌, ◌++◌, map, if◌then◌else◌,
  get_or, arith, Bool-cases, inl, inr,
}
use ops_sys.Base.Text.{Text, text_eq, text_eq_iff}
use ops_sys.Base.Maps.{lookup, lookup-insert, lookup-erase}
use ops_sys.Frames.{TelemetryFrame}
use ops_sys.Buffer
use ops_sys.Buffer.{CircularBuffer}
use ops_sys.Buffer.History.{push_all, push_all-append, newest, snapshot-push_all}
use ops_sys.Telemetry.{
  Telemetry, capacity, initial, push, get_buffer, Event, pushes, resets, animation_frame, step, run,
}

-- The frames pushed for `v` since its last reset, `seen` those before the event.
abbrev pub after : Text → List TelemetryFrame → Event → List TelemetryFrame
after v seen (pushes w f) = if text_eq w v then seen ++ f ∷ [] else seen
after v seen (resets w) = if text_eq w v then [] else seen
after v seen animation_frame = seen

abbrev pub since : Text → List TelemetryFrame → List Event → List TelemetryFrame
since v seen [] = seen
since v seen (e ∷ es) = since v (after v seen e) es

-- No frame, no buffer.
abbrev pub buffer_of : List TelemetryFrame → Option (CircularBuffer TelemetryFrame)
buffer_of [] = none
buffer_of (f ∷ fs) = some (push_all (Buffer.new capacity) (f ∷ fs))

get_or-buffer_of :
    (fs : List TelemetryFrame)
    → get_or (Buffer.new capacity) (buffer_of fs) ≡ push_all (Buffer.new capacity) fs
unfolding push_all
get_or-buffer_of [] = refl
get_or-buffer_of (f ∷ fs) = refl

buffer_of-append :
    (fs : List TelemetryFrame) (f : TelemetryFrame)
    → buffer_of (fs ++ f ∷ []) ≡ some (Buffer.push (push_all (Buffer.new capacity) fs) f)
buffer_of-append [] f = ap some (push_all-append (Buffer.new capacity) [] f)
buffer_of-append (g ∷ fs) f = ap some (push_all-append (Buffer.new capacity) (g ∷ fs) f)

get_buffer-push :
    (s : Telemetry) (v w : Text) (f : TelemetryFrame)
    → get_buffer v (push w f s) ≡ (
        if text_eq w v
        then some (Buffer.push (get_or (Buffer.new capacity) (get_buffer w s)) f)
        else get_buffer v s)
unfolding get_buffer push
get_buffer-push s v w f = ground (
  arith,
  lookup-insert w v (Buffer.push (get_or (Buffer.new capacity) (lookup w s.buffers)) f) s.buffers,
)

pub get_buffer-step :
    (s : Telemetry) (e : Event) (v : Text) (seen : List TelemetryFrame)
    → get_buffer v s ≡ buffer_of seen
    → get_buffer v (step s e) ≡ buffer_of (after v seen e)
get_buffer-step s (pushes w f) v seen h =
    unfold step in
    rw (get_buffer-push s v w f) (elim (Bool-cases (text_eq w v)) [
      | inl same ↦
          rw (same, (text_eq_iff w v).0 same, h, get_or-buffer_of seen)
            (sym (buffer_of-append seen f))
      | inr other ↦ rw other h
    ])
get_buffer-step s (resets w) v seen h =
    unfold step get_buffer in ground (arith, lookup-erase w v s.buffers, h)
get_buffer-step s animation_frame v seen h = unfold step get_buffer in ground (arith, h)

get_buffer-run :
    (s : Telemetry) (es : List Event) (v : Text) (seen : List TelemetryFrame)
    → get_buffer v s ≡ buffer_of seen
    → get_buffer v (run s es) ≡ buffer_of (since v seen es)
unfolding run
get_buffer-run s [] v seen h = h
get_buffer-run s (e ∷ es) v seen h =
    get_buffer-run (step s e) es v (after v seen e) (get_buffer-step s e v seen h)

-- After any history of the store, a vehicle has a buffer exactly when a frame came for it since
-- its last reset, and then the buffer is the one to which these frames were pushed in order.
pub get_buffer-run-initial :
    (es : List Event) (v : Text) → get_buffer v (run initial es) ≡ buffer_of (since v [] es)
get_buffer-run-initial es v = get_buffer-run initial es v [] (unfold get_buffer lookup in refl)

-- So what a component reads of a vehicle with a buffer is the last thousand of these frames.
pub snapshot-get_buffer :
    (es : List Event) (v : Text) {b : CircularBuffer TelemetryFrame}
    → get_buffer v (run initial es) ≡ some b
    → Buffer.snapshot b ≡ map some (newest capacity (since v [] es))
snapshot-get_buffer es v {b} e = of_history (since v [] es) (sym (get_buffer-run-initial es v) ∙ e)
  where
    of_history :
        (fs : List TelemetryFrame)
        → buffer_of fs ≡ some b
        → Buffer.snapshot b ≡ map some (newest capacity fs)
    of_history [] h = cc
    of_history (f ∷ fs) h =
        subst
          (λ (c : CircularBuffer TelemetryFrame).
            Buffer.snapshot c ≡ map some (newest capacity (f ∷ fs)))
          (some-injective _ _ h) (snapshot-push_all capacity (f ∷ fs) (omega arith)).0
