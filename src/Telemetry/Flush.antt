-- ===== src/Telemetry/Flush.antt =====
-- The counter of the store: no frame is missed, and one animation frame bumps it once.
use ops_sys.Base.{◌+◌, ◌≡◌, refl, ◌∙◌, true, List, [], ◌∷◌, if◌then◌else◌, arith}
use ops_sys.Base.Text.{Text}
use ops_sys.Frames.{TelemetryFrame}
use ops_sys.Telemetry.{Telemetry, initial, Event, pushes, resets, animation_frame, step, run}

-- The browser holds a callback exactly when one is marked as scheduled, and new data have one.
pub record IsSynced (s : Telemetry) : Type 0 where
  pub held : s.requested ≡ (if s.raf_scheduled then 1 else 0)
  pub promised : s.dirty ≡ true → s.raf_scheduled ≡ true

step-IsSynced : (s : Telemetry) (e : Event) → IsSynced s → IsSynced (step s e)
unfolding step
step-IsSynced s (pushes v f) h = ground arith
step-IsSynced s (resets v) h = ground arith
step-IsSynced s animation_frame h = ground arith

-- Whatever happens to the store, at most one callback is held, exactly one if data are unseen.
pub run-IsSynced : (s : Telemetry) (es : List Event) → IsSynced s → IsSynced (run s es)
unfolding run
run-IsSynced s [] h = h
run-IsSynced s (e ∷ es) h = run-IsSynced (step s e) es (step-IsSynced s e h)

-- The pushes of a burst of frames.
abbrev pub burst : List (Text × TelemetryFrame) → List Event
burst [] = []
burst ((v, f) ∷ fs) = pushes v f ∷ burst fs

step-pushes :
    (s : Telemetry) (v : Text) (f : TelemetryFrame)
    → ((step s (pushes v f)).dirty ≡ true) × ((step s (pushes v f)).generation ≡ s.generation)
unfolding step
step-pushes s v f = ground arith

burst_lem :
    (s : Telemetry) (fs : List (Text × TelemetryFrame))
    → s.dirty ≡ true
    → ((run s (burst fs)).dirty ≡ true) × ((run s (burst fs)).generation ≡ s.generation)
unfolding run
burst_lem s [] h = (h, refl)
burst_lem s ((v, f) ∷ fs) h =
    let (dirty, same) = step-pushes s v f in
    let (dirty', same') = burst_lem (step s (pushes v f)) fs dirty in (dirty', same' ∙ same)

-- What the next animation frame does to the counter of a synced store.
step-animation_frame :
    (s : Telemetry)
    → IsSynced s
    → (step s animation_frame).generation ≡ (if s.dirty then s.generation + 1 else s.generation)
unfolding step
step-animation_frame s h = ground arith

-- After any history of the store, a burst of one frame or more bumps the counter by exactly one,
-- at the next animation frame and not before.
pub generation-burst :
    (es : List Event) (v : Text) (f : TelemetryFrame) (fs : List (Text × TelemetryFrame))
    → let s = run initial es in
      let s' = run s (burst ((v, f) ∷ fs)) in
      (s'.generation ≡ s.generation) × ((step s' animation_frame).generation ≡ s.generation + 1)
generation-burst es v f fs = (same, bumped)
  where
    s : Telemetry
    s = run initial es

    s' : Telemetry
    s' = run s (burst ((v, f) ∷ fs))

    pushed : (s'.dirty ≡ true) × (s'.generation ≡ (step s (pushes v f)).generation)
    pushed = unfold run in burst_lem (step s (pushes v f)) fs (step-pushes s v f).0

    same : s'.generation ≡ s.generation
    same = pushed.1 ∙ (step-pushes s v f).1

    synced : IsSynced s'
    synced = run-IsSynced s (burst ((v, f) ∷ fs)) (run-IsSynced initial es (ground arith))

    bumped : (step s' animation_frame).generation ≡ s.generation + 1
    bumped = rw (step-animation_frame s' synced, pushed.0, same) refl

-- After any history, an animation frame with nothing new pushed since the last one leaves the
-- counter alone: two frames in a row bump it no more than one does.
pub generation_idle :
    (es : List Event)
    → let s = step (run initial es) animation_frame in
      (step s animation_frame).generation ≡ s.generation
generation_idle es = twice (run initial es) (run-IsSynced initial es (ground arith))
  where
    twice :
        (s : Telemetry)
        → IsSynced s
        → (step (step s animation_frame) animation_frame).generation
          ≡ (step s animation_frame).generation
    twice s h = unfold step in ground arith
