-- ===== src/Telemetry.antt =====
-- server/dashboard/src/store/telemetryStore.ts: a circular buffer for each vehicle, and a counter
-- that the components read, bumped at most once for each animation frame. The map and its buffers
-- are changed in place by `push` alone, so they are values here. `requested` counts the callbacks
-- that `requestAnimationFrame` holds.
pub mod Buffers
pub mod Flush
mod Tests
use ops_sys.Base.{
  ℕ, ◌+◌, ◌-◌, Bool, true, false, Option, List, [], ◌∷◌, ◌==◌, if◌then◌else◌, get_or,
}
use ops_sys.Base.Text.{Text}
use ops_sys.Base.Maps.{lookup, insert, erase}
use ops_sys.Frames.{TelemetryFrame}
use ops_sys.Buffer
use ops_sys.Buffer.{CircularBuffer}

abbrev pub capacity : ℕ
capacity = 1000

pub record Telemetry : Type 0 where
  pub generation : ℕ
  pub buffers : List (Text × CircularBuffer TelemetryFrame)
  pub raf_scheduled : Bool
  pub dirty : Bool
  pub requested : ℕ

abbrev pub initial : Telemetry
initial = record {
  generation = 0;
  buffers = [];
  raf_scheduled = false;
  dirty = false;
  requested = 0;
}

unfoldable pub schedule_flush : Telemetry → Telemetry
schedule_flush s =
    if s.raf_scheduled then s else record s { raf_scheduled = true; requested = s.requested + 1 }

-- The callback that `schedule_flush` hands to the browser.
unfoldable pub flush : Telemetry → Telemetry
flush s =
    let s' : Telemetry = record s { raf_scheduled = false } in
    if s.dirty then record s' { dirty = false; generation = s.generation + 1 } else s'

unfoldable pub push : Text → TelemetryFrame → Telemetry → Telemetry
unfolding schedule_flush
push vehicle_id frame s =
    let buf = get_or (Buffer.new capacity) (lookup vehicle_id s.buffers) in
    schedule_flush
      (record s { buffers = insert vehicle_id (Buffer.push buf frame) s.buffers; dirty = true })

unfoldable pub get_buffer : Text → Telemetry → Option (CircularBuffer TelemetryFrame)
get_buffer vehicle_id s = lookup vehicle_id s.buffers

unfoldable pub reset : Text → Telemetry → Telemetry
reset vehicle_id s = record s {
  buffers = erase vehicle_id s.buffers;
  generation = s.generation + 1;
}

-- What happens to the store: its methods, and the browser's call of one callback that it holds.
pub data Event : Type 0 where
  pushes : Text → TelemetryFrame → Event
  resets : Text → Event
  animation_frame : Event

unfoldable pub step : Telemetry → Event → Telemetry
unfolding push reset flush
step s (pushes v f) = push v f s
step s (resets v) = reset v s
step s animation_frame =
    if s.requested == 0 then s else flush (record s { requested = s.requested - 1 })

unfoldable pub run : Telemetry → List Event → Telemetry
run s [] = s
run s (e ∷ es) = run (step s e) es
