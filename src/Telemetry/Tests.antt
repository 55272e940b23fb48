-- ===== src/Telemetry/Tests.antt =====
-- The telemetry store on a short history, and the theorems about it there.
use ops_sys.Base.{ℕ, ◌≡◌, refl, List, [], ◌∷◌}
use ops_sys.Base.Text.{Text, codes, text_eq}
use ops_sys.Base.Maps.{lookup, insert, erase}
use ops_sys.Frames.{TelemetryFrame}
use ops_sys.Telemetry.{initial, get_buffer, Event, pushes, resets, animation_frame, step, run}
use ops_sys.Telemetry.Buffers.{buffer_of, since, get_buffer-run-initial}

abbrev drone : Text
drone = codes "drone"

abbrev frame : ℕ → TelemetryFrame
frame n = record {
  vehicle_id = drone;
  ts = n;
  lat = 0;
  lon = 0;
  alt = 0;
  seq = n;
  payload_b64 = [];
}

abbrev history : List Event
history = pushes drone (frame 1) ∷ resets drone ∷ pushes drone (frame 2) ∷ animation_frame ∷ []

history_counter : (run initial history).generation ≡ 2
unfolding run step lookup insert erase text_eq
history_counter = refl

since-history : since drone [] history ≡ frame 2 ∷ []
unfolding text_eq
since-history = refl

get_buffer-run-initial_example :
    get_buffer drone (run initial history) ≡ buffer_of (since drone [] history)
get_buffer-run-initial_example = get_buffer-run-initial history drone
