-- ===== src/Ws/Dispatch.antt =====
-- What the messages of a connection do to the stores.

use ops_sys.Base.{◌≡◌, sym, subst, if◌then◌else◌, List, [], ◌∷◌, ◌++◌, none, some, take}
use ops_sys.Base.Text.{Text, text_eq, codes}
use ops_sys.Frames.{LiveFrame, TelemetryFrame, AlertFrame, alert, assistance_request, other}
use ops_sys.Telemetry
use ops_sys.Telemetry.{Telemetry}
use ops_sys.Alerts.Laws.{push-take}
use ops_sys.Telemetry.{pushes}
use ops_sys.Telemetry.Buffers.{buffer_of, get_buffer-step, get_buffer-run-initial}
use ops_sys.Ws.{World, Message, binary, text, on_message, assistance_alert}

unfoldable pub receive_all : List Message → World → World
receive_all [] w = w
receive_all (m ∷ ms) w = receive_all ms (on_message m w)

-- The telemetry of `v` among the messages, in order, after that of `seen`.
abbrev pub frames_of : Text → List TelemetryFrame → List Message → List TelemetryFrame
frames_of v seen [] = seen
frames_of v seen (text (some (LiveFrame.telemetry f)) ∷ ms) =
    frames_of v (if text_eq f.vehicle_id v then seen ++ f ∷ [] else seen) ms
frames_of v seen (_ ∷ ms) = frames_of v seen ms

-- The alerts among the messages, newest first, before those of `seen`. A request for assistance
-- is a warning that gives its reason.
abbrev pub alerts_of : List AlertFrame → List Message → List AlertFrame
alerts_of seen [] = seen
alerts_of seen (text (some (alert a)) ∷ ms) = alerts_of (a ∷ seen) ms
alerts_of seen (text (some (assistance_request r)) ∷ ms) =
    alerts_of
      (record {
        device = r.device;
        level = codes "warning";
        message = codes "Assistance requested: " ++ r.reason;
      }
        ∷ seen)
      ms
alerts_of seen (_ ∷ ms) = alerts_of seen ms

buffers-receive :
    (ms : List Message) (w : World) (v : Text) (seen : List TelemetryFrame)
    → Telemetry.get_buffer v w.telemetry ≡ buffer_of seen
    → Telemetry.get_buffer v (receive_all ms w).telemetry ≡ buffer_of (frames_of v seen ms)
unfolding receive_all on_message
buffers-receive [] w v seen h = h
buffers-receive (text (some (LiveFrame.telemetry f)) ∷ ms) w v seen h =
    buffers-receive ms (record w { telemetry = Telemetry.push f.vehicle_id f w.telemetry }) v
      (if text_eq f.vehicle_id v then seen ++ f ∷ [] else seen)
      (unfold Telemetry.step in get_buffer-step w.telemetry (pushes f.vehicle_id f) v seen h)
buffers-receive (binary ∷ ms) w v seen h = buffers-receive ms w v seen h
buffers-receive (text none ∷ ms) w v seen h = buffers-receive ms w v seen h
buffers-receive (text (some other) ∷ ms) w v seen h = buffers-receive ms w v seen h
buffers-receive (text (some (alert a)) ∷ ms) w v seen h = buffers-receive ms _ v seen h
buffers-receive (text (some (assistance_request r)) ∷ ms) w v seen h = buffers-receive ms _ v seen h

pub alerts-receive :
    (ms : List Message) (w : World) (seen : List AlertFrame)
    → w.alerts ≡ take 200 seen
    → (receive_all ms w).alerts ≡ take 200 (alerts_of seen ms)
unfolding receive_all on_message
alerts-receive [] w seen h = h
alerts-receive (text (some (alert a)) ∷ ms) w seen h =
    alerts-receive ms _ (a ∷ seen) (push-take a w.alerts seen h)
alerts-receive (text (some (assistance_request r)) ∷ ms) w seen h =
    alerts-receive ms _ (assistance_alert r.device r.reason ∷ seen)
      (push-take (assistance_alert r.device r.reason) w.alerts seen h)
alerts-receive (binary ∷ ms) w seen h = alerts-receive ms w seen h
alerts-receive (text none ∷ ms) w seen h = alerts-receive ms w seen h
alerts-receive (text (some other) ∷ ms) w seen h = alerts-receive ms w seen h
alerts-receive (text (some (LiveFrame.telemetry f)) ∷ ms) w seen h = alerts-receive ms _ seen h

-- From fresh stores, a vehicle has a buffer exactly when a telemetry frame came for it, and it holds
-- the pushes of these frames in order; the alerts are the newest two hundred, newest first. Binary
-- data, texts that are no JSON and frames of other types leave both stores alone.
pub receive_all_lem :
    (ms : List Message) (w : World) (v : Text)
    → w.telemetry ≡ Telemetry.initial
    → w.alerts ≡ []
    → (Telemetry.get_buffer v (receive_all ms w).telemetry ≡ buffer_of (frames_of v [] ms))
      × ((receive_all ms w).alerts ≡ take 200 (alerts_of [] ms))
unfolding Telemetry.run
receive_all_lem ms w v e h = (
  buffers-receive ms w v []
      (subst (λ s. Telemetry.get_buffer v s ≡ none) (sym e) (get_buffer-run-initial [] v)),
  alerts-receive ms w [] (h),
)
