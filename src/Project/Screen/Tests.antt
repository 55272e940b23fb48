-- ===== src/Project/Screen/Tests.antt =====
-- A page with one device, one frame and one alert, and the theorems about its screen.
use ops_sys.Base.{false, true, ◌≡◌, ◌≢◌, refl, none, some, List, [], ◌∷◌, take, arith}
use ops_sys.Base.Text.{codes}
use ops_sys.Fleet.{Vehicle}
use ops_sys.Frames.{LiveFrame, TelemetryFrame, AlertFrame, alert}
use ops_sys.Telemetry
use ops_sys.Ws.{World, text, on_message}
use ops_sys.Ws.Steps
use ops_sys.Ws.Dispatch.{alerts_of}
use ops_sys.Project.{Page, opened, alerts, ids_of, tick, alerts_shown}
use ops_sys.Project.Feed.{IsFeed}
use ops_sys.Project.Live.{
  Happening, arrives, frame, live, received, messages_of, alerts_for, tick-live,
}
use ops_sys.Project.Screen.{Formats}

abbrev rover : Vehicle
rover = record {
  id = codes "rover-0001";
  org_id = [];
  project_id = none;
  display_name = codes "Rover";
  vehicle_type = [];
  adapter_type = [];
  region = [];
  created_at = [];
  updated_at = [];
  active = true;
}

abbrev fix : TelemetryFrame
fix = record { vehicle_id = rover.id; ts = 7; lat = 0; lon = 0; alt = 0; seq = 1; payload_b64 = [] }

abbrev warning : AlertFrame
warning = record { device = rover.id; level = codes "warning"; message = codes "low" }

abbrev happened : List Happening
happened =
    arrives (text (some (LiveFrame.telemetry fix)))
    ∷ arrives (text (some (alert warning)))
    ∷ frame
    ∷ []

abbrev fresh : World
fresh = Steps.initial (codes "ws://localhost:8084")

abbrev page : Page
page = record (opened (some (codes "fleet"))) { devices = rover ∷ []; loading = false }

abbrev formats : Formats
formats = record { time = λ t. []; fixed = λ d n. []; decimal = λ n. [] }

live_new : (live fresh happened).telemetry.generation ≢ page.generation_seen
unfolding on_message Telemetry.step Telemetry.push Telemetry.schedule_flush Telemetry.flush
live_new e = omega (arith, e)

tick-live_example :
    IsFeed
      (tick (ids_of page.devices) (live fresh happened).telemetry page).feed_rows
      (received happened (ids_of page.devices))
    × (alerts_shown (live fresh happened).alerts page
        ≡ alerts_for (ids_of page.devices) (take 200 (alerts_of [] (messages_of happened))))
tick-live_example = tick-live happened fresh page refl refl live_new

abbrev on_alerts : Page
on_alerts = record page { tab = alerts }
