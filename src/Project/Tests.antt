-- ===== src/Project/Tests.antt =====
-- A page with one device, and the theorems about the page there.
use ops_sys.Base.{arith, ℕ, true, false, ◌≡◌, ◌≢◌, refl, none, some, List, [], ◌∷◌}
use ops_sys.Base.Text.{codes, text_eq, trim, trim_start, is_space, is_blank}
use ops_sys.Base.Maps.{lookup, insert}
use ops_sys.Fleet.{Vehicle, ProvisionResponse}
use ops_sys.Frames.{TelemetryFrame}
use ops_sys.Telemetry
use ops_sys.Project.{view, panel, Page, opened, ids_of, device_label, name_map, sort_frames, tick}
use ops_sys.Project.Feed.{IsFeed, gathered, tick_lem}

abbrev drone : Vehicle
drone = record {
  id = codes "0123456789";
  org_id = [];
  project_id = none;
  display_name = codes "Drone";
  vehicle_type = [];
  adapter_type = [];
  region = [];
  created_at = [];
  updated_at = [];
  active = true;
}

abbrev frame : ℕ → ℕ → TelemetryFrame
frame ts seq = record {
  vehicle_id = drone.id;
  ts = ts;
  lat = 0;
  lon = 0;
  alt = 0;
  seq = seq;
  payload_b64 = [];
}

-- Newest first, and equal times in the order of arrival.
sort_three :
    sort_frames (frame 5 1 ∷ frame 7 2 ∷ frame 5 3 ∷ []) ≡ frame 7 2 ∷ frame 5 1 ∷ frame 5 3 ∷ []
unfolding sort_frames
sort_three = refl

labels :
    (device_label (drone ∷ []) drone.id ≡ codes "Drone")
    × (device_label [] drone.id ≡ codes "01234567")
unfolding device_label name_map lookup insert text_eq
labels = (refl, refl)

abbrev history : List Telemetry.Event
history = Telemetry.pushes drone.id (frame 5 1) ∷ Telemetry.animation_frame ∷ []

abbrev store : Telemetry.Telemetry
store = Telemetry.run Telemetry.initial history

abbrev page : Page
page = opened (some (codes "fleet"))

store_new : store.generation ≢ page.generation_seen
unfolding Telemetry.run Telemetry.step Telemetry.push Telemetry.schedule_flush Telemetry.flush
store_new = λ e. omega (arith, e)

tick_lem_example :
    IsFeed
      (tick (ids_of (drone ∷ [])) store page).feed_rows
      (gathered history (ids_of (drone ∷ [])))
    × (tick (ids_of (drone ∷ [])) store (tick (ids_of (drone ∷ [])) store page)
        ≡ tick (ids_of (drone ∷ [])) store page)
tick_lem_example = tick_lem history (ids_of (drone ∷ [])) page store_new

-- The form, filled in.
abbrev filled : Page
filled = record page { loading = false; show_add = true; dev_name = codes " Drone" }

abbrev response : ProvisionResponse
response = record {
  device_id = drone.id;
  agent_config_yaml = [];
  cert_pem = none;
  key_pem = none;
  ca_pem = none;
}

filled-panel : view filled ≡ panel
unfolding view
filled-panel = refl

filled_name : is_blank (trim filled.dev_name) ≡ false
unfolding trim trim_start is_space
filled_name = refl
