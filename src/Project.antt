-- ===== src/Project.antt =====
-- server/dashboard/src/pages/Project/ProjectPage.tsx: the state of the page and its handlers. A
-- handler returns the new state with the requests that it made, in order; what the services answer
-- is an argument. The texts of dates and numbers are arguments.
pub mod Feed
pub mod Devices
pub mod Form
pub mod Live
pub mod Screen
pub mod Markup
pub mod Watch
pub mod Pending
mod Tests
use ops_sys.Base.{
  ℕ, Bool, true, false, ◌||◌, ◌++◌, Option, none, some, List, [], ◌∷◌, ◌==◌, if◌then◌else◌, ltb,
  get_or, filter, map, take,
}
use ops_sys.Base.Text.{Text, codes, text_eq, trim, is_blank, or_undefined}
use ops_sys.Base.Sets.{has, set_of}
use ops_sys.Base.Maps.{lookup, insert}
use ops_sys.Fleet.{Vehicle, ProvisionResponse}
use ops_sys.Frames.{TelemetryFrame, AlertFrame}
use ops_sys.Alerts.{Alerts}
use ops_sys.Buffer
use ops_sys.Buffer.{CircularBuffer}
use ops_sys.Telemetry
use ops_sys.Telemetry.{Telemetry}
use ops_sys.Http.{Request}
use ops_sys.Http.Requests.{DeviceBody, list_project_devices, provision_device}
use ops_sys.Server.{Answer, answered, failed}

abbrev pub max_feed_rows : ℕ
max_feed_rows = 500

pub data Tab : Type 0 where
  stream alerts : Tab

pub record Page : Type 0 where
  pub name : Option Text
  pub devices : List Vehicle
  pub loading : Bool
  pub tab : Tab
  pub show_add : Bool
  pub dev_name : Text
  pub dev_type : Text
  pub dev_region : Text
  pub adding : Bool
  pub feed_rows : List TelemetryFrame
  pub generation_seen : ℕ
  pub error : Text

abbrev pub opened : Option Text → Page
opened name = record {
  name = name;
  devices = [];
  loading = true;
  tab = stream;
  show_add = false;
  dev_name = [];
  dev_type = [];
  dev_region = [];
  adding = false;
  feed_rows = [];
  generation_seen = 0;
  error = [];
}

abbrev pub load_failed : Text
load_failed = codes "Failed to load devices. Check console for details."

-- `loadDevices`; the field `devices` of the answer may be null.
unfoldable pub load_devices : Answer (Option (List Vehicle)) → Page → Page × List Request
load_devices answer p = elim p.name [
  | none ↦ (p, [])
  | some n ↦ if is_blank n then (p, []) else (
    elim answer [
      | answered d ↦ record p { devices = get_or [] d; loading = false }
      | failed _ ↦ record p { devices = []; error = load_failed; loading = false }
    ],
    list_project_devices n ∷ [],
  )
]

-- The button `Retry`.
unfoldable pub retry : Answer (Option (List Vehicle)) → Page → Page × List Request
retry answer p = load_devices answer (record p { error = []; loading = true })

-- `handleAddDevice`, with the answers to its two requests.
unfoldable pub handle_add_device :
    Answer ProvisionResponse → Answer (Option (List Vehicle)) → Page → Page × List Request
unfolding load_devices
handle_add_device provisioned listed p = elim p.name [
  | none ↦ (p, [])
  | some n ↦
      if is_blank n || is_blank (trim p.dev_name)
      then (p, [])
      else (let req = provision_device n (record {
        display_name = trim p.dev_name;
        vehicle_type = or_undefined (trim p.dev_type);
        adapter_type = none;
        region = or_undefined (trim p.dev_region);
      }) in
          elim provisioned [
            | failed _ ↦ (record p { adding = false }, req ∷ [])
            | answered _ ↦
                let (p', reqs) = load_devices listed (record p {
                  adding = true;
                  show_add = false;
                  dev_name = [];
                  dev_type = [];
                  dev_region = [];
                }) in
                (record p' { adding = false }, req ∷ reqs)
          ])
]

-- What the page shows.
pub data View : Type 0 where
  spinner : View
  error_view : Text → View
  panel : View

unfoldable pub view : Page → View
view p = if p.loading then spinner else if is_blank p.error then panel else error_view p.error

-- The items of a snapshot; a buffer of the store has no hole.
abbrev pub somes {ℓ} : {A : Type ℓ} → List (Option A) → List A
somes [] = []
somes (none ∷ xs) = somes xs
somes (some x ∷ xs) = x ∷ somes xs

-- `if (buf) allFrames.push(...buf.snapshot())`
abbrev pub frames_in : Option (CircularBuffer TelemetryFrame) → List TelemetryFrame
frames_in none = []
frames_in (some buf) = somes (Buffer.snapshot buf)

-- The loop over `ids` in `tick`.
unfoldable pub all_frames : List Text → Telemetry → List TelemetryFrame
all_frames [] store = []
all_frames (id ∷ ids) store = frames_in (Telemetry.get_buffer id store) ++ all_frames ids store

-- `sort((a, b) => b.ts - a.ts)`, which is stable.
unfoldable pub insert_frame : TelemetryFrame → List TelemetryFrame → List TelemetryFrame
insert_frame f [] = f ∷ []
insert_frame f (g ∷ gs) = if ltb f.ts g.ts then g ∷ insert_frame f gs else f ∷ g ∷ gs

unfoldable pub sort_frames : List TelemetryFrame → List TelemetryFrame
unfolding insert_frame
sort_frames [] = []
sort_frames (f ∷ fs) = insert_frame f (sort_frames fs)

-- `tick`, which runs at each animation frame while devices are shown.
unfoldable pub tick : List Text → Telemetry → Page → Page
tick ids store p = if store.generation == p.generation_seen then p else record p {
  generation_seen = store.generation;
  feed_rows = take max_feed_rows (sort_frames (all_frames ids store));
}

abbrev pub ids_of : List Vehicle → List Text
ids_of = map (λ d. d.id)

-- The alerts of the page: those whose device is one of the project's.
unfoldable pub alerts_shown : Alerts → Page → Alerts
alerts_shown store p = filter (λ a. has a.device (set_of [] (ids_of p.devices))) store

unfoldable pub name_map : List (Text × Text) → List Vehicle → List (Text × Text)
name_map m [] = m
name_map m (d ∷ ds) = name_map (insert d.id d.display_name m) ds

-- `deviceNameMap.get(id) ?? id.slice(0, 8)`
unfoldable pub device_label : List Vehicle → Text → Text
device_label devices id = get_or (take 8 id) (lookup id (name_map [] devices))

pub data Color : Type 0 where
  red amber blue : Color

unfoldable pub level_color : Text → Color
level_color level =
    if text_eq level (codes "critical") || text_eq level (codes "error")
    then red
    else if text_eq level (codes "warning")
    then amber
    else blue
