-- ===== src/Project/Screen.antt =====
-- What the page of a project renders past the spinner and the error: the devices, the tabs, and the
-- rows of the tab that is open. `toLocaleTimeString` and `toFixed` are not in the repository, so the
-- texts that they make are arguments.
pub mod Labels
pub mod Rows
mod Tests
use ops_sys.Base.{
  ℕ, Bool, true, false, ◌≡◌, refl, sym, ap, ◌∙◌, ◌||◌, arith, if◌then◌else◌, List, [], ◌∷◌, ◌++◌,
  Option, none, some, map, length, filter, get_or, take, All, Bool-cases, inl, inr,
}
use ops_sys.Base.Text.{Text, codes, text_eq, text_eq_iff}
use ops_sys.Base.Sets.{has, set_of, is_one}
use ops_sys.Fleet.{Vehicle}
use ops_sys.Frames.{TelemetryFrame, AlertFrame}
use ops_sys.Alerts.{Alerts}
use ops_sys.Auth.{AuthState, is_admin}
use ops_sys.Project.{
  Page, Tab, stream, alerts, Color, level_color, ids_of, device_label, alerts_shown, View, panel,
  view,
}
use ops_sys.Project.Devices.{last_name, device_label_lem}
use ops_sys.Project.Live.{alerts_for, alerts_shown_for}

pub record Formats : Type 0 where
  pub time : ℕ → Text
  pub fixed : ℕ → ℕ → Text
  pub decimal : ℕ → Text

pub record DeviceRow : Type 0 where
  pub name : Text
  pub kind : Text

pub record StreamRow : Type 0 where
  pub time : Text
  pub device : Text
  pub lat : Text
  pub lon : Text
  pub alt : Text
  pub seq : Text

pub record AlertRow : Type 0 where
  pub badge : Color
  pub level : Text
  pub device : Text
  pub message : Text

unfoldable pub stream_row : Formats → List Vehicle → TelemetryFrame → StreamRow
stream_row fmt devices f = record {
  time = fmt.time f.ts;
  device = device_label devices f.vehicle_id;
  lat = fmt.fixed 6 f.lat;
  lon = fmt.fixed 6 f.lon;
  alt = fmt.fixed 1 f.alt;
  seq = fmt.decimal f.seq;
}

unfoldable pub alert_row : List Vehicle → AlertFrame → AlertRow
alert_row devices a = record {
  badge = level_color a.level;
  level = a.level;
  device = device_label devices a.device;
  message = a.message;
}

-- The open tab; one with nothing to show has a sentence instead.
pub data TabContent : Type 0 where
  no_telemetry no_alerts : TabContent
  table : List StreamRow → TabContent
  alert_list : List AlertRow → TabContent

pub record Screen : Type 0 where
  pub can_add : Bool
  pub devices : List DeviceRow
  pub title : Option Text
  pub alert_count : ℕ
  pub content : TabContent
  pub form : Bool

abbrev pub stream_tab : List StreamRow → TabContent
stream_tab [] = no_telemetry
stream_tab (r ∷ rs) = table (r ∷ rs)

abbrev pub alerts_tab : List AlertRow → TabContent
alerts_tab [] = no_alerts
alerts_tab (r ∷ rs) = alert_list (r ∷ rs)

-- The two conditional parts of the tab content, in which `shown` are the alerts of the page.
unfoldable pub tab_content :
    Formats → List Vehicle → List TelemetryFrame → Alerts → Tab → TabContent
unfolding stream_row alert_row
tab_content fmt devices feed_rows shown stream = stream_tab (map (stream_row fmt devices) feed_rows)
tab_content fmt devices feed_rows shown alerts = alerts_tab (map (alert_row devices) shown)

unfoldable pub screen : Formats → AuthState → Alerts → Page → Screen
unfolding tab_content
screen fmt s store p =
    let shown = alerts_shown store p in
    record {
      can_add = is_admin s;
      devices = map (λ d. record { name = d.display_name; kind = d.vehicle_type }) p.devices;
      title = p.name;
      alert_count = length shown;
      content = tab_content fmt p.devices p.feed_rows shown p.tab;
      form = p.show_add;
    }
