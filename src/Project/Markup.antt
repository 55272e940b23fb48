-- ===== src/Project/Markup.antt =====
-- What ProjectPage.tsx renders, with its handlers as they stand in the source; the texts of the rows
-- are those of Project/Screen.antt.
pub mod Clicks
use ops_sys.Base.{
  ℕ, Bool, true, false, ◌||◌, Option, none, some, List, [], ◌∷◌, ◌++◌, get_or, if◌then◌else◌,
}
use ops_sys.Base.Text.{Text, codes, trim, is_blank}
use ops_sys.Auth.{AuthState}
use ops_sys.Alerts.{Alerts}
use ops_sys.Markup.{
  Props, Node, Nodes, text, element, plain, nodes, when, tag, div, said, labelled, button,
  button_unless, input,
}
use ops_sys.Modal.Dialog.{modal}
use ops_sys.Project.{
  Page, Tab, stream, alerts, Color, red, amber, blue, View, spinner, error_view, panel, view,
}
use ops_sys.Project.Screen.{
  Formats, DeviceRow, StreamRow, AlertRow, TabContent, no_telemetry, no_alerts, table, alert_list,
  Screen, screen,
}
use ops_sys.Project.Pending.{Live, ask_devices, try_add}

-- A handler changes the page and may make calls, or goes to the list of projects.
pub data Act : Type 0 where
  runs : (Live → Live) → Act
  goes_home : Act

abbrev pub sets : (Page → Page) → Act
sets f = runs (λ s. record s { front = record s.front { page = f s.front.page } })

-- `handleAddDevice` up to its first `await`.
abbrev pub handle_add : Live → Live
handle_add s = try_add s.front.page.name s

-- `setError(''); setLoading(true); loadDevices()`
unfoldable pub retry : Live → Live
retry s = ask_devices s.front.page.name (record s {
  front = record s.front { page = record s.front.page { error = []; loading = true } };
})

unfoldable pub device_nodes : List DeviceRow → List (Node Act)
device_nodes [] = []
device_nodes (d ∷ ds) =
    div (tag (codes "span") [] ∷ said (codes "span") d.name ∷ said (codes "span") d.kind ∷ [])
    ∷ device_nodes ds

abbrev pub device_list : List DeviceRow → Node Act
device_list [] = div (div (text (codes "No devices provisioned yet.") ∷ []) ∷ [])
device_list ds = div (device_nodes ds)

unfoldable pub stream_nodes : List StreamRow → List (Node Act)
stream_nodes [] = []
stream_nodes (r ∷ rs) =
    tag (codes "tr") (
      said (codes "td") r.time
      ∷ said (codes "td") r.device
      ∷ said (codes "td") r.lat
      ∷ said (codes "td") r.lon
      ∷ said (codes "td") r.alt
      ∷ said (codes "td") r.seq
      ∷ [])
    ∷ stream_nodes rs

abbrev pub stream_head : Node Act
stream_head = tag (codes "thead") (
    tag (codes "tr") (
      said (codes "th") (codes "Time")
      ∷ said (codes "th") (codes "Device")
      ∷ said (codes "th") (codes "Lat")
      ∷ said (codes "th") (codes "Lon")
      ∷ said (codes "th") (codes "Alt (m)")
      ∷ said (codes "th") (codes "Seq")
      ∷ [])
    ∷ [])

abbrev pub badge_class : Color → Text
badge_class red = codes "badge red"
badge_class amber = codes "badge amber"
badge_class blue = codes "badge blue"

abbrev pub level_badge : AlertRow → Node Act
level_badge r =
    element (codes "span")
      (record plain { attributes = (codes "className", badge_class r.badge) ∷ [] })
      (nodes (text r.level ∷ []))

unfoldable pub alert_nodes : List AlertRow → List (Node Act)
alert_nodes [] = []
alert_nodes (r ∷ rs) =
    div (level_badge r ∷ said (codes "span") r.device ∷ said (codes "span") r.message ∷ [])
    ∷ alert_nodes rs

unfoldable pub content_nodes : TabContent → List (Node Act)
unfolding stream_nodes alert_nodes
content_nodes no_telemetry =
    div (text (codes "No telemetry data streaming yet. Connect devices to see live data.") ∷ [])
    ∷ []
content_nodes no_alerts = div (text (codes "No alerts for this project.") ∷ []) ∷ []
content_nodes (table rs) =
    tag (codes "table") (stream_head ∷ tag (codes "tbody") (stream_nodes rs) ∷ []) ∷ []
content_nodes (alert_list rs) = alert_nodes rs

abbrev pub open_add : Act
open_add = sets (λ q. record q { show_add = true })

abbrev pub close_add : Act
close_add = sets (λ q. record q { show_add = false })

abbrev pub set_tab : Tab → Act
set_tab t = sets (λ q. record q { tab = t })

abbrev pub sidebar_header : Screen → List (Node Act)
sidebar_header v =
    said (codes "h3") (codes "Devices") ∷ when v.can_add (button open_add (codes "+ Add"))

abbrev pub alerts_label : Formats → ℕ → Text
alerts_label fmt n = codes "Alerts (" ++ (fmt.decimal n ++ codes ")")

abbrev pub tabs : Formats → Screen → List (Node Act)
tabs fmt v =
    button (set_tab stream) (codes "Data Stream")
    ∷ button (set_tab alerts) (alerts_label fmt v.alert_count)
    ∷ []

abbrev pub top_nodes : Screen → List (Node Act)
top_nodes v = button goes_home (codes "← Projects") ∷ said (codes "span") (get_or [] v.title) ∷ []

abbrev pub field : Text → Text → Text → Option Act → (Text → Page → Page) → Node Act
field label placeholder value on_enter change = labelled label (
    input (record plain {
      on_change = some (λ t. sets (change t));
      on_enter = on_enter;
      attributes = (codes "placeholder", placeholder) ∷ (codes "value", value) ∷ [];
    }))

abbrev pub add_label : Page → Text
add_label p = if p.adding then codes "Adding..." else codes "Add Device"

abbrev pub add_buttons : Page → List (Node Act)
add_buttons p =
    button close_add (codes "Cancel")
    ∷ button_unless (p.adding || is_blank (trim p.dev_name)) (runs handle_add) (add_label p)
    ∷ []

abbrev pub add_body : Page → List (Node Act)
add_body p =
    field (codes "Device Name") (codes "drone-001") p.dev_name (some (runs handle_add))
      (λ t q. record q { dev_name = t })
    ∷ field (codes "Type (optional)") (codes "drone, rover, camera...") p.dev_type none
        (λ t q. record q { dev_type = t })
    ∷ field (codes "Region (optional)") (codes "us-east-1") p.dev_region none
        (λ t q. record q { dev_region = t })
    ∷ div (add_buttons p)
    ∷ []

abbrev pub aside_parts : Screen → List (Node Act)
aside_parts v = div (sidebar_header v) ∷ device_list v.devices ∷ []

abbrev pub main_parts : Formats → Screen → List (Node Act)
main_parts fmt v = div (top_nodes v) ∷ div (tabs fmt v) ∷ div (content_nodes v.content) ∷ []

abbrev pub parts : Formats → Screen → Page → List (Node Act)
parts fmt v p =
    tag (codes "aside") (aside_parts v)
    ∷ div (main_parts fmt v)
    ∷ modal p.show_add close_add (codes "Add Device") (add_body p)

abbrev pub error_parts : Text → List (Node Act)
error_parts message = said (codes "span") message ∷ button (runs retry) (codes "Retry") ∷ []

unfoldable pub project_page : Formats → AuthState → Alerts → Page → Node Act
unfolding screen
project_page fmt a store p = elim (view p) [
  | spinner ↦ div (div (div [] ∷ []) ∷ [])
  | error_view message ↦ div (div (error_parts message) ∷ [])
  | panel ↦ div (parts fmt (screen fmt a store p) p)
]
