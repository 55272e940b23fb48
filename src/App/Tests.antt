-- ===== src/App/Tests.antt =====
-- A user opens the page of a project, which has a device, and signs out.
use ops_sys.Base.{
  ltb, leb, ◌&&◌, if◌then◌else◌, ℕ, true, false, ◌≡◌, refl, none, some, List, [], ◌∷◌, ◌++◌, get_or,
}
use ops_sys.Base.Text.{Text, codes, is_blank, text_eq, split, starts_with}
use ops_sys.Base.Sets.{has, is_one, add}
use ops_sys.Fleet.{Vehicle}
use ops_sys.Auth.{parse_claims, User, found, load_existing, signed_in}
use ops_sys.Auth.Session.{IsSession}
use ops_sys.Ws.{
  connected, request, subscribe, reconnect, clear_retry, close_live_ws, open_ws, new_socket,
  set_status, on_open, send, on_status_change, add_listener,
}
use ops_sys.Ws.Browser.{opened}
use ops_sys.Ws.Ids
use ops_sys.Ws.Phases.{last_sent}
use ops_sys.Shell.{page, project, render, auth_guard}
use ops_sys.Project.{ids_of}
use ops_sys.Project.Devices.{mount}
use ops_sys.Project.Watch.{set_devices, start, clean_up, request_frame}
use ops_sys.App.{
  App, Event, checks, sets, signs_out, frame, connection, after, run, opened_at, inside, commit,
  settle, show, show_light, light_on, light_off, show_project,
}
use ops_sys.App.Browser.{happens, socket_opens}
use ops_sys.App.Invariant.{is_lit, listeners_of}
use ops_sys.App.Safety.{IsQuiet, devices_shown, run-subscribed}
use ops_sys.App.Ending.{left, run-IsEnd}
use ops_sys.App.Owner.{token_of, run-IsSession_token}
use ops_sys.Markup.{click, child, bubble}
use ops_sys.Markup.Clicks.{Ran}
use ops_sys.Shell.{home, sidebar_user, get_initials, nav_shown, page_title, split_runs}
use ops_sys.Auth.{is_admin}
use ops_sys.App.{goes}
use ops_sys.App.Screen.{screen, nav_sidebar, nav_links, top_bar}
use ops_sys.App.Screen.Labels.{Labelled, labels_of}
use ops_sys.App.Screen.Leads.{Leads}
use ops_sys.App.Screen.Clicks.{clicked, click-screen}

abbrev ann : User
ann = record {
  profile = record { org_id = none; vehicle_set = none; role = none; sub = none; email = none };
  access_token = codes "t1";
  expired = false;
}

abbrev rover : Vehicle
rover = record {
  id = codes "v1";
  org_id = [];
  project_id = none;
  display_name = codes "Rover";
  vehicle_type = [];
  adapter_type = [];
  region = [];
  created_at = [];
  updated_at = [];
  active = true;
}

abbrev gateway : Text
gateway = codes "ws://gateway"

abbrev at_work : List Event
at_work = checks (found ann) ∷ sets (rover ∷ []) ∷ connection (socket_opens 0) ∷ []

abbrev working : App
working = run (opened_at gateway (project (codes "air"))) at_work

-- The page of the project is shown, its device is subscribed, and the connection is up.
works :
    (working.view ≡ page (project (codes "air")))
    × (working.watch.world.subscribed_ids ≡ codes "v1" ∷ [])
    × (working.watch.world.status ≡ connected)
    × (working.watch.world.listeners ≡ 0 ∷ [])
unfolding run opened_at after commit settle show show_light light_on light_off show_project render
    auth_guard load_existing signed_in set_devices start clean_up request_frame mount Ids.run
    subscribe reconnect clear_retry close_live_ws open_ws new_socket set_status has add happens
    on_open send on_status_change add_listener
works = (refl, refl, refl, refl)

run-subscribed_example :
    (let w = working.watch.world in
      ((v : Text) → has v w.subscribed_ids ≡ is_one v (ids_of (devices_shown working)))
      × ((i : ℕ)
          → (w.sockets i).ready ≡ opened
          → (w.ws ≡ some i) × (last_sent w ≡ some (i, request w)))
      × (w.listeners ≡ listeners_of working.light)
      × (is_lit working.light ≡ inside working.view))
run-subscribed_example = run-subscribed gateway (project (codes "air")) at_work

-- The frame that the browser draws after the button is no event of the page any more.
run-IsEnd_example :
    let a = run (opened_at gateway (project (codes "air"))) (at_work ++ signs_out ∷ frame 1 ∷ []) in
    (inside a.view ≡ false) × (a.watch.world.listeners ≡ []) × IsQuiet a
run-IsEnd_example = run-IsEnd gateway (project (codes "air")) at_work (frame 1 ∷ []) left refl

abbrev checked_in : List Event
checked_in = checks (found ann) ∷ []

run-IsSession_token_example :
    let a = run (opened_at gateway (project (codes "air"))) checked_in in
    let a' =
      run (opened_at gateway (project (codes "air"))) (checked_in ++ sets (rover ∷ []) ∷ []) in
    IsSession (some ann) a.auth
    × (inside a.view ≡ true → is_blank (get_or [] (token_of (some ann))) ≡ false)
    × ((a'.watch.world.sockets 0).url ≡ (
        if leb a.watch.world.next_socket 0 && ltb 0 a'.watch.world.next_socket
        then codes "ws://gateway/ws?token=t1"
        else (a.watch.world.sockets 0).url))
run-IsSession_token_example =
    run-IsSession_token gateway (project (codes "air")) checked_in (sets (rover ∷ [])) 0

-- The socket of the device is the one that this event opens.
dialled : (working.watch.world.sockets 0).url ≡ codes "ws://gateway/ws?token=t1"
unfolding run opened_at after commit settle show show_light light_on light_off show_project render
    auth_guard load_existing signed_in set_devices start clean_up request_frame mount Ids.run
    subscribe reconnect clear_retry close_live_ws open_ws new_socket set_status has add happens
    on_open send on_status_change add_listener
dialled = refl

-- The first link of the sidebar.
abbrev to_projects : List ℕ
to_projects = 0 ∷ 1 ∷ 0 ∷ 0 ∷ []

link_clicked :
    clicked to_projects (screen (λ t. t) some (codes "/") connected working.auth working.view)
    ≡ some (goes home ∷ [], false)
unfolding run opened_at after commit settle show show_light light_on light_off show_project render
    auth_guard load_existing signed_in set_devices start clean_up request_frame mount Ids.run
    subscribe reconnect clear_retry close_live_ws open_ws new_socket set_status has add happens
    on_open send on_status_change add_listener click child bubble screen nav_sidebar sidebar_user
    get_initials nav_shown is_admin nav_links top_bar page_title text_eq split starts_with
    split_runs parse_claims
link_clicked = refl

click-screen_example :
    let shown = screen (λ t. t) some (codes "/") connected working.auth working.view in
    Labelled shown (labels_of working.auth working.view)
    × Ran (Leads working) (clicked to_projects shown)
click-screen_example =
    click-screen (λ t. t) some (codes "/") connected gateway (project (codes "air")) at_work
      to_projects

links :
    labels_of working.auth working.view
    ≡ (codes "Projects", goes home) ∷ (codes "Sign out", signs_out) ∷ []
unfolding run opened_at after commit settle show show_light light_on light_off show_project render
    auth_guard load_existing signed_in set_devices start clean_up request_frame mount Ids.run
    subscribe reconnect clear_retry close_live_ws open_ws new_socket set_status has add happens
    on_open send on_status_change add_listener is_admin text_eq parse_claims
links = refl
