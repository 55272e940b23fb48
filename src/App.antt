-- ===== src/App.antt =====
-- The dashboard as a whole, App.tsx with what it mounts: the router's place, `AuthGuard` with its state,
-- the status light of components/TopBar/TopBar.tsx, and the page of pages/Project/ProjectPage.tsx, which
-- share the session of store/authStore.ts and the manager of ws/WsManager.ts.
pub mod Browser
mod Manager
mod Urls
mod Addresses
mod Settle
mod Standing
pub mod Invariant
mod Run
pub mod Safety
pub mod Owner
pub mod Ending
pub mod Screen
mod Tests
use ops_sys.Base.{
  ℕ, zero, suc, Bool, true, false, Option, none, some, List, [], ◌∷◌, get_or, if◌then◌else◌,
}
use ops_sys.Base.Text.{Text}
use ops_sys.Fleet.{Vehicle}
use ops_sys.Auth
use ops_sys.Auth.{AuthState, User, Stored, load_existing}
use ops_sys.Auth.Session
use ops_sys.Http.{after_response}
use ops_sys.Ws.{World, on_status_change, off_status_change}
use ops_sys.Ws.Steps
use ops_sys.Shell.{
  Route, login, callback, home, team, api_keys, unknown, project, View, spinner, page, goes_to,
  render, sign_out, auth_callback,
}
use ops_sys.Project.{opened}
use ops_sys.Project.Watch.{Watch, set_devices, animation_frame, leave}
use ops_sys.App.Browser.{BrowserEvent, happens}

pub record App : Type 0 where
  pub auth : AuthState
  pub route : Route
  -- `checked` of `AuthGuard`, while it is mounted.
  pub guard : Option Bool
  -- What is rendered.
  pub view : View
  -- The listener of the status light, while it is mounted, and the number of the next one.
  pub light : Option ℕ
  pub next_light : ℕ
  -- The page of a project, and the manager with the browser.
  pub watch : Watch

-- The routes below `AuthGuard`.
abbrev pub under_guard : Route → Bool
under_guard login = false
under_guard callback = false
under_guard unknown = false
under_guard _ = true

-- `AuthGuard` keeps its state while the routes stay below it.
abbrev pub mount_guard : Option Bool → Route → Option Bool
mount_guard g r = if under_guard r then some (get_or false g) else none

-- The place where the redirects end, with the guard and what is rendered there.
pub record Place : Type 0 where
  pub guard : Option Bool
  pub route : Route
  pub view : View

-- `Navigate` goes on at once; `n` redirects are allowed.
unfoldable pub settle : ℕ → Option Bool → AuthState → Route → Option Place
settle zero g s r = none
settle (suc n) g s r = elim (render (get_or false (mount_guard g r)) s r) [
  | goes_to next ↦ settle n (mount_guard g r) s next
  | v ↦ some (record { guard = mount_guard g r; route = r; view = v })
]

abbrev pub project_of : View → Option Text
project_of (page (project name)) = some name
project_of _ = none

-- The top bar is rendered.
abbrev pub inside : View → Bool
inside (page r) = under_guard r
inside _ = false

abbrev pub with_world : World → App → App
with_world w a = record a { watch = record a.watch { world = w } }

-- The effect of `WsIndicator`, and its clean-up.
unfoldable pub light_on : App → App
light_on a = elim a.light [
  | some fn ↦ a
  | none ↦
      with_world (on_status_change a.next_light a.watch.world)
        (record a { light = some a.next_light; next_light = suc a.next_light })
]

unfoldable pub light_off : App → App
light_off a = elim a.light [
  | none ↦ a
  | some fn ↦ with_world (off_status_change fn a.watch.world) (record a { light = none })
]

unfoldable pub show_light : Bool → App → App
unfolding light_on light_off
show_light b a = if b then light_on a else light_off a

-- The page of a project is mounted, gets another name, goes away, or is not concerned.
unfoldable pub show_project : Option Text → Option Text → Watch → Watch
show_project none none w = w
show_project none (some n) w = record w { page = opened (some n); raf = 0 }
show_project (some m) (some n) w = record w { page = record w.page { name = some n } }
show_project (some m) none w = record (leave w) { page = opened none }

unfoldable pub show : Place → App → App
unfolding show_light show_project
show p a =
    let lit = show_light (inside p.view) a in
    record lit {
      guard = p.guard;
      route = p.route;
      view = p.view;
      watch = show_project (project_of a.view) (project_of p.view) lit.watch;
    }

-- `useAuthStore.getState().token`: whenever the manager runs, what it reads of the store is the
-- token which the store has then.
abbrev pub reading : App → App
reading a = with_world (record a.watch.world { token = a.auth.token }) a

-- React renders the application, and runs the effects.
unfoldable pub commit : App → App
unfolding settle show
commit a =
    let b : App = reading a in
    elim (settle 3 b.guard b.auth b.route) [ none ↦ b | some p ↦ show p b ]

abbrev pub at_route : Option Route → App → App
at_route none a = a
at_route (some r) a = record a { route = r }

abbrev pub unmounted : Text → Route → App
unmounted gateway_url r = record {
  auth = Auth.initial;
  route = r;
  guard = none;
  view = spinner;
  light = none;
  next_light = 0;
  watch = record {
    page = opened none;
    world = Steps.initial gateway_url;
    raf = 0;
    requested = [];
    next_handle = 1;
  };
}

-- What happens: to the session; an answer to a request of the pages, by its status; the button
-- `Sign out`; the end of `handleCallback`; a link or an address; the end of `loadExisting`; the devices
-- of the project; an animation frame; the connection.
pub data Event : Type 0 where
  session : Session.Event → Event
  response : ℕ → Event
  signs_out : Event
  calls_back : Option User → Event
  goes : Route → Event
  checks : Stored → Event
  sets : List Vehicle → Event
  frame : ℕ → Event
  connection : BrowserEvent → Event

-- `setChecked(true)`
abbrev pub checked : Option Bool → Option Bool
checked none = none
checked (some b) = some true

unfoldable pub after : App → Event → App
unfolding commit
after a (session e) = commit (record a { auth = Session.step a.auth e })
after a (response status) = commit (record a { auth = after_response status a.auth })
after a signs_out = let (s, r) = sign_out a.auth in commit (at_route r (record a { auth = s }))
after a (calls_back result) =
    let (s, r) = auth_callback false result a.auth in commit (at_route r (record a { auth = s }))
after a (goes r) = commit (record a { route = r })
after a (checks r) = commit (record a { auth = load_existing r a.auth; guard = checked a.guard })
after a (sets devices) = elim (project_of a.view) [
  | none ↦ a
  | some n ↦ record a { watch = set_devices devices (reading a).watch }
]
after a (frame h) = record a { watch = animation_frame h a.watch }
after a (connection e) = with_world (happens e (reading a).watch.world) a

unfoldable pub run : App → List Event → App
run a [] = a
run a (e ∷ es) = run (after a e) es

-- The dashboard, opened at an address.
unfoldable pub opened_at : Text → Route → App
unfolding commit
opened_at gateway_url r = commit (unmounted gateway_url r)
