-- ===== src/App/Invariant.antt =====
-- What holds of the dashboard whatever happens.
pub mod Light
pub mod Page
use ops_sys.Base.{
  ℕ, zero, suc, Bool, true, false, ◌≡◌, refl, sym, ap, ◌∙◌, subst, Option, none, some, List, [],
  ◌∷◌, get_or, if◌then◌else◌, arith,
}
use ops_sys.Base.Text.{Text}
use ops_sys.Base.Sets.{has}
use ops_sys.Fleet.{Vehicle}
use ops_sys.Auth.{AuthState, User, load_existing}
use ops_sys.Auth.Session
use ops_sys.Http.{after_response}
use ops_sys.Ws.{World, on_status_change, off_status_change, add_listener, delete_listener}
use ops_sys.Ws.Steps
use ops_sys.Ws.Steps.{Reach, here, next, listens, leaves, stores_change}
use ops_sys.Shell.{Route, View, page, project, lacks_token, sign_out, auth_callback}
use ops_sys.Project.{opened}
use ops_sys.Project.Watch.{
  Watch, set_devices, start, clean_up, request_frame, animation_frame, call, callback, leave,
}
use ops_sys.Project.Watch.Invariant.{
  Subscribes, IsWatching, awaited, set_devices-IsWatching, called, clean_up-quiet,
}
use ops_sys.App.{
  App, Place, settle, project_of, inside, with_world, light_on, light_off, show_light, show_project,
  show, commit, at_route, unmounted, Event, session, response, signs_out, calls_back, goes, checks,
  sets, frame, connection, checked, after, run, opened_at,
}
use ops_sys.App.Manager.{
  Keeps, mount-Keeps, unmount-Keeps, mount-Reach, unmount-Reach, happens-Happened,
}
use ops_sys.App.Settle.{ends, settle-ends, IsPlaced, ends-IsPlaced}

abbrev pub listeners_of : Option ℕ → List ℕ
listeners_of none = []
listeners_of (some fn) = fn ∷ []

abbrev pub is_lit : Option ℕ → Bool
is_lit none = false
is_lit (some fn) = true

-- The manager, as the rest of the dashboard uses it.
pub record IsUsed (gateway_url : Text) (token : Option Text) (light : Option ℕ) (w : World)
    : Type 0 where
  pub reached : Reach (Steps.initial gateway_url) w
  pub token_read : w.token ≡ token
  pub heard : w.listeners ≡ listeners_of light

-- The page of a project, which has no device while it is not mounted.
pub record IsShown (name : Option Text) (s : Watch) : Type 0 where
  pub watching : IsWatching s
  pub gone : name ≡ none → s.page.devices ≡ []

module _ (gateway_url : Text) where
  pub record IsApp (a : App) : Type 0 where
    pub used : IsUsed gateway_url a.auth.token a.light a.watch.world
    pub shown : IsShown (project_of a.view) a.watch
    pub lit : is_lit a.light ≡ inside a.view
    pub guarded : IsPlaced a.auth (record { guard = a.guard; route = a.route; view = a.view })
