-- ===== src/Http/Tests.antt =====
-- A request of a signed-in page, and the theorem about requests there.
use ops_sys.Base.{◌≡◌, refl, false, none, List, [], ◌∷◌}
use ops_sys.Base.Text.{codes}
use ops_sys.Base.Maps.{lookup}
use ops_sys.Auth.{User, initial}
use ops_sys.Auth.Session.{Event, user_loads, run, current_user}
use ops_sys.Http.{before_request, after_response}
use ops_sys.Http.Requests.{list_projects, list_project_devices}
use ops_sys.Http.Session.{authorization, credentials, authorization-run}

abbrev user : User
user = record {
  profile = record { org_id = none; vehicle_set = none; role = none; sub = none; email = none };
  access_token = codes "t1";
  expired = false;
}

abbrev history : List Event
history = user_loads user ∷ []

device_path : (list_project_devices (codes "fleet")).path ≡ codes "v1/projects/fleet/devices"
unfolding list_project_devices
device_path = refl

authorization-run_example :
    (authorization (before_request (run initial history) list_projects)
      ≡ credentials (current_user none history))
    × (authorization (before_request (after_response 401 (run initial history)) list_projects)
        ≡ none)
unfolding list_projects lookup
authorization-run_example = authorization-run history list_projects refl
