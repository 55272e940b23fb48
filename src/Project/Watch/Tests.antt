-- ===== src/Project/Watch/Tests.antt =====
-- A page that gets a device, draws a frame, and goes away.
use ops_sys.Base.{true, ◌≡◌, refl, none, some, List, [], ◌∷◌}
use ops_sys.Base.Text.{codes}
use ops_sys.Fleet.{Vehicle}
use ops_sys.Ws.Steps
use ops_sys.Project.{opened}
use ops_sys.Project.Watch.{Watch, Event, sets, frame, run, leave}
use ops_sys.Project.Watch.Invariant.{Subscribes, IsWatching, run-leave}

abbrev rover : Vehicle
rover = record {
  id = codes "rover-0001";
  org_id = [];
  project_id = none;
  display_name = codes "Rover";
  vehicle_type = [];
  adapter_type = [];
  region = [];
  created_at = [];
  updated_at = [];
  active = true;
}

abbrev mounted : Watch
mounted = record {
  page = opened (some (codes "fleet"));
  world = Steps.initial (codes "ws://localhost:8084");
  raf = 0;
  requested = [];
  next_handle = 1;
}

abbrev events : List Event
events = sets (rover ∷ []) ∷ frame 1 ∷ frame 1 ∷ []

run-leave_example :
    IsWatching (run mounted events)
    × Subscribes (leave (run mounted events)).world []
    × ((leave (run mounted events)).requested ≡ [])
run-leave_example = run-leave mounted events refl refl refl
