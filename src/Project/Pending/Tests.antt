-- ===== src/Project/Pending/Tests.antt =====
-- Two projects, with and without a device, and the theorems about their requests.
use ops_sys.Base.{◌≤◌, true, ◌≡◌, refl, none, some, List, [], ◌∷◌, get_or}
use ops_sys.Base.Text.{codes}
use ops_sys.Fleet.{Vehicle}
use ops_sys.Server.{answered, failed}
use ops_sys.Calls.{answer}
use ops_sys.Project.{load_failed, spinner, error_view, view}
use ops_sys.Project.Pending.{
  mounted, Event, retries, receives, lists, listed, receive, respond, press_retry, after, run,
}
use ops_sys.Project.Pending.Devices.{loads_of, run-mounted_spinner}
use ops_sys.Project.Pending.Stale.{overtaken, run-overtaken}
use ops_sys.Base.{false}
use ops_sys.Auth
use ops_sys.Markup.{click, child, bubble}
use ops_sys.Markup.Clicks.{Ran}
use ops_sys.Project.Screen.{Formats}
use ops_sys.Project.Pending.{Live}
use ops_sys.Project.Markup.{runs, retry, project_page}
use ops_sys.Project.Markup.Clicks.{Does, click-project_page}

abbrev drone : Vehicle
drone = record {
  id = codes "v1";
  org_id = [];
  project_id = none;
  display_name = codes "Drone";
  vehicle_type = [];
  adapter_type = [];
  region = [];
  created_at = [];
  updated_at = [];
  active = true;
}

-- The first load fails, and is tried again.
abbrev again : List Event
again = receives 0 (lists (failed (codes "no"))) ∷ retries ∷ []

spins_again : view (run (mounted (some (codes "air"))) again).front.page ≡ spinner
unfolding view after receive answer respond listed press_retry
spins_again = refl

run-mounted_spinner_example : 1 ≤ loads_of (run (mounted (some (codes "air"))) again).calls
run-mounted_spinner_example =
    run-mounted_spinner (some (codes "air")) again refl (tt, (tt, tt)) spins_again

run-overtaken_example :
    (let t =
        after
          (run (mounted none) (overtaken (codes "air") (codes "sea")))
          (receives 0 (lists (answered none))) in
      let late = after t (receives 0 (lists (answered (some (drone ∷ []))))) in
      let failing = after t (receives 0 (lists (failed (codes "no")))) in
      (t.front.page.devices ≡ get_or [] none)
      × (late.front.page.name ≡ some (codes "sea"))
      × (late.front.page.devices ≡ get_or [] (some (drone ∷ [])))
      × (failing.front.page.name ≡ some (codes "sea"))
      × (view failing.front.page ≡ error_view load_failed)
      × (failing.front.page.devices ≡ []))
run-overtaken_example =
    run-overtaken (codes "air") (codes "sea") (codes "no") (some (drone ∷ [])) none (mounted none)
      refl refl

-- The page after a load that failed, and the way to its button.
abbrev broken : Live
broken = run (mounted (some (codes "air"))) (receives 0 (lists (failed (codes "no"))) ∷ [])

abbrev blank : Formats
blank = record { time = λ t. []; fixed = λ d n. []; decimal = λ n. [] }

retry_clicked :
    click (0 ∷ 1 ∷ []) (project_page blank Auth.initial [] broken.front.page)
    ≡ some (runs retry ∷ [], false)
unfolding click child bubble project_page view after receive answer respond listed
retry_clicked = refl

click-project_page_example :
    Ran
      (Does Auth.initial broken)
      (click (0 ∷ 1 ∷ []) (project_page blank Auth.initial [] broken.front.page))
click-project_page_example = click-project_page blank Auth.initial [] broken (0 ∷ 1 ∷ [])
