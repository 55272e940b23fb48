-- ===== src/Home/Tests.antt =====
-- A list of two projects, and the theorems about the home page there.
use ops_sys.Base.{◌+◌, ◌≤◌, ltb, true, false, ◌≡◌, refl, none, some, List, [], ◌∷◌}
use ops_sys.Base.Text.{trim, trim_start, is_space, is_blank, Text, codes, text_eq}
use ops_sys.Base.Sets.{has, add}
use ops_sys.Fleet.{Vehicle, Project}
use ops_sys.Auth.{AuthState, AuthClaims, is_admin}
use ops_sys.Auth
use ops_sys.Server.{answered}
use ops_sys.Home.Pending
use ops_sys.Home.Pending.{Live, mounted, press_create, creates, closes, names, enters, form_shown}
use ops_sys.Home.Pending.Form.{copies, called, run-ByButton, run-enters}
use ops_sys.Home.{Sessions, Entry, Page, opened, Devices, load, visible, with_count, with_counts}
use ops_sys.Home.Access.{card}
use ops_sys.Base.{ℕ}
use ops_sys.Markup.{click, child, bubble}
use ops_sys.Markup.Clicks.{Ran}
use ops_sys.Modal.Dialog.{modal}
use ops_sys.Home.Pending.{begin_create}
use ops_sys.Home.Screen.{runs, home_page}
use ops_sys.Home.Screen.Clicks.{Does, click-home_page}

abbrev device : Text → Vehicle
device id = record {
  id = id;
  org_id = [];
  project_id = none;
  display_name = [];
  vehicle_type = [];
  adapter_type = [];
  region = [];
  created_at = [];
  updated_at = [];
  active = true;
}

abbrev project : Text → Project
project name = record {
  id = name;
  org_id = [];
  name = name;
  display_name = [];
  created_at = [];
  active = true;
}

abbrev two_projects : List Project
two_projects = project (codes "sea") ∷ project (codes "air") ∷ []

-- One device in each project.
abbrev list_devices : Devices
list_devices name = answered (some (device name ∷ []))

abbrev viewer : AuthState
viewer = record Auth.initial {
  claims = some (record {
    org_id = [];
    vehicle_set = codes "air" ∷ [];
    role = codes "viewer";
    sub = [];
    email = none;
  });
}

-- The viewer signs out while the page loads.
abbrev viewing : Sessions
viewing = record { rendered = viewer; now = Auth.initial }

-- A viewer of one device sees its project alone.
viewer_cards :
    (load (answered two_projects) list_devices viewing opened).projects
    ≡ card (device (codes "air") ∷ []) (project (codes "air")) ∷ []
unfolding load visible with_count with_counts is_admin has add text_eq
viewer_cards = refl

-- The form, filled in.
abbrev filled : Page
filled = record opened { loading = false; show_create = true; new_name = codes "air " }

filled_name : is_blank (trim filled.new_name) ≡ false
unfolding trim trim_start is_space
filled_name = refl

abbrev entry : Entry
entry = card (device (codes "air") ∷ []) (project (codes "air"))

abbrev admin : AuthState
admin = record Auth.initial {
  claims =
      some (record { org_id = []; vehicle_set = []; role = codes "admin"; sub = []; email = none });
}

-- The button is pressed twice.
abbrev two_presses : List Pending.Event
two_presses =
    Pending.first (answered []) list_devices (record { rendered = admin; now = admin })
    ∷ Pending.opens admin
    ∷ names (codes "air")
    ∷ creates
    ∷ creates
    ∷ closes
    ∷ Pending.creation (answered (project (codes "air")))
    ∷ []

run-ByButton_example :
    ((Pending.run mounted two_presses).creations + (Pending.run mounted two_presses).reloads ≤ 1)
    × ((Pending.run mounted two_presses).page.creating
        ≡ ltb 0 (
            (Pending.run mounted two_presses).creations
            + (Pending.run mounted two_presses).reloads))
run-ByButton_example = run-ByButton two_presses (tt, (tt, (tt, (tt, (tt, (tt, (tt, tt)))))))

abbrev live_form : Live
live_form = record mounted { page = filled; first_loads = 0 }

run-enters_example :
    (Pending.run live_form (copies 3 enters) ≡ called 3 live_form)
    × (press_create (Pending.run live_form (copies 3 enters)) ≡ called 3 live_form)
run-enters_example = run-enters 2 live_form refl filled_name

-- The way to the button of the open form.
abbrev to_create : List ℕ
to_create = 2 ∷ 0 ∷ 1 ∷ 2 ∷ 1 ∷ []

create_clicked :
    click to_create (home_page (λ n. []) (λ t. t) admin live_form.page)
    ≡ some (runs begin_create ∷ [], true)
unfolding click child bubble home_page modal is_admin text_eq trim trim_start is_space
create_clicked = refl

click-home_page_example :
    Ran (Does admin live_form) (click to_create (home_page (λ n. []) (λ t. t) admin live_form.page))
click-home_page_example = click-home_page (λ n. []) (λ t. t) admin live_form to_create
