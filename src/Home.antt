-- ===== src/Home.antt =====
-- server/dashboard/src/pages/Home/HomePage.tsx: the list of projects and the form for a new one. A
-- handler returns the new state; what the services answer is an argument.
pub mod Access
pub mod Form
pub mod Cards
pub mod Pending
pub mod Screen
mod Tests
use ops_sys.Base.{
  ℕ, Bool, true, false, ◌||◌, Option, none, some, List, [], ◌∷◌, ◌++◌, if◌then◌else◌, get_or,
  filter, length, any,
}
use ops_sys.Base.Text.{Text, codes, trim, is_blank}
use ops_sys.Base.Sets.{has, set_of}
use ops_sys.Fleet.{Vehicle, Project}
use ops_sys.Auth.{AuthState, is_admin}
use ops_sys.Http.{Request}
use ops_sys.Http.Requests.{create_project}
use ops_sys.Server.{Answer, answered, failed}

-- `{ ...p, deviceCount, _devices }`
pub record Entry : Type 0 where
  pub project : Project
  pub device_count : ℕ
  pub devices : List Vehicle

pub record Page : Type 0 where
  pub projects : List Entry
  pub loading : Bool
  pub show_create : Bool
  pub new_name : Text
  pub new_display_name : Text
  pub creating : Bool
  pub create_error : Text

abbrev pub opened : Page
opened = record {
  projects = [];
  loading = true;
  show_create = false;
  new_name = [];
  new_display_name = [];
  creating = false;
  create_error = [];
}

-- What `listProjectDevices` answers for a name; its field `devices` may be null.
abbrev pub Devices : Type 0
Devices = Text → Answer (Option (List Vehicle))

-- The callback of `pList.map`.
unfoldable pub with_count : Devices → Project → Entry
with_count list_devices p = elim (list_devices p.name) [
  | answered d ↦ record { project = p; device_count = length (get_or [] d); devices = get_or [] d }
  | failed _ ↦ record { project = p; device_count = 0; devices = [] }
]

unfoldable pub with_counts : Devices → List Project → List Entry
with_counts list_devices [] = []
with_counts list_devices (p ∷ ps) = with_count list_devices p ∷ with_counts list_devices ps

-- `s.claims?.vehicle_set ?? []`
abbrev pub vehicle_set_of : AuthState → List Text
vehicle_set_of s = elim s.claims [ none ↦ [] | some c ↦ c.vehicle_set ]

-- The sessions that a call of `load` reads: that of the render which made the function, for
-- `vehicleSet`, and that of the store after the awaits, for `isAdmin()`.
pub record Sessions : Type 0 where
  pub rendered : AuthState
  pub now : AuthState

unfoldable pub visible : Sessions → List Entry → List Entry
visible s entries =
    if is_admin s.now
    then entries
    else (let vs = set_of [] (vehicle_set_of s.rendered) in
        filter (λ e. any (λ d. has d.id vs) e.devices) entries)

-- `load`
unfoldable pub load : Answer (List Project) → Devices → Sessions → Page → Page
load listed list_devices s p = elim listed [
  | answered ps ↦ record p { projects = visible s (with_counts list_devices ps); loading = false }
  | failed _ ↦ record p { loading = false }
]

-- `a || b`
abbrev pub or_else : Text → Text → Text
or_else [] t = t
or_else (c ∷ s) t = c ∷ s

-- `handleCreate`, with the answer to its request and those to the reload. An exception of `ky` is an
-- `Error`, so its message is shown.
unfoldable pub handle_create :
    Answer Project → Answer (List Project) → Devices → Sessions → Page → Page × List Request
unfolding load
handle_create created listed list_devices s p =
    if is_blank (trim p.new_name)
    then (p, [])
    else (let req =
          create_project (trim p.new_name)
            (some (or_else (trim p.new_display_name) (trim p.new_name))) in
        elim created [
          | failed message ↦ (record p { create_error = message; creating = false }, req ∷ [])
          | answered _ ↦
              let p' = load listed list_devices s (record p {
                creating = true;
                create_error = [];
                show_create = false;
                new_name = [];
                new_display_name = [];
              }) in
              (record p' { creating = false }, req ∷ [])
        ])

-- `onClose` of the form.
unfoldable pub close_create : Page → Page
close_create p = record p { show_create = false; create_error = [] }

-- What the page shows; the projects are cards, and an administrator has a button.
pub data View : Type 0 where
  spinner : View
  empty : Bool → View
  grid : Bool → List Entry → View

unfoldable pub view : AuthState → Page → View
view s p =
    if p.loading
    then spinner
    else elim p.projects [ [] ↦ empty (is_admin s) | e ∷ es ↦ grid (is_admin s) (e ∷ es) ]
