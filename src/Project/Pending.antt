-- ===== src/Project/Pending.antt =====
-- The requests of pages/Project/ProjectPage.tsx while they are under way: `loadDevices` and
-- `handleAddDevice` are cut where they await. The router may give the page, which stays mounted, the
-- name of another project; a call keeps the name that it was made with.
pub mod Devices
pub mod Stale
pub mod Whole
mod Tests
use ops_sys.Base.{
  ℕ, Bool, true, false, ◌&&◌, ◌||◌, not, Option, none, some, List, [], ◌∷◌, ◌++◌, if◌then◌else◌,
  get_or,
}
use ops_sys.Base.Text.{Text, trim, is_blank, or_undefined}
use ops_sys.Fleet.{Vehicle, ProvisionResponse}
use ops_sys.Http.{Request}
use ops_sys.Http.Requests.{list_project_devices, provision_device}
use ops_sys.Server.{Answer, answered, failed}
use ops_sys.Calls.{answer}
use ops_sys.Project.{Page, Tab, opened, load_failed, View, spinner, error_view, panel, view}

-- What awaits an answer: a load of the page's effect or of `Retry`, the request of `handleAddDevice`,
-- or the load that it awaits then; each with the project that it is about.
pub data Call : Type 0 where
  loading adding reloading : Text → Call

-- Answers to the two kinds of requests.
pub data Reply : Type 0 where
  lists : Answer (Option (List Vehicle)) → Reply
  provisions : Answer ProvisionResponse → Reply

-- The page, with the requests that it sent.
pub record Front : Type 0 where
  pub page : Page
  pub requests : List Request

pub record Live : Type 0 where
  pub front : Front
  pub calls : List Call

-- `loadDevices` up to its `await`; there is none without a name.
abbrev pub ask_devices : Option Text → Live → Live
ask_devices none s = s
ask_devices (some n) s = if is_blank n then s else record s {
  front = record s.front { requests = s.front.requests ++ list_project_devices n ∷ [] };
  calls = loading n ∷ s.calls;
}

-- The effect on `name`, when the page is mounted and when the name has changed.
unfoldable pub navigate : Option Text → Live → Live
navigate name s =
    ask_devices name
      (record s { front = record s.front { page = record s.front.page { name = name } } })

abbrev pub mounted : Option Text → Live
mounted name =
    ask_devices name (record { front = record { page = opened name; requests = [] }; calls = [] })

-- `loadDevices` from its `await` on.
unfoldable pub listed : Answer (Option (List Vehicle)) → Page → Page
listed (answered d) p = record p { devices = get_or [] d; loading = false }
listed (failed _) p = record p { devices = []; error = load_failed; loading = false }

-- The code from an await to the next one, or to its end, with the calls that it makes. An answer of
-- another kind is none.
unfoldable pub respond : Reply → Call → Front → Option (Front × List Call)
unfolding listed
respond (lists l) (loading n) f = some (record f { page = listed l f.page }, [])
respond (lists l) (reloading n) f =
    some (record f { page = record (listed l f.page) { adding = false } }, [])
respond (provisions (answered _)) (adding n) f = some (
  record f {
    page = record f.page { show_add = false; dev_name = []; dev_type = []; dev_region = [] };
    requests = f.requests ++ list_project_devices n ∷ [];
  },
  reloading n ∷ [],
)
respond (provisions (failed _)) (adding n) f =
    some (record f { page = record f.page { adding = false } }, [])
respond reply call f = none

unfoldable pub receive : ℕ → Reply → Live → Live
receive i reply s = elim (answer (respond reply) i s.front s.calls) [
  | none ↦ s
  | some r ↦ record { front = r.0; calls = r.1 }
]

-- `handleAddDevice` up to its first `await`, for the project that the page shows.
unfoldable pub begin_add : Text → Live → Live
begin_add n s = record s {
  front = record s.front {
    page = record s.front.page { adding = true };
    requests =
        s.front.requests
        ++ provision_device n (record {
          display_name = trim s.front.page.dev_name;
          vehicle_type = or_undefined (trim s.front.page.dev_type);
          adapter_type = none;
          region = or_undefined (trim s.front.page.dev_region);
        })
          ∷ [];
  };
  calls = adding n ∷ s.calls;
}

abbrev pub is_panel : View → Bool
is_panel spinner = false
is_panel (error_view t) = false
is_panel panel = true

-- The form is there.
abbrev pub form_shown : Page → Bool
form_shown p = is_panel (view p) && p.show_add

abbrev pub try_add : Option Text → Live → Live
try_add none s = s
try_add (some n) s =
    if is_blank n || is_blank (trim s.front.page.dev_name) then s else begin_add n s

-- The key Enter in the first field, and the button with its `disabled`.
unfoldable pub press_enter : Live → Live
unfolding begin_add
press_enter s = if form_shown s.front.page then try_add s.front.page.name s else s

unfoldable pub press_add : Live → Live
unfolding begin_add
press_add s =
    if form_shown s.front.page && not (s.front.page.adding || is_blank (trim s.front.page.dev_name))
    then try_add s.front.page.name s
    else s

-- The button `Retry`, which is shown with an error.
unfoldable pub press_retry : Live → Live
press_retry s = elim (view s.front.page) [
  | spinner ↦ s
  | panel ↦ s
  | error_view t ↦ ask_devices s.front.page.name (record s {
    front = record s.front { page = record s.front.page { error = []; loading = true } };
  })
]

-- The tabs, and the form, opened, filled in and closed.
pub data Edit : Type 0 where
  shows_add closes_add : Edit
  picks_tab : Tab → Edit
  types_name types_type types_region : Text → Edit

unfoldable pub edit : Edit → Page → Page
edit shows_add p = record p { show_add = true }
edit closes_add p = record p { show_add = false }
edit (picks_tab t) p = record p { tab = t }
edit (types_name t) p = record p { dev_name = t }
edit (types_type t) p = record p { dev_type = t }
edit (types_region t) p = record p { dev_region = t }

pub data Event : Type 0 where
  enters adds retries : Event
  goes : Option Text → Event
  edits : Edit → Event
  receives : ℕ → Reply → Event

unfoldable pub after : Live → Event → Live
unfolding navigate
after s enters = press_enter s
after s adds = press_add s
after s retries = press_retry s
after s (goes name) = navigate name s
after s (edits e) = record s { front = record s.front { page = edit e s.front.page } }
after s (receives i reply) = receive i reply s

abbrev pub run : Live → List Event → Live
run s [] = s
run s (e ∷ es) = run (after s e) es
