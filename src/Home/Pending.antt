-- ===== src/Home/Pending.antt =====
-- The form of pages/Home/HomePage.tsx while requests are under way: `handleCreate` and `load` are
-- cut where they await, so that their answers may come after other events, and in any order.
pub mod Form
pub mod Whole
use ops_sys.Base.{
  ℕ, suc, ◌-◌, Bool, true, false, ◌&&◌, ◌||◌, not, some, List, [], ◌∷◌, ◌++◌, if◌then◌else◌, ltb,
}
use ops_sys.Base.Text.{Text, trim, is_blank}
use ops_sys.Fleet.{Project}
use ops_sys.Auth.{AuthState, is_admin}
use ops_sys.Http.{Request}
use ops_sys.Http.Requests.{create_project}
use ops_sys.Server.{Answer, answered, failed}
use ops_sys.Home.{Sessions, Page, opened, Devices, or_else, load, close_create}

-- How many calls await their answer: `createProject`, the load after one, and the first load. The
-- requests are those of the form.
pub record Live : Type 0 where
  pub page : Page
  pub creations : ℕ
  pub reloads : ℕ
  pub first_loads : ℕ
  pub requests : List Request

abbrev pub mounted : Live
mounted = record { page = opened; creations = 0; reloads = 0; first_loads = 1; requests = [] }

-- `handleCreate` up to its first `await`.
unfoldable pub begin_create : Live → Live
begin_create s = if is_blank (trim s.page.new_name) then s else record s {
  page = record s.page { creating = true; create_error = [] };
  creations = suc s.creations;
  requests =
      s.requests
      ++ create_project (trim s.page.new_name)
          (some (or_else (trim s.page.new_display_name) (trim s.page.new_name)))
        ∷ [];
}

-- The form is there: the page shows no spinner, and the form is open.
abbrev pub form_shown : Page → Bool
form_shown p = not p.loading && p.show_create

-- The key Enter in a field of the form.
unfoldable pub press_enter : Live → Live
press_enter s = if form_shown s.page then begin_create s else s

-- The button, with its `disabled`.
unfoldable pub press_create : Live → Live
press_create s =
    if form_shown s.page && not (s.page.creating || is_blank (trim s.page.new_name))
    then begin_create s
    else s

-- `handleCreate` after its first `await`; the load that it awaits then begins.
unfoldable pub creation_answer : Answer Project → Live → Live
creation_answer created s =
    if ltb 0 s.creations
    then elim created [
      | answered _ ↦ record s {
        page = record s.page { show_create = false; new_name = []; new_display_name = [] };
        creations = s.creations - 1;
        reloads = suc s.reloads;
      }
      | failed message ↦ record s {
        page = record s.page { create_error = message; creating = false };
        creations = s.creations - 1;
      }
    ]
    else s

-- The end of the first load. Its two rounds of requests are one event, since nothing is set between
-- them.
unfoldable pub first_answer : Answer (List Project) → Devices → Sessions → Live → Live
first_answer listed list_devices a s =
    if ltb 0 s.first_loads
    then record s { page = load listed list_devices a s.page; first_loads = s.first_loads - 1 }
    else s

-- The end of a load that `handleCreate` awaits, and of `handleCreate`.
unfoldable pub reload_answer : Answer (List Project) → Devices → Sessions → Live → Live
reload_answer listed list_devices a s =
    if ltb 0 s.reloads
    then record s {
      page = record (load listed list_devices a s.page) { creating = false };
      reloads = s.reloads - 1;
    }
    else s

unfoldable pub type_name : Text → Live → Live
type_name t s = if form_shown s.page then record s { page = record s.page { new_name = t } } else s

unfoldable pub type_display_name : Text → Live → Live
type_display_name t s =
    if form_shown s.page then record s { page = record s.page { new_display_name = t } } else s

-- The button that opens the form, which an administrator sees once the spinner is gone.
unfoldable pub press_new : AuthState → Live → Live
press_new a s =
    if not s.page.loading && is_admin a
    then record s { page = record s.page { show_create = true } }
    else s

-- The button `Cancel` leaves the message.

unfoldable pub press_cancel : Live → Live
press_cancel s = record s { page = record s.page { show_create = false } }

pub data Event : Type 0 where
  enters creates closes cancels : Event
  opens : AuthState → Event
  names names_display : Text → Event
  creation : Answer Project → Event
  first reload : Answer (List Project) → Devices → Sessions → Event

unfoldable pub after : Live → Event → Live
after s enters = press_enter s
after s creates = press_create s
after s (opens a) = press_new a s
after s closes = record s { page = close_create s.page }
after s cancels = press_cancel s
after s (names t) = type_name t s
after s (names_display t) = type_display_name t s
after s (creation created) = creation_answer created s
after s (first listed list_devices a) = first_answer listed list_devices a s
after s (reload listed list_devices a) = reload_answer listed list_devices a s

abbrev pub run : Live → List Event → Live
run s [] = s
run s (e ∷ es) = run (after s e) es
