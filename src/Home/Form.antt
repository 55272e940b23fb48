-- ===== src/Home/Form.antt =====
-- The form for a new project.
use ops_sys.Base.{false, ◌≡◌, refl, some, List, [], ◌∷◌, if◌then◌else◌}
use ops_sys.Base.Text.{Text, trim, is_blank}
use ops_sys.Fleet.{Project}
use ops_sys.Http.{Request}
use ops_sys.Http.Requests.{create_project}
use ops_sys.Server.{Answer, answered, failed}
use ops_sys.Home.{Sessions, Page, Devices, or_else, handle_create, load}
use ops_sys.Home.Access.{cards, visible-cards}

-- The request of the form: a project with no display name is called by its name.
abbrev pub creation : Page → Request
creation p =
    create_project (trim p.new_name) (
      some
        (if is_blank (trim p.new_display_name) then trim p.new_name else trim p.new_display_name))

pub or_else-blank : (s t : Text) → or_else s t ≡ (if is_blank s then t else s)
or_else-blank [] t = refl
or_else-blank (c ∷ s) t = refl

-- With a name that is not blank, `Create` sends one request besides those of the reload. If it
-- fails, the form stays as it is, with the message. If it succeeds, the form is closed and emptied,
-- without a message, and the page shows the projects as after a load, or those of before if the list
-- does not come. The button waits for nothing any more in both cases.
pub handle_create_lem :
    (created : Project) (message : Text) (listed : Answer (List Project)) (list_devices : Devices)
    (s : Sessions) (p : Page)
    → is_blank (trim p.new_name) ≡ false
    → (handle_create (failed message) listed list_devices s p
        ≡ (record p { create_error = message; creating = false }, creation p ∷ []))
      × (handle_create (answered created) listed list_devices s p ≡ (
        record p {
          projects = elim listed [ answered ps ↦ cards s list_devices ps | failed _ ↦ p.projects ];
          loading = false;
          show_create = false;
          new_name = [];
          new_display_name = [];
          creating = false;
          create_error = [];
        },
        creation p ∷ [],
      ))
unfolding handle_create load
handle_create_lem created message (answered ps) list_devices s p full =
    rw
      (
        full,
        visible-cards s list_devices ps,
        or_else-blank (trim p.new_display_name) (trim p.new_name),
      )
      (refl, refl)
handle_create_lem created message (failed m) list_devices s p full =
    rw (full, or_else-blank (trim p.new_display_name) (trim p.new_name)) (refl, refl)
