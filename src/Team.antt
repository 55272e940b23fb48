-- ===== src/Team.antt =====
-- server/dashboard/src/pages/Team/TeamPage.tsx: the members of the organization, and the forms that
-- invite one and change one. A handler returns the new state with the requests that it made besides
-- the reload; what the services answer is an argument.
pub mod Forms
pub mod Members
pub mod Pending
pub mod Screen
mod Tests
use ops_sys.Base.{
  ℕ, Bool, true, false, Option, none, some, List, [], ◌∷◌, ◌++◌, if◌then◌else◌, get_or, map, take,
}
use ops_sys.Base.Text.{Text, codes, text_eq, trim, is_blank, split, nth}
use ops_sys.Base.Sets.{has, add, delete, set_of}
use ops_sys.Base.Maps.{lookup, insert}
use ops_sys.Fleet.{Vehicle, Project, OrgMember}
use ops_sys.Http.{Request}
use ops_sys.Http.Requests.{invite_member, update_member_access, remove_member}
use ops_sys.Server.{Answer, answered, failed}

pub record ProjectDevices : Type 0 where
  pub project : Project
  pub devices : List Vehicle

pub record Page : Type 0 where
  pub members : List OrgMember
  pub loading : Bool
  pub project_devices : List ProjectDevices
  pub show_invite : Bool
  pub inv_email : Text
  pub inv_role : Text
  pub inv_devices : List Text
  pub inviting : Bool
  pub edit_member : Option OrgMember
  pub edit_role : Text
  pub edit_devices : List Text
  pub saving : Bool

abbrev pub opened : Page
opened = record {
  members = [];
  loading = true;
  project_devices = [];
  show_invite = false;
  inv_email = [];
  inv_role = codes "viewer";
  inv_devices = [];
  inviting = false;
  edit_member = none;
  edit_role = [];
  edit_devices = [];
  saving = false;
}

-- The answers that `loadAll` awaits; a field of an answer may be null.
pub record Listed : Type 0 where
  pub members : Answer (Option (List OrgMember))
  pub projects : Answer (Option (List Project))
  pub devices : Text → Answer (Option (List Vehicle))

-- The callback of the `map` over the projects.
unfoldable pub devices_of : (Text → Answer (Option (List Vehicle))) → Project → ProjectDevices
devices_of list_devices p = elim (list_devices p.name) [
  | answered d ↦ record { project = p; devices = get_or [] d }
  | failed _ ↦ record { project = p; devices = [] }
]

-- `loadAll` with its answers: `Promise.all` throws if one of its two requests does.
unfoldable pub loaded :
    Answer (Option (List OrgMember))
    → Answer (Option (List Project))
    → (Text → Answer (Option (List Vehicle)))
    → Page
    → Page
unfolding devices_of
loaded (answered ms) (answered ps) list_devices p = record p {
  members = get_or [] ms;
  project_devices = map (devices_of list_devices) (get_or [] ps);
  loading = false;
}
loaded (answered ms) (failed _) list_devices p = record p { loading = false }
loaded (failed _) listed list_devices p = record p { loading = false }

unfoldable pub load_all : Listed → Page → Page
unfolding loaded
load_all l p = loaded l.members l.projects l.devices p

-- `toggleDevice`
unfoldable pub toggle_device : List Text → Text → List Text
toggle_device s id = if has id s then delete id s else add id s

-- `onToggle` of the two forms.
unfoldable pub toggle_invite : Text → Page → Page
unfolding toggle_device
toggle_invite id p = record p { inv_devices = toggle_device p.inv_devices id }

unfoldable pub toggle_edit : Text → Page → Page
unfolding toggle_device
toggle_edit id p = record p { edit_devices = toggle_device p.edit_devices id }

-- `handleInvite`
unfoldable pub handle_invite : Answer (Unit {0}) → Listed → Page → Page × List Request
handle_invite invited l p =
    if is_blank (trim p.inv_email)
    then (p, [])
    else (let req =
          invite_member
            (record { email = trim p.inv_email; role = p.inv_role; device_ids = p.inv_devices }) in
        elim invited [
          | failed _ ↦ (record p { inviting = false }, req ∷ [])
          | answered _ ↦
              let p' = load_all l (record p {
                inviting = true;
                show_invite = false;
                inv_email = [];
                inv_role = codes "viewer";
                inv_devices = [];
              }) in
              (record p' { inviting = false }, req ∷ [])
        ])

-- `openEdit`
unfoldable pub open_edit : OrgMember → Page → Page
open_edit m p = record p {
  edit_member = some m;
  edit_role = m.role;
  edit_devices = set_of [] m.device_ids;
}

-- `handleSaveEdit`
unfoldable pub handle_save_edit : Answer (Unit {0}) → Listed → Page → Page × List Request
handle_save_edit saved l p = elim p.edit_member [
  | none ↦ (p, [])
  | some m ↦
      let req =
        update_member_access m.id (record { role = p.edit_role; device_ids = p.edit_devices }) in
      elim saved [
        | failed _ ↦ (record p { saving = false }, req ∷ [])
        | answered _ ↦
            let p' = load_all l (record p { saving = true; edit_member = none }) in
            (record p' { saving = false }, req ∷ [])
      ]
]

-- `handleRemove`, with the answer of `confirm`.
unfoldable pub handle_remove : Bool → Answer (Unit {0}) → Listed → Text → Page → Page × List Request
handle_remove confirmed removed l id p =
    if confirmed
    then elim removed [
      | failed _ ↦ (p, remove_member id ∷ [])
      | answered _ ↦ (load_all l p, remove_member id ∷ [])
    ]
    else (p, [])

-- `initials`, before `toUpperCase`.
unfoldable pub initials : Text → Text
initials email = take 2 (get_or [] (nth (split b'@' email) 0))

pub data Badge : Type 0 where
  red amber blue : Badge

-- The badge of a member, and the word on it.
unfoldable pub badge : OrgMember → Badge
badge m =
    if text_eq m.role (codes "admin")
    then red
    else if text_eq m.role (codes "operator")
    then amber
    else blue

unfoldable pub role_label : OrgMember → Text
role_label m = elim m.role [ [] ↦ codes "viewer" | c ∷ r ↦ c ∷ r ]
