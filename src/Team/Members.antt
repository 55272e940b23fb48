-- ===== src/Team/Members.antt =====
-- What the page shows: the rows of the members, and the boxes of `DevicePicker`.
use ops_sys.Base.{
  Bool, true, false, not, ◌≡◌, refl, ap, ◌++◌, Option, none, some, List, [], ◌∷◌, map, get_or, take,
  if◌then◌else◌,
}
use ops_sys.Base.Text.{Text, codes, text_eq, trim, is_blank, join}
use ops_sys.Base.Sets.{has}
use ops_sys.Fleet.{Vehicle, Project, OrgMember}
use ops_sys.Project.{device_label}
use ops_sys.Project.Devices.{last_name, device_label_lem}
use ops_sys.Team.{
  Page, ProjectDevices, toggle_device, toggle_invite, toggle_edit, initials, Badge, badge,
  role_label,
}
use ops_sys.Team.Forms.{has-toggle}

pub record Box : Type 0 where
  pub id : Text
  pub checked : Bool
  pub label : Text

pub record Group : Type 0 where
  pub title : Text
  pub boxes : List Box

abbrev pub title_of : Project → Text
title_of p = if is_blank p.display_name then p.name else p.display_name

unfoldable pub box : List Text → Vehicle → Box
box selected d = record { id = d.id; checked = has d.id selected; label = d.display_name }

unfoldable pub boxes_of : List Text → List Vehicle → List Box
unfolding box
boxes_of selected [] = []
boxes_of selected (d ∷ ds) = box selected d ∷ boxes_of selected ds

-- `DevicePicker`; with no project it says that there is no device.
unfoldable pub device_picker : List ProjectDevices → List Text → List Group
unfolding boxes_of
device_picker [] selected = []
device_picker (pd ∷ pds) selected =
    record { title = title_of pd.project; boxes = boxes_of selected pd.devices }
    ∷ device_picker pds selected

-- `projectDevices.flatMap((pd) => pd.devices)`
unfoldable pub all_devices : List ProjectDevices → List Vehicle
all_devices [] = []
all_devices (pd ∷ pds) = pd.devices ++ all_devices pds

pub record MemberRow : Type 0 where
  pub avatar : Text
  pub email : Text
  pub name : Option Text
  pub devices : Option Text
  pub colour : Badge
  pub role : Text

-- The labels are by the same map of names as on the page of a project.
unfoldable pub member_row : List Vehicle → OrgMember → MemberRow
member_row devices m = record {
  avatar = initials m.email;
  email = m.email;
  name = if is_blank (trim m.name) then none else some m.name;
  devices = elim m.device_ids [
    | [] ↦ none
    | id ∷ ids ↦ some (join (codes ", ") (map (device_label devices) (id ∷ ids)))
  ];
  colour = badge m;
  role = role_label m;
}

pub data View : Type 0 where
  spinner empty : View
  rows : List MemberRow → View

unfoldable pub view : Page → View
unfolding member_row all_devices
view p = if p.loading then spinner else elim p.members [
  | [] ↦ empty
  | m ∷ ms ↦ rows (map (member_row (all_devices p.project_devices)) (m ∷ ms))
]

-- A press on the box of `id`: it and its copies change, if the device is in several projects.
abbrev pub flip : Text → Box → Box
flip id b = record b { checked = if text_eq id b.id then not b.checked else b.checked }

abbrev pub flip_all : Text → List Group → List Group
flip_all id [] = []
flip_all id (g ∷ gs) = record g { boxes = map (flip id) g.boxes } ∷ flip_all id gs

boxes-toggle :
    (s : List Text) (id : Text) (ds : List Vehicle)
    → boxes_of (toggle_device s id) ds ≡ map (flip id) (boxes_of s ds)
unfolding boxes_of box
boxes-toggle s id [] = refl
boxes-toggle s id (d ∷ ds) = rw (has-toggle d.id id s, boxes-toggle s id ds) refl

picker-toggle :
    (pds : List ProjectDevices) (s : List Text) (id : Text)
    → device_picker pds (toggle_device s id) ≡ flip_all id (device_picker pds s)
unfolding device_picker
picker-toggle [] s id = refl
picker-toggle (pd ∷ pds) s id = rw (boxes-toggle s id pd.devices, picker-toggle pds s id) refl

-- In both forms, a press on a box changes that box and the other boxes of the same device, and
-- nothing else in the picker.
pub device_picker-toggle :
    (p : Page) (id : Text)
    → (device_picker p.project_devices (toggle_edit id p).edit_devices
        ≡ flip_all id (device_picker p.project_devices p.edit_devices))
      × (device_picker p.project_devices (toggle_invite id p).inv_devices
          ≡ flip_all id (device_picker p.project_devices p.inv_devices))
unfolding toggle_edit toggle_invite
device_picker-toggle p id = (
  picker-toggle p.project_devices p.edit_devices id,
  picker-toggle p.project_devices p.inv_devices id,
)

abbrev pub is_none : List Text → Bool
is_none [] = true
is_none (_ ∷ _) = false

-- The name of the last listed device with that id, or the first eight units of the id.
abbrev pub name_of : List Vehicle → Text → Text
name_of devices id = get_or (take 8 id) (last_name id none devices)

labels :
    (devices : List Vehicle) (ids : List Text)
    → map (device_label devices) ids ≡ map (name_of devices) ids
labels devices [] = refl
labels devices (id ∷ ids) = rw (device_label_lem devices id, labels devices ids) refl

-- The row of a member with a device names all his devices, between commas, each by the last device
-- of that id in any project, or by the first eight units of the id if no project lists it; the row
-- of a member with none names none.
pub member_row-devices :
    (devices : List Vehicle) (m : OrgMember)
    → (member_row devices m).devices ≡ (
        if is_none m.device_ids
        then none
        else some (join (codes ", ") (map (name_of devices) m.device_ids)))
unfolding member_row
member_row-devices devices m = go m.device_ids
  where
    go :
        (ids : List Text)
        → (elim ids as (λ _. Option Text) [
          | [] ↦ none
          | i ∷ is ↦ some (join (codes ", ") (map (device_label devices) (i ∷ is)))
        ])
          ≡ (if is_none ids then none else some (join (codes ", ") (map (name_of devices) ids)))
    go [] = refl
    go (i ∷ is) = ap (λ ts. some (join (codes ", ") ts)) (labels devices (i ∷ is))
