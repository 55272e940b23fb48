-- ===== src/Team/Screen.antt =====
-- What TeamPage.tsx renders, with its handlers as they stand in the source.
mod Offers
pub mod Clicks
use ops_sys.Base.{
  ℕ, Bool, true, false, ◌||◌, not, Option, none, some, List, [], ◌∷◌, ◌++◌, map, get_or,
  if◌then◌else◌,
}
use ops_sys.Base.Text.{Text, codes, trim, is_blank}
use ops_sys.Fleet.{OrgMember}
use ops_sys.Http.Requests.{invite_member}
use ops_sys.Markup.{
  Props, Node, Nodes, text, element, plain, nodes, when, tag, div, said, labelled, button,
  button_unless, input, select,
}
use ops_sys.Modal.Dialog.{modal}
use ops_sys.Team.{
  Page, ProjectDevices, Badge, red, amber, blue, toggle_invite, toggle_edit, open_edit,
}
use ops_sys.Team.Members.{Box, Group, MemberRow, device_picker, all_devices, member_row}
use ops_sys.Team.Pending.{Live, Call, inviting, begin_save, press_remove}

-- A handler changes the page, and may make calls.
abbrev pub Act : Type 0
Act = Live → Live

-- A handler that sets states.
abbrev pub sets : (Page → Page) → Act
sets f s = record s { page = f s.page }

-- `handleInvite` up to its first `await`.
unfoldable pub begin_invite : Live → Live
begin_invite s = if is_blank (trim s.page.inv_email) then s else record s {
  page = record s.page { inviting = true };
  calls = inviting ∷ s.calls;
  requests =
      s.requests
      ++ invite_member (record {
        email = trim s.page.inv_email;
        role = s.page.inv_role;
        device_ids = s.page.inv_devices;
      })
        ∷ [];
}

-- `handleSaveEdit` up to its first `await`.
unfoldable pub begin_save_edit : Live → Live
begin_save_edit s = elim s.page.edit_member [ none ↦ s | some m ↦ begin_save m s ]

-- A box of `DevicePicker`.
abbrev pub box_node : (Text → Act) → Box → Node Act
box_node on_toggle b = tag (codes "label") (
    input (record plain {
      on_change = some (λ _. on_toggle b.id);
      attributes =
          (codes "type", codes "checkbox")
          ∷ (codes "checked", if b.checked then codes "true" else codes "false")
          ∷ [];
    })
    ∷ text b.label
    ∷ [])

unfoldable pub box_nodes : (Text → Act) → List Box → List (Node Act)
box_nodes on_toggle [] = []
box_nodes on_toggle (b ∷ bs) = box_node on_toggle b ∷ box_nodes on_toggle bs

unfoldable pub group_nodes : (Text → Act) → List Group → List (Node Act)
unfolding box_nodes
group_nodes on_toggle [] = []
group_nodes on_toggle (g ∷ gs) =
    div (div (text g.title ∷ []) ∷ box_nodes on_toggle g.boxes) ∷ group_nodes on_toggle gs

abbrev pub or_no_device : List (Node Act) → List (Node Act)
or_no_device [] = div (text (codes "No devices available.") ∷ []) ∷ []
or_no_device ns = ns

unfoldable pub picker : (Text → Act) → List ProjectDevices → List Text → Node Act
unfolding group_nodes device_picker
picker on_toggle pds selected =
    div (or_no_device (group_nodes on_toggle (device_picker pds selected)))

abbrev pub colour_class : Badge → Text
colour_class red = codes "badge red"
colour_class amber = codes "badge amber"
colour_class blue = codes "badge blue"

abbrev pub optional : Option Text → List (Node Act)
optional none = []
optional (some t) = div (text t ∷ []) ∷ []

-- The buttons of a row, given the answer of `confirm`.
abbrev pub member_actions : (Text → Bool) → OrgMember → List (Node Act)
member_actions confirm m =
    button (sets (open_edit m)) (codes "Edit")
    ∷ button (press_remove (confirm m.id) m.id) (codes "Remove")
    ∷ []

unfoldable pub member_info : MemberRow → List (Node Act)
member_info r = div (text r.email ∷ []) ∷ (optional r.name ++ optional r.devices)

abbrev pub member_parts : (Text → Text) → (Text → Bool) → MemberRow → OrgMember → List (Node Act)
member_parts to_upper confirm r m =
    div (text (to_upper r.avatar) ∷ [])
    ∷ div (member_info r)
    ∷ element (codes "span")
        (record plain { attributes = (codes "className", colour_class r.colour) ∷ [] })
        (nodes (text r.role ∷ []))
    ∷ div (member_actions confirm m)
    ∷ []

unfoldable pub member_nodes :
    (Text → Text) → (Text → Bool) → List ProjectDevices → List OrgMember → List (Node Act)
unfolding member_row all_devices
member_nodes to_upper confirm pds [] = []
member_nodes to_upper confirm pds (m ∷ ms) =
    div (member_parts to_upper confirm (member_row (all_devices pds) m) m)
    ∷ member_nodes to_upper confirm pds ms

abbrev pub members_node :
    (Text → Text) → (Text → Bool) → List ProjectDevices → List OrgMember → Node Act
members_node to_upper confirm pds [] = div (text (codes "No team members yet.") ∷ [])
members_node to_upper confirm pds ms = div (member_nodes to_upper confirm pds ms)

abbrev pub open_invite : Act
open_invite = sets (λ q. record q { show_invite = true })

abbrev pub close_invite : Act
close_invite = sets (λ q. record q { show_invite = false })

abbrev pub close_edit : Act
close_edit = sets (λ q. record q { edit_member = none })

abbrev pub role_select : Page → Node Act
role_select p =
    select p.inv_role (λ t. sets (λ q. record q { inv_role = t }))
      ((codes "viewer", codes "Viewer (read-only)")
        ∷ (codes "operator", codes "Operator (can send commands)")
        ∷ [])

abbrev pub edit_role_select : Page → Node Act
edit_role_select p =
    select p.edit_role (λ t. sets (λ q. record q { edit_role = t }))
      ((codes "viewer", codes "Viewer")
        ∷ (codes "operator", codes "Operator")
        ∷ (codes "admin", codes "Admin")
        ∷ [])

abbrev pub invite_picker : Page → Node Act
invite_picker p = picker (λ id. sets (toggle_invite id)) p.project_devices p.inv_devices

abbrev pub edit_picker : Page → Node Act
edit_picker p = picker (λ id. sets (toggle_edit id)) p.project_devices p.edit_devices

abbrev pub invite_label : Page → Text
invite_label p = if p.inviting then codes "Inviting..." else codes "Send Invite"

abbrev pub save_label : Page → Text
save_label p = if p.saving then codes "Saving..." else codes "Save Changes"

abbrev pub invite_buttons : Page → List (Node Act)
invite_buttons p =
    button close_invite (codes "Cancel")
    ∷ button_unless (p.inviting || is_blank (trim p.inv_email)) begin_invite (invite_label p)
    ∷ []

abbrev pub invite_body : Page → List (Node Act)
invite_body p =
    labelled (codes "Email") (
      input (record plain {
        on_change = some (λ t. sets (λ q. record q { inv_email = t }));
        attributes =
            (codes "type", codes "email")
            ∷ (codes "placeholder", codes "user@example.com")
            ∷ (codes "value", p.inv_email)
            ∷ [];
      }))
    ∷ labelled (codes "Role") (role_select p)
    ∷ labelled (codes "Device Access") (invite_picker p)
    ∷ div (invite_buttons p)
    ∷ []

abbrev pub edit_buttons : Page → List (Node Act)
edit_buttons p =
    button close_edit (codes "Cancel") ∷ button_unless p.saving begin_save_edit (save_label p) ∷ []

abbrev pub edit_body : Page → List (Node Act)
edit_body p =
    labelled (codes "Role") (edit_role_select p)
    ∷ labelled (codes "Device Access") (edit_picker p)
    ∷ div (edit_buttons p)
    ∷ []

abbrev pub is_some : Option OrgMember → Bool
is_some none = false
is_some (some m) = true

abbrev pub email_of : Option OrgMember → Text
email_of none = []
email_of (some m) = m.email

abbrev pub edit_title : Page → Text
edit_title p = codes "Edit Access — " ++ email_of p.edit_member

abbrev pub invite_modal : Page → List (Node Act)
invite_modal p = modal p.show_invite close_invite (codes "Invite Member") (invite_body p)

abbrev pub edit_modal : Page → List (Node Act)
edit_modal p = modal (is_some p.edit_member) close_edit (edit_title p) (edit_body p)

abbrev pub header_nodes : List (Node Act)
header_nodes = said (codes "h2") (codes "Team") ∷ button open_invite (codes "+ Invite Member") ∷ []

abbrev pub parts : (Text → Text) → (Text → Bool) → Page → List (Node Act)
parts to_upper confirm p =
    div header_nodes
    ∷ members_node to_upper confirm p.project_devices p.members
    ∷ (invite_modal p ++ edit_modal p)

-- The page, given `toUpperCase` and what the user answers to `confirm` for a member.
unfoldable pub team_page : (Text → Text) → (Text → Bool) → Page → Node Act
team_page to_upper confirm p =
    if p.loading then div (div (div [] ∷ []) ∷ []) else div (parts to_upper confirm p)
