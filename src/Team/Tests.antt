-- ===== src/Team/Tests.antt =====
-- A member with one device, and the theorems about the forms.
use ops_sys.Base.{List, ◌++◌, true, ◌≡◌, refl, none, some, [], ◌∷◌}
use ops_sys.Base.Text.{trim, trim_start, is_space, codes, text_eq}
use ops_sys.Base.Sets.{has, add, delete}
use ops_sys.Fleet.{OrgMember, Vehicle}
use ops_sys.Http.Requests.{update_member_access}
use ops_sys.Server.{answered, failed}
use ops_sys.Calls.{answer}
use ops_sys.Team.Pending
use ops_sys.Team.Pending.{
  Event, Live, mounted, receives, lists, lists_devices, edits, shows_invite, types_email, invites,
  opens_edit, saves, done, saving, listing, invite, receive, respond, press_invite, press_save,
  begin_save,
}
use ops_sys.Base.{bit}
use ops_sys.Team.Pending.Balance.{invite_form, calls_of, waits}
use ops_sys.Team.Pending.Forms.{run-mounted_calls, other_member, other_member-answer}
use ops_sys.Team.{
  ProjectDevices, opened, Listed, toggle_device, toggle_edit, open_edit, badge, amber, initials,
}
use ops_sys.Base.Text.{split}
use ops_sys.Team.Forms.{edited}
use ops_sys.Base.{ℕ, false}
use ops_sys.Markup.{click, child, bubble}
use ops_sys.Markup.Clicks.{Ran}
use ops_sys.Modal.Dialog.{modal}
use ops_sys.Team.Pending.{press_remove}
use ops_sys.Team.Screen.{team_page, member_nodes}
use ops_sys.Team.Screen.Clicks.{Does, click-team_page}

abbrev member : OrgMember
member = record {
  id = codes "m1";
  email = codes "ann@example.org";
  name = codes "Ann";
  role = codes "operator";
  device_ids = codes "v1" ∷ [];
}

abbrev listed : Listed
listed = record {
  members = answered (some (member ∷ []));
  projects = answered none;
  devices = λ _. failed (codes "no");
}

look : (badge member ≡ amber) × (initials member.email ≡ codes "an")
unfolding badge text_eq initials split
look = (refl, refl)

-- The first device taken away, and another one given.
two_boxes : (edited (codes "v1" ∷ codes "v2" ∷ []) member opened).edit_devices ≡ codes "v2" ∷ []
unfolding toggle_edit toggle_device open_edit has add delete text_eq
two_boxes = refl

abbrev truck : Vehicle
truck = record {
  id = codes "v2";
  org_id = [];
  project_id = none;
  display_name = codes "Truck";
  vehicle_type = [];
  adapter_type = [];
  region = [];
  created_at = [];
  updated_at = [];
  active = true;
}

abbrev yard : ProjectDevices
yard = record {
  project = record {
    id = codes "p1";
    org_id = [];
    name = codes "yard";
    display_name = [];
    created_at = [];
    active = true;
  };
  devices = truck ∷ [];
}

abbrev invited_one : List Event
invited_one =
    receives 0 (lists (answered (some (member ∷ []), none)))
    ∷ receives 0 (lists_devices (λ _. failed (codes "no")))
    ∷ edits shows_invite
    ∷ edits (types_email (codes "bob@example.org"))
    ∷ invites
    ∷ edits (opens_edit member)
    ∷ saves
    ∷ receives 1 (done (answered tt))
    ∷ []

run-mounted_calls_example :
    calls_of invite_form (Pending.run mounted invited_one).calls
    ≡ bit (waits invite_form (Pending.run mounted invited_one).page)
run-mounted_calls_example = run-mounted_calls invite_form invited_one

-- Both forms wait then, the one that invites for the load.
both_wait :
    ((Pending.run mounted invited_one).page.inviting ≡ true)
    × ((Pending.run mounted invited_one).calls ≡ saving ∷ listing invite ∷ [])
unfolding Pending.after receive answer respond Pending.finish Pending.edit press_invite press_save
    begin_save open_edit trim trim_start is_space
both_wait = (refl, refl)

abbrev other : OrgMember
other = record member { id = codes "m2" }

abbrev open_form : Live
open_form = record mounted { page = record opened { edit_member = some member } }

other_member-answer_example :
    (let t = Pending.run open_form (other_member other) in
      (t.page.edit_member ≡ some other)
      × (press_save t ≡ t)
      × ((Pending.after t (receives 0 (done (answered tt)))).page.edit_member ≡ none)
      × ((Pending.after t (receives 0 (done (answered tt)))).requests
          ≡ open_form.requests
            ++ update_member_access member.id (record {
              role = open_form.page.edit_role;
              device_ids = open_form.page.edit_devices;
            })
              ∷ []))
other_member-answer_example = other_member-answer member other open_form refl refl

-- The button that removes the only member, and the user agrees.
abbrev to_remove : List ℕ
to_remove = 1 ∷ 0 ∷ 3 ∷ 1 ∷ []

abbrev listed_one : Live
listed_one = record mounted { page = record opened { members = member ∷ []; loading = false } }

remove_clicked :
    click to_remove (team_page (λ t. t) (λ id. true) listed_one.page)
    ≡ some (press_remove true member.id ∷ [], false)
unfolding click child bubble team_page modal member_nodes
remove_clicked = refl

click-team_page_example :
    Ran
      (Does (λ id. true) listed_one)
      (click to_remove (team_page (λ t. t) (λ id. true) listed_one.page))
click-team_page_example = click-team_page (λ t. t) (λ id. true) listed_one to_remove
