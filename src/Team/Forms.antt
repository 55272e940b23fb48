-- ===== src/Team/Forms.antt =====
-- The boxes of the forms, and what the forms of the team send.
use ops_sys.Base.{
  true, get_or, Option, Bool, false, ◌≡◌, refl, ap, ◌∙◌, not, ◌||◌, some, List, [], ◌∷◌, arith,
  if◌then◌else◌, Bool-cases, inl, inr,
}
use ops_sys.Base.Text.{Text, text_eq, codes, trim, is_blank}
use ops_sys.Base.Sets.{has, set_of, has-add, has-delete, is_one, has-set_of}
use ops_sys.Base.Text.{text_eq_iff}
use ops_sys.Fleet.{OrgMember, Project}
use ops_sys.Http.{Request}
use ops_sys.Http.Requests.{update_member_access, invite_member}
use ops_sys.Server.{Answer, answered, failed}
use ops_sys.Team.{
  handle_invite, load_all, loaded, Page, Listed, toggle_device, toggle_edit, open_edit,
  handle_save_edit,
}

or_false : (b : Bool) → (b || false) ≡ b
or_false b = ground arith

abbrev pub toggle_all : List Text → Page → Page
toggle_all [] p = p
toggle_all (id ∷ ids) p = toggle_all ids (toggle_edit id p)

-- Whether `v` is in the set after the boxes of the ids were pressed in turn.
abbrev pub ticked : Text → Bool → List Text → Bool
ticked v b [] = b
ticked v b (id ∷ ids) = ticked v (if text_eq id v then not b else b) ids

pub has-toggle :
    (v id : Text) (s : List Text)
    → has v (toggle_device s id) ≡ (if text_eq id v then not (has v s) else has v s)
unfolding toggle_device
has-toggle v id s = elim (Bool-cases (has id s)) [
  | inl on ↦ rw on (has-delete id v s ∙ ground (arith, text_eq_iff id v))
  | inr off ↦ rw off (has-add id v s ∙ ground (arith, text_eq_iff id v))
]

has-toggle_all :
    (v : Text) (ids : List Text) (p : Page)
    → has v (toggle_all ids p).edit_devices ≡ ticked v (has v p.edit_devices) ids
unfolding toggle_edit
has-toggle_all v [] p = refl
has-toggle_all v (id ∷ ids) p =
    has-toggle_all v ids (toggle_edit id p)
    ∙ ap (λ b. ticked v b ids) (has-toggle v id p.edit_devices)

-- While the form of a member is open, saving sends one request, for that member.
saved_request :
    (saved : Answer (Unit {0})) (l : Listed) (m : OrgMember) (p : Page)
    → p.edit_member ≡ some m
    → (handle_save_edit saved l p).1
      ≡ update_member_access m.id (record { role = p.edit_role; device_ids = p.edit_devices }) ∷ []
unfolding handle_save_edit
saved_request (answered _) l m p e = rw e refl
saved_request (failed _) l m p e = rw e refl

opened_devices : (m : OrgMember) (p : Page) → (open_edit m p).edit_devices ≡ set_of [] m.device_ids
unfolding open_edit
opened_devices m p = refl

-- What the form sends when `Edit` was pressed for `m`, then the boxes of `ids` in turn.
abbrev pub edited : List Text → OrgMember → Page → Page
edited ids m p = toggle_all ids (open_edit m p)

pub record IsUpdate (m : OrgMember) (ids : List Text) (req : Request) : Type 0 where
  pub devices : List Text
  pub sent : req ≡ update_member_access m.id (record { role = m.role; device_ids = devices })
  pub granted : (v : Text) → has v devices ≡ ticked v (is_one v m.device_ids) ids

toggle_all-member :
    (ids : List Text) (p : Page)
    → ((toggle_all ids p).edit_member ≡ p.edit_member)
      × ((toggle_all ids p).edit_role ≡ p.edit_role)
unfolding toggle_edit
toggle_all-member [] p = (refl, refl)
toggle_all-member (id ∷ ids) p = toggle_all-member ids (toggle_edit id p)

-- The form of a member, opened, with some boxes pressed, and saved, sends one request, for that
-- member and his role, whatever was typed before. It grants a device exactly if the member had it
-- and its box was pressed an even number of times, or had it not and the number was odd; this holds
-- whatever the service answers.
pub handle_save_edit-toggle :
    (saved : Answer (Unit {0})) (l : Listed) (m : OrgMember) (ids : List Text) (p : Page)
    → (req : Request) × ((handle_save_edit saved l (edited ids m p)).1 ≡ req ∷ [])
      × IsUpdate m ids req
unfolding open_edit has
handle_save_edit-toggle saved l m ids p = (
  update_member_access m.id (record { role = m.role; device_ids = (edited ids m p).edit_devices }),
  saved_request saved l m (edited ids m p) (toggle_all-member ids (open_edit m p)).0
      ∙ ap
          (λ r.
            update_member_access m.id
              (record { role = r; device_ids = (edited ids m p).edit_devices })
            ∷ [])
          (toggle_all-member ids (open_edit m p)).1,
  record {
    devices = (edited ids m p).edit_devices;
    sent = refl;
    granted = λ v. has-toggle_all v ids (open_edit m p) ∙ ap (λ b. ticked v b ids) (start v);
  },
)
  where
    start : (v : Text) → has v (set_of [] m.device_ids) ≡ is_one v m.device_ids
    start v = has-set_of v [] m.device_ids ∙ or_false (is_one v m.device_ids)

-- The request of the form of invitations.
abbrev pub invitation : Page → Request
invitation p =
    invite_member
      (record { email = trim p.inv_email; role = p.inv_role; device_ids = p.inv_devices })

-- The members, after the answers to the two lists of a load: they change only if both came.
abbrev pub members_after :
    Answer (Option (List OrgMember))
    → Answer (Option (List Project))
    → List OrgMember
    → List OrgMember
members_after (answered ms) (answered _) before = get_or [] ms
members_after (answered ms) (failed _) before = before
members_after (failed _) projects before = before

-- What a load leaves as it is, and the members.
pub record IsLoaded (l : Listed) (p p' : Page) : Type 0 where
  pub show_invite : p'.show_invite ≡ p.show_invite
  pub inv_email : p'.inv_email ≡ p.inv_email
  pub inv_role : p'.inv_role ≡ p.inv_role
  pub inv_devices : p'.inv_devices ≡ p.inv_devices
  pub members : p'.members ≡ members_after l.members l.projects p.members

load_all-IsLoaded : (l : Listed) (p : Page) → IsLoaded l p (load_all l p)
unfolding load_all
load_all-IsLoaded l p = record {
  show_invite = (go l.members l.projects).0;
  inv_email = (go l.members l.projects).1;
  inv_role = (go l.members l.projects).2;
  inv_devices = (go l.members l.projects).3;
  members = (go l.members l.projects).4;
}
  where
    go :
        (ms : Answer (Option (List OrgMember))) (ps : Answer (Option (List Project)))
        → let p' = loaded ms ps l.devices p in
          (p'.show_invite ≡ p.show_invite)
          × (p'.inv_email ≡ p.inv_email)
          × (p'.inv_role ≡ p.inv_role)
          × (p'.inv_devices ≡ p.inv_devices)
          × (p'.members ≡ members_after ms ps p.members)
    go (answered ms) (answered ps) = (refl, refl, refl, refl, refl)
    go (answered ms) (failed _) = (refl, refl, refl, refl, refl)
    go (failed _) ps = (refl, refl, refl, refl, refl)

-- The page once the invitation was accepted, before the reload.
abbrev accepted : Page → Page
accepted p = record p {
  inviting = true;
  show_invite = false;
  inv_email = [];
  inv_role = codes "viewer";
  inv_devices = [];
}

-- With an address that is not blank, `Invite` sends one request besides those of the reload, for the
-- address without the spaces at its ends, the role and the ticked devices. If it fails, the form
-- stays as it is. If it succeeds, the form is closed and emptied, and the members
-- are those of the reload, or those of before if one of its two lists does not come. The button waits for nothing any more in both cases.
pub handle_invite_lem :
    (l : Listed) (message : Text) (p : Page)
    → is_blank (trim p.inv_email) ≡ false
    → (handle_invite (failed message) l p ≡ (record p { inviting = false }, invitation p ∷ []))
      × (let (p', reqs) = handle_invite (answered tt) l p in
          (p'.show_invite ≡ false)
          × (p'.inv_email ≡ [])
          × (p'.inv_role ≡ codes "viewer")
          × (p'.inv_devices ≡ [])
          × (p'.inviting ≡ false)
          × (p'.members ≡ members_after l.members l.projects p.members)
          × (reqs ≡ invitation p ∷ []))
unfolding handle_invite
handle_invite_lem l message p full =
    let done = load_all-IsLoaded l (accepted p) in
    rw full (
      refl,
      (done.show_invite, done.inv_email, done.inv_role, done.inv_devices, refl, done.members, refl),
    )
