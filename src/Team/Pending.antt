-- ===== src/Team/Pending.antt =====
-- The page of pages/Team/TeamPage.tsx while requests are under way: each handler is cut where it
-- awaits, and answers come in any order, between other events.
pub mod Balance
pub mod Forms
pub mod Whole
use ops_sys.Base.{
  ℕ, zero, suc, Bool, true, false, ◌&&◌, ◌||◌, not, Option, none, some, List, [], ◌∷◌, ◌++◌,
  if◌then◌else◌, get_or, map,
}
use ops_sys.Base.Text.{Text, codes, trim, is_blank}
use ops_sys.Fleet.{Vehicle, Project, OrgMember}
use ops_sys.Http.{Request}
use ops_sys.Http.Requests.{invite_member, update_member_access, remove_member}
use ops_sys.Server.{Answer, answered, failed}
use ops_sys.Calls.{answer}
use ops_sys.Team.{Page, opened, devices_of, toggle_invite, toggle_edit, open_edit}

-- What made `loadAll` run: the page itself, or the handler that awaits it.
pub data Reason : Type 0 where
  mount invite save removal : Reason

-- What awaits an answer: a request of a handler, or one of the two rounds of a `loadAll`, the second
-- with the projects.
pub data Call : Type 0 where
  inviting saving removing : Call
  listing : Reason → Call
  listing_devices : Reason → List Project → Call

-- Answers to the three kinds of requests. `Promise.all` throws if one of its requests does.
pub data Reply : Type 0 where
  done : Answer (Unit {0}) → Reply
  lists : Answer (Option (List OrgMember) × Option (List Project)) → Reply
  lists_devices : (Text → Answer (Option (List Vehicle))) → Reply

pub record Live : Type 0 where
  pub page : Page
  pub calls : List Call
  pub requests : List Request

-- `requests` has those of the handlers alone.
abbrev pub mounted : Live
mounted = record { page = opened; calls = listing mount ∷ []; requests = [] }

-- The two `finally`, of `loadAll` and of the handler that awaits it.
unfoldable pub finish : Reason → Page → Page
finish mount p = record p { loading = false }
finish invite p = record p { loading = false; inviting = false }
finish save p = record p { loading = false; saving = false }
finish removal p = record p { loading = false }

-- The code from an await to the next one, or to its end, with the calls that it makes. An answer of
-- another kind is none.
unfoldable pub respond : Call → Reply → Page → Option (Page × List Call)
unfolding finish devices_of
respond inviting (done (answered _)) p = some (
  record p { show_invite = false; inv_email = []; inv_role = codes "viewer"; inv_devices = [] },
  listing invite ∷ [],
)
respond inviting (done (failed _)) p = some (record p { inviting = false }, [])
respond saving (done (answered _)) p = some (record p { edit_member = none }, listing save ∷ [])
respond saving (done (failed _)) p = some (record p { saving = false }, [])
respond removing (done (answered _)) p = some (p, listing removal ∷ [])
respond removing (done (failed _)) p = some (p, [])
respond (listing r) (lists (answered (ms, ps))) p =
    some (record p { members = get_or [] ms }, listing_devices r (get_or [] ps) ∷ [])
respond (listing r) (lists (failed _)) p = some (finish r p, [])
respond (listing_devices r ps) (lists_devices list_devices) p =
    some (finish r (record p { project_devices = map (devices_of list_devices) ps }), [])
respond call reply p = none

-- The answer to the call at a place of the list.
unfoldable pub receive : ℕ → Reply → Live → Live
receive i reply s = elim (answer (λ c p. respond c reply p) i s.page s.calls) [
  | none ↦ s
  | some r ↦ record s { page = r.0; calls = r.1 }
]

-- The button of the form that invites, with its `disabled`: `handleInvite` up to its first `await`.
unfoldable pub press_invite : Live → Live
press_invite s =
    if s.page.show_invite && not (s.page.inviting || is_blank (trim s.page.inv_email))
    then record s {
      page = record s.page { inviting = true };
      calls = inviting ∷ s.calls;
      requests =
          s.requests
          ++ invite_member (record {
            email = trim s.page.inv_email;
            role = s.page.inv_role;
            device_ids = s.page.inv_devices;
          })
            ∷ [];
    }
    else s

-- `handleSaveEdit` up to its first `await`, for the member of the form.
unfoldable pub begin_save : OrgMember → Live → Live
begin_save m s = record s {
  page = record s.page { saving = true };
  calls = saving ∷ s.calls;
  requests =
      s.requests
      ++ update_member_access m.id
          (record { role = s.page.edit_role; device_ids = s.page.edit_devices })
        ∷ [];
}

-- The button of the form of a member, with its `disabled`.
unfoldable pub press_save : Live → Live
unfolding begin_save
press_save s =
    if s.page.saving then s else elim s.page.edit_member [ none ↦ s | some m ↦ begin_save m s ]

-- `handleRemove` up to its first `await`, with the answer of `confirm`.
unfoldable pub press_remove : Bool → Text → Live → Live
press_remove confirmed id s =
    if confirmed
    then record s { calls = removing ∷ s.calls; requests = s.requests ++ remove_member id ∷ [] }
    else s

-- The forms, opened, filled in and closed.
pub data Edit : Type 0 where
  shows_invite closes_invite closes_edit : Edit
  types_email picks_role toggles_invite picks_edit_role toggles_edit : Text → Edit
  opens_edit : OrgMember → Edit

unfoldable pub edit : Edit → Page → Page
unfolding toggle_invite toggle_edit open_edit
edit shows_invite p = record p { show_invite = true }
edit closes_invite p = record p { show_invite = false }
edit closes_edit p = record p { edit_member = none }
edit (types_email t) p = record p { inv_email = t }
edit (picks_role t) p = record p { inv_role = t }
edit (toggles_invite id) p = toggle_invite id p
edit (picks_edit_role t) p = record p { edit_role = t }
edit (toggles_edit id) p = toggle_edit id p
edit (opens_edit m) p = open_edit m p

pub data Event : Type 0 where
  invites saves : Event
  removes : Bool → Text → Event
  edits : Edit → Event
  receives : ℕ → Reply → Event

unfoldable pub after : Live → Event → Live
after s invites = press_invite s
after s saves = press_save s
after s (removes confirmed id) = press_remove confirmed id s
after s (edits e) = record s { page = edit e s.page }
after s (receives i reply) = receive i reply s

abbrev pub run : Live → List Event → Live
run s [] = s
run s (e ∷ es) = run (after s e) es
