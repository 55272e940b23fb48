-- ===== src/Team/Pending/Whole.antt =====
-- The handlers of the two forms cut at their awaits, and in one piece.
use ops_sys.Base.{true, false, Option, some, List, [], ◌∷◌, ◌++◌, ◌≡◌, refl, ap}
use ops_sys.Base.Text.{Text, trim, is_blank}
use ops_sys.Fleet.{Vehicle, Project, OrgMember}
use ops_sys.Server.{Answer, answered, failed}
use ops_sys.Calls.{answer}
use ops_sys.Team.{Listed, load_all, loaded, handle_invite, handle_save_edit}
use ops_sys.Team.Pending.{
  done, lists, lists_devices, Live, finish, respond, receive, press_invite, begin_save, press_save,
  Event, invites, saves, receives, after, run,
}

-- The answers of the services to one load, and the events that bring them.
module _ (ms : Option (List OrgMember)) (ps : Option (List Project))
    (list_devices : Text → Answer (Option (List Vehicle))) where
  abbrev listed_all : Listed
  listed_all = record { members = answered ms; projects = answered ps; devices = list_devices }

  abbrev load_answers : List Event
  load_answers =
      receives 0 (lists (answered (ms, ps))) ∷ receives 0 (lists_devices list_devices) ∷ []

  -- The button of the form that invites, with the answers before anything else happens, does what
  -- `handle_invite` describes in one piece.
  pub run-handle_invite :
      (m : Text) (s : Live)
      → s.page.show_invite ≡ true
      → s.page.inviting ≡ false
      → is_blank (trim s.page.inv_email) ≡ false
      → (let t = run s (invites ∷ receives 0 (done (answered tt)) ∷ load_answers) in
          let once = handle_invite (answered tt) listed_all s.page in
          (t.page ≡ once.0) × (t.requests ≡ s.requests ++ once.1))
        × (let t = run s (invites ∷ receives 0 (done (failed m)) ∷ []) in
            let once = handle_invite (failed m) listed_all s.page in
            (t.page ≡ once.0) × (t.requests ≡ s.requests ++ once.1))
  unfolding after press_invite receive answer respond finish handle_invite load_all loaded
  run-handle_invite m s shows idle full = rw (shows, idle, full) ((refl, refl), (refl, refl))

  -- The button of the form of a member, in the same way.
  pub run-handle_save_edit :
      (m : Text) (member : OrgMember) (s : Live)
      → s.page.edit_member ≡ some member
      → s.page.saving ≡ false
      → (let t = run s (saves ∷ receives 0 (done (answered tt)) ∷ load_answers) in
          let once = handle_save_edit (answered tt) listed_all s.page in
          (t.page ≡ once.0) × (t.requests ≡ s.requests ++ once.1))
        × (let t = run s (saves ∷ receives 0 (done (failed m)) ∷ []) in
            let once = handle_save_edit (failed m) listed_all s.page in
            (t.page ≡ once.0) × (t.requests ≡ s.requests ++ once.1))
  unfolding after press_save begin_save receive answer respond finish handle_save_edit load_all
      loaded
  run-handle_save_edit m member s shows idle =
      rw (shows, idle)
        ((refl, refl), (ap (λ o. record s.page { edit_member = o; saving = false }) shows, refl))
