-- ===== src/Team/Screen/Clicks.antt =====
-- What the clicks on the page do: no more than the events of the page in Team/Pending.antt.
use ops_sys.Base.{
  ℕ, Bool, true, false, ◌≡◌, refl, ◌||◌, List, [], ◌∷◌, any, All, arith, if_holds, if_false,
}
use ops_sys.Base.Text.{Text, codes, text_eq, text_eq_refl, trim, is_blank}
use ops_sys.Fleet.{OrgMember}
use ops_sys.Markup.{div, offered, click}
use ops_sys.Markup.Clicks.{
  Ran, click-All, Offers, tag-All, append-Offers, button-All, button_unless-All, labelled-Offers,
  select-Offers,
}
use ops_sys.Modal.Dialog.{modal-All}
use ops_sys.Team.{Page, ProjectDevices, open_edit, toggle_invite, toggle_edit}
use ops_sys.Team.Members.{MemberRow, all_devices, member_row}
use ops_sys.Team.Pending.{
  Live, shows_invite, closes_invite, closes_edit, opens_edit, edit, Event, invites, saves, removes,
  edits, press_invite, press_save, press_remove, after,
}
use ops_sys.Team.Screen.Offers.{picker-Offers, optional-All}
use ops_sys.Team.Screen.{
  Act, sets, begin_invite, begin_save_edit, optional, member_actions, member_info, member_parts,
  member_nodes, members_node, invite_buttons, invite_body, edit_buttons, edit_body, is_some,
  role_select, edit_role_select, invite_picker, edit_picker, invite_label, save_label, open_invite,
  close_invite, close_edit, edit_title, invite_modal, edit_modal, header_nodes, parts, team_page,
}

-- A member of this id is listed.
abbrev pub Lists : Live → Text → Type 0
Lists s id = any (λ m. text_eq id m.id) s.page.members ≡ true

-- The events that are a click on what the page shows, with what the user answers to `confirm`.
abbrev pub IsClick : (Text → Bool) → Live → Event → Type 0
IsClick confirm s invites = Unit
IsClick confirm s saves = s.page.saving ≡ false
IsClick confirm s (removes confirmed id) = (confirmed ≡ confirm id) × Lists s id
IsClick confirm s (edits shows_invite) = Unit
IsClick confirm s (edits closes_invite) = Unit
IsClick confirm s (edits closes_edit) = Unit
IsClick confirm s (edits (opens_edit m)) = Lists s m.id
IsClick confirm s e = ⊥

abbrev pub Does : (Text → Bool) → Live → Act → Type 0
Does confirm s f = (e : Event) × IsClick confirm s e × (f s ≡ after s e)

module _ (to_upper : Text → Text) (confirm : Text → Bool) (s : Live) where
  abbrev D : Act → Type 0
  D = Does confirm s

  actions-All : (m : OrgMember) → Lists s m.id → All (Offers D) (member_actions confirm m)
  unfolding after edit
  actions-All m h = (
    button-All D (sets (open_edit m)) (codes "Edit") (edits (opens_edit m), h, refl),
    (
      button-All D (press_remove (confirm m.id) m.id) (codes "Remove")
          (removes (confirm m.id) m.id, (refl, h), refl),
      tt,
    ),
  )

  info-All : (r : MemberRow) → All (Offers D) (member_info r)
  unfolding member_info offered
  info-All r = (
    tt,
    append-Offers D (optional r.name) (optional r.devices) (optional-All D r.name)
        (optional-All D r.devices),
  )

  member-All :
      (r : MemberRow) (m : OrgMember)
      → Lists s m.id
      → Offers D (div (member_parts to_upper confirm r m))
  unfolding offered
  member-All r m h = tag-All D (codes "div") (member_parts to_upper confirm r m) (
    tt,
    (
      tag-All D (codes "div") (member_info r) (info-All r),
      (tt, (tag-All D (codes "div") (member_actions confirm m) (actions-All m h), tt)),
    ),
  )

  members-All :
      (pds : List ProjectDevices) (ms : List OrgMember)
      → ((m : OrgMember) → any (λ n. text_eq m.id n.id) ms ≡ true → Lists s m.id)
      → All (Offers D) (member_nodes to_upper confirm pds ms)
  unfolding member_nodes
  members-All pds [] h = tt
  members-All pds (m ∷ ms) h = (
    member-All (member_row (all_devices pds) m) m (h m (ground (arith, text_eq_refl m.id))),
    members-All pds ms (λ n k. h n (ground arith)),
  )

  members-Offers :
      (pds : List ProjectDevices) (ms : List OrgMember)
      → ((m : OrgMember) → any (λ n. text_eq m.id n.id) ms ≡ true → Lists s m.id)
      → Offers D (members_node to_upper confirm pds ms)
  unfolding offered
  members-Offers pds [] h = tt
  members-Offers pds (m ∷ ms) h =
      tag-All D (codes "div") (member_nodes to_upper confirm pds (m ∷ ms))
        (members-All pds (m ∷ ms) h)

  role-Offers : (p : Page) → Offers D (role_select p)
  role-Offers p =
      select-Offers D p.inv_role (λ t. sets (λ q. record q { inv_role = t }))
        ((codes "viewer", codes "Viewer (read-only)")
          ∷ (codes "operator", codes "Operator (can send commands)")
          ∷ [])

  edit_role-Offers : (p : Page) → Offers D (edit_role_select p)
  edit_role-Offers p =
      select-Offers D p.edit_role (λ t. sets (λ q. record q { edit_role = t }))
        ((codes "viewer", codes "Viewer")
          ∷ (codes "operator", codes "Operator")
          ∷ (codes "admin", codes "Admin")
          ∷ [])

  invite-Does :
      s.page.show_invite ≡ true
      → (s.page.inviting || is_blank (trim s.page.inv_email)) ≡ false
      → D begin_invite
  unfolding after press_invite begin_invite
  invite-Does e f =
      let full : is_blank (trim s.page.inv_email) ≡ false = ground arith in
      (invites, tt, rw (e, f, full) refl)

  save-Does : s.page.saving ≡ false → D begin_save_edit
  unfolding after press_save begin_save_edit
  save-Does f = (saves, f, if_false s (begin_save_edit s) s.page.saving f)

  invite-All : s.page.show_invite ≡ true → All (Offers D) (invite_body s.page)
  unfolding offered after edit
  invite-All e =
      let p = s.page in
      (
        tt,
        (
          labelled-Offers D (codes "Role") (role_select p) (role-Offers p),
          (
            labelled-Offers D (codes "Device Access") (invite_picker p)
                (picker-Offers D (λ id. sets (toggle_invite id)) p.project_devices p.inv_devices),
            (
              tag-All D (codes "div") (invite_buttons p) (
                button-All D close_invite (codes "Cancel") (edits closes_invite, tt, refl),
                (
                  button_unless-All D (p.inviting || is_blank (trim p.inv_email)) begin_invite
                      (invite_label p) (invite-Does e),
                  tt,
                ),
              ),
              tt,
            ),
          ),
        ),
      )

  edit-All : All (Offers D) (edit_body s.page)
  unfolding offered after edit
  edit-All =
      let p = s.page in
      (
        labelled-Offers D (codes "Role") (edit_role_select p) (edit_role-Offers p),
        (
          labelled-Offers D (codes "Device Access") (edit_picker p)
              (picker-Offers D (λ id. sets (toggle_edit id)) p.project_devices p.edit_devices),
          (
            tag-All D (codes "div") (edit_buttons p) (
              button-All D close_edit (codes "Cancel") (edits closes_edit, tt, refl),
              (button_unless-All D p.saving begin_save_edit (save_label p) save-Does, tt),
            ),
            tt,
          ),
        ),
      )

  parts-All : All (Offers D) (parts to_upper confirm s.page)
  unfolding offered after edit
  parts-All =
      let p = s.page in
      (
        tag-All D (codes "div") header_nodes (
          tt,
          (button-All D open_invite (codes "+ Invite Member") (edits shows_invite, tt, refl), tt),
        ),
        (
          members-Offers p.project_devices p.members (λ m k. k),
          append-Offers D (invite_modal p) (edit_modal p)
              (modal-All D p.show_invite close_invite (codes "Invite Member") (invite_body p)
                (λ _. (edits closes_invite, tt, refl)) invite-All)
              (modal-All D (is_some p.edit_member) close_edit (edit_title p) (edit_body p)
                (λ _. (edits closes_edit, tt, refl)) (λ _. edit-All)),
        ),
      )

  page-All : Offers D (team_page to_upper confirm s.page)
  unfolding team_page offered
  page-All =
      if_holds (Offers D) s.page.loading (λ _. tt)
        (λ e. tag-All D (codes "div") (parts to_upper confirm s.page) parts-All)

  -- Whatever element of the rendered team page is clicked, each handler that runs does what an
  -- event of a click does with its guard, of a button or of a dialog: it sends an invitation
  -- only where `inviting` is not set and the address is not blank, saves only where `saving` is
  -- not set, opens the form only of a member that is listed, and removes only a member that is
  -- listed, where the user confirms it.
  pub click-team_page :
      (path : List ℕ) → Ran (Does confirm s) (click path (team_page to_upper confirm s.page))
  click-team_page path =
      click-All (Does confirm s) path (team_page to_upper confirm s.page) page-All
