-- ===== src/Team/Pending/Forms.antt =====
-- The two forms of the page while requests are under way.
use ops_sys.Base.{
  ℕ, true, false, ◌&&◌, ◌||◌, not, Option, none, some, List, [], ◌∷◌, ◌++◌, if_holds, bit,
  and_not-false, or-false, ◌≡◌, refl, sym, ap, ◌∙◌, arith,
}
use ops_sys.Base.Text.{trim, is_blank}
use ops_sys.Fleet.{OrgMember}
use ops_sys.Http.Requests.{update_member_access}
use ops_sys.Server.{answered}
use ops_sys.Calls.{answer, After, answer-After}
use ops_sys.Team.{Page, toggle_invite, toggle_edit, open_edit}
use ops_sys.Team.Pending.{
  Call, Reply, done, Live, mounted, respond, answer, receive, press_invite, begin_save, press_save,
  press_remove, Edit, shows_invite, closes_invite, closes_edit, types_email, picks_role,
  toggles_invite, picks_edit_role, toggles_edit, opens_edit, edit, Event, invites, saves, removes,
  edits, receives, after, run,
}
use ops_sys.Team.Pending.Balance.{
  Form, invite_form, edit_form, waits, of_form, calls_of, Balanced, Balanced-IsLocal,
  respond-Balanced,
}

-- Each form waits exactly while it has a call, and then it has one.
pub record IsPending (s : Live) : Type 0 where
  pub invited : calls_of invite_form s.calls ≡ bit s.page.inviting
  pub edited : calls_of edit_form s.calls ≡ bit s.page.saving

receive-IsPending : (i : ℕ) (reply : Reply) (s : Live) → IsPending s → IsPending (receive i reply s)
unfolding receive
receive-IsPending i reply s h = go (answer (λ c p. respond c reply p) i s.page s.calls) (λ f.
    answer-After (Balanced f) (Balanced-IsLocal f) (of_form f) (λ c p. respond c reply p)
      (λ c p. respond-Balanced f c reply p) i s.page s.calls)
  where
    go :
        (o : Option (Page × List Call))
        → ((f : Form) → After (Balanced f) (of_form f) s.page (calls_of f s.calls) o)
        → IsPending (elim o [ none ↦ s | some r ↦ record s { page = r.0; calls = r.1 } ])
    go none b = h
    go (some r) b = record {
      invited = omega (arith, h.invited, b invite_form (omega (arith, h.invited)));
      edited = omega (arith, h.edited, b edit_form (omega (arith, h.edited)));
    }

press_invite-IsPending : (s : Live) → IsPending s → IsPending (press_invite s)
unfolding press_invite
press_invite-IsPending s h =
    let guard = s.page.inviting || is_blank (trim s.page.inv_email) in
    if_holds IsPending (s.page.show_invite && not guard)
      (λ e.
        let free : s.page.inviting ≡ false =
          or-false s.page.inviting (is_blank (trim s.page.inv_email))
            (and_not-false s.page.show_invite guard e) in
        record {
          invited = omega (arith, h.invited ∙ ap bit free);
          edited = omega (arith, h.edited);
        })
      (λ _. h)

press_save-IsPending : (s : Live) → IsPending s → IsPending (press_save s)
unfolding press_save begin_save
press_save-IsPending s h = if_holds IsPending s.page.saving (λ _. h) (λ e. go s.page.edit_member e)
  where
    go :
        (o : Option OrgMember)
        → s.page.saving ≡ false
        → IsPending (elim o [ none ↦ s | some m ↦ begin_save m s ])
    go none e = h
    go (some m) e = record {
      invited = omega (arith, h.invited);
      edited = omega (arith, h.edited ∙ ap bit e);
    }

edit-waits :
    (e : Edit) (p : Page) → ((edit e p).inviting ≡ p.inviting) × ((edit e p).saving ≡ p.saving)
unfolding edit toggle_invite toggle_edit open_edit
edit-waits shows_invite p = (refl, refl)
edit-waits closes_invite p = (refl, refl)
edit-waits closes_edit p = (refl, refl)
edit-waits (types_email t) p = (refl, refl)
edit-waits (picks_role t) p = (refl, refl)
edit-waits (toggles_invite id) p = (refl, refl)
edit-waits (picks_edit_role t) p = (refl, refl)
edit-waits (toggles_edit id) p = (refl, refl)
edit-waits (opens_edit m) p = (refl, refl)

after-IsPending : (s : Live) (e : Event) → IsPending s → IsPending (after s e)
unfolding after press_remove
after-IsPending s invites h = press_invite-IsPending s h
after-IsPending s saves h = press_save-IsPending s h
after-IsPending s (removes true id) h = record {
  invited = omega (arith, h.invited);
  edited = omega (arith, h.edited);
}
after-IsPending s (removes false id) h = h
after-IsPending s (edits e) h = record {
  invited = h.invited ∙ ap bit (sym (edit-waits e s.page).0);
  edited = h.edited ∙ ap bit (sym (edit-waits e s.page).1);
}
after-IsPending s (receives i reply) h = receive-IsPending i reply s h

run-IsPending : (s : Live) (es : List Event) → IsPending s → IsPending (run s es)
run-IsPending s [] h = h
run-IsPending s (e ∷ es) h = run-IsPending (after s e) es (after-IsPending s e h)

mounted-IsPending : IsPending mounted
mounted-IsPending = record { invited = omega arith; edited = omega arith }

-- Whatever happens to the page, with the answers in any order: each form has one call under way, of
-- its own request or of the load after it, while its button shows that it waits, and none otherwise.
pub run-mounted_calls :
    (f : Form) (es : List Event)
    → calls_of f (run mounted es).calls ≡ bit (waits f (run mounted es).page)
run-mounted_calls invite_form es = (run-IsPending mounted es mounted-IsPending).invited
run-mounted_calls edit_form es = (run-IsPending mounted es mounted-IsPending).edited

-- A form that was opened for another member while the first one's request was under way.
abbrev pub other_member : OrgMember → List Event
other_member m = saves ∷ edits closes_edit ∷ edits (opens_edit m) ∷ []

-- If the form of a member is closed while its request is under way, and opened for another member,
-- then the answer to the first closes the form of the other, for whom nothing was sent; until then
-- its button is disabled.
pub other_member-answer :
    (m n : OrgMember) (s : Live)
    → s.page.edit_member ≡ some m
    → s.page.saving ≡ false
    → (let t = run s (other_member n) in
        (t.page.edit_member ≡ some n)
        × (press_save t ≡ t)
        × ((after t (receives 0 (done (answered tt)))).page.edit_member ≡ none)
        × ((after t (receives 0 (done (answered tt)))).requests
            ≡ s.requests
              ++ update_member_access m.id
                  (record { role = s.page.edit_role; device_ids = s.page.edit_devices })
                ∷ []))
unfolding after press_save begin_save edit open_edit receive answer respond
other_member-answer m n s shows idle = rw (shows, idle) (refl, refl, refl, refl)
