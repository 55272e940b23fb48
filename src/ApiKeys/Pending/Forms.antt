-- ===== src/ApiKeys/Pending/Forms.antt =====
-- The form and the spinner while calls are under way.
use ops_sys.Base.{
  ℕ, suc, ◌-◌, ◌≤◌, ◌<◌, Bool, true, false, ◌&&◌, not, some, List, [], ◌∷◌, Option, ◌==◌,
  if◌then◌else◌, ltb, ◌≡◌, refl, sym, subst, ◌∙◌, arith, ==_iff, if_holds, and_not-false,
}
use ops_sys.Base.Text.{Text}
use ops_sys.Fleet.{ApiKey, CreateKeyResponse}
use ops_sys.Server.{Answer, answered, failed}
use ops_sys.ApiKeys.{Page, load, dismiss}
use ops_sys.ApiKeys.Pending.{
  Live, mounted, count, remove, open_form, close_form, send_form, begin_load, set_form,
  creation_answer, listing_answer, begin_revoke, revocation_answer, Event, opens_form, closes_form,
  dismisses, submits, creates, lists, asks_revoke, revokes, after, run,
}

count-remove :
    (f g : ℕ) (l : List ℕ) → count g (remove f l) ≡ (if g == f then count g l - 1 else count g l)
unfolding remove
count-remove f g [] = ground arith
count-remove f g (x ∷ l) = grind (arith, count-remove f g l)

-- The form `id` has a call under way exactly while it waits; no form has two, and no later one any.
pub record Fits (id : ℕ) (waits : Bool) (l : List ℕ) : Type 0 where
  pub waiting : waits ≡ ltb 0 (count id l)
  pub one : (f : ℕ) → count f l ≤ 1
  pub old : (f : ℕ) → id < f → count f l ≡ 0

next-Fits : (id : ℕ) (w : Bool) (l : List ℕ) → Fits id w l → Fits (suc id) false l
next-Fits id w l h = record {
  waiting = rw (h.old (suc id) (omega arith)) refl;
  one = h.one;
  old = λ f lt. h.old f (omega (arith, lt));
}

send-Fits : (id : ℕ) (l : List ℕ) → Fits id false l → Fits id true (id ∷ l)
send-Fits id l h = record {
  waiting = let w = h.waiting in ground arith;
  one = λ f. let w = h.waiting in let o = h.one f in grind arith;
  old = λ f lt. let o = h.old f lt in grind arith;
}

answer-Fits : (id : ℕ) (w : Bool) (l : List ℕ) → Fits id w l → Fits id false (remove id l)
answer-Fits id w l h = record {
  waiting = let o = h.one id in let e = count-remove id id l in grind arith;
  one = λ f. let o = h.one f in let e = count-remove id f l in grind arith;
  old = λ f lt. let o = h.old f lt in let e = count-remove id f l in grind arith;
}

other-Fits :
    (f id : ℕ) (w : Bool) (l : List ℕ) → (f == id) ≡ false → Fits id w l → Fits id w (remove f l)
other-Fits f id w l n h = record {
  waiting = let o = h.waiting in let e = count-remove f id l in grind arith;
  one = λ g. let o = h.one g in let e = count-remove f g l in grind arith;
  old = λ g lt. let o = h.old g lt in let e = count-remove f g l in grind arith;
}

pub record IsPending (s : Live) : Type 0 where
  pub form : Fits s.form_id s.page.form_loading s.creations
  pub spins : s.page.loading ≡ true → 0 < s.listings

open_form-IsPending : (s : Live) → IsPending s → IsPending (open_form s)
unfolding open_form
open_form-IsPending s h =
    if_holds IsPending s.page.show_create (λ _. h)
      (λ _. record {
        form = next-Fits s.form_id s.page.form_loading s.creations h.form;
        spins = h.spins;
      })

send_form-IsPending : (n t : Text) (s : Live) → IsPending s → IsPending (send_form n t s)
unfolding send_form
send_form-IsPending n t s h =
    if_holds IsPending (s.page.show_create && not s.page.form_loading)
      (λ e. record {
        form = send-Fits s.form_id s.creations (
            subst (λ w. Fits s.form_id w s.creations)
              (and_not-false s.page.show_create s.page.form_loading e) h.form);
        spins = h.spins;
      })
      (λ _. h)

-- The end of a call of the form `f`.
set_form-IsPending :
    (f : ℕ) (change : Page → Page) (s t : Live)
    → ((p : Page) → (change p).form_loading ≡ false)
    → ((p : Page) → (change p).loading ≡ p.loading)
    → Fits t.form_id t.page.form_loading s.creations
    → t.creations ≡ remove f s.creations
    → (t.page.loading ≡ true → 0 < t.listings)
    → IsPending (set_form f change t)
unfolding set_form
set_form-IsPending f change s t ends keeps fits e spins =
    if_holds IsPending (f == t.form_id)
      (λ same. record {
        form =
            rw (ends t.page, e, (==_iff f t.form_id).0 same)
              (answer-Fits t.form_id t.page.form_loading s.creations fits);
        spins = λ l. spins (sym (keeps t.page) ∙ l);
      })
      (λ n. record {
        form =
            subst (Fits t.form_id t.page.form_loading) (sym e)
              (other-Fits f t.form_id t.page.form_loading s.creations n fits);
        spins = spins;
      })

creation_answer-IsPending :
    (f : ℕ) (created : Answer CreateKeyResponse) (s : Live)
    → IsPending s
    → IsPending (creation_answer f created s)
unfolding creation_answer begin_load
creation_answer-IsPending f (answered k) s h =
    if_holds IsPending (ltb 0 (count f s.creations))
      (λ _.
        set_form-IsPending f (λ p. record p { form_loading = false }) s _ (λ _. refl) (λ _. refl)
          h.form refl (λ l. omega (arith, h.spins l)))
      (λ _. h)
creation_answer-IsPending f (failed e) s h =
    if_holds IsPending (ltb 0 (count f s.creations))
      (λ _.
        set_form-IsPending f (λ p. record p { form_error = some e; form_loading = false }) s _
          (λ _. refl) (λ _. refl) h.form refl h.spins)
      (λ _. h)

listing_answer-IsPending :
    (listed : Answer (Option (List ApiKey))) (s : Live)
    → IsPending s
    → IsPending (listing_answer listed s)
unfolding listing_answer load
listing_answer-IsPending (answered ks) s h =
    if_holds IsPending (ltb 0 s.listings) (λ _. record { form = h.form; spins = λ l. ground arith })
      (λ _. h)
listing_answer-IsPending (failed m) s h =
    if_holds IsPending (ltb 0 s.listings) (λ _. record { form = h.form; spins = λ l. ground arith })
      (λ _. h)

revocation_answer-IsPending :
    (revoked : Answer (Unit {0})) (s : Live) → IsPending s → IsPending (revocation_answer revoked s)
unfolding revocation_answer begin_load
revocation_answer-IsPending (answered _) s h =
    if_holds IsPending (ltb 0 s.revocations)
      (λ _. record { form = h.form; spins = λ l. omega (arith, h.spins l) }) (λ _. h)
revocation_answer-IsPending (failed m) s h =
    if_holds IsPending (ltb 0 s.revocations) (λ _. record { form = h.form; spins = h.spins })
      (λ _. h)

after-IsPending : (s : Live) (e : Event) → IsPending s → IsPending (after s e)
unfolding after close_form dismiss begin_revoke
after-IsPending s opens_form h = open_form-IsPending s h
after-IsPending s closes_form h = record { form = h.form; spins = h.spins }
after-IsPending s dismisses h = record { form = h.form; spins = h.spins }
after-IsPending s (submits n t) h = send_form-IsPending n t s h
after-IsPending s (creates f created) h = creation_answer-IsPending f created s h
after-IsPending s (lists listed) h = listing_answer-IsPending listed s h
after-IsPending s (asks_revoke true id) h = record { form = h.form; spins = h.spins }
after-IsPending s (asks_revoke false id) h = h
after-IsPending s (revokes revoked) h = revocation_answer-IsPending revoked s h

run-IsPending : (s : Live) (es : List Event) → IsPending s → IsPending (run s es)
run-IsPending s [] h = h
run-IsPending s (e ∷ es) h = run-IsPending (after s e) es (after-IsPending s e h)

mounted-IsPending : IsPending mounted
mounted-IsPending = record {
  form = record { waiting = refl; one = λ f. omega arith; old = λ f lt. refl };
  spins = λ l. omega arith;
}

-- Whatever happens to the page, with the answers in any order: the button of the form that was
-- mounted last is disabled exactly while a call of that form is under way, and no form has two calls
-- under way; while the spinner of the page is shown, a list of the keys is under way.
pub run-mounted :
    (es : List Event)
    → ((run mounted es).page.form_loading
        ≡ ltb 0 (count (run mounted es).form_id (run mounted es).creations))
      × ((f : ℕ) → count f (run mounted es).creations ≤ 1)
      × ((run mounted es).page.loading ≡ true → 0 < (run mounted es).listings)
run-mounted es =
    let h = run-IsPending mounted es mounted-IsPending in (h.form.waiting, h.form.one, h.spins)
