-- ===== src/ApiKeys/Pending/Secret.antt =====
-- The handlers of the page in one piece and cut at their awaits, the secret, and a late answer.
use ops_sys.Base.{
  ℕ, suc, ◌<◌, true, false, none, some, List, [], ◌∷◌, ◌++◌, Option, ◌==◌, ltb, ◌≡◌, refl, ap, ◌∙◌,
  arith,
}
use mathlib.Core.List.{append_assoc}
use ops_sys.Base.Text.{Text, codes}
use ops_sys.Fleet.{ApiKey, CreateKeyResponse}
use ops_sys.Auth.{AuthState}
use ops_sys.Auth.Roles.{role_guard}
use ops_sys.Server.{Answer, answered, failed}
use ops_sys.ApiKeys.{load, dismiss, submit, view}
use ops_sys.ApiKeys.Keys.{seen, seen_past, secret_of, seen-guarded}
use ops_sys.ApiKeys.Pending.{
  Live, mounted, count, remove, open_form, close_form, send_form, begin_load, set_form,
  creation_answer, listing_answer, begin_revoke, revocation_answer, Event, opens_form, closes_form,
  dismisses, submits, creates, lists, asks_revoke, revokes, after, run,
}

count_own : (f : ℕ) (l : List ℕ) → ltb 0 (count f (f ∷ l)) ≡ true
count_own f l = ground arith

same : (f : ℕ) → (f == f) ≡ true
same f = ground arith

counted : (n : ℕ) → ltb 0 (suc n) ≡ true
counted n = ground arith

older : (f : ℕ) → (f == suc f) ≡ false
older f = ground arith

-- An open form that waits for nothing, whose call is answered before anything else happens, does
-- what `submit` describes in one piece: with the list of keys that is asked for then, or with the
-- failure.
pub run-submit :
    (name scopes : Text) (k : CreateKeyResponse) (m : Text) (listed : Answer (Option (List ApiKey)))
    (s : Live)
    → s.page.show_create ≡ true
    → s.page.form_loading ≡ false
    → (let t = run s (submits name scopes ∷ creates s.form_id (answered k) ∷ lists listed ∷ []) in
        let once = submit (answered k) listed name scopes s.page in
        (t.page ≡ once.0) × (t.requests ≡ s.requests ++ once.1))
      × (let t = run s (submits name scopes ∷ creates s.form_id (failed m) ∷ []) in
          let once = submit (failed m) listed name scopes s.page in
          (t.page ≡ once.0) × (t.requests ≡ s.requests ++ once.1))
unfolding after send_form creation_answer begin_load set_form listing_answer submit load remove
run-submit name scopes k m listed s shows idle =
    rw
      (
        shows,
        idle,
        count_own s.form_id s.creations,
        same s.form_id,
        counted s.listings,
        append_assoc,
      )
      ((refl, refl), (refl, refl))

-- A form that was opened while another one's call was under way.
abbrev pub reopened : Text → Text → List Event
reopened name scopes = submits name scopes ∷ closes_form ∷ opens_form ∷ []

-- If the form is closed while its call is under way and another one is opened, which is ready, then
-- the answer to the first closes the other one; and if the first fails, no message is shown.
pub reopened-answer :
    (name scopes : Text) (k : CreateKeyResponse) (m : Text) (s : Live)
    → s.page.show_create ≡ true
    → s.page.form_loading ≡ false
    → (let t = run s (reopened name scopes) in
        (t.page.show_create ≡ true)
        × (t.page.form_loading ≡ false)
        × ((after t (creates s.form_id (answered k))).page.show_create ≡ false)
        × ((after t (creates s.form_id (failed m))).page
            ≡ record s.page { show_create = true; form_loading = false; form_error = none }))
unfolding after send_form creation_answer begin_load set_form open_form close_form
reopened-answer name scopes k m s shows idle =
    rw (shows, idle, count_own s.form_id s.creations, older s.form_id) (refl, refl, refl, refl)

-- An event that answers a call of a form answers one that is under way.
abbrev pub IsAnswer : Live → Event → Type 0
IsAnswer s (creates f created) = 0 < count f s.creations
IsAnswer s e = Unit

abbrev pub IsHonest : Live → List Event → Type 0
IsHonest s [] = Unit
IsHonest s (e ∷ es) = IsAnswer s e × IsHonest (after s e) es

-- The secret after the events: that of the last key that was made, unless the guide was dismissed
-- since.
abbrev pub next_secret : Option Text → Event → Option Text
next_secret o dismisses = none
next_secret o (creates f (answered k)) = some k.api_key
next_secret o _ = o

abbrev pub secret : Option Text → List Event → Option Text
secret o [] = o
secret o (e ∷ es) = secret (next_secret o e) es

secret_of-after :
    (s : Live) (e : Event)
    → IsAnswer s e
    → secret_of (after s e).page ≡ next_secret (secret_of s.page) e
unfolding after send_form creation_answer begin_load set_form open_form close_form listing_answer
    begin_revoke revocation_answer load dismiss
secret_of-after s opens_form h = ground arith
secret_of-after s closes_form h = refl
secret_of-after s dismisses h = refl
secret_of-after s (submits n t) h = ground arith
secret_of-after s (creates f (answered k)) h = ground arith
secret_of-after s (creates f (failed m)) h = ground arith
secret_of-after s (lists (answered ks)) h = ground arith
secret_of-after s (lists (failed m)) h = ground arith
secret_of-after s (asks_revoke true id) h = refl
secret_of-after s (asks_revoke false id) h = refl
secret_of-after s (revokes (answered _)) h = ground arith
secret_of-after s (revokes (failed m)) h = ground arith

secret_of-run :
    (s : Live) (es : List Event)
    → IsHonest s es
    → secret_of (run s es).page ≡ secret (secret_of s.page) es
secret_of-run s [] h = refl
secret_of-run s (e ∷ es) h =
    secret_of-run (after s e) es h.1 ∙ ap (λ o. secret o es) (secret_of-after s e h.0)

-- Whatever happens to the page, with the answers to calls that are under way in any order, it shows
-- a session that the guard of `admin` lets through the secret of the last key that was made, unless
-- the guide was dismissed since, and every other session none.
pub view-run_live :
    (a : AuthState) (es : List Event)
    → IsHonest mounted es
    → seen (view a (run mounted es).page)
      ≡ seen_past (role_guard (codes "admin") a) (secret none es)
unfolding view
view-run_live a es h =
    seen-guarded (role_guard (codes "admin") a) (run mounted es).page
    ∙ ap (seen_past (role_guard (codes "admin") a)) (secret_of-run mounted es h)
