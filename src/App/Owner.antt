-- ===== src/App/Owner.antt =====
-- Whose session it is, at every place that reads it.

use ops_sys.Base.{
  ℕ, Bool, true, false, ◌≡◌, refl, sym, ap, ◌∙◌, subst, Option, none, some, List, [], ◌∷◌, ◌++◌,
  leb, ltb, ◌&&◌, get_or, if◌then◌else◌, ◌==◌, arith, Bool-cases, inl, inr,
}
use ops_sys.Base.Text.{Text, codes, is_blank}
use ops_sys.Auth.{AuthState, User, initial, logout, load_existing, handle_callback}
use ops_sys.Auth.Session
use ops_sys.Auth.Session.{
  logs_out, comes_back, loads, current_user, IsSession, run-initial-IsSession,
}
use ops_sys.Fleet.{Vehicle}
use ops_sys.Http.{after_response}
use ops_sys.Shell.{Route, sign_out, auth_callback}
use ops_sys.Project.Watch.{set_devices}
use ops_sys.App.{
  App, Place, show, show_light, light_on, light_off, inside, project_of, reading, at_route, commit,
  Event, session, response, signs_out, calls_back, goes, checks, sets, frame, connection, checked,
  after, run, opened_at, unmounted,
}
use ops_sys.App.Run.{opened_at-IsApp}
use ops_sys.App.Addresses.{address, after-Dials, commit-Dials}
use ops_sys.App.Settle.{ends, settle-ends}

show-auth : (p : Place) (a : App) → (show p a).auth ≡ a.auth
unfolding show show_light light_on light_off
show-auth p a = ground arith

commit-auth : (a : App) → (commit a).auth ≡ a.auth
unfolding commit
commit-auth a =
    subst
      (λ o. (elim o as (λ _. App) [ none ↦ reading a | some p ↦ show p (reading a) ]).auth ≡ a.auth)
      (sym (settle-ends a.guard a.auth a.route))
      (show-auth (ends a.guard a.auth a.route) (reading a))

-- What an event is to the store of the session.
abbrev pub told : Event → List Session.Event
told (session e) = e ∷ []
told (response status) = if status == 401 then logs_out ∷ [] else []
told signs_out = logs_out ∷ []
told (calls_back result) = comes_back result ∷ []
told (checks r) = loads r ∷ []
told _ = []

abbrev pub told_all : List Event → List Session.Event
told_all [] = []
told_all (e ∷ es) = told e ++ told_all es

placed :
    (s : AuthState) (o : Option Route) (a : App)
    → (commit (at_route o (record a { auth = s }))).auth ≡ s
placed s none a = commit-auth (record a { auth = s })
placed s (some r) a = commit-auth (at_route (some r) (record a { auth = s }))

answered_by :
    (status : ℕ) (s : AuthState) → after_response status s ≡ Session.run s (told (response status))
unfolding after_response Session.run Session.step
answered_by status s = elim (Bool-cases (status == 401)) [
  | inl expired ↦ rw expired refl
  | inr other ↦ rw other refl
]

called_back :
    (result : Option User) (s : AuthState)
    → (auth_callback false result s).0 ≡ handle_callback result s
unfolding auth_callback
called_back none s = refl
called_back (some u) s = refl

auth-after : (a : App) (e : Event) → (after a e).auth ≡ Session.run a.auth (told e)
unfolding after Session.run Session.step
auth-after a (session e) = placed (Session.step a.auth e) none a
auth-after a (response status) =
    placed (after_response status a.auth) none a ∙ answered_by status a.auth
auth-after a signs_out = unfold sign_out in placed (logout a.auth) (sign_out a.auth).1 a
auth-after a (calls_back result) =
    placed (auth_callback false result a.auth).0 (auth_callback false result a.auth).1 a
    ∙ called_back result a.auth
auth-after a (goes r) = commit-auth (record a { route = r })
auth-after a (checks r) =
    commit-auth (record a { auth = load_existing r a.auth; guard = checked a.guard })
auth-after a (sets ds) = devices_kept ds a (project_of a.view)
  where
    devices_kept :
        (ds : List Vehicle) (a : App) (o : Option Text)
        → (elim o as (λ _. App) [
          | none ↦ a
          | some n ↦ record a { watch = set_devices ds (reading a).watch }
        ]).auth
          ≡ a.auth
    devices_kept ds a none = refl
    devices_kept ds a (some n) = refl
auth-after a (frame h) = refl
auth-after a (connection e) = refl

session-append :
    (s : AuthState) (es ds : List Session.Event)
    → Session.run s (es ++ ds) ≡ Session.run (Session.run s es) ds
unfolding Session.run
session-append s [] ds = refl
session-append s (e ∷ es) ds = session-append (Session.step s e) es ds

auth-run : (a : App) (es : List Event) → (run a es).auth ≡ Session.run a.auth (told_all es)
unfolding run Session.run
auth-run a [] = refl
auth-run a (e ∷ es) =
    auth-run (after a e) es
    ∙ ap (λ s. Session.run s (told_all es)) (auth-after a e)
    ∙ sym (session-append a.auth (told e) (told_all es))

opened_at-auth : (gateway_url : Text) (r : Route) → (opened_at gateway_url r).auth ≡ initial
unfolding opened_at
opened_at-auth gateway_url r = commit-auth (unmounted gateway_url r)

abbrev pub token_of : Option User → Option Text
token_of o = elim o [ none ↦ none | some u ↦ some u.access_token ]

run-append : (a : App) (es ds : List Event) → run a (es ++ ds) ≡ run (run a es) ds
unfolding run
run-append a [] ds = refl
run-append a (e ∷ es) ds = run-append (after a e) es ds

run-gateway :
    (a : App) (es : List Event) → (run a es).watch.world.gateway_url ≡ a.watch.world.gateway_url
unfolding run
run-gateway a [] = refl
run-gateway a (e ∷ es) = run-gateway (after a e) es ∙ (after-Dials a e).gateway

opened_at-gateway :
    (gateway_url : Text) (r : Route)
    → (opened_at gateway_url r).watch.world.gateway_url ≡ gateway_url
unfolding opened_at
opened_at-gateway gateway_url r = (commit-Dials (unmounted gateway_url r)).gateway

-- The sockets of one more event, by the address that each has then.
run-urls :
    (gateway_url : Text) (r : Route) (es : List Event) (e : Event) (i : ℕ)
    → let a = run (opened_at gateway_url r) es in
      let a' = run (opened_at gateway_url r) (es ++ e ∷ []) in
      (a'.watch.world.sockets i).url ≡ (
        if leb a.watch.world.next_socket i && ltb i a'.watch.world.next_socket
        then address gateway_url a'.auth.token
        else (a.watch.world.sockets i).url)
unfolding run
run-urls gateway_url r es e i =
    let a = run (opened_at gateway_url r) es in
    rw (run-append (opened_at gateway_url r) es (e ∷ [])) (
      (after-Dials a e).urls i
      ∙ ap
          (λ g.
            if leb a.watch.world.next_socket i && ltb i (after a e).watch.world.next_socket
            then address g (after a e).auth.token
            else (a.watch.world.sockets i).url)
          (run-gateway (opened_at gateway_url r) es ∙ opened_at-gateway gateway_url r))

pub run-IsSession :
    (gateway_url : Text) (r : Route) (es : List Event)
    → IsSession (current_user none (told_all es)) (run (opened_at gateway_url r) es).auth
run-IsSession gateway_url r es =
    subst (IsSession (current_user none (told_all es)))
      (sym (
        auth-run (opened_at gateway_url r) es
        ∙ ap (λ s. Session.run s (told_all es)) (opened_at-auth gateway_url r)))
      (run-initial-IsSession (told_all es))

-- Whatever happened, the session of the store is that of the one user whom the events leave signed
-- in, or of none; a page below the guard is shown only if there is such a user, with a token that is
-- not empty; and each socket that a further event opens gets the address of the gateway with the token
-- of the user whom that event leaves signed in, or with an empty one if it leaves none, while every
-- other socket keeps the address that it had.
pub run-IsSession_token :
    (gateway_url : Text) (r : Route) (es : List Event) (e : Event) (i : ℕ)
    → let a = run (opened_at gateway_url r) es in
      let a' = run (opened_at gateway_url r) (es ++ e ∷ []) in
      let u = current_user none (told_all es) in
      let u' = current_user none (told_all (es ++ e ∷ [])) in
      IsSession u a.auth
      × (inside a.view ≡ true → is_blank (get_or [] (token_of u)) ≡ false)
      × ((a'.watch.world.sockets i).url ≡ (
          if leb a.watch.world.next_socket i && ltb i a'.watch.world.next_socket
          then gateway_url ++ (codes "/ws?token=" ++ get_or [] (token_of u'))
          else (a.watch.world.sockets i).url))
run-IsSession_token gateway_url r es e i =
    let a = run (opened_at gateway_url r) es in
    let a' = run (opened_at gateway_url r) (es ++ e ∷ []) in
    let of_session = run-IsSession gateway_url r es in
    (
      of_session,
      λ h. ap blank (sym of_session.of_token) ∙ (opened_at-IsApp gateway_url r es).guarded h,
      run-urls gateway_url r es e i
          ∙ ap
              (λ t.
                if leb a.watch.world.next_socket i && ltb i a'.watch.world.next_socket
                then address gateway_url t
                else (a.watch.world.sockets i).url)
              (run-IsSession gateway_url r (es ++ e ∷ [])).of_token,
    )
  where
    blank : Option Text → Bool
    blank o = is_blank (get_or [] o)
