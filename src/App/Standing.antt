-- ===== src/App/Standing.antt =====
-- The place of the dashboard and what is rendered there.
use ops_sys.Base.{
  Bool, true, false, ◌≡◌, refl, sym, subst, ap, ◌∙◌, Option, none, some, List, [], ◌∷◌, arith,
  get_or, if_holds,
}
use ops_sys.Base.Text.{Text}
use ops_sys.Auth.{AuthState, load_existing}
use ops_sys.Auth.Session
use ops_sys.Http.{after_response}
use ops_sys.Project.Watch.{set_devices}
use ops_sys.Shell.{
  Route, home, team, api_keys, callback, unknown, project, View, spinner, page, goes_to,
  lacks_token, sign_out, auth_callback,
}
use ops_sys.App.{
  App, Place, under_guard, show, show_light, light_on, light_off, commit, Event, session, response,
  signs_out, calls_back, goes, checks, sets, frame, connection, after, run, opened_at, inside,
  unmounted, checked, reading, at_route, project_of,
}
use ops_sys.App.Settle.{ends, below, admin_or_home, settle-ends}

-- A page that is rendered is that of the place, and below the guard the session was looked for.
abbrev pub IsAt : Option Bool → Route → View → Type 0
IsAt g r (page q) = (r ≡ q) × (under_guard q ≡ true → g ≡ some true)
IsAt g r spinner = Unit
IsAt g r (goes_to q) = Unit

below-IsAt :
    (c : Bool) (s : AuthState) (asked r : Route)
    → IsAt (below c s asked r).guard (below c s asked r).route (below c s asked r).view
below-IsAt false s asked r = tt
below-IsAt true s asked r =
    if_holds (λ (p : Place). IsAt p.guard p.route p.view) (lacks_token s)
      (λ _. (refl, λ e. ground arith)) (λ _. (refl, λ e. refl))

ends-IsAt :
    (g : Option Bool) (s : AuthState) (r : Route)
    → IsAt (ends g s r).guard (ends g s r).route (ends g s r).view
ends-IsAt g s Route.login = (refl, λ e. ground arith)
ends-IsAt g s callback = (refl, λ e. ground arith)
ends-IsAt g s home = below-IsAt (get_or false g) s home home
ends-IsAt g s (project name) = below-IsAt (get_or false g) s (project name) (project name)
ends-IsAt g s team = below-IsAt (get_or false g) s team (admin_or_home s team)
ends-IsAt g s api_keys = below-IsAt (get_or false g) s api_keys (admin_or_home s api_keys)
ends-IsAt g s unknown = tt

pub record IsStanding (a : App) : Type 0 where
  pub at : IsAt a.guard a.route a.view

commit-IsStanding : (a : App) → IsStanding (commit a)
unfolding commit show
commit-IsStanding a =
    subst
      (λ o. IsStanding (elim o as (λ _. App) [ none ↦ reading a | some p ↦ show p (reading a) ]))
      (sym (settle-ends a.guard a.auth a.route)) (record { at = ends-IsAt a.guard a.auth a.route })

after-IsStanding : (a : App) (e : Event) → IsStanding a → IsStanding (after a e)
unfolding after
after-IsStanding a (session e) h = commit-IsStanding (record a { auth = Session.step a.auth e })
after-IsStanding a (response status) h =
    commit-IsStanding (record a { auth = after_response status a.auth })
after-IsStanding a signs_out h =
    let o = sign_out a.auth in commit-IsStanding (at_route o.1 (record a { auth = o.0 }))
after-IsStanding a (calls_back result) h =
    let o = auth_callback false result a.auth in
    commit-IsStanding (at_route o.1 (record a { auth = o.0 }))
after-IsStanding a (goes r) h = commit-IsStanding (record a { route = r })
after-IsStanding a (checks r) h =
    commit-IsStanding (record a { auth = load_existing r a.auth; guard = checked a.guard })
after-IsStanding a (sets devices) h = sets-IsStanding (project_of a.view)
  where
    sets-IsStanding :
        (o : Option Text)
        → IsStanding (elim o as (λ _. App) [
          | none ↦ a
          | some n ↦ record a { watch = set_devices devices (reading a).watch }
        ])
    sets-IsStanding none = h
    sets-IsStanding (some n) = record { at = h.at }
after-IsStanding a (frame n) h = record { at = h.at }
after-IsStanding a (connection e) h = record { at = h.at }

run-IsStanding : (a : App) (es : List Event) → IsStanding a → IsStanding (run a es)
unfolding run
run-IsStanding a [] h = h
run-IsStanding a (e ∷ es) h = run-IsStanding (after a e) es (after-IsStanding a e h)

pub opened_at-IsStanding :
    (gateway_url : Text) (r : Route) (es : List Event)
    → IsStanding (run (opened_at gateway_url r) es)
unfolding opened_at
opened_at-IsStanding gateway_url r es =
    run-IsStanding (commit (unmounted gateway_url r)) es
      (commit-IsStanding (unmounted gateway_url r))

-- The place that an event ends at.
pub commit-ends : (a : App) → commit a ≡ show (ends a.guard a.auth a.route) (reading a)
unfolding commit
commit-ends a =
    ap
      (λ (o : Option Place). elim o as (λ _. App) [
        | none ↦ reading a
        | some p ↦ show p (reading a)
      ])
      (settle-ends a.guard a.auth a.route)

pub commit-view : (a : App) → (commit a).view ≡ (ends a.guard a.auth a.route).view
unfolding show
commit-view a = ap (λ (b : App). b.view) (commit-ends a)

show_light-auth : (b : Bool) (a : App) → (show_light b a).auth ≡ a.auth
unfolding show_light light_on light_off
show_light-auth true a = ground arith
show_light-auth false a = ground arith

pub commit-auth : (a : App) → (commit a).auth ≡ a.auth
unfolding show
commit-auth a =
    ap (λ (b : App). b.auth) (commit-ends a)
    ∙ show_light-auth (inside (ends a.guard a.auth a.route).view) (reading a)
