-- ===== src/App/Screen/Leads.antt =====
-- Where the handlers around the pages lead, one by one.
use ops_sys.Base.{
  Bool, true, false, ◌≡◌, refl, ap, ◌∙◌, subst, Option, none, some, [], ◌∷◌, ◌++◌, All, arith,
  get_or, Bool-cases, inl, inr,
}
use ops_sys.Base.Text.{Text, codes, text_eq, text_eq_iff}
use ops_sys.Auth.{
  AuthState, is_admin, is_text, role_of, login, signup, logout, signed_out, signin, register,
}
use ops_sys.Auth.Roles.{role_guard, role_rank, Rendered, fallback, children}
use ops_sys.Auth.Session
use ops_sys.Auth.Session.{logs_in, signs_up}
use ops_sys.Markup.{offered}
use ops_sys.Markup.Clicks.{Offers}
use ops_sys.Shell.{Route, home, team, api_keys, page, nav_shown, lacks_token, sign_out}
use ops_sys.App.{App, Event, session, signs_out, goes, after}
use ops_sys.App.Settle.{below, admin_or_home}
use ops_sys.App.Standing.{IsAt, IsStanding, commit-view, commit-auth}
use ops_sys.App.Screen.{nav_links}

-- Where the handlers around the pages lead: a link to its page, the button `Sign out` to the login page,
-- and those of the login page to the identity provider, past a place that stays.
abbrev pub Leads : App → Event → Type 0
Leads a (goes r) = (after a (goes r)).view ≡ page r
Leads a signs_out =
    ((after a signs_out).view ≡ page Route.login) × ((after a signs_out).auth.token ≡ none)
Leads a (session logs_in) =
    ((after a (session logs_in)).view ≡ a.view)
    × ((after a (session logs_in)).auth
        ≡ record a.auth { redirects = a.auth.redirects ++ signin ∷ [] })
Leads a (session signs_up) =
    ((after a (session signs_up)).view ≡ a.view)
    × ((after a (session signs_up)).auth
        ≡ record a.auth { redirects = a.auth.redirects ++ register ∷ [] })
Leads a e = ⊥

admin_role : (o : Option Text) → is_text o (codes "admin") ≡ true → o ≡ some (codes "admin")
admin_role none e = ground arith
admin_role (some t) e = ap some ((text_eq_iff t (codes "admin")).0 e)

admin_children : (s : AuthState) → is_admin s ≡ true → role_guard (codes "admin") s ≡ children
unfolding is_admin role_guard role_rank text_eq
admin_children s e = rw (admin_role (role_of s) e) refl

below-view :
    (c : Bool) (s : AuthState) (asked r : Route)
    → c ≡ true
    → lacks_token s ≡ false
    → (below c s asked r).view ≡ page r
below-view true s asked r e token = rw token refl
below-view false s asked r e token = ground arith

module _ (a : App) (checked : get_or false a.guard ≡ true)
    (token : lacks_token a.auth ≡ false) where
  leads_below :
      (asked r : Route)
      → r ≡ asked
      → (below (get_or false a.guard) a.auth asked r).view ≡ page asked
  leads_below asked r e = below-view (get_or false a.guard) a.auth asked r checked token ∙ ap page e

  pub home-Leads : Leads a (goes home)
  unfolding after
  home-Leads = commit-view (record a { route = home }) ∙ leads_below home home refl

  admin_page : (r : Route) → is_admin a.auth ≡ true → admin_or_home a.auth r ≡ r
  admin_page r e =
      ap (λ (x : Rendered). elim x as (λ _. Route) [ fallback ↦ home | children ↦ r ])
        (admin_children a.auth e)

  pub team-Leads : is_admin a.auth ≡ true → Leads a (goes team)
  unfolding after
  team-Leads e =
      commit-view (record a { route = team })
      ∙ leads_below team (admin_or_home a.auth team) (admin_page team e)

  pub api_keys-Leads : is_admin a.auth ≡ true → Leads a (goes api_keys)
  unfolding after
  api_keys-Leads e =
      commit-view (record a { route = api_keys })
      ∙ leads_below api_keys (admin_or_home a.auth api_keys) (admin_page api_keys e)

  pub links-Leads : All (Offers (Leads a)) (nav_links (nav_shown a.auth))
  unfolding nav_shown nav_links offered
  links-Leads = elim (Bool-cases (is_admin a.auth)) [
    | inl e ↦ rw e ((home-Leads, tt), ((team-Leads e, tt), ((api_keys-Leads e, tt), tt)))
    | inr e ↦ rw e ((home-Leads, tt), tt)
  ]

-- The dashboard after the button `Sign out`, before it is rendered.
abbrev left : App → App
left a = record a { auth = logout a.auth; route = Route.login }

pub signs_out-Leads : (a : App) → Leads a signs_out
unfolding after sign_out logout signed_out
signs_out-Leads a = (commit-view (left a), ap (λ (s : AuthState). s.token) (commit-auth (left a)))

-- On the login page its two buttons leave the place.
at_login : (a : App) → IsStanding a → a.view ≡ page Route.login → a.route ≡ Route.login
at_login a h e = (subst (IsAt a.guard a.route) e h.at).0

pub logs_in-Leads :
    (a : App) → a.route ≡ Route.login → a.view ≡ page Route.login → Leads a (session logs_in)
unfolding after Session.step login
logs_in-Leads a e f =
    let b : App = record a { auth = login a.auth } in
    (commit-view b ∙ rw (e, f) refl, commit-auth b)

pub signs_up-Leads :
    (a : App) → a.route ≡ Route.login → a.view ≡ page Route.login → Leads a (session signs_up)
unfolding after Session.step signup
signs_up-Leads a e f =
    let b : App = record a { auth = signup a.auth } in
    (commit-view b ∙ rw (e, f) refl, commit-auth b)
