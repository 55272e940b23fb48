-- ===== src/Shell/Routes.antt =====
-- Where the routes of the dashboard lead, and its links.
use ops_sys.Base.{
  ℕ, zero, suc, ◌≤◌, Option, none, Bool, true, false, ◌≡◌, refl, some, List, arith, if◌then◌else◌,
  get_or, not, any, ◌↔◌,
}
use ops_sys.Base.Text.{codes, is_blank}
use ops_sys.Auth.{User, signed_in, handle_callback, AuthState, role_of}
use ops_sys.Auth.Roles.{role_guard, fallback, children, IsKnown, role_guard-known}
use ops_sys.Shell.{
  auth_callback, Route, login, callback, home, team, api_keys, unknown, project, View, spinner,
  page, lacks_token, auth_guard, admin_guard, render, follow, NavItem, nav_shown,
}

-- The page of an administrator, or the home page.
abbrev pub admin_page : AuthState → Route → Route
admin_page s r = elim (role_guard (codes "admin") s) [ fallback ↦ home | children ↦ r ]

-- The page that a route means for a session, once it is known that there is one.
abbrev pub meant : AuthState → Route → Route
meant s team = admin_page s team
meant s api_keys = admin_page s api_keys
meant s unknown = home
meant s r = r

abbrev pub is_open : Route → Bool
is_open login = true
is_open callback = true
is_open _ = false

-- What a route shows: the two pages that are open to all, else a spinner until the session was
-- looked for, the login page if there is none, and the page that is meant.
abbrev pub landing : Bool → AuthState → Route → View
landing checked s r =
    if is_open r
    then page r
    else if not checked
    then spinner
    else if lacks_token s
    then page login
    else page (meant s r)

follow_three :
    (n : ℕ) (checked : Bool) (s : AuthState) (r : Route)
    → follow (suc (suc (suc n))) checked s r ≡ some (landing checked s r)
unfolding follow render auth_guard admin_guard
follow_three n checked s login = refl
follow_three n checked s callback = refl
follow_three n checked s home = ground arith
follow_three n checked s (project name) = ground arith
follow_three n checked s team = ground arith
follow_three n checked s api_keys = ground arith
follow_three n checked s unknown = ground arith

-- Redirects end: every route comes to rest after at most two of them, whatever number more is
-- allowed, at the page that it means for the session: no protected page without a token, and the two
-- of the administrators only past their guard.
pub follow-landing :
    (n : ℕ) (checked : Bool) (s : AuthState) (r : Route)
    → 3 ≤ n
    → follow n checked s r ≡ some (landing checked s r)
follow-landing zero checked s r h = absurd (omega arith)
follow-landing (suc zero) checked s r h = absurd (omega arith)
follow-landing (suc (suc zero)) checked s r h = absurd (omega arith)
follow-landing (suc (suc (suc n))) checked s r h = follow_three n checked s r

abbrev pub leads_to : Route → List NavItem → Bool
leads_to r = any (λ item. elim item.to [
  | home ↦ elim r [ home ↦ true | _ ↦ false ]
  | team ↦ elim r [ team ↦ true | _ ↦ false ]
  | api_keys ↦ elim r [ api_keys ↦ true | _ ↦ false ]
  | _ ↦ false
])

-- For a session with a token and one of the three roles, or none, the sidebar links to the page of
-- the team, and to that of the keys, exactly when the route ends at that page, past its guards and
-- redirects; and it always links to the home page, where the route ends at it.
pub nav_shown-landing :
    (s : AuthState)
    → IsKnown (get_or (codes "viewer") (role_of s))
    → lacks_token s ≡ false
    → ((leads_to team (nav_shown s) ≡ true) ↔ (follow 3 true s team ≡ some (page team)))
      × ((leads_to api_keys (nav_shown s) ≡ true)
          ↔ (follow 3 true s api_keys ≡ some (page api_keys)))
      × (leads_to home (nav_shown s) ≡ true)
      × (follow 3 true s home ≡ some (page home))
unfolding nav_shown
nav_shown-landing s known token = ground (
  arith,
  role_guard-known s known,
  follow-landing 3 true s team (omega arith),
  follow-landing 3 true s api_keys (omega arith),
  follow-landing 3 true s home (omega arith),
)

-- What the callback page leads to in the end, past the route that its effect goes to.
abbrev pub arrives : AuthState × Option Route → Option View
arrives (s, none) = none
arrives (s, some r) = follow 3 true s r

-- The callback page leads a user that the identity provider sends, with a token, to the home page,
-- and an exception to the login page, whatever the session was; its effect does nothing the second
-- time.
pub follow-auth_callback :
    (user : User) (result : Option User) (s : AuthState)
    → is_blank user.access_token ≡ false
    → (arrives (auth_callback false (some user) s) ≡ some (page home))
      × (arrives (auth_callback false none s) ≡ some (page login))
      × (auth_callback true result s ≡ (s, none))
unfolding auth_callback handle_callback signed_in follow render auth_guard
follow-auth_callback user result s token = rw token (refl, refl, refl)
