-- ===== src/App/Settle.antt =====
-- Where the redirects of the application end.
use ops_sys.Base.{Bool, true, false, ◌≡◌, refl, Option, none, some, get_or, if◌then◌else◌, arith}
use ops_sys.Base.Text.{codes}
use ops_sys.Auth.{AuthState}
use ops_sys.Auth.Roles.{role_guard, fallback, children}
use ops_sys.Shell.{
  Route, login, callback, home, team, api_keys, unknown, project, spinner, page, lacks_token,
  auth_guard, admin_guard, render,
}
use ops_sys.App.{Place, settle, inside}

abbrev pub login_page : Place
login_page = record { guard = none; route = login; view = page login }

-- Below a guard that has looked for the session, or not yet.
abbrev pub below : Bool → AuthState → Route → Route → Place
below false s asked r = record { guard = some false; route = asked; view = spinner }
below true s asked r =
    if lacks_token s then login_page else record { guard = some true; route = r; view = page r }

abbrev pub admin_or_home : AuthState → Route → Route
admin_or_home s r = elim (role_guard (codes "admin") s) [ fallback ↦ home | children ↦ r ]

-- Where a route ends, with the guard that was mounted before.
abbrev pub ends : Option Bool → AuthState → Route → Place
ends g s login = login_page
ends g s callback = record { guard = none; route = callback; view = page callback }
ends g s home = below (get_or false g) s home home
ends g s (project name) = below (get_or false g) s (project name) (project name)
ends g s team = below (get_or false g) s team (admin_or_home s team)
ends g s api_keys = below (get_or false g) s api_keys (admin_or_home s api_keys)
ends g s unknown = record { guard = some false; route = home; view = spinner }

pub settle-ends : (g : Option Bool) (s : AuthState) (r : Route) → settle 3 g s r ≡ some (ends g s r)
unfolding settle render auth_guard admin_guard
settle-ends g s login = refl
settle-ends g s callback = refl
settle-ends g s home = ground arith
settle-ends g s (project name) = ground arith
settle-ends g s team = ground arith
settle-ends g s api_keys = ground arith
settle-ends g s unknown = refl

-- Below the guard, past its redirect, there is a token; and nobody stays at a redirect.
abbrev pub IsPlaced : AuthState → Place → Type 0
IsPlaced s p = inside p.view ≡ true → lacks_token s ≡ false

below-IsPlaced : (c : Bool) (s : AuthState) (asked r : Route) → IsPlaced s (below c s asked r)
below-IsPlaced false s asked r h = ground arith
below-IsPlaced true s asked r h = ground arith

pub ends-IsPlaced : (g : Option Bool) (s : AuthState) (r : Route) → IsPlaced s (ends g s r)
ends-IsPlaced g s login h = ground arith
ends-IsPlaced g s callback h = ground arith
ends-IsPlaced g s home h = below-IsPlaced (get_or false g) s home home h
ends-IsPlaced g s (project name) h =
    below-IsPlaced (get_or false g) s (project name) (project name) h
ends-IsPlaced g s team h = below-IsPlaced (get_or false g) s team (admin_or_home s team) h
ends-IsPlaced g s api_keys h =
    below-IsPlaced (get_or false g) s api_keys (admin_or_home s api_keys) h
ends-IsPlaced g s unknown h = ground arith
