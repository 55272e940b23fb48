-- ===== src/Shell.antt =====
-- The frame of the dashboard: App.tsx, components/NavSidebar/NavSidebar.tsx,
-- components/TopBar/TopBar.tsx and pages/AuthCallback/AuthCallbackPage.tsx. The router is not in the
-- repository: it turns a path into the route that matches, and goes where `Navigate` says.
pub mod Routes
pub mod Names
pub mod Expiry
mod Tests
use ops_sys.Base.{
  ℕ, zero, suc, Bool, true, false, ◌||◌, ◌==◌, Option, none, some, List, [], ◌∷◌, ◌++◌,
  if◌then◌else◌, get_or, not, filter, take,
}
use ops_sys.Base.Text.{Text, codes, text_eq, is_blank, is_space, split, cons_head, nth, starts_with}
use ops_sys.Auth.{logout, AuthState, AuthClaims, User, is_admin, handle_callback}
use ops_sys.Auth.Roles.{role_guard, Rendered, fallback, children}

-- The paths of the routes; `unknown` is the path `*`.
pub data Route : Type 0 where
  login callback home team api_keys unknown : Route
  project : Text → Route

pub data View : Type 0 where
  spinner : View
  page : Route → View
  goes_to : Route → View

-- `!token`
abbrev pub lacks_token : AuthState → Bool
lacks_token s = is_blank (get_or [] s.token)

-- `checked` is set once `loadExisting` is over.
unfoldable pub auth_guard : Bool → AuthState → View → View
auth_guard checked s outlet =
    if not checked then spinner else if lacks_token s then goes_to login else outlet

unfoldable pub admin_guard : AuthState → View → View
admin_guard s outlet = elim (role_guard (codes "admin") s) [
  | fallback ↦ goes_to home
  | children ↦ outlet
]

-- `App`
unfoldable pub render : Bool → AuthState → Route → View
unfolding auth_guard admin_guard
render checked s login = page login
render checked s callback = page callback
render checked s home = auth_guard checked s (page home)
render checked s (project name) = auth_guard checked s (page (project name))
render checked s team = auth_guard checked s (admin_guard s (page team))
render checked s api_keys = auth_guard checked s (admin_guard s (page api_keys))
render checked s unknown = goes_to home

-- What the user sees in the end, after at most `n` redirects.
unfoldable pub follow : ℕ → Bool → AuthState → Route → Option View
follow zero checked s r = none
follow (suc n) checked s r = elim (render checked s r) [
  | goes_to next ↦ follow n checked s next
  | v ↦ some v
]

-- The effect of `AuthCallbackPage`: `processed` keeps it from running twice.
unfoldable pub auth_callback : Bool → Option User → AuthState → AuthState × Option Route
auth_callback true result s = (s, none)
auth_callback false (some user) s = (handle_callback (some user) s, some home)
auth_callback false none s = (handle_callback none s, some login)

pub record NavItem : Type 0 where
  pub to : Route
  pub label : Text
  pub admin_only : Bool

abbrev pub nav_items : List NavItem
nav_items =
    record { to = home; label = codes "Projects"; admin_only = false }
    ∷ record { to = team; label = codes "Team"; admin_only = true }
    ∷ record { to = api_keys; label = codes "API Keys"; admin_only = true }
    ∷ []

-- The links of `NavSidebar`.
unfoldable pub nav_shown : AuthState → List NavItem
nav_shown s = filter (λ item. not item.admin_only || is_admin s) nav_items

-- `[._\-\s]`
abbrev pub is_separator : ℕ → Bool
is_separator c = c == b'.' || c == b'_' || c == b'-' || is_space c

-- `split(/[._\-\s]+/)`; the flag says that a run of separators goes on.
unfoldable pub split_runs : Bool → Text → List Text
split_runs going [] = [] ∷ []
split_runs going (c ∷ s) =
    let rest = split_runs (is_separator c) s in
    if is_separator c then if going then rest else [] ∷ rest else cons_head c rest

-- `a[0] + b[0]`: the unit of an empty text is `undefined`, which is written out beside a text; the
-- sum of two is a number, whose `toUpperCase` throws.
abbrev pub add_units : Text → Text → Option Text
add_units [] [] = none
add_units [] (d ∷ _) = some (codes "undefined" ++ d ∷ [])
add_units (c ∷ _) [] = some (c ∷ codes "undefined")
add_units (c ∷ _) (d ∷ _) = some (c ∷ d ∷ [])

abbrev pub units_of : Text → List Text → Option Text
units_of name (a ∷ b ∷ _) = add_units a b
units_of name _ = some (take 2 name)

-- The result of `getInitials` before `toUpperCase`; `none` where that throws.
unfoldable pub get_initials : Option Text → Option Text → Option Text
get_initials email sub =
    let s = get_or (get_or (codes "?") sub) email in
    let name = get_or [] (nth (split b'@' s) 0) in units_of name (split_runs false name)

-- The user at the foot of `NavSidebar`, and its button `Sign out`.
pub record SidebarUser : Type 0 where
  pub avatar : Option Text
  pub label : Text
  pub role : Text

unfoldable pub sidebar_user : AuthState → SidebarUser
unfolding get_initials
sidebar_user s = elim s.claims [
  | none ↦ record {
    avatar = get_initials none none;
    label = codes "Operator";
    role = codes "viewer";
  }
  | some c ↦ record {
    avatar = get_initials c.email (some c.sub);
    label = get_or c.sub c.email;
    role = c.role;
  }
]

unfoldable pub sign_out : AuthState → AuthState × Option Route
sign_out s = (logout s, some login)

-- `pageTitle`, given `decodeURIComponent`, which throws on a malformed text.
unfoldable pub page_title : (Text → Option Text) → Text → Option Text
page_title decode pathname =
    if starts_with (codes "/projects/") pathname
    then (let name = get_or [] (nth (split b'/' pathname) 2) in
        if is_blank name then some (codes "Project") else decode name)
    else if text_eq pathname (codes "/")
    then some (codes "Projects")
    else if text_eq pathname (codes "/team")
    then some (codes "Team")
    else if text_eq pathname (codes "/settings/api-keys")
    then some (codes "API Keys")
    else some (codes "Dashboard")
