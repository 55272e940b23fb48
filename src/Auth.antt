-- ===== src/Auth.antt =====
-- server/dashboard/src/store/authStore.ts: the session of the signed-in user. The client of the
-- identity provider, `UserManager`, is not in the repository: what its promises bring is an argument
-- of the callbacks, and its redirects are recorded.
pub mod Session
pub mod Roles
mod Tests
use ops_sys.Base.{
  ℕ, Bool, true, false, ◌&&◌, not, Option, none, some, List, [], ◌∷◌, ◌++◌, if◌then◌else◌, get_or,
  any,
}
use ops_sys.Base.Text.{Text, codes, text_eq}

-- What the sources read of `user.profile`. A field that is `undefined` or null is `none`; the casts
-- of the sources are not checked, so a role is any text.
pub record Profile : Type 0 where
  pub org_id : Option Text
  pub vehicle_set : Option (List Text)
  pub role : Option Text
  pub sub : Option Text
  pub email : Option Text

pub record User : Type 0 where
  pub profile : Profile
  pub access_token : Text
  pub expired : Bool

pub record AuthClaims : Type 0 where
  pub org_id : Text
  pub vehicle_set : List Text
  pub role : Text
  pub sub : Text
  pub email : Option Text

-- Where the browser is sent.
pub data Redirect : Type 0 where
  signin register signout : Redirect

pub record AuthState : Type 0 where
  pub user : Option User
  pub token : Option Text
  pub claims : Option AuthClaims
  pub redirects : List Redirect

abbrev pub initial : AuthState
initial = record { user = none; token = none; claims = none; redirects = [] }

unfoldable pub parse_claims : User → AuthClaims
parse_claims user = record {
  org_id = get_or [] user.profile.org_id;
  vehicle_set = get_or [] user.profile.vehicle_set;
  role = get_or (codes "viewer") user.profile.role;
  sub = get_or [] user.profile.sub;
  email = user.profile.email;
}

-- `set({ user, token: user.access_token, claims: parseClaims(user) })`
unfoldable pub signed_in : User → AuthState → AuthState
signed_in user s = record s {
  user = some user;
  token = some user.access_token;
  claims = some (parse_claims user);
}

-- `set({ user: null, token: null, claims: null })`
unfoldable pub signed_out : AuthState → AuthState
signed_out s = record s { user = none; token = none; claims = none }

-- `get().claims?.role`
abbrev pub role_of : AuthState → Option Text
role_of s = elim s.claims [ none ↦ none | some c ↦ some c.role ]

-- `x === t` for a text that may be `undefined`.
abbrev pub is_text : Option Text → Text → Bool
is_text none t = false
is_text (some s) t = text_eq s t

unfoldable pub is_admin : AuthState → Bool
is_admin s = is_text (role_of s) (codes "admin")

unfoldable pub can_command : AuthState → Bool
can_command s = any (λ r. text_eq r (get_or [] (role_of s))) (codes "operator" ∷ codes "admin" ∷ [])

unfoldable pub login : AuthState → AuthState
login s = record s { redirects = s.redirects ++ signin ∷ [] }

unfoldable pub signup : AuthState → AuthState
signup s = record s { redirects = s.redirects ++ register ∷ [] }

unfoldable pub logout : AuthState → AuthState
unfolding signed_out
logout s = signed_out (record s { redirects = s.redirects ++ signout ∷ [] })

-- `signinRedirectCallback` brings a user, or throws.
unfoldable pub handle_callback : Option User → AuthState → AuthState
unfolding signed_in
handle_callback (some user) s = signed_in user s
handle_callback none s = s

-- `getUser` brings a stored user or null, or throws.
pub data Stored : Type 0 where
  found : User → Stored
  missing threw : Stored

unfoldable pub load_existing : Stored → AuthState → AuthState
unfolding signed_in
load_existing (found user) s = if not user.expired then signed_in user s else s
load_existing missing s = s
load_existing threw s = s

-- The events of the user manager; a silent sign-in that succeeds tells of itself by `user_loaded`.
unfoldable pub user_loaded : User → AuthState → AuthState
unfolding signed_in
user_loaded user s = signed_in user s

unfoldable pub access_token_expired : Bool → AuthState → AuthState
unfolding signed_out
access_token_expired silent_signin_works s = if silent_signin_works then s else signed_out s

unfoldable pub silent_renew_error : Bool → AuthState → AuthState
unfolding signed_out
silent_renew_error silent_signin_works s = if silent_signin_works then s else signed_out s
