-- ===== src/ApiKeys.antt =====
-- server/dashboard/src/pages/ApiKeys/ApiKeysPage.tsx: the keys of the organization, and the form for
-- a new one. A handler returns the new state with its requests; what the services answer is an
-- argument. The text of a date is an argument.
pub mod Keys
pub mod Guide
pub mod Pending
pub mod Screen
mod Tests
use ops_sys.Base.{
  ℕ, Bool, true, false, Option, none, some, List, [], ◌∷◌, ◌++◌, if◌then◌else◌, get_or, map, filter,
  not,
}
use ops_sys.Base.Text.{Text, codes, trim, is_blank, split, join}
use ops_sys.Fleet.{ApiKey, CreateKeyResponse}
use ops_sys.Auth.{AuthState}
use ops_sys.Auth.Roles.{role_guard, Rendered, fallback, children}
use ops_sys.Http.{Request}
use ops_sys.Http.Requests.{list_keys, create_key, revoke_key}
use ops_sys.Server.{Answer, answered, failed}

-- The page, and the form while `show_create` holds.
pub record Page : Type 0 where
  pub keys : List ApiKey
  pub loading : Bool
  pub error : Option Text
  pub show_create : Bool
  pub new_key : Option CreateKeyResponse
  pub form_loading : Bool
  pub form_error : Option Text

abbrev pub opened : Page
opened = record {
  keys = [];
  loading = true;
  error = none;
  show_create = false;
  new_key = none;
  form_loading = false;
  form_error = none;
}

-- `load`; the field `keys` of the answer may be null.
unfoldable pub load : Answer (Option (List ApiKey)) → Page → Page
load listed p = elim listed [
  | answered ks ↦ record p { keys = get_or [] ks; error = none; loading = false }
  | failed e ↦ record p { error = some e; loading = false }
]

-- `data.scopes.split(',').map((s) => s.trim()).filter(Boolean)`
unfoldable pub parse_scopes : Text → List Text
parse_scopes s = filter (λ t. not (is_blank t)) (map trim (split b',' s))

-- `submit`, where `onCreated` reloads the page; that load may end later, with any answer.
unfoldable pub submit :
    Answer CreateKeyResponse
    → Answer (Option (List ApiKey))
    → Text
    → Text
    → Page
    → Page × List Request
unfolding load parse_scopes
submit created listed name scopes p =
    let req =
      create_key (record { name = name; scopes = parse_scopes scopes; expires_at = none }) in
    elim created [
      | answered k ↦ (
        load listed (record p {
          new_key = some k;
          show_create = false;
          form_loading = false;
          form_error = none;
        }),
        req ∷ list_keys ∷ [],
      )
      | failed e ↦ (record p { form_error = some e; form_loading = false }, req ∷ [])
    ]

-- `onDismiss` of the setup guide.
unfoldable pub dismiss : Page → Page
dismiss p = record p { new_key = none }

-- `revoke`, with the answer of `confirm`; an exception leaves the page as it is.
unfoldable pub revoke :
    Bool → Answer (Unit {0}) → Answer (Option (List ApiKey)) → Text → Page → Page × List Request
unfolding load
revoke confirmed revoked listed id p =
    if confirmed
    then elim revoked [
      | answered _ ↦ (load listed p, revoke_key id ∷ list_keys ∷ [])
      | failed _ ↦ (p, revoke_key id ∷ [])
    ]
    else (p, [])

-- `k.scopes.join(', ') || '—'`
unfoldable pub scopes_cell : List Text → Text
scopes_cell scopes = elim (join (codes ", ") scopes) [ [] ↦ 0x2014 ∷ [] | c ∷ s ↦ c ∷ s ]

-- A row of the table: its scopes and badge, and whether it has a button to revoke the key.
pub record Row : Type 0 where
  pub key : ApiKey
  pub scopes : Text
  pub revoked : Bool
  pub can_revoke : Bool

abbrev pub is_set : Option Text → Bool
is_set none = false
is_set (some t) = not (is_blank t)

unfoldable pub row : ApiKey → Row
row k = record {
  key = k;
  scopes = scopes_cell k.scopes;
  revoked = is_set k.revoked_at;
  can_revoke = not (is_set k.revoked_at);
}

-- What is rendered: the guide with the secret of a new key, the spinner, the error, the rows, and the
-- form.
pub record Shown : Type 0 where
  pub guide : Option Text
  pub loading : Bool
  pub error : Option Text
  pub rows : List Row
  pub form : Bool

pub data View : Type 0 where
  refused : View
  table : Shown → View

-- The page past its guard, or the message of the guard.
unfoldable pub guarded : Rendered → Page → View
unfolding row
guarded fallback p = refused
guarded children p = table (record {
  guide = elim p.new_key [ none ↦ none | some k ↦ some k.api_key ];
  loading = p.loading;
  error = if is_set p.error then p.error else none;
  rows = map row p.keys;
  form = p.show_create;
})

unfoldable pub view : AuthState → Page → View
unfolding guarded
view s p = guarded (role_guard (codes "admin") s) p
