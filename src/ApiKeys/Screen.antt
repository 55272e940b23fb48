-- ===== src/ApiKeys/Screen.antt =====
-- What ApiKeysPage.tsx renders, with its handlers as they stand in the source.
pub mod Guide
pub mod Does
mod Rows
pub mod Clicks
use ops_sys.Base.{Bool, true, false, not, Option, none, some, List, [], ◌∷◌, ◌++◌, if◌then◌else◌}
use ops_sys.Base.Text.{Text, codes, is_blank}
use ops_sys.Fleet.{ApiKey, CreateKeyResponse}
use ops_sys.Auth.{AuthState}
use ops_sys.Auth.Roles.{role_guard, Rendered, fallback, children}
use ops_sys.Http.Requests.{create_key}
use ops_sys.Markup.{
  Props, Node, Nodes, text, element, plain, nodes, when, tag, div, said, labelled, button,
  button_unless, input,
}
use ops_sys.Modal.Dialog.{modal}
use ops_sys.ApiKeys.{Page, parse_scopes, dismiss, is_set, Row, row}
use ops_sys.ApiKeys.Guide.{Tab}
use ops_sys.ApiKeys.Pending.{Live, open_form, close_form, begin_revoke}
use ops_sys.ApiKeys.Screen.Guide.{Act, runs, GuideState, setup_nodes}

-- `submit` up to its `await`.
unfoldable pub begin_submit : Text → Text → Live → Live
unfolding parse_scopes
begin_submit name scopes s = record s {
  page = record s.page { form_loading = true; form_error = none };
  creations = s.form_id ∷ s.creations;
  requests =
      s.requests
      ++ create_key (record { name = name; scopes = parse_scopes scopes; expires_at = none }) ∷ [];
}

-- `handleSubmit(submit)`: the browser does not submit a form whose `required` field is empty.
unfoldable pub handle_submit : Text → Text → Live → Live
handle_submit name scopes s = if is_blank name then s else begin_submit name scopes s

-- What the user typed into the form, whose fields are those of react-hook-form.
pub record Fields : Type 0 where
  pub name : Text
  pub scopes : Text

abbrev pub message : Option Text → List (Node Act)
message none = []
message (some t) = when (not (is_blank t)) (div (text t ∷ []))

-- The text of a date is an argument.
abbrev pub last_used : (Text → Text) → Option Text → Text
last_used date none = codes "Never"
last_used date (some t) = if is_blank t then codes "Never" else date t

abbrev pub revoke_button : (Text → Bool) → Text → Node Act
revoke_button confirm id = button (runs (begin_revoke (confirm id) id)) (codes "Revoke")

abbrev pub status_badge : Bool → Node Act
status_badge revoked = said (codes "span") (if revoked then codes "REVOKED" else codes "ACTIVE")

abbrev pub row_cells : (Text → Text) → (Text → Bool) → Row → List (Node Act)
row_cells date confirm r =
    said (codes "td") r.key.name
    ∷ tag (codes "td") (said (codes "code") (r.key.key_prefix ++ codes "…") ∷ [])
    ∷ said (codes "td") r.scopes
    ∷ said (codes "td") (date r.key.created_at)
    ∷ said (codes "td") (last_used date r.key.last_used_at)
    ∷ tag (codes "td") (status_badge r.revoked ∷ [])
    ∷ tag (codes "td") (when r.can_revoke (revoke_button confirm r.key.id))
    ∷ []

unfoldable pub row_nodes : (Text → Text) → (Text → Bool) → List ApiKey → List (Node Act)
unfolding row
row_nodes date confirm [] = []
row_nodes date confirm (k ∷ ks) =
    tag (codes "tr") (row_cells date confirm (row k)) ∷ row_nodes date confirm ks

abbrev pub table_head : Node Act
table_head = tag (codes "thead") (
    tag (codes "tr") (
      said (codes "th") (codes "Name")
      ∷ said (codes "th") (codes "Prefix")
      ∷ said (codes "th") (codes "Scopes")
      ∷ said (codes "th") (codes "Created")
      ∷ said (codes "th") (codes "Last Used")
      ∷ said (codes "th") (codes "Status")
      ∷ tag (codes "th") []
      ∷ [])
    ∷ [])

abbrev pub table_parts : (Text → Text) → (Text → Bool) → List ApiKey → List (Node Act)
table_parts date confirm ks = table_head ∷ tag (codes "tbody") (row_nodes date confirm ks) ∷ []

abbrev pub form_field : Text → Text → Text → Bool → Node Act
form_field label placeholder value required = labelled label (
    input (record plain {
      attributes =
          (codes "placeholder", placeholder)
          ∷ (codes "value", value)
          ∷ (if required then (codes "required", codes "true") ∷ [] else []);
    }))

abbrev pub submit_label : Page → Text
submit_label p = if p.form_loading then codes "Creating…" else codes "Create Key"

abbrev pub form_parts : Fields → Page → List (Node Act)
form_parts f p =
    form_field (codes "Name") (codes "my-integration") f.name true
    ∷ form_field (codes "Scopes (comma-separated)") (codes "operator, viewer") f.scopes false
    ∷ (message p.form_error
        ++ button_unless p.form_loading (runs (handle_submit f.name f.scopes)) (submit_label p)
          ∷ [])

-- `CreateKeyModal`, which is mounted while it is open.
abbrev pub create_modal : Fields → Page → List (Node Act)
create_modal f p =
    modal p.show_create (runs close_form) (codes "Create API Key")
      (tag (codes "form") (form_parts f p) ∷ [])

abbrev pub dismissal : Act
dismissal = runs (λ s. record s { page = dismiss s.page })

abbrev pub guide_nodes : GuideState → Option CreateKeyResponse → List (Node Act)
guide_nodes g none = []
guide_nodes g (some k) = setup_nodes g k.api_key dismissal

abbrev pub header_nodes : List (Node Act)
header_nodes =
    said (codes "h2") (codes "API Keys") ∷ button (runs open_form) (codes "+ Create Key") ∷ []

abbrev pub table_node : (Text → Text) → (Text → Bool) → List ApiKey → Node Act
table_node date confirm ks = div (tag (codes "table") (table_parts date confirm ks) ∷ [])

abbrev pub parts : (Text → Text) → (Text → Bool) → GuideState → Fields → Page → List (Node Act)
parts date confirm g f p =
    div header_nodes
    ∷ (guide_nodes g p.new_key
        ++ (when p.loading (div [])
            ++ (message p.error ++ table_node date confirm p.keys ∷ create_modal f p)))

abbrev pub refusal : Node Act
refusal = div (div (text (codes "Admin role required to manage API keys.") ∷ []) ∷ [])

-- The page past its guard.
abbrev pub past_guard : Rendered → Node Act → Node Act
past_guard fallback n = refusal
past_guard children n = n

unfoldable pub api_keys_page :
    (Text → Text) → (Text → Bool) → GuideState → Fields → AuthState → Page → Node Act
api_keys_page date confirm g f a p =
    past_guard (role_guard (codes "admin") a) (div (parts date confirm g f p))
