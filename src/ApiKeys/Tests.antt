-- ===== src/ApiKeys/Tests.antt =====
-- A new key, and the theorems about the page there.
use ops_sys.Base.{ℕ, ◌≤◌, ◌<◌, true, false, ltb, arith, ◌≡◌, refl, none, some, List, [], ◌∷◌}
use ops_sys.Base.Text.{text_eq, codes, trim, trim_start, is_space, split}
use ops_sys.Fleet.{ApiKey}
use ops_sys.Auth
use ops_sys.Auth.{AuthState}
use ops_sys.Auth.Roles.{role_guard}
use ops_sys.Server.{answered, failed}
use ops_sys.ApiKeys.Pending
use ops_sys.ApiKeys.Pending.{
  Live, mounted, count, opens_form, closes_form, creates, lists, after, open_form, close_form,
  send_form,
}
use ops_sys.ApiKeys.Pending.Secret.{IsHonest, view-run_live, reopened, reopened-answer}
use ops_sys.ApiKeys.Pending.Secret
use ops_sys.ApiKeys.Pending.Forms.{run-mounted}
use ops_sys.ApiKeys.{opened, parse_scopes, scopes_cell, view}
use ops_sys.ApiKeys.Keys.{IsScope, parse_scopes-scopes_cell, seen, seen_past}
use ops_sys.Markup.{click, child, bubble}
use ops_sys.Markup.Clicks.{Ran}
use ops_sys.Modal.Dialog.{modal}
use ops_sys.Auth.Roles.{children}
use ops_sys.ApiKeys.Guide.{python}
use ops_sys.ApiKeys.Screen.{Fields, handle_submit, api_keys_page}
use ops_sys.ApiKeys.Screen.Guide.{GuideState, runs}
use ops_sys.ApiKeys.Screen.Does.{Does}
use ops_sys.ApiKeys.Screen.Clicks.{click-api_keys_page}

abbrev key : ApiKey
key = record {
  id = codes "k1";
  key_prefix = codes "sk";
  org_id = [];
  name = codes "bot";
  scopes = codes "operator" ∷ codes "viewer" ∷ [];
  created_at = [];
  expires_at = none;
  revoked_at = none;
  last_used_at = none;
}

scopes_typed : parse_scopes (codes " operator,, viewer ") ≡ key.scopes
unfolding parse_scopes split trim trim_start is_space
scopes_typed = refl

operator-IsScope : IsScope (codes "operator")
unfolding trim trim_start is_space
operator-IsScope = record { given = refl; trimmed = refl; one = refl }

viewer-IsScope : IsScope (codes "viewer")
unfolding trim trim_start is_space
viewer-IsScope = record { given = refl; trimmed = refl; one = refl }

parse_scopes-scopes_cell_example :
    (parse_scopes (scopes_cell (codes "operator" ∷ codes "viewer" ∷ []))
      ≡ codes "operator" ∷ codes "viewer" ∷ [])
    × (parse_scopes [] ≡ [])
parse_scopes-scopes_cell_example =
    parse_scopes-scopes_cell (codes "operator") (codes "viewer" ∷ []) operator-IsScope
      (viewer-IsScope, tt)

abbrev admin : AuthState
admin = record Auth.initial {
  claims =
      some (record { org_id = []; vehicle_set = []; role = codes "admin"; sub = []; email = none });
}

-- The form is closed and opened again while its call is under way; the answer comes then.
abbrev late : List Pending.Event
late =
    opens_form
    ∷ Pending.submits (codes "bot") (codes "viewer")
    ∷ closes_form
    ∷ opens_form
    ∷ creates 1 (answered (record { key = key; api_key = codes "sk-1" }))
    ∷ lists (answered none)
    ∷ []

late-secret : Pending.Secret.secret none late ≡ some (codes "sk-1")
late-secret = refl

late-IsHonest : IsHonest mounted late
unfolding after open_form close_form send_form
late-IsHonest = (tt, (tt, (tt, (tt, (omega arith, (tt, tt))))))

view-run_live_example :
    seen (view admin (Pending.run mounted late).page)
    ≡ seen_past (role_guard (codes "admin") admin) (Pending.Secret.secret none late)
view-run_live_example = view-run_live admin late late-IsHonest

run-mounted_example :
    ((Pending.run mounted late).page.form_loading
      ≡ ltb 0 (count (Pending.run mounted late).form_id (Pending.run mounted late).creations))
    × ((f : ℕ) → count f (Pending.run mounted late).creations ≤ 1)
    × ((Pending.run mounted late).page.loading ≡ true → 0 < (Pending.run mounted late).listings)
run-mounted_example = run-mounted late

abbrev ready : Live
ready = record mounted { page = record opened { show_create = true } }

reopened-answer_example :
    (let t = Pending.run ready (reopened (codes "bot") (codes "viewer")) in
      (t.page.show_create ≡ true)
      × (t.page.form_loading ≡ false)
      × ((after t (
            creates ready.form_id
              (answered (record { key = key; api_key = codes "sk-1" })))).page.show_create
          ≡ false)
      × ((after t (creates ready.form_id (failed (codes "no")))).page
          ≡ record ready.page { show_create = true; form_loading = false; form_error = none }))
reopened-answer_example =
    reopened-answer (codes "bot") (codes "viewer") (record { key = key; api_key = codes "sk-1" })
      (codes "no") ready refl refl

abbrev shut_guide : GuideState
shut_guide = record {
  tab = python;
  key_copied = false;
  env_copied = false;
  install_copied = false;
  quickstart_copied = false;
}

abbrev typed : Fields
typed = record { name = codes "bot"; scopes = codes "viewer" }

-- The way to the button of the open form, past the spinner.
abbrev to_submit : List ℕ
to_submit = 3 ∷ 0 ∷ 1 ∷ 0 ∷ 2 ∷ []

submit_clicked :
    click to_submit (api_keys_page (λ t. t) (λ id. true) shut_guide typed admin ready.page)
    ≡ some (runs (handle_submit (codes "bot") (codes "viewer")) ∷ [], true)
unfolding click child bubble api_keys_page modal role_guard text_eq
submit_clicked = refl

click-api_keys_page_example :
    Ran
      (λ h.
        (role_guard (codes "admin") admin ≡ children) × Does (λ id. true) shut_guide typed ready h)
      (click to_submit (api_keys_page (λ t. t) (λ id. true) shut_guide typed admin ready.page))
click-api_keys_page_example =
    click-api_keys_page (λ t. t) (λ id. true) shut_guide typed ready admin to_submit
