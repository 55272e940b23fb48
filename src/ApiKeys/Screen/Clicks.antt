-- ===== src/ApiKeys/Screen/Clicks.antt =====
-- What the clicks on the page do: no more than the events of the page in ApiKeys/Pending.antt, and
-- those of the guide.
use ops_sys.Base.{
  ℕ, Bool, true, false, ◌≡◌, refl, sym, ◌&&◌, not, Option, none, some, List, [], ◌∷◌, ◌++◌, All,
  arith, if_true, if_false, and_not, ◌∙◌, inl, inr, Bool-cases,
}
use ops_sys.Base.Text.{Text, codes, text_eq_refl, is_blank}
use ops_sys.Fleet.{CreateKeyResponse}
use ops_sys.Auth.{AuthState}
use ops_sys.Auth.Roles.{role_guard, Rendered, fallback, children}
use ops_sys.Markup.{div, tag, button_unless, when, offered, click}
use ops_sys.Markup.Clicks.{
  Ran, click-All, Offers, tag-All, when-All, append-Offers, button-All, button_unless-All,
}
use ops_sys.Modal.Dialog.{modal-All}
use ops_sys.ApiKeys.Guide.{env_block, install, quickstart}
use ops_sys.ApiKeys.Pending.{
  Live, open_form, close_form, send_form, opens_form, closes_form, dismisses, submits, after,
}
use ops_sys.ApiKeys.Screen.Rows.{table-Offers}
use ops_sys.ApiKeys.Screen.Does.{IsCopied, Does, any_here, message-All, All-beside}
use ops_sys.ApiKeys.Screen.{
  begin_submit, handle_submit, Fields, message, table_node, submit_label, form_parts, create_modal,
  guide_nodes, header_nodes, parts, past_guard, api_keys_page,
}
use ops_sys.ApiKeys.Screen.Guide.{Act, runs, copies, GuideState, setup_nodes}

module _ (date : Text → Text) (confirm : Text → Bool) (g : GuideState) (f : Fields) (s : Live) where
  abbrev D : Act → Type 0
  D = Does confirm g f s

  submit-Does :
      s.page.show_create ≡ true
      → s.page.form_loading ≡ false
      → D (runs (handle_submit f.name f.scopes))
  unfolding after send_form handle_submit begin_submit
  submit-Does e k = elim (Bool-cases (is_blank f.name)) [
    | inl b ↦ inl (sym (if_true s (begin_submit f.name f.scopes s) (is_blank f.name) b))
    | inr b ↦ inr (
      submits f.name f.scopes,
      (refl, refl, b),
      sym (if_false s (begin_submit f.name f.scopes s) (is_blank f.name) b)
          ∙ if_true (begin_submit f.name f.scopes s) s
              (s.page.show_create && not s.page.form_loading)
              (and_not s.page.show_create s.page.form_loading e k),
    )
  ]

  form-All :
      s.page.show_create ≡ true → All (Offers D) (tag (codes "form") (form_parts f s.page) ∷ [])
  unfolding offered
  form-All e =
      let p = s.page in
      let submit_node =
        button_unless p.form_loading (runs (handle_submit f.name f.scopes)) (submit_label p) in
      (
        tag-All D (codes "form") (form_parts f p) (
          tt,
          (
            tt,
            append-Offers D (message p.form_error) (submit_node ∷ []) (message-All D p.form_error) (
              button_unless-All D p.form_loading (runs (handle_submit f.name f.scopes))
                  (submit_label p) (submit-Does e),
              tt,
            ),
          ),
        ),
        tt,
      )

  guide-All :
      (o : Option CreateKeyResponse)
      → ((t : Text) → IsCopied g o t → D (copies t))
      → All (Offers D) (guide_nodes g o)
  unfolding setup_nodes offered after
  guide-All none h = tt
  guide-All (some k) h = (
    (
      h k.api_key (ground (arith, text_eq_refl k.api_key)),
      (
        h (env_block k.api_key) (ground (arith, text_eq_refl (env_block k.api_key))),
        (
          tt,
          (
            tt,
            (
              h (install g.tab).code (
                  any_here (install g.tab).code (k.api_key ∷ env_block k.api_key ∷ [])
                    ((quickstart g.tab k.api_key).code ∷ [])),
              (
                h (quickstart g.tab k.api_key).code (
                    any_here (quickstart g.tab k.api_key).code
                      (k.api_key ∷ env_block k.api_key ∷ (install g.tab).code ∷ []) []),
                (inr (dismisses, tt, refl), tt),
              ),
            ),
          ),
        ),
      ),
    ),
    tt,
  )

  parts-All : All (Offers D) (parts date confirm g f s.page)
  unfolding offered after
  parts-All =
      let p = s.page in
      (
        tag-All D (codes "div") header_nodes (
          tt,
          (button-All D (runs open_form) (codes "+ Create Key") (inr (opens_form, tt, refl)), tt),
        ),
        append-Offers D (guide_nodes g p.new_key)
            (when p.loading (div [])
              ++ (message p.error ++ table_node date confirm p.keys ∷ create_modal f p))
            (guide-All p.new_key (λ t h. h))
            (append-Offers D (when p.loading (div []))
              (message p.error ++ table_node date confirm p.keys ∷ create_modal f p)
              (when-All D p.loading (div []) (λ _. tt))
              (append-Offers D (message p.error) (table_node date confirm p.keys ∷ create_modal f p)
                (message-All D p.error)
                (
                  table-Offers date confirm g f s,
                  modal-All D p.show_create (runs close_form) (codes "Create API Key")
                      (tag (codes "form") (form_parts f p) ∷ []) (λ _. inr (closes_form, tt, refl))
                      form-All,
                ))),
      )

  past_guard-Offers :
      (a : AuthState) (r : Rendered)
      → role_guard (codes "admin") a ≡ r
      → Offers
          (λ h. (role_guard (codes "admin") a ≡ children) × D h)
          (past_guard r (div (parts date confirm g f s.page)))
  unfolding offered
  past_guard-Offers a fallback e = tt
  past_guard-Offers a children e =
      All-beside (role_guard (codes "admin") a ≡ children) D
        (offered (div (parts date confirm g f s.page))) e
        (tag-All D (codes "div") (parts date confirm g f s.page) parts-All)

  -- Whatever element of the rendered page of the keys is clicked, in a session that the
  -- guard of `admin` lets through, each handler that runs does nothing, or what an event of a click does with its guard, of a button
  -- or of the dialog: it sends a key, with the fields of the form, only from the open form,
  -- where it is not loading and the name is not empty, and revokes only a key that is listed and
  -- active, where the user confirms it; or it copies the new key or one of the texts of the
  -- guide, or opens one of its tabs. In a session that the guard refuses nothing is run at all.
  pub click-api_keys_page :
      (a : AuthState) (path : List ℕ)
      → Ran
          (λ h. (role_guard (codes "admin") a ≡ children) × Does confirm g f s h)
          (click path (api_keys_page date confirm g f a s.page))
  unfolding api_keys_page
  click-api_keys_page a path =
      click-All (λ h. (role_guard (codes "admin") a ≡ children) × D h) path
        (past_guard (role_guard (codes "admin") a) (div (parts date confirm g f s.page)))
        (past_guard-Offers a (role_guard (codes "admin") a) refl)
