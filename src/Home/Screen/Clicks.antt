-- ===== src/Home/Screen/Clicks.antt =====
-- What the clicks on the page do: no more than the events of the page in Home/Pending.antt.
use ops_sys.Base.{
  ℕ, true, false, ◌≡◌, refl, ◌||◌, not, List, [], ◌∷◌, any, All, if◌then◌else◌, arith, if_holds,
}
use ops_sys.Base.Text.{Text, codes, text_eq, text_eq_refl, trim, is_blank}
use ops_sys.Auth.{AuthState, is_admin}
use ops_sys.Markup.{text, div, button, when, offered, click}
use ops_sys.Markup.Clicks.{
  Ran, click-All, Offers, tag-All, when-All, append-Offers, button-All, button_unless-All,
}
use ops_sys.Modal.Dialog.{modal-All}
use ops_sys.Home.{Entry, close_create}
use ops_sys.Home.Cards.{card_link}
use ops_sys.Home.Pending.{
  Live, Event, opens, creates, closes, cancels, begin_create, form_shown, after, press_create,
  press_new, press_cancel,
}
use ops_sys.Home.Screen.{
  Act, runs, goes, sets, form_buttons, create_form, header_nodes, parts, card_node, cards,
  projects_node, home_page,
}

-- The events that are a click, of the session for which the page was rendered.
abbrev pub IsClick : AuthState → Event → Type 0
IsClick a creates = Unit
IsClick a closes = Unit
IsClick a cancels = Unit
IsClick a (opens b) = b ≡ a
IsClick a e = ⊥

-- What such an event does, or where a card leads that is shown.
abbrev pub Does : AuthState → Live → Act → Type 0
Does a s (runs f) = (e : Event) × IsClick a e × (f s ≡ after s e)
Does a s (goes link) = any (λ e. text_eq link (card_link e)) s.page.projects ≡ true

module _ (decimal : ℕ → Text) (date : Text → Text) (a : AuthState) (s : Live) where
  card-All :
      (e : Entry) → Does a s (goes (card_link e)) → Offers (Does a s) (card_node decimal date e)
  unfolding card_node offered
  card-All e h = (h, tt)

  cards-All :
      (es : List Entry)
      → ((e : Entry)
          → any (λ d. text_eq (card_link e) (card_link d)) es ≡ true
          → Does a s (goes (card_link e)))
      → All (Offers (Does a s)) (cards decimal date es)
  unfolding cards
  cards-All [] h = tt
  cards-All (e ∷ es) h = (
    card-All e (h e (ground (arith, text_eq_refl (card_link e)))),
    cards-All es (λ d k. h d (ground arith)),
  )

  projects-Offers :
      (es : List Entry)
      → ((e : Entry)
          → any (λ d. text_eq (card_link e) (card_link d)) es ≡ true
          → Does a s (goes (card_link e)))
      → Offers (Does a s) (projects_node decimal date a es)
  unfolding offered
  projects-Offers [] h = tt
  projects-Offers (e ∷ es) h =
      tag-All (Does a s) (codes "div") (cards decimal date (e ∷ es)) (cards-All (e ∷ es) h)

  create-Does :
      form_shown s.page ≡ true
      → (s.page.creating || is_blank (trim s.page.new_name)) ≡ false
      → Does a s (runs begin_create)
  unfolding after press_create
  create-Does e f = (creates, tt, rw (e, f) refl)

  form-All : form_shown s.page ≡ true → All (Offers (Does a s)) (create_form s.page)
  unfolding offered after press_cancel
  form-All e =
      append-Offers (Does a s)
        (when (not (is_blank s.page.create_error)) (div (text s.page.create_error ∷ []))) _
        (when-All (Does a s) (not (is_blank s.page.create_error))
          (div (text s.page.create_error ∷ [])) (λ _. tt))
        (
          tt,
          (
            tt,
            (
              tag-All (Does a s) (codes "div") (form_buttons s.page) (
                button-All (Does a s) (sets (λ q. record q { show_create = false }))
                    (codes "Cancel") (cancels, tt, refl),
                (
                  button_unless-All (Does a s) (s.page.creating || is_blank (trim s.page.new_name))
                      (runs begin_create)
                      (if s.page.creating then codes "Creating..." else codes "Create")
                      (create-Does e),
                  tt,
                ),
              ),
              tt,
            ),
          ),
        )

  header-All : s.page.loading ≡ false → All (Offers (Does a s)) (header_nodes a)
  unfolding after press_new offered
  header-All e = (
    tt,
    when-All (Does a s) (is_admin a)
        (button (sets (λ q. record q { show_create = true })) (codes "+ New Project"))
        (λ f.
          button-All (Does a s) (sets (λ q. record q { show_create = true }))
            (codes "+ New Project") (opens a, refl, rw (e, f) refl)),
  )

  parts-All : s.page.loading ≡ false → All (Offers (Does a s)) (parts decimal date a s.page)
  unfolding after
  parts-All e = (
    tag-All (Does a s) (codes "div") (header_nodes a) (header-All e),
    (
      projects-Offers s.page.projects (λ d k. k),
      modal-All (Does a s) s.page.show_create (sets close_create) (codes "Create Project")
          (create_form s.page) (λ _. (closes, tt, refl)) (λ f. form-All (rw (e, f) refl)),
    ),
  )

  page-All : Offers (Does a s) (home_page decimal date a s.page)
  unfolding home_page offered
  page-All =
      if_holds (Offers (Does a s)) s.page.loading (λ _. tt)
        (λ e. tag-All (Does a s) (codes "div") (parts decimal date a s.page) (parts-All e))

  -- Whatever element of the rendered page is clicked, each handler that runs does what an event
  -- of a click does with its guard, of a button or of the dialog: it begins a creation only
  -- where `creating` is not set and the name is not blank, and opens the form only for an
  -- administrator; or it goes to the page of a project that is shown.
  pub click-home_page :
      (path : List ℕ) → Ran (Does a s) (click path (home_page decimal date a s.page))
  click-home_page path = click-All (Does a s) path (home_page decimal date a s.page) page-All
