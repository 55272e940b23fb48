-- ===== src/Home/Screen.antt =====
-- What HomePage.tsx renders, with its handlers as they stand in the source.
pub mod Clicks
use ops_sys.Base.{
  ℕ, Bool, true, false, ◌≡◌, refl, ◌&&◌, ◌||◌, not, Option, none, some, List, [], ◌∷◌, ◌++◌, any,
  All, if◌then◌else◌, arith,
}
use ops_sys.Base.Text.{Text, codes, text_eq, text_eq_refl, trim, is_blank}
use ops_sys.Auth.{AuthState, is_admin}
use ops_sys.Markup.{
  Props, Node, Nodes, text, element, plain, nodes, when, tag, div, said, labelled, button,
  button_unless, input, click, offered, offered_all,
}
use ops_sys.Modal.Dialog.{modal}
use ops_sys.Home.{Page, Entry, close_create}
use ops_sys.Home.Cards.{Card, card, card_link}
use ops_sys.Home.Pending.{Live, Event, opens, creates, closes, cancels, begin_create}

-- A handler changes the page, or goes to a path.
pub data Act : Type 0 where
  runs : (Live → Live) → Act
  goes : Text → Act

-- A handler that sets states.
abbrev pub sets : (Page → Page) → Act
sets f = runs (λ s. record s { page = f s.page })

-- The two fields of the form.
abbrev pub field : Text → Text → Text → (Text → Act) → Node Act
field label placeholder value change = labelled label (
    input (record plain {
      on_change = some change;
      on_enter = some (runs begin_create);
      attributes = (codes "placeholder", placeholder) ∷ (codes "value", value) ∷ [];
    }))

abbrev pub form_buttons : Page → List (Node Act)
form_buttons p =
    button (sets (λ q. record q { show_create = false })) (codes "Cancel")
    ∷ button_unless (p.creating || is_blank (trim p.new_name)) (runs begin_create)
        (if p.creating then codes "Creating..." else codes "Create")
    ∷ []

abbrev pub create_form : Page → List (Node Act)
create_form p =
    when (not (is_blank p.create_error)) (div (text p.create_error ∷ []))
    ++ field (codes "Project Name (slug)") (codes "my-fleet") p.new_name
        (λ t. sets (λ q. record q { new_name = t }))
      ∷ field (codes "Display Name (optional)") (codes "My Fleet") p.new_display_name
          (λ t. sets (λ q. record q { new_display_name = t }))
      ∷ div (form_buttons p)
      ∷ []

-- A card; `decimal` and `date` are the texts of a number and of a date.
unfoldable pub card_node : (ℕ → Text) → (Text → Text) → Entry → Node Act
unfolding card
card_node decimal date e =
    let c = card decimal e in
    element (codes "div") (record plain { on_click = some (goes c.link) })
      (nodes (
        div (text c.name ∷ [])
        ∷ div (said (codes "span") c.devices ∷ said (codes "span") (date e.project.created_at) ∷ [])
        ∷ []))

unfoldable pub cards : (ℕ → Text) → (Text → Text) → List Entry → List (Node Act)
cards decimal date [] = []
cards decimal date (e ∷ es) = card_node decimal date e ∷ cards decimal date es

abbrev pub projects_node : (ℕ → Text) → (Text → Text) → AuthState → List Entry → Node Act
projects_node decimal date a [] = div (
    text (
      if is_admin a
      then codes "No projects yet. Create your first project to get started."
      else codes "No projects assigned to your account.")
    ∷ [])
projects_node decimal date a es = div (cards decimal date es)

abbrev pub header_nodes : AuthState → List (Node Act)
header_nodes a =
    said (codes "h2") (codes "Projects")
    ∷ when (is_admin a)
        (button (sets (λ q. record q { show_create = true })) (codes "+ New Project"))

abbrev pub parts : (ℕ → Text) → (Text → Text) → AuthState → Page → List (Node Act)
parts decimal date a p =
    div (header_nodes a)
    ∷ projects_node decimal date a p.projects
    ∷ modal p.show_create (sets close_create) (codes "Create Project") (create_form p)

unfoldable pub home_page : (ℕ → Text) → (Text → Text) → AuthState → Page → Node Act
home_page decimal date a p =
    if p.loading then div (div (div [] ∷ []) ∷ []) else div (parts decimal date a p)
