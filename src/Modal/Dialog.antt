-- ===== src/Modal/Dialog.antt =====
-- What components/Modal/Modal.tsx renders, and what a click on it does.
use mathlib.Core.List.{append-nil}
use ops_sys.Base.{
  ℕ, Bool, true, false, ◌≡◌, refl, ap, Option, none, some, List, [], ◌∷◌, All, if◌then◌else◌,
}
use ops_sys.Base.Text.{Text, codes}
use ops_sys.Markup.Clicks.{Offers, nodes-All, tag-All, button-All, All-append}
use ops_sys.Markup.{
  Props, Node, element, plain, nodes, div, said, button, child, bubble, click, offered, offered_all,
}

module _ {A : Type 0} where
  -- `onClick={onClose}`
  abbrev pub closing : A → Props A
  closing on_close = record plain { on_click = some on_close }

  -- `onClick={(e) => e.stopPropagation()}`
  abbrev pub stopping : Props A
  stopping = record plain { stops = true }

  unfoldable pub modal : (is_open : Bool) → A → Text → List (Node A) → List (Node A)
  modal is_open on_close title body =
      if is_open
      then element (codes "div") (closing on_close) (
          nodes (
            element (codes "div") stopping (
              nodes
                (div (said (codes "h3") title ∷ button on_close (codes "✕") ∷ []) ∷ div body ∷ []))
            ∷ []))
        ∷ []
      else []

  abbrev pub stopped_here : Option (List A × Bool) → Option (List A × Bool)
  stopped_here none = none
  stopped_here (some (acts, stopped)) = some (acts, true)

  abbrev pub click_first : List ℕ → List (Node A) → Option (List A × Bool)
  click_first path [] = none
  click_first path (n ∷ ns) = click path n

  dialog-outer :
      (on_close : A) (r : Option (List A × Bool))
      → (elim (elim r as (λ x. Option (List A × Bool)) [
        | none ↦ none
        | some q ↦ some (bubble stopping q)
      ])
          as (λ x. Option (List A × Bool)) [
            | none ↦ none
            | some q ↦ some (bubble (closing on_close) q)
          ])
        ≡ stopped_here r
  unfolding bubble
  dialog-outer on_close none = refl
  dialog-outer on_close (some (acts, true)) = refl
  dialog-outer on_close (some (acts, false)) = ap (λ (x : List A). some (x, true)) (append-nil acts)

  -- A click in an open modal calls `onClose` once, beside the dialog and at its ✕, where it goes no
  -- further; at the title it does nothing, and in the body what the body says, and no more: never
  -- `onClose`, unless the body has it. A closed modal renders nothing.
  pub click-modal :
      (on_close : A) (title : Text) (body : List (Node A)) (path : List ℕ)
      → (click_first [] (modal true on_close title body) ≡ some (on_close ∷ [], false))
        × (click_first (0 ∷ 0 ∷ 1 ∷ []) (modal true on_close title body)
            ≡ some (on_close ∷ [], true))
        × (click_first (0 ∷ 0 ∷ 0 ∷ []) (modal true on_close title body) ≡ some ([], true))
        × (click_first (0 ∷ 1 ∷ path) (modal true on_close title body)
            ≡ stopped_here (click path (div body)))
        × (modal false on_close title body ≡ [])
  unfolding modal click child bubble
  click-modal on_close title body path =
      (refl, refl, refl, dialog-outer on_close (click path (div body)), refl)

  pub modal-All :
      (P : A → Type 0) (is_open : Bool) (on_close : A) (title : Text) (body : List (Node A))
      → (is_open ≡ true → P on_close)
      → (is_open ≡ true → All (Offers P) body)
      → All (Offers P) (modal is_open on_close title body)
  unfolding modal offered
  modal-All P false on_close title body h k = tt
  modal-All P true on_close title body h k =
      let header = said (codes "h3") title ∷ button on_close (codes "✕") ∷ [] in
      let parts = div header ∷ div body ∷ [] in
      let in_header =
        tag-All P (codes "div") header (tt, (button-All P on_close (codes "✕") (h refl), tt)) in
      let in_dialog = nodes-All P parts (in_header, (tag-All P (codes "div") body (k refl), tt)) in
      ((h refl, All-append P (offered_all (nodes parts)) [] in_dialog tt), tt)
