-- ===== src/Markup.antt =====
-- What a component renders, as a tree of elements with their handlers; styles are left out. A handler is
-- the event that it makes of `A`. A click runs the handlers from the element that is hit up to the root,
-- until one stops it; a disabled button takes it away.
pub mod Clicks
use ops_sys.Base.{
  ℕ, zero, suc, Bool, true, false, Option, none, some, List, [], ◌∷◌, ◌++◌, if◌then◌else◌,
}
use ops_sys.Base.Text.{Text, codes}

-- The attributes of an element that the sources use; `on_enter` is `onKeyDown` with its test of the key.
pub record Props (A : Type 0) : Type 0 where
  pub on_click : Option A
  pub stops : Bool
  pub disabled : Bool
  pub on_change : Option (Text → A)
  pub on_enter : Option A
  pub attributes : List (Text × Text)

mutual
  pub data Node (A : Type 0) : Type 0 where
    text : Text → Node A
    element : Text → Props A → Nodes A → Node A

  pub data Nodes (A : Type 0) : Type 0 where
    nil : Nodes A
    cons : Node A → Nodes A → Nodes A

module _ {A : Type 0} where
  abbrev pub plain : Props A
  plain = record {
    on_click = none;
    stops = false;
    disabled = false;
    on_change = none;
    on_enter = none;
    attributes = [];
  }

  abbrev pub nodes : List (Node A) → Nodes A
  nodes [] = nil
  nodes (n ∷ ns) = cons n (nodes ns)

  -- `{b && n}`
  abbrev pub when : Bool → Node A → List (Node A)
  when b n = if b then n ∷ [] else []

  abbrev pub tag : Text → List (Node A) → Node A
  tag t ns = element t plain (nodes ns)

  abbrev pub div : List (Node A) → Node A
  div = tag (codes "div")

  abbrev pub said : Text → Text → Node A
  said t s = tag t (text s ∷ [])

  abbrev pub button : A → Text → Node A
  button a label =
      element (codes "button") (record plain { on_click = some a }) (nodes (text label ∷ []))

  abbrev pub button_unless : Bool → A → Text → Node A
  button_unless off a label =
      element (codes "button") (record plain { on_click = some a; disabled = off })
        (nodes (text label ∷ []))

  abbrev pub input : Props A → Node A
  input p = element (codes "input") p nil

  -- `<label>` with the control below it.
  abbrev pub labelled : Text → Node A → Node A
  labelled label control = div (said (codes "label") label ∷ control ∷ [])

  unfoldable pub options : List (Text × Text) → List (Node A)
  options [] = []
  options ((value, label) ∷ os) =
      element (codes "option") (record plain { attributes = (codes "value", value) ∷ [] })
        (nodes (text label ∷ []))
      ∷ options os

  unfoldable pub select : Text → (Text → A) → List (Text × Text) → Node A
  unfolding options
  select value change os =
      element (codes "select")
        (record plain { on_change = some change; attributes = (codes "value", value) ∷ [] })
        (nodes (options os))

  abbrev pub to_list : Option A → List A
  to_list none = []
  to_list (some a) = a ∷ []

  unfoldable pub child : ℕ → Nodes A → Option (Node A)
  child i nil = none
  child zero (cons n ns) = some n
  child (suc i) (cons n ns) = child i ns

  -- The handlers that ran so far, and whether the click was stopped, at an element that it reaches.
  unfoldable pub bubble : Props A → List A × Bool → List A × Bool
  bubble p (acts, stopped) =
      if p.disabled
      then ([], true)
      else if stopped
      then (acts, true)
      else (acts ++ to_list p.on_click, p.stops)

  -- A click on the element at a path, if there is one.
  unfoldable pub click : List ℕ → Node A → Option (List A × Bool)
  unfolding child bubble
  click path (text s) = none
  click [] (element t p ns) = some (bubble p ([], false))
  click (i ∷ path) (element t p ns) = elim (child i ns) [
    | none ↦ none
    | some n ↦ elim (click path n) [ none ↦ none | some r ↦ some (bubble p r) ]
  ]

unfoldable mutual
  -- The handlers that a click can run.
  pub offered : {A : Type 0} → Node A → List A
  offered (text s) = []
  offered (element t p ns) = if p.disabled then [] else to_list p.on_click ++ offered_all ns

  pub offered_all : {A : Type 0} → Nodes A → List A
  offered_all nil = []
  offered_all (cons n ns) = offered n ++ offered_all ns

unfoldable mutual
  -- The text that is written on an element.
  pub written : {A : Type 0} → Node A → Text
  written (text s) = s
  written (element t p ns) = written_all ns

  pub written_all : {A : Type 0} → Nodes A → Text
  written_all nil = []
  written_all (cons n ns) = written n ++ written_all ns

unfoldable mutual
  -- The elements whose own handler a click can run, each by what is written on it.
  pub clickable : {A : Type 0} → Node A → List (Text × A)
  clickable (text s) = []
  clickable (element t p ns) = if p.disabled then [] else elim p.on_click [
    | none ↦ clickable_all ns
    | some a ↦ (written_all ns, a) ∷ clickable_all ns
  ]

  pub clickable_all : {A : Type 0} → Nodes A → List (Text × A)
  clickable_all nil = []
  clickable_all (cons n ns) = clickable n ++ clickable_all ns
