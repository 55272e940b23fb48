-- ===== src/Markup/Clicks.antt =====
-- A click runs nothing but what is offered.
use ops_sys.Base.{
  ℕ, zero, suc, Bool, true, false, ◌≡◌, refl, Option, none, some, List, [], ◌∷◌, ◌++◌, All,
  if◌then◌else◌, subst, Bool-cases, inl, inr,
}
use ops_sys.Base.Text.{Text}
use ops_sys.Markup.{
  Props, Node, text, element, Nodes, nil, cons, nodes, when, tag, button, button_unless, labelled,
  options, select, to_list, child, bubble, click, offered, offered_all,
}

module _ {A : Type 0} (P : A → Type 0) where
  All-append_left : (xs ys : List A) → All P (xs ++ ys) → All P xs
  All-append_left [] ys h = tt
  All-append_left (x ∷ xs) ys h = (h.0, All-append_left xs ys h.1)

  All-append_right : (xs ys : List A) → All P (xs ++ ys) → All P ys
  All-append_right [] ys h = h
  All-append_right (x ∷ xs) ys h = All-append_right xs ys h.1

  pub All-append : (xs ys : List A) → All P xs → All P ys → All P (xs ++ ys)
  All-append [] ys h k = k
  All-append (x ∷ xs) ys h k = (h.0, All-append xs ys h.1 k)

  abbrev pub Ran : Option (List A × Bool) → Type 0
  Ran none = Unit
  Ran (some r) = All P r.0

  abbrev Child : Option (Node A) → Type 0
  Child none = Unit
  Child (some n) = All P (offered n)

  child-All : (i : ℕ) (ns : Nodes A) → All P (offered_all ns) → Child (child i ns)
  unfolding child offered
  child-All i nil h = tt
  child-All zero (cons n ns) h = All-append_left (offered n) (offered_all ns) h
  child-All (suc i) (cons n ns) h = child-All i ns (All-append_right (offered n) (offered_all ns) h)

  bubble-All :
      (p : Props A) (ns : Nodes A) (r : List A × Bool)
      → All P (if p.disabled then [] else to_list p.on_click ++ offered_all ns)
      → (p.disabled ≡ false → All P r.0)
      → All P (bubble p r).0
  unfolding bubble
  bubble-All p ns (acts, stopped) h k = elim (Bool-cases p.disabled) [
    | inl e ↦ rw e tt
    | inr e ↦ elim (Bool-cases stopped) [
      | inl f ↦ rw (e, f) (k e)
      | inr f ↦
          rw (e, f)
            (All-append acts (to_list p.on_click) (k e) (
              All-append_left (to_list p.on_click) (offered_all ns)
                (subst (λ b. All P (if b then [] else to_list p.on_click ++ offered_all ns)) e h)))
    ]
  ]

  enabled :
      (p : Props A) (ns : Nodes A)
      → All P (if p.disabled then [] else to_list p.on_click ++ offered_all ns)
      → p.disabled ≡ false
      → All P (offered_all ns)
  enabled p ns h e =
      All-append_right (to_list p.on_click) (offered_all ns)
        (subst (λ b. All P (if b then [] else to_list p.on_click ++ offered_all ns)) e h)

  bubbled :
      (p : Props A) (ns : Nodes A) (o : Option (List A × Bool))
      → All P (if p.disabled then [] else to_list p.on_click ++ offered_all ns)
      → (p.disabled ≡ false → Ran o)
      → Ran (elim o [ none ↦ none | some r ↦ some (bubble p r) ])
  bubbled p ns none h k = tt
  bubbled p ns (some r) h k = bubble-All p ns r h k

  below :
      (p : Props A) (ns : Nodes A) (path : List ℕ) (o : Option (Node A))
      → All P (if p.disabled then [] else to_list p.on_click ++ offered_all ns)
      → (p.disabled ≡ false → Child o)
      → ((n : Node A) → All P (offered n) → Ran (click path n))
      → Ran (elim o [
        | none ↦ none
        | some n ↦ elim (click path n) [ none ↦ none | some r ↦ some (bubble p r) ]
      ])
  below p ns path none h c ih = tt
  below p ns path (some n) h c ih = bubbled p ns (click path n) h (λ g. ih n (c g))

  -- Every handler that a click runs is offered.
  pub click-All : (path : List ℕ) (n : Node A) → All P (offered n) → Ran (click path n)
  unfolding click offered
  click-All path (text s) h = tt
  click-All [] (element t p ns) h = bubble-All p ns ([], false) h (λ e. tt)
  click-All (i ∷ path) (element t p ns) h =
      below p ns path (child i ns) h (λ g. child-All i ns (enabled p ns h g)) (click-All path)

  -- What an element offers, from what its children do.
  abbrev pub Offers : Node A → Type 0
  Offers n = All P (offered n)

  pub nodes-All : (ns : List (Node A)) → All Offers ns → All P (offered_all (nodes ns))
  unfolding offered
  nodes-All [] h = tt
  nodes-All (n ∷ ns) h = All-append (offered n) (offered_all (nodes ns)) h.0 (nodes-All ns h.1)

  pub tag-All : (t : Text) (ns : List (Node A)) → All Offers ns → Offers (tag t ns)
  unfolding offered
  tag-All t ns h = nodes-All ns h

  pub when-All : (b : Bool) (n : Node A) → (b ≡ true → Offers n) → All Offers (when b n)
  when-All true n h = (h refl, tt)
  when-All false n h = tt

  pub append-Offers :
      (ms ns : List (Node A)) → All Offers ms → All Offers ns → All Offers (ms ++ ns)
  append-Offers [] ns h k = k
  append-Offers (m ∷ ms) ns h k = (h.0, append-Offers ms ns h.1 k)

  pub button-All : (a : A) (label : Text) → P a → Offers (button a label)
  unfolding offered
  button-All a label h = (h, tt)

  pub button_unless-All :
      (off : Bool) (a : A) (label : Text) → (off ≡ false → P a) → Offers (button_unless off a label)
  unfolding offered
  button_unless-All true a label h = tt
  button_unless-All false a label h = (h refl, tt)

  pub labelled-Offers : (label : Text) (n : Node A) → Offers n → Offers (labelled label n)
  unfolding offered
  labelled-Offers label n h = All-append (offered n) [] h tt

  options-Offers : (os : List (Text × Text)) → All P (offered_all (nodes (options {A = A} os)))
  unfolding options offered
  options-Offers [] = tt
  options-Offers ((value, label) ∷ os) = options-Offers os

  pub select-Offers :
      (value : Text) (change : Text → A) (os : List (Text × Text)) → Offers (select value change os)
  unfolding select offered
  select-Offers value change os = options-Offers os
