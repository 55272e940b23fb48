-- ===== src/Home/Pending/Form.antt =====
-- How many requests the form sends, by its button and by the key Enter.
use ops_sys.Base.{
  ℕ, zero, suc, ◌+◌, ◌≤◌, true, false, ◌&&◌, ◌||◌, not, List, [], ◌∷◌, ◌++◌, ◌≡◌, refl, ap, ◌∙◌,
  arith, ltb, if_holds, and_not-false, or-false,
}
use mathlib.Core.List.{append_assoc}
use ops_sys.Base.Text.{trim, is_blank}
use ops_sys.Fleet.{Project}
use ops_sys.Auth.{is_admin}
use ops_sys.Server.{Answer, answered, failed}
use ops_sys.Home.{Sessions, Page, Devices, load, close_create}
use ops_sys.Home.Form.{creation, or_else-blank}
use ops_sys.Home.Pending.{
  Live, mounted, begin_create, form_shown, press_enter, press_create, creation_answer, first_answer,
  reload_answer, type_name, type_display_name, press_new, press_cancel, Event, enters, creates,
  opens, closes, cancels, names, names_display, first, reload, after, run,
}

-- One call of the form at most, and `creating` holds exactly while there is one.
pub record IsSingle (s : Live) : Type 0 where
  pub one : s.creations + s.reloads ≤ 1
  pub shown : s.page.creating ≡ ltb 0 (s.creations + s.reloads)

-- The key Enter is not used.
abbrev pub IsByButton : Event → Type 0
IsByButton enters = ⊥
IsByButton e = Unit

abbrev pub ByButton : List Event → Type 0
ByButton [] = Unit
ByButton (e ∷ es) = IsByButton e × ByButton es

press_create-IsSingle : (s : Live) → IsSingle s → IsSingle (press_create s)
unfolding press_create begin_create
press_create-IsSingle s h =
    if_holds IsSingle
      (form_shown s.page && not (s.page.creating || is_blank (trim s.page.new_name)))
      (λ e.
        let free : s.page.creating ≡ false =
          or-false s.page.creating (is_blank (trim s.page.new_name)) (
            and_not-false (form_shown s.page) (s.page.creating || is_blank (trim s.page.new_name))
              e) in
        if_holds IsSingle (is_blank (trim s.page.new_name)) (λ _. h)
          (λ _. record { one = let w = h.shown in grind arith; shown = ground arith }))
      (λ _. h)

creation_answer-IsSingle :
    (created : Answer Project) (s : Live) → IsSingle s → IsSingle (creation_answer created s)
unfolding creation_answer
creation_answer-IsSingle (answered p) s h =
    if_holds IsSingle (ltb 0 s.creations)
      (λ e. record {
        one = let o = h.one in grind arith;
        shown = let o = h.one in let w = h.shown in grind arith;
      })
      (λ _. h)
creation_answer-IsSingle (failed m) s h =
    if_holds IsSingle (ltb 0 s.creations)
      (λ e. record { one = let o = h.one in grind arith; shown = let o = h.one in grind arith })
      (λ _. h)

load-creating :
    (listed : Answer (List Project)) (list_devices : Devices) (a : Sessions) (p : Page)
    → (load listed list_devices a p).creating ≡ p.creating
unfolding load
load-creating (answered ps) list_devices a p = refl
load-creating (failed m) list_devices a p = refl

first_answer-IsSingle :
    (listed : Answer (List Project)) (list_devices : Devices) (a : Sessions) (s : Live)
    → IsSingle s
    → IsSingle (first_answer listed list_devices a s)
unfolding first_answer
first_answer-IsSingle listed list_devices a s h =
    if_holds IsSingle (ltb 0 s.first_loads)
      (λ _. record { one = h.one; shown = load-creating listed list_devices a s.page ∙ h.shown })
      (λ _. h)

reload_answer-IsSingle :
    (listed : Answer (List Project)) (list_devices : Devices) (a : Sessions) (s : Live)
    → IsSingle s
    → IsSingle (reload_answer listed list_devices a s)
unfolding reload_answer
reload_answer-IsSingle listed list_devices a s h =
    if_holds IsSingle (ltb 0 s.reloads)
      (λ e. record { one = let o = h.one in grind arith; shown = let o = h.one in grind arith })
      (λ _. h)

after-IsSingle : (s : Live) (e : Event) → IsByButton e → IsSingle s → IsSingle (after s e)
unfolding after close_create press_cancel press_new type_name type_display_name
after-IsSingle s enters b h = elim b [ ]
after-IsSingle s creates b h = press_create-IsSingle s h
after-IsSingle s (opens a) b h =
    if_holds IsSingle (not s.page.loading && is_admin a)
      (λ _. record { one = h.one; shown = h.shown }) (λ _. h)
after-IsSingle s closes b h = record { one = h.one; shown = h.shown }
after-IsSingle s cancels b h = record { one = h.one; shown = h.shown }
after-IsSingle s (names t) b h =
    if_holds IsSingle (form_shown s.page) (λ _. record { one = h.one; shown = h.shown }) (λ _. h)
after-IsSingle s (names_display t) b h =
    if_holds IsSingle (form_shown s.page) (λ _. record { one = h.one; shown = h.shown }) (λ _. h)
after-IsSingle s (Event.creation created) b h = creation_answer-IsSingle created s h
after-IsSingle s (first listed list_devices a) b h = first_answer-IsSingle listed list_devices a s h
after-IsSingle s (reload listed list_devices a) b h =
    reload_answer-IsSingle listed list_devices a s h

run-IsSingle : (s : Live) (es : List Event) → ByButton es → IsSingle s → IsSingle (run s es)
run-IsSingle s [] b h = h
run-IsSingle s (e ∷ es) b h = run-IsSingle (after s e) es b.1 (after-IsSingle s e b.0 h)

-- While nobody uses the key Enter, whatever else happens and with the answers in any order: one call
-- of the form at most is under way, its creation or the load after it, and the form shows that it
-- is creating exactly while there is one.
pub run-ByButton :
    (es : List Event)
    → ByButton es
    → ((run mounted es).creations + (run mounted es).reloads ≤ 1)
      × ((run mounted es).page.creating
          ≡ ltb 0 ((run mounted es).creations + (run mounted es).reloads))
run-ByButton es b =
    let h = run-IsSingle mounted es b (record { one = omega arith; shown = refl }) in
    (h.one, h.shown)

module _ {ℓ} {A : Type ℓ} where
  abbrev pub copies : ℕ → A → List A
  copies zero x = []
  copies (suc n) x = x ∷ copies n x

press_enter-open :
    (s : Live)
    → form_shown s.page ≡ true
    → is_blank (trim s.page.new_name) ≡ false
    → press_enter s ≡ record s {
      page = record s.page { creating = true; create_error = [] };
      creations = suc s.creations;
      requests = s.requests ++ creation s.page ∷ [];
    }
unfolding press_enter begin_create
press_enter-open s shows full = rw (shows, full, or_else-blank) refl

-- An open form after `n` calls.
abbrev pub called : ℕ → Live → Live
called n s = record s {
  page = record s.page { creating = true; create_error = [] };
  creations = s.creations + n;
  requests = s.requests ++ copies n (creation s.page);
}

add_one : (a : ℕ) → a + 1 ≡ suc a
add_one a = omega arith

suc_add : (a b : ℕ) → suc a + b ≡ a + suc b
suc_add a b = omega arith

run-called :
    (n : ℕ) (s : Live)
    → form_shown s.page ≡ true
    → is_blank (trim s.page.new_name) ≡ false
    → run s (copies (suc n) enters) ≡ called (suc n) s
unfolding after
run-called zero s shows full = rw (run, press_enter-open s shows full, add_one s.creations) refl
run-called (suc n) s shows full =
    ap (λ t. run t (copies (suc n) enters)) (press_enter-open s shows full)
    ∙ run-called n _ shows full
    ∙ rw (append_assoc, suc_add s.creations (suc n)) refl

-- Each press of the key Enter in a form with a name sends the request once more, though one is under
-- way already: one press and `n` more have so many projects of this name created. The button sends
-- no more then.
pub run-enters :
    (n : ℕ) (s : Live)
    → form_shown s.page ≡ true
    → is_blank (trim s.page.new_name) ≡ false
    → (run s (copies (suc n) enters) ≡ called (suc n) s)
      × (press_create (run s (copies (suc n) enters)) ≡ called (suc n) s)
unfolding press_create
run-enters n s shows full =
    (run-called n s shows full, ap press_create (run-called n s shows full) ∙ rw shows refl)
