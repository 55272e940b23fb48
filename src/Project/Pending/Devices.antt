-- ===== src/Project/Pending/Devices.antt =====
-- The spinner and the devices of the page while requests are under way.
use ops_sys.Base.{
  ℕ, ◌+◌, ◌≤◌, Bool, true, false, ◌&&◌, ◌||◌, not, Option, none, some, List, [], ◌∷◌, ◌⊎◌, inl, inr,
  if_holds, bit, bit_le, ◌≡◌, refl, ap, ◌∙◌, arith,
}
use ops_sys.Base.Text.{Text, trim, is_blank}
use ops_sys.Server.{answered, failed}
use ops_sys.Calls.{answer, sum, Change, IsLocal, After, answer-After}
use ops_sys.Project.{Page, View, spinner, error_view, panel, view}
use ops_sys.Project.Pending.{
  Call, loading, adding, reloading, Reply, lists, provisions, Front, Live, ask_devices, navigate,
  mounted, listed, respond, receive, begin_add, form_shown, try_add, press_enter, press_add,
  press_retry, Edit, shows_add, closes_add, picks_tab, types_name, types_type, types_region, edit,
  Event, enters, adds, retries, goes, edits, receives, after, run,
}

-- The loads that stop the spinner and nothing else.
abbrev pub load_call : Call → ℕ
load_call (loading n) = 1
load_call (adding n) = 0
load_call (reloading n) = 0

abbrev pub loads_of : List Call → ℕ
loads_of = sum load_call

abbrev pub is_named : Option Text → Bool
is_named none = false
is_named (some n) = not (is_blank n)

-- An answer stops the spinner or takes no load away, and leaves the name.
abbrev Spins : Change Front
Spins p n q m =
    (q.page.name ≡ p.page.name)
    × ((bit q.page.loading ≡ 0) ⊎ (bit q.page.loading + n ≤ bit p.page.loading + m))

Spins-IsLocal : IsLocal Spins
Spins-IsLocal p q n n' m k k' (e, inl z) f g = (e, inl z)
Spins-IsLocal p q n n' m k k' (e, inr l) f g = (e, inr (omega (arith, l, f, g)))

respond-Spins :
    (reply : Reply) (c : Call) (f : Front)
    → After Spins load_call f (load_call c) (respond reply c f)
unfolding respond listed
respond-Spins (lists (answered d)) (loading n) f = (refl, inl refl)
respond-Spins (lists (failed m)) (loading n) f = (refl, inl refl)
respond-Spins (lists (answered d)) (reloading n) f = (refl, inl refl)
respond-Spins (lists (failed m)) (reloading n) f = (refl, inl refl)
respond-Spins (provisions (answered r)) (adding n) f = (refl, inr (omega arith))
respond-Spins (provisions (failed m)) (adding n) f = (refl, inr (omega arith))
respond-Spins (lists l) (adding n) f = tt
respond-Spins (provisions (answered r)) (loading n) f = tt
respond-Spins (provisions (failed m)) (loading n) f = tt
respond-Spins (provisions (answered r)) (reloading n) f = tt
respond-Spins (provisions (failed m)) (reloading n) f = tt

pub record IsPending (s : Live) : Type 0 where
  pub named : is_named s.front.page.name ≡ true
  pub spins : bit s.front.page.loading ≤ loads_of s.calls

receive-IsPending : (i : ℕ) (reply : Reply) (s : Live) → IsPending s → IsPending (receive i reply s)
unfolding receive
receive-IsPending i reply s h = go (answer (respond reply) i s.front s.calls) (
    answer-After Spins Spins-IsLocal load_call (respond reply) (respond-Spins reply) i s.front
      s.calls)
  where
    go :
        (o : Option (Front × List Call))
        → After Spins load_call s.front (loads_of s.calls) o
        → IsPending (elim o [ none ↦ s | some r ↦ record { front = r.0; calls = r.1 } ])
    go none a = h
    go (some r) (e, inl z) = record { named = ap is_named e ∙ h.named; spins = omega (arith, z) }
    go (some r) (e, inr l) = record {
      named = ap is_named e ∙ h.named;
      spins = omega (arith, l, h.spins);
    }

-- A load for a name begins.
ask_devices-IsPending :
    (name : Option Text) (s : Live)
    → is_named name ≡ true
    → s.front.page.name ≡ name
    → IsPending (ask_devices name s)
ask_devices-IsPending none s g e = let no : ⊥ = ground arith in elim no [ ]
ask_devices-IsPending (some n) s g e =
    if_holds IsPending (is_blank n) (λ b. let no : ⊥ = ground arith in elim no [ ])
      (λ b. record {
        named = ap is_named e ∙ g;
        spins = omega (arith, bit_le s.front.page.loading);
      })

-- A handler that leaves the name, the spinner and the loads.
keeps-IsPending :
    (s t : Live)
    → t.front.page.name ≡ s.front.page.name
    → t.front.page.loading ≡ s.front.page.loading
    → loads_of t.calls ≡ loads_of s.calls
    → IsPending s
    → IsPending t
keeps-IsPending s t n l c h = record {
  named = ap is_named n ∙ h.named;
  spins = omega (arith, ap bit l, c, h.spins);
}

try_add-IsPending : (o : Option Text) (s : Live) → IsPending s → IsPending (try_add o s)
unfolding begin_add
try_add-IsPending none s h = h
try_add-IsPending (some n) s h =
    if_holds IsPending (is_blank n || is_blank (trim s.front.page.dev_name)) (λ _. h)
      (λ _. keeps-IsPending s _ refl refl (omega arith) h)

edit-IsPending :
    (e : Edit) (s : Live)
    → IsPending s
    → IsPending (record s { front = record s.front { page = edit e s.front.page } })
unfolding edit
edit-IsPending shows_add s h = keeps-IsPending s _ refl refl refl h
edit-IsPending closes_add s h = keeps-IsPending s _ refl refl refl h
edit-IsPending (picks_tab t) s h = keeps-IsPending s _ refl refl refl h
edit-IsPending (types_name t) s h = keeps-IsPending s _ refl refl refl h
edit-IsPending (types_type t) s h = keeps-IsPending s _ refl refl refl h
edit-IsPending (types_region t) s h = keeps-IsPending s _ refl refl refl h

press_retry-IsPending : (s : Live) → IsPending s → IsPending (press_retry s)
unfolding press_retry
press_retry-IsPending s h = go (view s.front.page)
  where
    go :
        (v : View)
        → IsPending (elim v [
          | spinner ↦ s
          | panel ↦ s
          | error_view t ↦ ask_devices s.front.page.name (record s {
            front = record s.front { page = record s.front.page { error = []; loading = true } };
          })
        ])
    go spinner = h
    go panel = h
    go (error_view t) = ask_devices-IsPending s.front.page.name _ h.named refl

-- The router gives a name that is not empty.
abbrev pub IsRouted : Event → Type 0
IsRouted (goes name) = is_named name ≡ true
IsRouted e = Unit

abbrev pub AreRouted : List Event → Type 0
AreRouted [] = Unit
AreRouted (e ∷ es) = IsRouted e × AreRouted es

after-IsPending : (s : Live) (e : Event) → IsRouted e → IsPending s → IsPending (after s e)
unfolding after press_enter press_add navigate
after-IsPending s enters g h =
    if_holds IsPending (form_shown s.front.page) (λ _. try_add-IsPending s.front.page.name s h)
      (λ _. h)
after-IsPending s adds g h =
    if_holds IsPending
      (form_shown s.front.page
        && not (s.front.page.adding || is_blank (trim s.front.page.dev_name)))
      (λ _. try_add-IsPending s.front.page.name s h) (λ _. h)
after-IsPending s retries g h = press_retry-IsPending s h
after-IsPending s (goes name) g h = ask_devices-IsPending name _ g refl
after-IsPending s (edits e) g h = edit-IsPending e s h
after-IsPending s (receives i reply) g h = receive-IsPending i reply s h

run-IsPending : (s : Live) (es : List Event) → AreRouted es → IsPending s → IsPending (run s es)
run-IsPending s [] g h = h
run-IsPending s (e ∷ es) g h = run-IsPending (after s e) es g.1 (after-IsPending s e g.0 h)

view-spinner : (p : Page) → view p ≡ spinner → bit p.loading ≡ 1
unfolding view
view-spinner p v = ground arith

-- Whatever happens to the page of a project with a name, changes to other such projects and answers
-- in any order included: while it shows the spinner, a load of devices is under way, of the effect or
-- of `Retry`.
pub run-mounted_spinner :
    (name : Option Text) (es : List Event)
    → is_named name ≡ true
    → AreRouted es
    → view (run (mounted name) es).front.page ≡ spinner
    → 1 ≤ loads_of (run (mounted name) es).calls
run-mounted_spinner name es g r v =
    let h = run-IsPending (mounted name) es r (ask_devices-IsPending name _ g refl) in
    omega (arith, h.spins, view-spinner (run (mounted name) es).front.page v)
