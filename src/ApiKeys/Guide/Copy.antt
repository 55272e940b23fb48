-- ===== src/ApiKeys/Guide/Copy.antt =====
-- `CopyButton`: its label says `✓ Copied` for a while. Time goes by in milliseconds.
use ops_sys.Base.{
  ℕ, ◌+◌, ◌-◌, ◌≤◌, ◌<◌, ◌≡◌, refl, Bool, true, false, not, ◌&&◌, List, [], ◌∷◌, ◌++◌, arith, ltb,
  leb, if◌then◌else◌, ◌≢◌, Bool-cases, inl, inr, any, All, Option, none, some,
}
use ops_sys.Base.Text.{Text}

-- The state of the button, the clipboard, and the time that each `setTimeout` has left.
pub record CopyButton : Type 0 where
  pub copied : Bool
  pub clipboard : Option Text
  pub timeouts : List ℕ

abbrev pub shown : CopyButton
shown = record { copied = false; clipboard = none; timeouts = [] }

-- `copy`; no earlier timeout is cleared.
unfoldable pub copy : Text → CopyButton → CopyButton
copy text b = record b { copied = true; clipboard = some text; timeouts = b.timeouts ++ 2000 ∷ [] }

-- Those of the timeouts that do not end within `d`, with the time that they have left then.
unfoldable pub remaining : ℕ → List ℕ → List ℕ
remaining d [] = []
remaining d (t ∷ ts) = let rest = remaining d ts in if leb t d then rest else (t - d) ∷ rest

-- `d` milliseconds go by: each timeout that ends sets `copied` to false.
unfoldable pub elapses : ℕ → CopyButton → CopyButton
unfolding remaining
elapses d b = record b {
  copied = b.copied && not (any (λ t. leb t d) b.timeouts);
  timeouts = remaining d b.timeouts;
}

pub data Event : Type 0 where
  clicks : Text → Event
  waits : ℕ → Event

abbrev pub after : CopyButton → Event → CopyButton
after b (clicks text) = copy text b
after b (waits d) = elapses d b

abbrev pub run : CopyButton → List Event → CopyButton
run b [] = b
run b (e ∷ es) = run (after b e) es

-- The text of the last click.
abbrev pub last_clicked : Option Text → List Event → Option Text
last_clicked o [] = o
last_clicked o (clicks text ∷ es) = last_clicked (some text) es
last_clicked o (waits d ∷ es) = last_clicked o es

clipboard-run :
    (b : CopyButton) (es : List Event) → (run b es).clipboard ≡ last_clicked b.clipboard es
unfolding copy elapses
clipboard-run b [] = refl
clipboard-run b (clicks text ∷ es) = clipboard-run (copy text b) es
clipboard-run b (waits d ∷ es) = clipboard-run (elapses d b) es

-- Every timeout ends within two seconds, and one is pending while the label says `✓ Copied`.
pub record IsFading (b : CopyButton) : Type 0 where
  pub soon : All (λ t. t ≤ 2000) b.timeouts
  pub pending : b.copied ≡ true → b.timeouts ≢ []

All-snoc : (ts : List ℕ) → All (λ t. t ≤ 2000) ts → All (λ t. t ≤ 2000) (ts ++ 2000 ∷ [])
All-snoc [] h = (omega arith, tt)
All-snoc (t ∷ ts) h = (h.0, All-snoc ts h.1)

snoc_nonempty : (ts : List ℕ) (t : ℕ) → ts ++ t ∷ [] ≢ []
snoc_nonempty [] t e = cc
snoc_nonempty (u ∷ ts) t e = cc

remaining-soon :
    (d : ℕ) (ts : List ℕ) → All (λ t. t ≤ 2000) ts → All (λ t. t ≤ 2000) (remaining d ts)
unfolding remaining
remaining-soon d [] h = tt
remaining-soon d (t ∷ ts) h = ground (arith, remaining-soon d ts h.1)

-- If no timeout ends, all are still pending.
remaining_nonempty :
    (d : ℕ) (ts : List ℕ) → any (λ t. leb t d) ts ≡ false → ts ≢ [] → remaining d ts ≢ []
unfolding remaining
remaining_nonempty d [] h k e = k refl
remaining_nonempty d (t ∷ ts) h k e = ground arith

after-IsFading : (b : CopyButton) (e : Event) → IsFading b → IsFading (after b e)
unfolding copy elapses
after-IsFading b (clicks text) h = record {
  soon = All-snoc b.timeouts h.soon;
  pending = λ _. snoc_nonempty b.timeouts 2000;
}
after-IsFading b (waits d) h = record {
  soon = remaining-soon d b.timeouts h.soon;
  pending = λ e. remaining_nonempty d b.timeouts (ground arith) (h.pending (ground arith));
}

run-IsFading : (b : CopyButton) (es : List Event) → IsFading b → IsFading (run b es)
run-IsFading b [] h = h
run-IsFading b (e ∷ es) h = run-IsFading (after b e) es (after-IsFading b e h)

any_ended :
    (d : ℕ) (ts : List ℕ)
    → 2000 ≤ d
    → All (λ t. t ≤ 2000) ts
    → ts ≢ []
    → any (λ t. leb t d) ts ≡ true
any_ended d [] l h k = absurd (k refl)
any_ended d (t ∷ ts) l h k = ground (arith, h.0)

none_remain : (d : ℕ) (ts : List ℕ) → 2000 ≤ d → All (λ t. t ≤ 2000) ts → remaining d ts ≡ []
unfolding remaining
none_remain d [] l h = refl
none_remain d (t ∷ ts) l h = ground (arith, h.0, none_remain d ts l h.1)

fades : (b : CopyButton) (d : ℕ) → 2000 ≤ d → IsFading b → (elapses d b).copied ≡ false
unfolding elapses
fades b d l h = elim (Bool-cases b.copied) [
  | inl on ↦ rw (on, any_ended d b.timeouts l h.soon (h.pending on)) refl
  | inr off ↦ rw off refl
]

-- Whatever was clicked and however long ago, two seconds after it the label is back and no timeout
-- is left, and the clipboard has the text of the last click. But a click does not clear the timeout
-- of the one before: after two clicks `a` milliseconds apart, the label is back as soon as two
-- seconds have gone by since the first.
pub copied-run :
    (es : List Event) (d a b : ℕ) (t u : Text)
    → 2000 ≤ d
    → a < 2000
    → ((elapses d (run shown es)).copied ≡ false)
      × ((elapses d (run shown es)).timeouts ≡ [])
      × ((elapses d (run shown es)).clipboard ≡ last_clicked none es)
      × ((run shown (clicks t ∷ waits a ∷ clicks u ∷ waits b ∷ [])).copied ≡ ltb (a + b) 2000)
copied-run es d a b t u l h = (
  fades (run shown es) d l (run-IsFading shown es start),
  unfold elapses in none_remain d (run shown es).timeouts l (run-IsFading shown es start).soon,
  unfold elapses in clipboard-run shown es,
  unfold elapses copy remaining in ground arith,
)
  where
    start : IsFading shown
    start = record { soon = tt; pending = λ e. cc }
