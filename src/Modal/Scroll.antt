-- ===== src/Modal/Scroll.antt =====
-- Whether the page below the dialogs scrolls.
use ops_sys.Base.{
  ℕ, suc, ◌+◌, ◌≤◌, ◌≡◌, refl, Bool, true, false, ◌&&◌, not, List, [], ◌∷◌, if◌then◌else◌, any,
  arith, ltb,
}
use ops_sys.Modal.{Change, clean_up, effect, clean_all, effect_all, commit}

abbrev pub count : (Change → Bool) → List Change → ℕ
count p [] = 0
count p (c ∷ cs) = if p c then suc (count p cs) else count p cs

abbrev opens : Change → Bool
opens c = not c.was_open && c.is_open

abbrev closes : Change → Bool
closes c = c.was_open && not c.is_open

abbrev keeps : Change → Bool
keeps c = c.was_open && c.is_open

count-was : (cs : List Change) → count (λ c. c.was_open) cs ≡ count closes cs + count keeps cs
count-was [] = refl
count-was (c ∷ cs) = ground (arith, count-was cs)

count-is : (cs : List Change) → count (λ c. c.is_open) cs ≡ count opens cs + count keeps cs
count-is [] = refl
count-is (c ∷ cs) = ground (arith, count-is cs)

any-count : (p : Change → Bool) (cs : List Change) → any p cs ≡ ltb 0 (count p cs)
any-count p [] = refl
any-count p (c ∷ cs) = ground (arith, any-count p cs)

cleaned :
    (cs : List Change) (hidden : Bool)
    → clean_all cs hidden ≡ (if ltb 0 (count opens cs + count closes cs) then false else hidden)
unfolding clean_all clean_up
cleaned [] hidden = refl
cleaned (c ∷ cs) hidden = ground (arith, cleaned cs (clean_up c hidden))

effected :
    (cs : List Change) (hidden : Bool)
    → effect_all cs hidden ≡ (if ltb 0 (count opens cs) then true else hidden)
unfolding effect_all effect
effected [] hidden = refl
effected (c ∷ cs) hidden = ground (arith, effected cs (effect c hidden))

-- As long as at most one dialog is open before a commit and after it, the page below does not scroll
-- exactly while one is open, whichever opens or closes, one in the place of another included.
pub commit-any :
    (cs : List Change) (hidden : Bool)
    → count (λ c. c.was_open) cs ≤ 1
    → count (λ c. c.is_open) cs ≤ 1
    → hidden ≡ any (λ c. c.was_open) cs
    → commit cs hidden ≡ any (λ c. c.is_open) cs
unfolding commit
commit-any cs hidden before after same =
    rw
      (
        any-count (λ c. c.is_open) cs,
        effected cs (clean_all cs hidden),
        cleaned cs hidden,
        same,
        any-count (λ c. c.was_open) cs,
        count-was cs,
        count-is cs,
      )
      (ground (arith, before, after, count-was cs, count-is cs))
