-- ===== src/Modal/Tests.antt =====
-- One dialog in the place of another.
use ops_sys.Base.{true, false, ◌≡◌, refl, any, arith, List, [], ◌∷◌}
use ops_sys.Modal.{Change, commit, clean_all, effect_all, clean_up, effect}
use ops_sys.Modal.Scroll.{commit-any}

abbrev swap : List Change
swap =
    record { was_open = true; is_open = false } ∷ record { was_open = false; is_open = true } ∷ []

commit-any_example : commit swap true ≡ any (λ c. c.is_open) swap
commit-any_example = commit-any swap true (omega arith) (omega arith) refl

-- Two dialogs are open and one of them closes: the page scrolls below the other.
scrolls_below :
    commit
      (record { was_open = true; is_open = true }
        ∷ record { was_open = true; is_open = false }
        ∷ [])
      true
    ≡ false
unfolding commit clean_all effect_all clean_up effect
scrolls_below = refl
