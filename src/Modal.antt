-- ===== src/Modal.antt =====
-- server/dashboard/src/components/Modal/Modal.tsx: the dialogs of a page, and the scrolling of the
-- page below them, `document.body.style.overflow`. A dialog that is mounted counts as one that was
-- closed; the pages unmount theirs together.
pub mod Scroll
pub mod Dialog
mod Tests
use ops_sys.Base.{Bool, true, false, ◌&&◌, ◌||◌, not, List, [], ◌∷◌, if◌then◌else◌, any}

-- A mounted dialog at a commit: whether it was open, and whether it is.
pub record Change : Type 0 where
  pub was_open : Bool
  pub is_open : Bool

-- The dependencies of its effect have changed.
abbrev pub changed : Change → Bool
changed c = if c.was_open then not c.is_open else c.is_open

-- The function that the effect returns: `overflow = ''`.
unfoldable pub clean_up : Change → Bool → Bool
clean_up c hidden = if changed c then false else hidden

-- The effect: `if (open) overflow = 'hidden'`.
unfoldable pub effect : Change → Bool → Bool
effect c hidden = if changed c && c.is_open then true else hidden

unfoldable pub clean_all : List Change → Bool → Bool
unfolding clean_up
clean_all [] hidden = hidden
clean_all (c ∷ cs) hidden = clean_all cs (clean_up c hidden)

unfoldable pub effect_all : List Change → Bool → Bool
unfolding effect
effect_all [] hidden = hidden
effect_all (c ∷ cs) hidden = effect_all cs (effect c hidden)

-- At a commit, all functions of the last effects run before the new effects.
unfoldable pub commit : List Change → Bool → Bool
unfolding clean_all effect_all
commit cs hidden = effect_all cs (clean_all cs hidden)
