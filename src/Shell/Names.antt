-- ===== src/Shell/Names.antt =====
-- The initials of the user, and the titles of the pages.
use ops_sys.Base.{
  ℕ, Bool, true, false, ◌≡◌, refl, ◌∙◌, ap, Option, none, some, [], ◌∷◌, ◌++◌, arith, if◌then◌else◌,
  ◌==◌, take, ◌&&◌, not,
}
use ops_sys.Base.Text.{
  Text, codes, is_blank, is_space, split, cons_head, nth, starts_with, lacks, split-lacks,
  split-append,
}
use ops_sys.Shell.{is_separator, split_runs, units_of, get_initials, page_title}

split-before : (c : ℕ) (s t : Text) → lacks c s ≡ true → nth (split c (s ++ c ∷ t)) 0 ≡ some s
split-before c s t h = ap (λ parts. nth parts 0) (split-append c s t h)

-- The title over the page of a project is its name as the address gives it, decoded, for each name
-- that is not empty and holds no slash; with no name it is `Project`.
pub page_title-project :
    (decode : Text → Option Text) (name : Text)
    → lacks b'/' name ≡ true
    → page_title decode (codes "/projects/" ++ name)
      ≡ (if is_blank name then some (codes "Project") else decode name)
unfolding page_title starts_with split
page_title-project decode name h = rw (split-lacks b'/' name h) refl

-- Neither a separator of the initials nor the sign before the domain.
abbrev pub plain : Text → Bool
plain [] = true
plain (c ∷ s) = not (is_separator c) && not (c == b'@') && plain s

plain-lacks : (s : Text) → plain s ≡ true → lacks b'@' s ≡ true
plain-lacks [] h = refl
plain-lacks (c ∷ s) h = ground (arith, plain-lacks s)

lacks-append : (c : ℕ) (s t : Text) → lacks c s ≡ true → lacks c t ≡ true → lacks c (s ++ t) ≡ true
lacks-append c [] t h k = k
lacks-append c (x ∷ s) t h k = ground (arith, lacks-append c s t)

split_runs-plain : (going : Bool) (s : Text) → plain s ≡ true → split_runs going s ≡ s ∷ []
unfolding split_runs
split_runs-plain going [] h = refl
split_runs-plain going (c ∷ s) h = ground (arith, split_runs-plain (is_separator c) s)

plain-head : (c : ℕ) (s : Text) → plain (c ∷ s) ≡ true → (is_separator c ≡ false) × (plain s ≡ true)
plain-head c s h = ground arith

split_runs-separator :
    (s t : Text) (c : ℕ)
    → plain s ≡ true
    → is_separator c ≡ true
    → split_runs false (s ++ c ∷ t) ≡ s ∷ split_runs true t
unfolding split_runs
split_runs-separator [] t c h k = rw k refl
split_runs-separator (x ∷ s) t c h k =
    let e : is_separator x ≡ false = (plain-head x s h).0 in
    rw e (ap (cons_head x) (split_runs-separator s t c (plain-head x s h).1 k))

not_at : (c : ℕ) → is_separator c ≡ true → (c == b'@') ≡ false
unfolding is_space
not_at c h = ground arith

lacks-join :
    (p t : Text) (separator : ℕ)
    → plain p ≡ true
    → plain t ≡ true
    → is_separator separator ≡ true
    → lacks b'@' (p ++ separator ∷ t) ≡ true
lacks-join p t separator hp ht hs =
    lacks-append b'@' p (separator ∷ t) (plain-lacks p hp)
      (rw (not_at separator hs) (plain-lacks t ht))

-- What `getInitials` makes of the part of an address before the sign.
initials-of_name :
    (name domain : Text) (sub : Option Text)
    → lacks b'@' name ≡ true
    → get_initials (some (name ++ b'@' ∷ domain)) sub ≡ units_of name (split_runs false name)
unfolding get_initials
initials-of_name name domain sub h = rw (split-before b'@' name domain h) refl

-- An address of two plain words joined by a separator gives their first units; one of a single
-- plain word gives its first two, or fewer if there are no more.
pub get_initials_lem :
    (p q domain : Text) (c d separator : ℕ) (sub : Option Text)
    → plain (c ∷ p) ≡ true
    → plain (d ∷ q) ≡ true
    → is_separator separator ≡ true
    → (get_initials (some ((c ∷ p ++ separator ∷ d ∷ q) ++ b'@' ∷ domain)) sub ≡ some (c ∷ d ∷ []))
      × (get_initials (some ((c ∷ p) ++ b'@' ∷ domain)) sub ≡ some (take 2 (c ∷ p)))
get_initials_lem p q domain c d separator sub hp hq hs = (
  initials-of_name (c ∷ p ++ separator ∷ d ∷ q) domain sub
        (lacks-join (c ∷ p) (d ∷ q) separator hp hq hs)
      ∙ ap (units_of (c ∷ p ++ separator ∷ d ∷ q)) (
          split_runs-separator (c ∷ p) (d ∷ q) separator hp hs
          ∙ ap (◌∷◌ (c ∷ p)) (split_runs-plain true (d ∷ q) hq)),
  initials-of_name (c ∷ p) domain sub (plain-lacks (c ∷ p) hp)
      ∙ ap (units_of (c ∷ p)) (split_runs-plain false (c ∷ p) hp),
)

-- An address whose name begins or ends with a separator gives the word `undefined` beside a unit,
-- and one whose name is a separator alone makes the function throw.
pub get_initials-edge :
    (p domain : Text) (c separator : ℕ) (sub : Option Text)
    → plain (c ∷ p) ≡ true
    → is_separator separator ≡ true
    → (get_initials (some ((separator ∷ c ∷ p) ++ b'@' ∷ domain)) sub
        ≡ some (codes "undefined" ++ c ∷ []))
      × (get_initials (some ((c ∷ p ++ separator ∷ []) ++ b'@' ∷ domain)) sub
          ≡ some (c ∷ codes "undefined"))
      × (get_initials (some ((separator ∷ []) ++ b'@' ∷ domain)) sub ≡ none)
get_initials-edge p domain c separator sub hp hs = (
  initials-of_name (separator ∷ c ∷ p) domain sub (lacks-join [] (c ∷ p) separator refl hp hs)
      ∙ ap (units_of (separator ∷ c ∷ p)) (
          split_runs-separator [] (c ∷ p) separator refl hs
          ∙ ap (◌∷◌ []) (split_runs-plain true (c ∷ p) hp)),
  initials-of_name (c ∷ p ++ separator ∷ []) domain sub (lacks-join (c ∷ p) [] separator hp refl hs)
      ∙ ap (units_of (c ∷ p ++ separator ∷ [])) (
          split_runs-separator (c ∷ p) [] separator hp hs
          ∙ ap (◌∷◌ (c ∷ p)) (split_runs-plain true [] refl)),
  initials-of_name (separator ∷ []) domain sub (lacks-join [] [] separator refl refl hs)
      ∙ ap (units_of (separator ∷ [])) (
          split_runs-separator [] [] separator refl hs
          ∙ ap (◌∷◌ []) (split_runs-plain true [] refl)),
)
