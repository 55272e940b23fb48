-- ===== src/Base/Sets.antt =====
-- `Set<string>`: its members in the order of insertion.

use mathlib.Core.Path.{◌≡◌, refl, ◌∙◌}
use mathlib.Core.Bool.{Bool, true, false, ◌||◌}
use mathlib.Core.List.{List, [], ◌∷◌, ◌++◌}
use native.Mathlib.Omega.{arith}
use ops_sys.Base.Tests.{if◌then◌else◌}
use ops_sys.Base.Text.{Text, text_eq, text_eq_iff}

unfoldable pub has : Text → List Text → Bool
has k [] = false
has k (j ∷ s) = text_eq j k || has k s

unfoldable pub add : Text → List Text → List Text
add k [] = k ∷ []
add k (j ∷ s) = if text_eq j k then j ∷ s else j ∷ add k s

unfoldable pub delete : Text → List Text → List Text
delete k [] = []
delete k (j ∷ s) = if text_eq j k then delete k s else j ∷ delete k s

pub has-add :
    (k j : Text) (s : List Text) → has j (add k s) ≡ (if text_eq k j then true else has j s)
unfolding has add
has-add k j [] = ground arith
has-add k j (i ∷ s) =
    ground (arith, text_eq_iff i k, text_eq_iff i j, text_eq_iff k j, has-add k j s)

pub has-delete :
    (k j : Text) (s : List Text) → has j (delete k s) ≡ (if text_eq k j then false else has j s)
unfolding has delete
has-delete k j [] = ground arith
has-delete k j (i ∷ s) =
    ground (arith, text_eq_iff i k, text_eq_iff i j, text_eq_iff k j, has-delete k j s)

pub add_present : (k : Text) (s : List Text) → has k s ≡ true → add k s ≡ s
unfolding has add
add_present k [] h = ground arith
add_present k (j ∷ s) h = ground (arith, add_present k s)

pub add_absent : (k : Text) (s : List Text) → has k s ≡ false → add k s ≡ s ++ k ∷ []
unfolding has add
add_absent k [] h = refl
add_absent k (j ∷ s) h = ground (arith, add_absent k s)

pub delete_absent : (k : Text) (s : List Text) → has k s ≡ false → delete k s ≡ s
unfolding has delete
delete_absent k [] h = refl
delete_absent k (j ∷ s) h = ground (arith, delete_absent k s)

-- `new Set(ids)`, into a set that may have members already.
abbrev pub set_of : List Text → List Text → List Text
set_of s [] = s
set_of s (id ∷ ids) = set_of (add id s) ids

-- `v` is one of the ids.
abbrev pub is_one : Text → List Text → Bool
is_one v [] = false
is_one v (id ∷ ids) = text_eq id v || is_one v ids

pub has-set_of : (v : Text) (s ids : List Text) → has v (set_of s ids) ≡ (is_one v ids || has v s)
has-set_of v s [] = refl
has-set_of v s (id ∷ ids) = has-set_of v (add id s) ids ∙ ground (arith, has-add id v s)
