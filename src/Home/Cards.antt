-- ===== src/Home/Cards.antt =====
-- The cards of the page: what each says, and where a click on it leads.
use ops_sys.Base.{ℕ, true, false, ◌≡◌, refl, ◌∙◌, ◌==◌, Option, [], ◌∷◌, ◌++◌, if◌then◌else◌}
use ops_sys.Base.Text.{Text, codes, is_blank, lacks, split, split-append, starts_with}
use ops_sys.Shell.{page_title}
use ops_sys.Shell.Names.{page_title-project}
use ops_sys.Home.{Entry}

pub record Card : Type 0 where
  pub name : Text
  pub devices : Text
  pub link : Text

-- `/projects/${p.name}`, which `navigate` takes as it is.
unfoldable pub card_link : Entry → Text
card_link e = codes "/projects/" ++ e.project.name

-- The text of a number is an argument; the date is not shown.
unfoldable pub card : (ℕ → Text) → Entry → Card
unfolding card_link
card decimal e = record {
  name = if is_blank e.project.display_name then e.project.name else e.project.display_name;
  devices =
      decimal e.device_count
      ++ (codes " device" ++ (if e.device_count == 1 then [] else codes "s"));
  link = card_link e;
}

-- The entry with another name.
abbrev pub named : Text → Entry → Entry
named name e = record e { project = record e.project { name = name } }

title-slash :
    (decode : Text → Option Text) (a b : Text)
    → lacks b'/' a ≡ true
    → is_blank a ≡ false
    → page_title decode (codes "/projects/" ++ (a ++ b'/' ∷ b)) ≡ decode a
unfolding page_title starts_with split
title-slash decode a b h given = rw (split-append b'/' a b h, given) refl

-- A click on the card of a project leads to a page whose title is its name, decoded, if there is no
-- slash in it, and what stands before the first slash, decoded, if there is one. The name is not
-- encoded on the way, so where decoding changes it or throws, the page has another title or none.
pub page_title-card_link :
    (decode : Text → Option Text) (e : Entry) (a b : Text)
    → lacks b'/' a ≡ true
    → is_blank a ≡ false
    → (page_title decode (card_link (named a e)) ≡ decode a)
      × (page_title decode (card_link (named (a ++ b'/' ∷ b) e)) ≡ decode a)
unfolding card_link
page_title-card_link decode e a b h given =
    (page_title-project decode a h ∙ rw given refl, title-slash decode a b h given)
