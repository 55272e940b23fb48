-- ===== src/ApiKeys/Guide/Secret.antt =====
-- Where the guide has the key.
use mathlib.Core.List.{append_assoc}
use ops_sys.Base.{◌≡◌, refl, sym, ap, ◌∙◌, List, [], ◌∷◌, ◌++◌, take, drop, All, ◌⊎◌, inl, inr}
use ops_sys.Base.Text.{Text, codes}
use ops_sys.ApiKeys.Guide.{
  Tab, python, go, lines, env_block, python_quickstart, go_quickstart, install, quickstart,
  setup_guide,
}

-- The key stands in the code, between double quotes.
pub record Quotes (api_key code : Text) : Type 0 where
  pub before : Text
  pub after : Text
  pub split : code ≡ before ++ (b'"' ∷ (api_key ++ b'"' ∷ after))

Quotes-append : {k c : Text} (t : Text) → Quotes k c → Quotes k (c ++ t)
Quotes-append {k} {c} t q = record {
  before = q.before;
  after = q.after ++ t;
  split =
      ap (λ s. s ++ t) q.split
      ∙ append_assoc q.before (b'"' ∷ (k ++ b'"' ∷ q.after)) t
      ∙ ap (λ s. q.before ++ b'"' ∷ s) (append_assoc k (b'"' ∷ q.after) t);
}

Quotes-prepend : {k c : Text} (t : Text) → Quotes k c → Quotes k (t ++ c)
Quotes-prepend {k} {c} t q = record {
  before = t ++ q.before;
  after = q.after;
  split = ap (◌++◌ t) q.split ∙ sym (append_assoc t q.before (b'"' ∷ (k ++ b'"' ∷ q.after)));
}

-- A line of the code that quotes the key.
lines-Quotes :
    (k : Text) (ls : List Text) (l : Text) (ms : List Text)
    → Quotes k l
    → Quotes k (lines (ls ++ l ∷ ms))
lines-Quotes k [] l [] q = q
lines-Quotes k [] l (m ∷ ms) q = Quotes-append _ q
lines-Quotes k (h ∷ []) l ms q =
    Quotes-prepend h (Quotes-prepend (10 ∷ []) (lines-Quotes k [] l ms q))
lines-Quotes k (h ∷ i ∷ ls) l ms q =
    Quotes-prepend h (Quotes-prepend (10 ∷ []) (lines-Quotes k (i ∷ ls) l ms q))

quickstart-Quotes : (tab : Tab) (k : Text) → Quotes k (quickstart tab k).code
unfolding quickstart python_quickstart go_quickstart
quickstart-Quotes python k =
    lines-Quotes k (take 3 (python_quickstart k)) _ (drop 4 (python_quickstart k))
      (record { before = codes "    api_key="; after = codes ","; split = refl })
quickstart-Quotes go k =
    lines-Quotes k (take 9 (go_quickstart k)) _ (drop 10 (go_quickstart k))
      (record { before = codes "        APIKey:  "; after = codes ","; split = refl })

-- The guide shows the key itself, and whatever the language, every block of code but that of the
-- installation has the key between double quotes, for any key.
pub setup_guide-Quotes :
    (tab : Tab) (k : Text)
    → ((setup_guide tab k).key ≡ k)
      × All (λ b. Quotes k b.code ⊎ (b ≡ install tab)) (setup_guide tab k).blocks
unfolding setup_guide env_block
setup_guide-Quotes tab k = (
  refl,
  (
    inl (record { before = codes "export SYSTEMSCALE_API_KEY="; after = []; split = refl }),
    (inr refl, (inl (quickstart-Quotes tab k), tt)),
  ),
)
