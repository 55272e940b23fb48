-- ===== src/ApiKeys/Screen/Does.antt =====
-- What a handler of the page may do: an event of the page in ApiKeys/Pending.antt, or one of the guide.
use ops_sys.Base.{
  Bool, true, false, ◌≡◌, ◌&&◌, not, Option, none, some, List, [], ◌∷◌, ◌++◌, any, All, arith, ◌⊎◌,
}
use ops_sys.Base.Text.{Text, text_eq, text_eq_refl, is_blank}
use ops_sys.Fleet.{CreateKeyResponse}
use ops_sys.Markup.{text, div, offered}
use ops_sys.Markup.Clicks.{Offers, when-All}
use ops_sys.ApiKeys.{is_set}
use ops_sys.ApiKeys.Guide.{env_block, install, quickstart}
use ops_sys.ApiKeys.Pending.{
  Live, Event, opens_form, closes_form, dismisses, submits, asks_revoke, after,
}
use ops_sys.ApiKeys.Screen.{Fields, message}
use ops_sys.ApiKeys.Screen.Guide.{Act, runs, copies, opens_tab, GuideState}

-- A key of this id that is not revoked is listed.
abbrev pub IsActive : Live → Text → Type 0
IsActive s id = any (λ k. text_eq id k.id && not (is_set k.revoked_at)) s.page.keys ≡ true

-- The events that are a click on what the page shows, with what the user answers to `confirm`.
abbrev pub IsClick : (Text → Bool) → Fields → Live → Event → Type 0
IsClick confirm f s opens_form = Unit
IsClick confirm f s closes_form = Unit
IsClick confirm f s dismisses = Unit
IsClick confirm f s (submits name scopes) =
    (name ≡ f.name) × (scopes ≡ f.scopes) × (is_blank name ≡ false)
IsClick confirm f s (asks_revoke confirmed id) = (confirmed ≡ confirm id) × IsActive s id
IsClick confirm f s e = ⊥

-- The texts that the guide has for a key.
abbrev pub IsCopied : GuideState → Option CreateKeyResponse → Text → Type 0
IsCopied g none t = ⊥
IsCopied g (some k) t =
    any (text_eq t) (
      k.api_key
      ∷ env_block k.api_key
      ∷ (install g.tab).code
      ∷ (quickstart g.tab k.api_key).code
      ∷ [])
    ≡ true

-- What a handler does: nothing, a click on the page, or one on the guide.
abbrev pub Does : (Text → Bool) → GuideState → Fields → Live → Act → Type 0
Does confirm g f s (runs h) = (h s ≡ s) ⊎ ((e : Event) × IsClick confirm f s e × (h s ≡ after s e))
Does confirm g f s (copies t) = IsCopied g s.page.new_key t
Does confirm g f s (opens_tab t) = Unit

pub any_here : (t : Text) (xs ys : List Text) → any (text_eq t) (xs ++ t ∷ ys) ≡ true
any_here t [] ys = ground (arith, text_eq_refl t)
any_here t (x ∷ xs) ys = ground (arith, any_here t xs ys)

pub message-All : (P : Act → Type 0) (o : Option Text) → All (Offers P) (message o)
unfolding offered
message-All P none = tt
message-All P (some t) = when-All P (not (is_blank t)) (div (text t ∷ [])) (λ _. tt)

pub All-beside :
    (Q : Type 0) (P : Act → Type 0) (hs : List Act) → Q → All P hs → All (λ h. Q × P h) hs
All-beside Q P [] q a = tt
All-beside Q P (h ∷ hs) q a = ((q, a.0), All-beside Q P hs q a.1)
