-- ===== src/ApiKeys/Pending.antt =====
-- The page of pages/ApiKeys/ApiKeysPage.tsx while its requests are under way: each handler is cut
-- where it awaits, so that its answer may come after other events, and in any order. Each form that
-- is mounted has a number; the state of one that is not mounted any more is not read.
pub mod Forms
pub mod Secret
use ops_sys.Base.{
  ℕ, suc, ◌-◌, ◌+◌, Bool, true, false, ◌&&◌, not, none, some, List, [], ◌∷◌, ◌++◌, Option, ◌==◌,
  if◌then◌else◌, ltb,
}
use ops_sys.Base.Text.{Text}
use ops_sys.Fleet.{ApiKey, CreateKeyResponse}
use ops_sys.Http.{Request}
use ops_sys.Http.Requests.{list_keys, create_key, revoke_key}
use ops_sys.Server.{Answer, answered, failed}
use ops_sys.ApiKeys.{Page, opened, load, parse_scopes, dismiss}

-- The calls that await their answer: `createKey` by the number of its form, and how many of
-- `listKeys` and `revokeKey`.
pub record Live : Type 0 where
  pub page : Page
  pub form_id : ℕ
  pub creations : List ℕ
  pub listings : ℕ
  pub revocations : ℕ
  pub requests : List Request

-- The first load begins when the page is mounted.
abbrev pub mounted : Live
mounted = record {
  page = opened;
  form_id = 0;
  creations = [];
  listings = 1;
  revocations = 0;
  requests = list_keys ∷ [];
}

abbrev pub count : ℕ → List ℕ → ℕ
count f [] = 0
count f (g ∷ gs) = (if f == g then 1 else 0) + count f gs

-- The list without the first `f`.
unfoldable pub remove : ℕ → List ℕ → List ℕ
remove f [] = []
remove f (g ∷ gs) = let rest = remove f gs in if f == g then gs else g ∷ rest

-- A form that is open already stays.
unfoldable pub open_form : Live → Live
open_form s = if s.page.show_create then s else record s {
  page = record s.page { show_create = true; form_loading = false; form_error = none };
  form_id = suc s.form_id;
}

unfoldable pub close_form : Live → Live
close_form s = record s { page = record s.page { show_create = false } }

-- `submit` up to its `await`. The button of the form is disabled while it is loading.
unfoldable pub send_form : Text → Text → Live → Live
unfolding parse_scopes
send_form name scopes s =
    if s.page.show_create && not s.page.form_loading
    then record s {
      page = record s.page { form_loading = true; form_error = none };
      creations = s.form_id ∷ s.creations;
      requests =
          s.requests
          ++ create_key (record { name = name; scopes = parse_scopes scopes; expires_at = none })
            ∷ [];
    }
    else s

unfoldable pub begin_load : Live → Live
begin_load s = record s { listings = suc s.listings; requests = s.requests ++ list_keys ∷ [] }

-- A change of the state of the form `f`, which nobody reads if another one was mounted since.
unfoldable pub set_form : ℕ → (Page → Page) → Live → Live
set_form f change s = if f == s.form_id then record s { page = change s.page } else s

-- `submit` from its `await` on, for the form `f`. `onCreated` and `onClose` are the page's, whichever
-- form is open.
unfoldable pub creation_answer : ℕ → Answer CreateKeyResponse → Live → Live
unfolding begin_load set_form
creation_answer f created s =
    if ltb 0 (count f s.creations)
    then elim created [
      | answered k ↦
          set_form f (λ p. record p { form_loading = false })
            (begin_load (record s {
              page = record s.page { new_key = some k; show_create = false };
              creations = remove f s.creations;
            }))
      | failed e ↦
          set_form f (λ p. record p { form_error = some e; form_loading = false })
            (record s { creations = remove f s.creations })
    ]
    else s

-- `load` from its `await` on.
unfoldable pub listing_answer : Answer (Option (List ApiKey)) → Live → Live
unfolding load
listing_answer listed s =
    if ltb 0 s.listings
    then record s { page = load listed s.page; listings = s.listings - 1 }
    else s

-- `revoke` up to its first `await`, with the answer of `confirm`.
unfoldable pub begin_revoke : Bool → Text → Live → Live
begin_revoke confirmed id s =
    if confirmed
    then record s { revocations = suc s.revocations; requests = s.requests ++ revoke_key id ∷ [] }
    else s

-- A failed call is an exception that nobody catches.
unfoldable pub revocation_answer : Answer (Unit {0}) → Live → Live
unfolding begin_load
revocation_answer revoked s =
    if ltb 0 s.revocations
    then elim revoked [
      | answered _ ↦ begin_load (record s { revocations = s.revocations - 1 })
      | failed _ ↦ record s { revocations = s.revocations - 1 }
    ]
    else s

-- What can happen, in any order; an answer to a call that is not under way changes nothing.
pub data Event : Type 0 where
  opens_form closes_form dismisses : Event
  submits : Text → Text → Event
  creates : ℕ → Answer CreateKeyResponse → Event
  lists : Answer (Option (List ApiKey)) → Event
  asks_revoke : Bool → Text → Event
  revokes : Answer (Unit {0}) → Event

unfoldable pub after : Live → Event → Live
after s opens_form = open_form s
after s closes_form = close_form s
after s dismisses = record s { page = dismiss s.page }
after s (submits name scopes) = send_form name scopes s
after s (creates f created) = creation_answer f created s
after s (lists listed) = listing_answer listed s
after s (asks_revoke confirmed id) = begin_revoke confirmed id s
after s (revokes revoked) = revocation_answer revoked s

abbrev pub run : Live → List Event → Live
run s [] = s
run s (e ∷ es) = run (after s e) es
