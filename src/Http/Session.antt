-- ===== src/Http/Session.antt =====
-- The session and the requests: who is named in a request, and what an answer ends.
use ops_sys.Base.{◌≡◌, refl, ◌∙◌, Option, none, some, List, [], ◌∷◌}
use ops_sys.Base.Text.{Text, codes, text_eq_refl}
use ops_sys.Base.Maps.{lookup, lookup-insert}
use ops_sys.Auth
use ops_sys.Auth.{User, AuthState, initial, parse_claims}
use ops_sys.Auth.Session.{Event, run, current_user, run-initial-IsSession}
use ops_sys.Http.{Request, bearer, authorize, before_request, after_response}

-- The authorization that a request carries.
abbrev pub authorization : Request → Option Text
authorization req = lookup (codes "Authorization") req.headers

-- The one that the signed-in user has.
abbrev pub credentials : Option User → Option Text
credentials none = none
credentials (some u) = elim u.access_token [ [] ↦ none | c ∷ t ↦ some (bearer (c ∷ t)) ]

token_of : Option User → Option Text
token_of u = elim u [ none ↦ none | some v ↦ some v.access_token ]

authorize-headers :
    (u : Option User) (req : Request)
    → authorization req ≡ none
    → authorization (authorize (token_of u) req) ≡ credentials u
unfolding token_of
authorize-headers none req h = h
authorize-headers (some u) req h = of_token u.access_token
  where
    of_token :
        (t : Text)
        → authorization (authorize (some t) req)
          ≡ elim t [ [] ↦ none | c ∷ r ↦ some (bearer (c ∷ r)) ]
    of_token [] = h
    of_token (c ∷ t) =
        lookup-insert (codes "Authorization") (codes "Authorization") (bearer (c ∷ t)) req.headers
        ∙ rw (text_eq_refl (codes "Authorization")) refl

-- After any events, a request of the pages carries the token of the user who is signed in, and no
-- authorization if nobody is or the token is empty; once a response says 401, the requests that
-- follow carry none, until somebody signs in again.
pub authorization-run :
    (es : List Event) (req : Request)
    → authorization req ≡ none
    → (authorization (before_request (run initial es) req) ≡ credentials (current_user none es))
      × (authorization (before_request (after_response 401 (run initial es)) req) ≡ none)
unfolding before_request after_response token_of
authorization-run es req h = (
  rw ((run-initial-IsSession es).of_token) (authorize-headers (current_user none es) req h),
  unfold Auth.logout in h,
)
