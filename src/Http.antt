-- ===== src/Http.antt =====
-- server/dashboard/src/api/client.ts, with the requests of api/fleet.ts, api/members.ts and
-- api/apikeys.ts. The HTTP client itself, `ky`, is not in the repository: it calls the hook
-- `beforeRequest` on each request and `afterResponse` on each response.
pub mod Requests
pub mod Session
mod Tests
use ops_sys.Base.{
  ℕ, Bool, true, false, Option, none, some, List, [], ◌∷◌, ◌++◌, ◌==◌, if◌then◌else◌,
}
use ops_sys.Base.Text.{Text, codes}
use ops_sys.Base.Maps.{insert}
use ops_sys.Auth
use ops_sys.Auth.{AuthState}

pub data Method : Type 0 where
  get post put delete : Method

-- The bodies that the sources send: fields with a text, a list of texts, or `undefined`.
pub data Value : Type 0 where
  text : Text → Value
  texts : List Text → Value
  undefined : Value

pub record Request : Type 0 where
  pub method : Method
  pub path : Text
  pub headers : List (Text × Text)
  pub json : Option (List (Text × Value))

abbrev pub bearer : Text → Text
bearer token = codes "Bearer " ++ token

-- `if (token) req.headers.set('Authorization', …)`: an empty token counts as none.
abbrev pub authorize : Option Text → Request → Request
authorize none req = req
authorize (some []) req = req
authorize (some (c ∷ token)) req = record req {
  headers = insert (codes "Authorization") (bearer (c ∷ token)) req.headers;
}

unfoldable pub before_request : AuthState → Request → Request
before_request s req = authorize s.token req

unfoldable pub after_response : ℕ → AuthState → AuthState
after_response status s = if status == 401 then Auth.logout s else s
