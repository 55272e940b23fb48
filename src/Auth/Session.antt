-- ===== src/Auth/Session.antt =====
-- The three fields of the session belong together.
use ops_sys.Base.{Bool, true, false, ◌≡◌, refl, Option, none, some, List, [], ◌∷◌, arith}
use ops_sys.Auth.{
  User, AuthState, initial, parse_claims, login, signup, logout, handle_callback, Stored, found,
  missing, threw, load_existing, user_loaded, access_token_expired, silent_renew_error,
}

-- What happens to the store.
pub data Event : Type 0 where
  logs_in signs_up logs_out : Event
  comes_back : Option User → Event
  loads : Stored → Event
  user_loads : User → Event
  token_expires renewal_fails : Bool → Event

unfoldable pub step : AuthState → Event → AuthState
unfolding login signup logout handle_callback load_existing user_loaded access_token_expired
    silent_renew_error
step s logs_in = login s
step s signs_up = signup s
step s logs_out = logout s
step s (comes_back u) = handle_callback u s
step s (loads r) = load_existing r s
step s (user_loads u) = user_loaded u s
step s (token_expires b) = access_token_expired b s
step s (renewal_fails b) = silent_renew_error b s

unfoldable pub run : AuthState → List Event → AuthState
run s [] = s
run s (e ∷ es) = run (step s e) es

-- The user whom the events leave signed in.
abbrev pub current : Option User → Event → Option User
current u logs_in = u
current u signs_up = u
current u logs_out = none
current u (comes_back none) = u
current u (comes_back (some v)) = some v
current u (loads (found v)) = elim v.expired [ true ↦ u | false ↦ some v ]
current u (loads missing) = u
current u (loads threw) = u
current u (user_loads v) = some v
current u (token_expires true) = u
current u (token_expires false) = none
current u (renewal_fails true) = u
current u (renewal_fails false) = none

abbrev pub current_user : Option User → List Event → Option User
current_user u [] = u
current_user u (e ∷ es) = current_user (current u e) es

-- The session of one user, or of none.
pub record IsSession (u : Option User) (s : AuthState) : Type 0 where
  pub of_user : s.user ≡ u
  pub of_token : s.token ≡ elim u [ none ↦ none | some v ↦ some v.access_token ]
  pub of_claims : s.claims ≡ elim u [ none ↦ none | some v ↦ some (parse_claims v) ]

step-IsSession :
    (s : AuthState) (e : Event) (u : Option User)
    → IsSession u s
    → IsSession (current u e) (step s e)
unfolding step
step-IsSession s logs_in u h = ground (arith, h)
step-IsSession s signs_up u h = ground (arith, h)
step-IsSession s logs_out u h = ground (arith, h)
step-IsSession s (comes_back none) u h = ground (arith, h)
step-IsSession s (comes_back (some v)) u h = ground (arith, h)
step-IsSession s (loads (found v)) u h = ground (arith, h)
step-IsSession s (loads missing) u h = ground (arith, h)
step-IsSession s (loads threw) u h = ground (arith, h)
step-IsSession s (user_loads v) u h = ground (arith, h)
step-IsSession s (token_expires true) u h = ground (arith, h)
step-IsSession s (token_expires false) u h = ground (arith, h)
step-IsSession s (renewal_fails true) u h = ground (arith, h)
step-IsSession s (renewal_fails false) u h = ground (arith, h)

run-IsSession :
    (s : AuthState) (es : List Event) (u : Option User)
    → IsSession u s
    → IsSession (current_user u es) (run s es)
unfolding run
run-IsSession s [] u h = h
run-IsSession s (e ∷ es) u h = run-IsSession (step s e) es (current u e) (step-IsSession s e u h)

-- After any events, the user, the token and the claims of the store are those of the one user whom
-- the events leave signed in, or all null: never the token of one and the claims of another.
pub run-initial-IsSession : (es : List Event) → IsSession (current_user none es) (run initial es)
run-initial-IsSession es =
    run-IsSession initial es none (record { of_user = refl; of_token = refl; of_claims = refl })
