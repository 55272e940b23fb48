-- ===== src/Auth/Tests.antt =====
-- A session of an operator, and the theorems about sessions there.
use ops_sys.Base.{true, false, ◌≡◌, ◌↔◌, refl, none, some, List, [], ◌∷◌, get_or, inl, inr}
use ops_sys.Base.Text.{Text, codes, text_eq, text_eq_iff}
use ops_sys.Auth.{
  User, AuthState, found, initial, role_of, is_admin, can_command, parse_claims, signed_in,
}
use ops_sys.Auth.Session.{Event, loads, token_expires}
use ops_sys.Auth.Roles.{
  role_guard, fallback, children, IsKnown, role_guard-known, role_guard-unknown,
}

abbrev someone : Text → User
someone role = record {
  profile = record {
    org_id = none;
    vehicle_set = none;
    role = some role;
    sub = some (codes "u1");
    email = none;
  };
  access_token = codes "t1";
  expired = false;
}

abbrev operator : AuthState
operator = signed_in (someone (codes "operator")) initial

abbrev owner : AuthState
owner = signed_in (someone (codes "owner")) initial

operator_rights :
    (is_admin operator ≡ false)
    × (can_command operator ≡ true)
    × (role_guard (codes "admin") operator ≡ fallback)
unfolding is_admin can_command role_guard signed_in parse_claims text_eq
operator_rights = (refl, refl, refl)

abbrev history : List Event
history = loads (found (someone (codes "operator"))) ∷ token_expires false ∷ []

operator-IsKnown : IsKnown (get_or (codes "viewer") (role_of operator))
unfolding signed_in parse_claims
operator-IsKnown = inr (inl refl)

role_guard-known_example :
    ((role_guard (codes "admin") operator ≡ children) ↔ (is_admin operator ≡ true))
    × ((role_guard (codes "operator") operator ≡ children) ↔ (can_command operator ≡ true))
    × (role_guard (codes "viewer") operator ≡ children)
role_guard-known_example = role_guard-known operator operator-IsKnown

owner_role : role_of owner ≡ some (codes "owner")
unfolding signed_in parse_claims
owner_role = refl

owner_unknown : ¬ IsKnown (codes "owner")
unfolding text_eq
owner_unknown (inl e) = cc ((text_eq_iff (codes "owner") (codes "viewer")).1 e)
owner_unknown (inr (inl e)) = cc ((text_eq_iff (codes "owner") (codes "operator")).1 e)
owner_unknown (inr (inr e)) = cc ((text_eq_iff (codes "owner") (codes "admin")).1 e)

role_guard-unknown_example :
    (role_guard (codes "admin") owner ≡ children)
    × (is_admin owner ≡ false)
    × (can_command owner ≡ false)
role_guard-unknown_example =
    role_guard-unknown owner (codes "owner") (codes "admin") owner_role owner_unknown
