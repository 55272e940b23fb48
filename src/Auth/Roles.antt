-- ===== src/Auth/Roles.antt =====
-- server/dashboard/src/components/RoleGuard.tsx, and what the roles of a session allow.
use ops_sys.Base.{
  ℕ, Bool, true, false, ◌≡◌, ◌≢◌, refl, sym, Option, none, some, [], ◌∷◌, arith, ◌⊎◌, inl, inr, ◌↔◌,
  if◌then◌else◌, ltb, get_or, any, subst,
}
use ops_sys.Base.Text.{Text, codes, text_eq, text_eq_iff}
use ops_sys.Auth.{AuthState, role_of, is_text, is_admin, can_command}

-- `ROLE_RANK[role]`, which is no number for a text that is none of its three keys.
unfoldable pub role_rank : Text → Option ℕ
role_rank role =
    if text_eq role (codes "viewer")
    then some 0
    else if text_eq role (codes "operator")
    then some 1
    else if text_eq role (codes "admin")
    then some 2
    else none

-- `a < b`, false where a side is not a number.
abbrev pub less : Option ℕ → Option ℕ → Bool
less (some a) (some b) = ltb a b
less _ _ = false

pub data Rendered : Type 0 where
  fallback children : Rendered

unfoldable pub role_guard : Text → AuthState → Rendered
unfolding role_rank
role_guard role s =
    let user_role = get_or (codes "viewer") (role_of s) in
    if less (role_rank user_role) (role_rank role) then fallback else children

-- One of the roles that the type `AuthClaims` names.
abbrev pub IsKnown : Text → Type 0
IsKnown r = (r ≡ codes "viewer") ⊎ ((r ≡ codes "operator") ⊎ (r ≡ codes "admin"))

-- What the guards and the tests of the store say, as functions of `claims?.role`.
guarded : Text → Option Text → Rendered
guarded role o =
    if less (role_rank (get_or (codes "viewer") o)) (role_rank role) then fallback else children

Agrees : Option Text → Type 0
unfolding guarded
Agrees o =
    ((guarded (codes "admin") o ≡ children) ↔ (is_text o (codes "admin") ≡ true))
    × ((guarded (codes "operator") o ≡ children)
        ↔ (any (λ r. text_eq r (get_or [] o)) (codes "operator" ∷ codes "admin" ∷ []) ≡ true))
    × (guarded (codes "viewer") o ≡ children)

Agrees-none : Agrees none
unfolding Agrees guarded role_rank text_eq
Agrees-none = ground arith

Agrees-viewer : Agrees (some (codes "viewer"))
unfolding Agrees guarded role_rank text_eq
Agrees-viewer = ground arith

Agrees-operator : Agrees (some (codes "operator"))
unfolding Agrees guarded role_rank text_eq
Agrees-operator = ground arith

Agrees-admin : Agrees (some (codes "admin"))
unfolding Agrees guarded role_rank text_eq
Agrees-admin = ground arith

Agrees-known : (o : Option Text) → IsKnown (get_or (codes "viewer") o) → Agrees o
Agrees-known none h = Agrees-none
Agrees-known (some r) (inl e) = subst (λ t. Agrees (some t)) (sym e) Agrees-viewer
Agrees-known (some r) (inr (inl e)) = subst (λ t. Agrees (some t)) (sym e) Agrees-operator
Agrees-known (some r) (inr (inr e)) = subst (λ t. Agrees (some t)) (sym e) Agrees-admin

-- For a session whose role is one of the three, or that has none, the guard of `admin` lets through
-- exactly those for whom `isAdmin` holds, the guard of `operator` exactly those for whom
-- `canCommand` holds, and the guard of `viewer` everybody.
pub role_guard-known :
    (s : AuthState)
    → IsKnown (get_or (codes "viewer") (role_of s))
    → ((role_guard (codes "admin") s ≡ children) ↔ (is_admin s ≡ true))
      × ((role_guard (codes "operator") s ≡ children) ↔ (can_command s ≡ true))
      × (role_guard (codes "viewer") s ≡ children)
unfolding role_guard is_admin can_command Agrees guarded
role_guard-known s h = Agrees-known (role_of s) h

not_known :
    (r : Text)
    → ¬ IsKnown r
    → (text_eq r (codes "viewer") ≡ false)
      × (text_eq r (codes "operator") ≡ false)
      × (text_eq r (codes "admin") ≡ false)
      × (text_eq (codes "operator") r ≡ false)
      × (text_eq (codes "admin") r ≡ false)
not_known r h = (
  ne (codes "viewer") (λ e. h (inl e)),
  ne (codes "operator") (λ e. h (inr (inl e))),
  ne (codes "admin") (λ e. h (inr (inr e))),
  en (codes "operator") (λ e. h (inr (inl e))),
  en (codes "admin") (λ e. h (inr (inr e))),
)
  where
    ne : (t : Text) → r ≢ t → text_eq r t ≡ false
    ne t k = ground (arith, text_eq_iff r t)

    en : (t : Text) → r ≢ t → text_eq t r ≡ false
    en t k = ground (arith, text_eq_iff t r, λ (e : t ≡ r). k (sym e))

-- The guard is open to a role that it does not know: a session with any other role passes the guard
-- of every role, of `admin` too, though `isAdmin` and `canCommand` are false.
pub role_guard-unknown :
    (s : AuthState) (r role : Text)
    → role_of s ≡ some r
    → ¬ IsKnown r
    → (role_guard role s ≡ children) × (is_admin s ≡ false) × (can_command s ≡ false)
unfolding role_guard role_rank is_admin can_command
role_guard-unknown s r role e h =
    let (a, b, c, d, f) = not_known r h in rw (e, a, b, c, d, f) (refl, refl, refl)
