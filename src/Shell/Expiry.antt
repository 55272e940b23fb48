-- ===== src/Shell/Expiry.antt =====
-- The end of a session: a 401, of which the comment of api/client.ts says that the user is led to the
-- login page, and the button `Sign out`.
use ops_sys.Base.{
  arith, ℕ, true, false, ◌≡◌, refl, ◌∙◌, ap, some, ◌==◌, if◌then◌else◌, Bool-cases, inl, inr,
}
use ops_sys.Base.Text.{codes}
use ops_sys.Auth.{AuthState, logout, signed_out}
use ops_sys.Http.{after_response}
use ops_sys.Shell.{sign_out, sidebar_user, render, Route, login, page, follow}
use ops_sys.Shell.Routes.{arrives, is_open, landing, follow-landing}

logged_out :
    (s : AuthState) (r : Route) → is_open r ≡ false → landing true (logout s) r ≡ page login
unfolding logout signed_out
logged_out s r h = rw h refl

-- After a response of any status, a route that is not open to all leads to the login page if the
-- status was 401, and where it led before if not.
pub follow-after_response :
    (status : ℕ) (s : AuthState) (r : Route)
    → is_open r ≡ false
    → follow 3 true (after_response status s) r
      ≡ (if status == 401 then some (page login) else follow 3 true s r)
unfolding after_response
follow-after_response status s r h = elim (Bool-cases (status == 401)) [
  | inl expired ↦
      rw expired (follow-landing 3 true (logout s) r (omega arith) ∙ ap some (logged_out s r h))
  | inr other ↦ rw other refl
]

-- `Sign out` leads to the login page, and from then on every route that is not open to all does so
-- too; the sidebar would have no more of the user.
pub follow-sign_out :
    (s : AuthState) (r : Route)
    → is_open r ≡ false
    → (arrives (sign_out s) ≡ some (page login))
      × (follow 3 true (sign_out s).0 r ≡ some (page login))
      × ((sidebar_user (sign_out s).0).label ≡ codes "Operator")
unfolding sign_out sidebar_user logout signed_out
follow-sign_out s r h = (
  unfold follow render in refl,
  follow-landing 3 true (logout s) r (omega arith) ∙ ap some (logged_out s r h),
  refl,
)
