-- ===== src/Shell/Tests.antt =====
-- A signed-in administrator, and the theorems about the frame there.
use ops_sys.Base.{arith, true, ◌≡◌, ◌↔◌, refl, none, some, [], get_or, inr}
use ops_sys.Base.Text.{codes}
use ops_sys.Auth
use ops_sys.Auth.{User, AuthState, role_of}
use ops_sys.Auth.Roles.{IsKnown}
use ops_sys.Shell.{follow, page, team, api_keys, home, nav_shown}
use ops_sys.Shell.Routes.{landing, follow-landing, leads_to, nav_shown-landing}

abbrev admin : AuthState
admin = record Auth.initial {
  token = some (codes "t1");
  claims =
      some (record { org_id = []; vehicle_set = []; role = codes "admin"; sub = []; email = none });
}

follow-landing_example : follow 5 true admin team ≡ some (landing true admin team)
follow-landing_example = follow-landing 5 true admin team (omega arith)

admin-IsKnown : IsKnown (get_or (codes "viewer") (role_of admin))
admin-IsKnown = inr (inr refl)

nav_shown-landing_example :
    ((leads_to team (nav_shown admin) ≡ true) ↔ (follow 3 true admin team ≡ some (page team)))
    × ((leads_to api_keys (nav_shown admin) ≡ true)
        ↔ (follow 3 true admin api_keys ≡ some (page api_keys)))
    × (leads_to home (nav_shown admin) ≡ true)
    × (follow 3 true admin home ≡ some (page home))
nav_shown-landing_example = nav_shown-landing admin admin-IsKnown refl
