-- ===== src/Env.antt =====
-- server/dashboard/src/env.ts, the configuration of the user manager in store/authStore.ts, and the
-- prefixes of the clients in api/client.ts. `import.meta.env` is what the build was given.
use ops_sys.Base.{◌≡◌, refl, Bool, true, Option, ◌++◌, get_or}
use ops_sys.Base.Text.{Text, codes}

pub record Env : Type 0 where
  pub keycloak_url : Text
  pub keycloak_realm : Text
  pub keycloak_client_id : Text
  pub fleet_api_url : Text
  pub query_api_url : Text
  pub command_api_url : Text
  pub apikey_url : Text
  pub ws_gateway_url : Text

-- The variables of the build, by name.
abbrev pub Variables : Type 0
Variables = Text → Option Text

unfoldable pub env : Variables → Env
env vite = record {
  keycloak_url = get_or (codes "http://localhost:8180") (vite (codes "VITE_KEYCLOAK_URL"));
  keycloak_realm = get_or (codes "systemscale") (vite (codes "VITE_KEYCLOAK_REALM"));
  keycloak_client_id =
      get_or (codes "systemscale-dashboard") (vite (codes "VITE_KEYCLOAK_CLIENT_ID"));
  fleet_api_url = get_or (codes "http://localhost:8080") (vite (codes "VITE_FLEET_API_URL"));
  query_api_url = get_or (codes "http://localhost:8081") (vite (codes "VITE_QUERY_API_URL"));
  command_api_url = get_or (codes "http://localhost:8082") (vite (codes "VITE_COMMAND_API_URL"));
  apikey_url = get_or (codes "http://localhost:8083") (vite (codes "VITE_APIKEY_URL"));
  ws_gateway_url = get_or (codes "ws://localhost:8084") (vite (codes "VITE_WS_GATEWAY_URL"));
}

-- The settings of `new UserManager`, less its store; the second argument is `window.location.origin`.
pub record UserManagerSettings : Type 0 where
  pub authority : Text
  pub client_id : Text
  pub redirect_uri : Text
  pub post_logout_redirect_uri : Text
  pub response_type : Text
  pub scope : Text
  pub automatic_silent_renew : Bool
  pub silent_redirect_uri : Text

unfoldable pub user_manager : Env → Text → UserManagerSettings
user_manager e origin = record {
  authority = e.keycloak_url ++ (codes "/realms/" ++ e.keycloak_realm);
  client_id = e.keycloak_client_id;
  redirect_uri = origin ++ codes "/auth/callback";
  post_logout_redirect_uri = origin ++ codes "/login";
  response_type = codes "code";
  scope = codes "openid profile email";
  automatic_silent_renew = true;
  silent_redirect_uri = origin ++ codes "/silent-renew.html";
}

-- The prefixes of `fleetClient` and `apikeyClient`, which read the variables themselves.
unfoldable pub client_prefixes : Variables → Text × Text
client_prefixes vite = (
  get_or (codes "http://localhost:8080") (vite (codes "VITE_FLEET_API_URL")),
  get_or (codes "http://localhost:8083") (vite (codes "VITE_APIKEY_URL")),
)

-- They agree with `env`, for any variables.
pub client_prefixes-env :
    (vite : Variables) → client_prefixes vite ≡ ((env vite).fleet_api_url, (env vite).apikey_url)
unfolding client_prefixes env
client_prefixes-env vite = refl
