-- ===== src/Http/Requests.antt =====
-- The requests of api/fleet.ts, api/members.ts and api/apikeys.ts.
use ops_sys.Base.{Option, none, some, List, [], ◌∷◌, ◌++◌, get_or}
use ops_sys.Base.Text.{Text, codes}
use ops_sys.Fleet.{InviteMemberRequest, UpdateAccessRequest, CreateKeyRequest}
use ops_sys.Http.{Method, get, post, put, delete, Value, text, texts, undefined, Request}

abbrev plain : Method → Text → Request
plain method path = record { method = method; path = path; headers = []; json = none }

abbrev with_json : Method → Text → List (Text × Value) → Request
with_json method path body = record { method = method; path = path; headers = []; json = some body }

abbrev optional : Option Text → Value
optional none = undefined
optional (some t) = text t

unfoldable pub list_vehicles : Request
list_vehicles = plain get (codes "v1/vehicles")

unfoldable pub get_vehicle : Text → Request
get_vehicle id = plain get (codes "v1/vehicles/" ++ id)

unfoldable pub list_projects : Request
list_projects = plain get (codes "v1/projects")

unfoldable pub create_project : Text → Option Text → Request
create_project name display_name =
    with_json post (codes "v1/projects")
      ((codes "name", text name) ∷ (codes "display_name", text (get_or name display_name)) ∷ [])

unfoldable pub list_project_devices : Text → Request
list_project_devices project_name =
    plain get (codes "v1/projects/" ++ (project_name ++ codes "/devices"))

-- The body of `provisionDevice`.
pub record DeviceBody : Type 0 where
  pub display_name : Text
  pub vehicle_type : Option Text
  pub adapter_type : Option Text
  pub region : Option Text

unfoldable pub provision_device : Text → DeviceBody → Request
provision_device project_name body =
    with_json post (codes "v1/projects/" ++ (project_name ++ codes "/devices")) (
      (codes "display_name", text body.display_name)
      ∷ (codes "vehicle_type", optional body.vehicle_type)
      ∷ (codes "adapter_type", optional body.adapter_type)
      ∷ (codes "region", optional body.region)
      ∷ [])

unfoldable pub list_members : Request
list_members = plain get (codes "v1/org/members")

unfoldable pub invite_member : InviteMemberRequest → Request
invite_member req = with_json post (codes "v1/org/invite") (
    (codes "email", text req.email)
    ∷ (codes "role", text req.role)
    ∷ (codes "device_ids", texts req.device_ids)
    ∷ [])

unfoldable pub update_member_access : Text → UpdateAccessRequest → Request
update_member_access user_id req =
    with_json put (codes "v1/org/members/" ++ (user_id ++ codes "/access"))
      ((codes "role", text req.role) ∷ (codes "device_ids", texts req.device_ids) ∷ [])

unfoldable pub remove_member : Text → Request
remove_member user_id = plain delete (codes "v1/org/members/" ++ user_id)

unfoldable pub list_keys : Request
list_keys = plain get (codes "v1/keys")

unfoldable pub create_key : CreateKeyRequest → Request
create_key req = with_json post (codes "v1/keys") (
    (codes "name", text req.name)
    ∷ (codes "scopes", texts req.scopes)
    ∷ (codes "expires_at", optional req.expires_at)
    ∷ [])

unfoldable pub revoke_key : Text → Request
revoke_key id = plain delete (codes "v1/keys/" ++ id)
