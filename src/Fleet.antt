-- ===== src/Fleet.antt =====
-- server/dashboard/src/types/vehicle.ts, types/member.ts and types/apikey.ts: the values that the
-- services send. An optional field is an `Option`.
use ops_sys.Base.{Bool, List, Option}
use ops_sys.Base.Text.{Text}

pub record Vehicle : Type 0 where
  pub id : Text
  pub org_id : Text
  pub project_id : Option Text
  pub display_name : Text
  pub vehicle_type : Text
  pub adapter_type : Text
  pub region : Text
  pub created_at : Text
  pub updated_at : Text
  pub active : Bool

pub record Project : Type 0 where
  pub id : Text
  pub org_id : Text
  pub name : Text
  pub display_name : Text
  pub created_at : Text
  pub active : Bool

pub record ProvisionResponse : Type 0 where
  pub device_id : Text
  pub agent_config_yaml : Text
  pub cert_pem : Option Text
  pub key_pem : Option Text
  pub ca_pem : Option Text

pub record OrgMember : Type 0 where
  pub id : Text
  pub email : Text
  pub name : Text
  pub role : Text
  pub device_ids : List Text

pub record InviteMemberRequest : Type 0 where
  pub email : Text
  pub role : Text
  pub device_ids : List Text

pub record UpdateAccessRequest : Type 0 where
  pub role : Text
  pub device_ids : List Text

pub record ApiKey : Type 0 where
  pub id : Text
  pub key_prefix : Text
  pub org_id : Text
  pub name : Text
  pub scopes : List Text
  pub created_at : Text
  pub expires_at : Option Text
  pub revoked_at : Option Text
  pub last_used_at : Option Text

pub record CreateKeyRequest : Type 0 where
  pub name : Text
  pub scopes : List Text
  pub expires_at : Option Text

pub record CreateKeyResponse : Type 0 where
  pub key : ApiKey
  pub api_key : Text
