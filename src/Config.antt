-- ===== src/Config.antt =====
-- internal/config/config.go: the persisted configuration and its retention window.
use desktop_client.Base.{ℕ, Str, ltb, ◌==◌, if◌then◌else◌}
use desktop_client.Api.{Policy}

-- The unknown JSON keys that a save carries over are not modelled; the empty text means unset.
pub record Config : Type 0 where
  pub api_url : Str
  pub collector_key : Str
  pub collector_id : ℕ
  pub user_email : Str
  pub machine : Str
  pub policy : Policy
  pub key_expires_at : Str
  pub retention_days : ℕ
  pub key_id : ℕ
  pub pending_key : Str
  pub pending_key_id : ℕ
  pub pending_key_expires : Str
  pub old_key_valid_until : Str
  pub last_rotation_at : Str
  pub rotation_failures : ℕ
  pub auth_reason : Str
  pub receiver_port : ℕ
  pub receiver_token : Str
  pub inventory_status : Str
  pub inventory_last_upload_at : Str
  pub inventory_item_count : ℕ
  pub credential_backend : Str

abbrev pub default_retention_days : ℕ
default_retention_days = 7

abbrev pub max_retention_days : ℕ
max_retention_days = 3650

-- A negative number of days is read as 0.
unfoldable pub retention : Config → ℕ
retention c =
    if c.retention_days == 0
    then default_retention_days
    else if ltb max_retention_days c.retention_days
    then max_retention_days
    else c.retention_days
