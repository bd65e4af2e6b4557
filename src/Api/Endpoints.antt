-- ===== src/Api/Endpoints.antt =====
-- The calls of the ingest API (internal/api/client.go, inventory.go) and of the device login (device.go):
-- their paths, their bodies and the limits they check. `Wire` is what encoding/json does with the bodies
-- and the results; a body is the map that the source builds.
use desktop_client.Base.{
  ℕ, Bool, true, false, Str, lit, Option, none, some, List, ◌∷◌, ◌++◌, length, take, ltb, ◌==◌,
  if◌then◌else◌,
}
use desktop_client.Base.Results.{Result, err, or_fail}
use desktop_client.Api.{NormalizedEvent, MetricPoint, Policy, max_ingest_batch}
use desktop_client.Api.Client.{
  get, post, Request, Answer, replied, no_reply, Outside, RequestError, unexpected_status,
  bad_request, bad_url, unreachable, undecodable, too_large, Client, read_snippet, do_with_retry,
}

pub record SessionModelUsage : Type 0 where
  pub model : Option Str
  pub input_tokens : ℕ
  pub output_tokens : ℕ
  pub cache_read_tokens : ℕ
  pub cache_create_tokens : ℕ

pub record SessionSummary (F : Type 0) : Type 0 where
  pub session_id : Str
  pub updated_at : Str
  pub started_at : Str
  pub last_activity_at : Str
  pub ended_at : Option Str
  pub title : Option Str
  pub summary : Option Str
  pub repo : Option Str
  pub workspace_label : Option Str
  pub model : Option Str
  pub models : List SessionModelUsage
  pub model_breakdown_complete : Bool
  pub source : Option Str
  pub outcome : Str
  pub stop_reason : Option Str
  pub duration_ms : Option ℕ
  pub input_tokens : ℕ
  pub output_tokens : ℕ
  pub cache_read_tokens : ℕ
  pub cache_create_tokens : ℕ
  pub cost_usd : Option F
  pub tool_calls : ℕ
  pub error_count : ℕ

pub record InventoryItem : Type 0 where
  pub kind : Str
  pub name : Str
  pub source : Str
  pub description : Option Str
  pub version : Option Str
  pub script_count : Option ℕ
  pub tool_count : Option ℕ
  pub schema_tokens : Option ℕ
  pub present : Option Bool

pub record Telemetry : Type 0 where
  pub received : ℕ
  pub filtered : ℕ
  pub uploaded : ℕ
  pub dropped : ℕ
  pub errors : ℕ
  pub queue_depth : ℕ
  pub version : Str

pub record RegisterOut : Type 0 where
  pub collector_id : ℕ
  pub policy : Policy
  pub key_expires_at : Option Str

pub record HeartbeatOut : Type 0 where
  pub is_ok : Bool
  pub policy : Policy
  pub key_expires_at : Option Str

pub record Counts : Type 0 where
  pub accepted : ℕ
  pub dropped : ℕ
  pub duplicates : ℕ

pub record RotateOut : Type 0 where
  pub collector_key : Str
  pub key_id : ℕ
  pub key_expires_at : Str
  pub old_key_valid_until : Str

pub record InventoryOut : Type 0 where
  pub accepted : ℕ
  pub replaced : Bool
  pub observed_at : Str

pub record DeviceAuth : Type 0 where
  pub device_code : Str
  pub user_code : Str
  pub verification_uri : Str
  pub verification_uri_complete : Str
  pub interval : ℕ
  pub expires_in : ℕ

pub record DeviceToken : Type 0 where
  pub collector_key : Str
  pub key_id : ℕ
  pub key_expires_at : Str
  pub user_email : Str

pub data Body (F : Type 0) : Type 0 where
  register_body : Str → Str → Str → Body F
  heartbeat_body : ℕ → Option Telemetry → Body F
  events_body : ℕ → Str → List (NormalizedEvent F) → Body F
  metrics_body : ℕ → List (MetricPoint F) → Body F
  sessions_body : ℕ → List (SessionSummary F) → Body F
  inventory_body : ℕ → Str → List InventoryItem → Body F
  empty_body : Body F
  device_name_body : Str → Body F
  device_code_body : Str → Body F

-- `version` is the collector's version; `error_field` is the code in the body of an error.
pub record Wire (F : Type 0) : Type 0 where
  pub version : Str
  pub marshal : Body F → Option Str
  pub register_out : Str → Option RegisterOut
  pub heartbeat_out : Str → Option HeartbeatOut
  pub counts : Str → Option Counts
  pub rotate_out : Str → Option RotateOut
  pub inventory_out : Str → Option InventoryOut
  pub device_auth : Str → Option DeviceAuth
  pub device_token : Str → Option DeviceToken
  pub error_field : Str → Str

abbrev pub max_session_batch : ℕ
max_session_batch = 500

abbrev pub max_inventory_items : ℕ
max_inventory_items = 2000

-- DeviceTokenError, or another error.
pub data DeviceError : Type 0 where
  device_code_error : Str → DeviceError
  device_failed : RequestError → DeviceError

module _ {F : Type 0} (o : Outside) (w : Wire F) where
  abbrev post_marshalled :
      {A : Type 0}
      → (Str → Option A)
      → Str
      → Bool
      → Option Str
      → Client
      → Client × Result RequestError A
  post_marshalled decode path with_key none c = (c, err bad_request)
  post_marshalled decode path with_key (some payload) c =
      do_with_retry o decode post path (some payload) with_key c

  unfoldable pub post_json_auth :
      {A : Type 0}
      → (Str → Option A)
      → Str
      → Body F
      → Bool
      → Client
      → Client × Result RequestError A
  unfolding do_with_retry
  post_json_auth decode path body with_key c =
      post_marshalled decode path with_key (w.marshal body) c

  abbrev pub post_json :
      {A : Type 0} → (Str → Option A) → Str → Body F → Client → Client × Result RequestError A
  post_json decode path body c = post_json_auth decode path body true c

  abbrev pub register : Str → Str → Client → Client × Result RequestError RegisterOut
  register machine user_email c =
      post_json w.register_out (lit "/ingest/v1/register")
        (register_body machine user_email w.version) c

  abbrev pub heartbeat : ℕ → Option Telemetry → Client → Client × Result RequestError HeartbeatOut
  heartbeat collector_id telemetry c =
      post_json w.heartbeat_out (lit "/ingest/v1/heartbeat") (heartbeat_body collector_id telemetry)
        c

  abbrev pub send_events :
      ℕ → List (NormalizedEvent F) → Client → Client × Result RequestError Counts
  send_events collector_id events c =
      if ltb max_ingest_batch (length events)
      then (c, err too_large)
      else post_json w.counts (lit "/ingest/v1/events") (events_body collector_id w.version events)
          c

  abbrev pub send_metrics : ℕ → List (MetricPoint F) → Client → Client × Result RequestError Counts
  send_metrics collector_id points c =
      if ltb max_ingest_batch (length points)
      then (c, err too_large)
      else post_json w.counts (lit "/ingest/v1/metrics") (metrics_body collector_id points) c

  abbrev pub send_sessions :
      ℕ → List (SessionSummary F) → Client → Client × Result RequestError Counts
  send_sessions collector_id sessions c =
      if ltb max_session_batch (length sessions)
      then (c, err too_large)
      else post_json w.counts (lit "/ingest/v1/sessions") (sessions_body collector_id sessions) c

  abbrev pub send_inventory :
      ℕ → Str → List InventoryItem → Client → Client × Result RequestError InventoryOut
  send_inventory collector_id observed_at items c =
      if ltb max_inventory_items (length items)
      then (c, err too_large)
      else post_json w.inventory_out (lit "/ingest/v1/inventory")
          (inventory_body collector_id observed_at items) c

  abbrev pub rotate_key : Client → Client × Result RequestError RotateOut
  rotate_key c = post_json w.rotate_out (lit "/ingest/v1/keys/rotate") empty_body c

  abbrev pub device_authorize : Str → Client → Client × Result RequestError DeviceAuth
  device_authorize device_name c =
      post_json_auth w.device_auth (lit "/api/device/authorize") (device_name_body device_name)
        false c

  abbrev pub device_answer : Answer → Result DeviceError DeviceToken
  device_answer no_reply = err (device_failed unreachable)
  device_answer (replied status body) =
      if status == 200
      then or_fail (w.device_token body) (device_failed undecodable)
      else if status == 400
      then err (device_code_error (w.error_field (take 4096 body)))
      else err (device_failed (unexpected_status status (read_snippet o body)))

  abbrev pub device_exchange : Request → Client → Client × Result DeviceError DeviceToken
  device_exchange request c =
      let answer = o.answer c.exchanges request in
      (
        record c { exchanges = record { request = request; answer = answer } ∷ c.exchanges },
        device_answer answer,
      )

  abbrev pub device_request : Str → Client → Request
  device_request payload c = record {
    method = post;
    url = c.base_url ++ lit "/api/device/token";
    body = some payload;
    content_json = true;
    gzipped = false;
    user_agent = c.user_agent;
    key = none;
  }

  abbrev device_marshalled : Option Str → Client → Client × Result DeviceError DeviceToken
  device_marshalled none c = (c, err (device_failed bad_request))
  device_marshalled (some payload) c =
      if o.parses_url (c.base_url ++ lit "/api/device/token")
      then device_exchange (device_request payload c) c
      else (c, err (device_failed bad_url))

  -- One poll, which is never tried again.
  unfoldable pub device_token : Str → Client → Client × Result DeviceError DeviceToken
  device_token device_code c = device_marshalled (w.marshal (device_code_body device_code)) c

module _ (o : Outside) where
  -- The body of the reply is dropped.
  unfoldable pub health : Client → Client × Result RequestError (Unit {0})
  unfolding do_with_retry
  health c = do_with_retry o (λ body. some tt) get (lit "/api/health") none false c
