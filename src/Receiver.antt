-- ===== src/Receiver.antt =====
-- internal/receiver/receiver.go: what the loopback receiver does with a request. `P` is the state of the
-- pipeline behind it. A handler answers its counts, or `none` where it panics.
pub mod Guards
use desktop_client.Base.{
  ℕ, ◌+◌, Bool, true, false, not, ◌&&◌, ◌||◌, Str, lit, str_eq, trim_prefix, Option, none, some,
  List, [], ◌∷◌, ◌==◌, if◌then◌else◌,
}
use desktop_client.Base.Results.{Result, ok, err}
use desktop_client.Normalize.Values.{Fields, end}

-- `body` is what is read of it, `none` above the cap of 8 MiB or where the read fails.
pub record Request : Type 0 where
  pub method : Str
  pub path : Str
  pub host : Str
  pub origin : Str
  pub content_type : Str
  pub token : Str
  pub body : Option Str

-- net, mime, strings.EqualFold and encoding/json: the host before a port, whether a text is the address of a
-- loopback interface, the media type of a header, and a JSON object.
pub record Library (F : Type 0) : Type 0 where
  pub split_host_port : Str → Option Str
  pub is_loopback_ip : Str → Bool
  pub equal_fold : Str → Str → Bool
  pub media_type : Str → Option Str
  pub decode_object : Str → Option (Fields F)

pub data Response : Type 0 where
  cross_origin unexpected_host unsupported_type invalid_token unknown_path internal_error : Response
  counts : ℕ → ℕ → Response
  healthy : ℕ → ℕ → ℕ → Response

abbrev pub status : Response → ℕ
status cross_origin = 403
status unexpected_host = 403
status unsupported_type = 415
status invalid_token = 401
status unknown_path = 404
status internal_error = 500
status (counts accepted dropped) = 200
status (healthy logs metrics missing) = 200

-- LogHandler
abbrev pub Handler : Type 0 → Type 0 → Type 0
Handler F P = Fields F → P → P × Option (ℕ × ℕ)

pub record Server (F P : Type 0) : Type 0 where
  pub handler : Option (Handler F P)
  pub metrics_handler : Option (Handler F P)
  pub token : Str
  pub logs_received : ℕ
  pub metrics_received : ℕ
  pub token_missing : ℕ

abbrev pub post : Str
post = lit "POST"

-- strings.TrimSuffix with one byte
unfoldable pub trim_last : ℕ → Str → Str
trim_last c [] = []
trim_last c (d ∷ []) = if d == c then [] else d ∷ []
trim_last c (d ∷ e ∷ s) = d ∷ trim_last c (e ∷ s)

module _ {F : Type 0} (lib : Library F) where
  abbrev host_only : Str → Option Str → Str
  host_only host none = host
  host_only host (some h) = h

  unfoldable pub is_loopback_host : Str → Bool
  unfolding trim_last
  is_loopback_host host =
      let h = trim_prefix (trim_last 93 (host_only host (lib.split_host_port host))) (lit "[") in
      if lib.equal_fold h (lit "localhost") then true else lib.is_loopback_ip h

  -- New's check of the host that it binds, an error where it answers `false`.
  unfoldable pub require_loopback : Str → Bool
  require_loopback host = if str_eq host (lit "localhost") then true else lib.is_loopback_ip host

  abbrev is_json : Option Str → Bool
  is_json none = false
  is_json (some t) = str_eq t (lit "application/json")

  unfoldable pub is_json_content_type : Str → Bool
  is_json_content_type ct = is_json (lib.media_type ct)

  abbrev or_empty : Option (Fields F) → Fields F
  or_empty none = end
  or_empty (some m) = m

  -- A body that is too long or no object is an empty map.
  abbrev pub decode_body : Option Str → Fields F
  decode_body none = end
  decode_body (some body) = or_empty (lib.decode_object body)

  module _ {P : Type 0} where
    abbrev count_missing : Server F P → Server F P
    count_missing s = record s { token_missing = s.token_missing + 1 }

    -- The server, and the refusal if there is one; a request without a token is let through and counted.
    unfoldable pub reject_token : Request → Server F P → Server F P × Option Response
    reject_token r s =
        if str_eq r.token [] || str_eq s.token []
        then (count_missing s, none)
        else if str_eq r.token s.token
        then (s, none)
        else (s, some invalid_token)

    unfoldable pub reject : Request → Server F P → Server F P × Option Response
    unfolding is_loopback_host is_json_content_type reject_token
    reject r s =
        if not (str_eq r.origin [])
        then (s, some cross_origin)
        else if not (is_loopback_host r.host)
        then (s, some unexpected_host)
        else if not (str_eq r.method post)
        then (s, none)
        else if not (is_json_content_type r.content_type)
        then (s, some unsupported_type)
        else reject_token r s

    -- A panic is recovered, and a handler that is not there reports nothing.
    abbrev pub invoke : Option (Handler F P) → Fields F → P → P × Option (ℕ × ℕ)
    invoke none payload p = (p, some (0, 0))
    invoke (some handler) payload p = handler payload p

    abbrev pub answer : P × Option (ℕ × ℕ) → P × Response
    answer (p, none) = (p, internal_error)
    answer (p, some (accepted, dropped)) = (p, counts accepted dropped)

    abbrev pub handle_logs : Request → Server F P → P → Server F P × P × Response
    handle_logs r s p =
        let (p', response) = answer (invoke s.handler (decode_body r.body) p) in
        (record s { logs_received = s.logs_received + 1 }, p', response)

    abbrev pub handle_metrics : Request → Server F P → P → Server F P × P × Response
    handle_metrics r s p =
        let (p', response) = answer (invoke s.metrics_handler (decode_body r.body) p) in
        (record s { metrics_received = s.metrics_received + 1 }, p', response)

    -- The counters of the pipeline are left out.
    abbrev pub handle_health : Server F P → P → Server F P × P × Response
    handle_health s p = (s, p, healthy s.logs_received s.metrics_received s.token_missing)

    unfoldable pub route : Request → Server F P → P → Server F P × P × Response
    route r s p =
        if str_eq r.method post && str_eq r.path (lit "/v1/logs")
        then handle_logs r s p
        else if str_eq r.method post && str_eq r.path (lit "/v1/metrics")
        then handle_metrics r s p
        else if str_eq r.method (lit "GET") && str_eq r.path (lit "/healthz")
        then handle_health s p
        else (s, p, unknown_path)

    abbrev pub routed : Request → P → Server F P × Option Response → Server F P × P × Response
    routed r p (s, some refusal) = (s, p, refusal)
    routed r p (s, none) = route r s p

    -- ServeHTTP
    unfoldable pub serve : Request → Server F P → P → Server F P × P × Response
    unfolding reject route
    serve r s p = routed r p (reject r s)
