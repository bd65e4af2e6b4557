-- ===== src/Api/Client.antt =====
-- internal/api/client.go: one request with its retries, the gzip fallback and the reading of responses.
-- The client keeps the exchanges it made, the latest first, so that the backend's answer is any function
-- of them. A body is what can be read of it, and the error texts are left out.
use desktop_client.Base.{
  ℕ, ◌+◌, ◌*◌, Bool, true, false, not, ◌&&◌, ◌||◌, Str, lit, contains_text, Option, none, some,
  List, [], ◌∷◌, ◌++◌, length, take, ltb, ◌==◌, if◌then◌else◌,
}
use desktop_client.Base.Results.{Result, ok, err, or_fail}
use desktop_client.Api.{second}

pub data Method : Type 0 where
  get post : Method

-- `content_json` and `gzipped` are the Content-Type and the Content-Encoding, `key` the X-Collector-Key.
pub record Request : Type 0 where
  pub method : Method
  pub url : Str
  pub body : Option Str
  pub content_json : Bool
  pub gzipped : Bool
  pub user_agent : Str
  pub key : Option Str

-- A response's status and body, or a network error.
pub data Answer : Type 0 where
  replied : ℕ → Str → Answer
  no_reply : Answer

pub record Exchange : Type 0 where
  pub request : Request
  pub answer : Answer

-- What the client calls: the backend, the context's end, net/url, compress/gzip, and what encoding/json
-- reads in the body of an error: its code and its detail.
pub record Outside : Type 0 where
  pub answer : List Exchange → Request → Answer
  pub cancelled : List Exchange → Bool
  pub parses_url : Str → Bool
  pub compress : Str → Option Str
  pub lower : Str → Str
  pub trim_space : Str → Str
  pub auth_fields : Str → Str × Str

pub data RequestError : Type 0 where
  auth : Str → Str → RequestError
  conflict : Str → RequestError
  server_error unexpected_status : ℕ → Str → RequestError
  bad_request bad_url unreachable undecodable too_large : RequestError
  exhausted : ℕ → RequestError → RequestError

pub record Client : Type 0 where
  pub base_url : Str
  pub user_agent : Str
  pub collector_key : Str
  pub gzip_ok : Bool
  pub exchanges : List Exchange
  pub slept : List ℕ

abbrev pub gzip_threshold : ℕ
gzip_threshold = 4 * 1024

abbrev pub retry_delays : List ℕ
retry_delays = second ∷ 2 * second ∷ 4 * second ∷ []

-- strings.TrimRight with a cutset of one character
unfoldable pub trim_right : ℕ → Str → Str
trim_right c [] = []
trim_right c (d ∷ s) =
    let rest = trim_right c s in if d == c && length rest == 0 then [] else d ∷ rest

abbrev pub slash : ℕ
slash = 47

unfoldable pub new_client : Str → Str → Str → Client
unfolding trim_right
new_client base_url user_agent key = record {
  base_url = trim_right slash base_url;
  user_agent = user_agent;
  collector_key = key;
  gzip_ok = true;
  exchanges = [];
  slept = [];
}

abbrev pub set_key : Str → Client → Client
set_key key c = record c { collector_key = key }

abbrev pub sleep : ℕ → Client → Client
sleep d c = record c { slept = c.slept ++ d ∷ [] }

abbrev pub payload_length : Option Str → ℕ
payload_length none = 0
payload_length (some p) = length p

abbrev pub disable_gzip : Client → Client
disable_gzip c = record c { gzip_ok = false }

abbrev pub is_set : Option Str → Bool
is_set none = false
is_set (some s) = true

abbrev pub give_up : {A : Type 0} → Result RequestError A → Result RequestError A
give_up (ok a) = ok a
give_up (err e) = err (exhausted (length retry_delays + 1) e)

module _ (o : Outside) where
  -- A success, an error that is not retried, or the end of the context ends the attempts.
  abbrev pub stops : {A : Type 0} → Client × Bool × Result RequestError A → Bool
  stops (c, retryable, ok a) = true
  stops (c, retryable, err e) = not retryable || o.cancelled c.exchanges

  abbrev pub compressed : Option Str → Option Str → Option Str × Bool
  compressed payload none = (payload, false)
  compressed payload (some body) = (some body, true)

  abbrev compress_payload : Option Str → Option Str
  compress_payload none = none
  compress_payload (some p) = o.compress p

  -- The body to send, and whether it is compressed.
  unfoldable pub maybe_compress : Client → Option Str → Option Str × Bool
  maybe_compress c payload =
      if ltb gzip_threshold (payload_length payload)
      then if c.gzip_ok then compressed payload (compress_payload payload) else (payload, false)
      else (payload, false)

  -- The status, and the text of the body, are those of a backend that cannot read gzip.
  unfoldable pub gzip_rejected : ℕ → Str → Bool
  gzip_rejected status body =
      if status == 415
      then true
      else if status == 400
      then contains_text (o.lower (take 4096 body)) (lit "gzip")
      else false

  -- The client, and the body as it is read afterwards.
  unfoldable pub check_gzip_rejected : ℕ → Str → Client → Client × Str
  unfolding gzip_rejected
  check_gzip_rejected status body c =
      let body' = if status == 400 then take 4096 body else body in
      (if gzip_rejected status body then disable_gzip c else c, body')

  abbrev pub read_snippet : Str → Str
  read_snippet body = o.trim_space (take 512 body)

  abbrev pub parse_auth_body : Str → Str × Str
  parse_auth_body body = o.auth_fields (take 4096 body)

  module _ {A : Type 0} (decode : Str → Option A) where
    -- Whether the error may be retried, and the result.
    unfoldable pub handle_response : ℕ → Str → Bool × Result RequestError A
    handle_response status body =
        if status == 200
        then (false, or_fail (decode body) undecodable)
        else if status == 401
        then (let (code, detail) = parse_auth_body body in (false, err (auth code detail)))
        else if status == 409
        then (false, err (conflict (parse_auth_body body).1))
        else if ltb 499 status
        then (true, err (server_error status (read_snippet body)))
        else (false, err (unexpected_status status (read_snippet body)))

    abbrev pub after_answer : Bool → Client → Answer → Client × Bool × Result RequestError A
    after_answer gzipped c no_reply = (c, true, err unreachable)
    after_answer true c (replied status body) =
        let (c', body') = check_gzip_rejected status body c in
        let r = handle_response status body' in (c', r.0, r.1)
    after_answer false c (replied status body) =
        let r = handle_response status body in (c, r.0, r.1)

    abbrev pub exchange : Request → Client → Client × Bool × Result RequestError A
    exchange request c =
        let answer = o.answer c.exchanges request in
        after_answer request.gzipped
          (record c { exchanges = record { request = request; answer = answer } ∷ c.exchanges })
          answer

    module _ (method : Method) (path : Str) (payload : Option Str) (with_key : Bool) where
      abbrev pub build_request : Client → Option Str × Bool → Request
      build_request c (body, gzipped) = record {
        method = method;
        url = c.base_url ++ path;
        body = body;
        content_json = is_set payload;
        gzipped = gzipped;
        user_agent = c.user_agent;
        key = if with_key then some c.collector_key else none;
      }

      unfoldable pub do_once : Client → Client × Bool × Result RequestError A
      unfolding maybe_compress check_gzip_rejected handle_response
      do_once c =
          if o.parses_url (c.base_url ++ path)
          then exchange (build_request c (maybe_compress c payload)) c
          else (c, false, err bad_url)

      -- One attempt, and one more after each of the delays.
      unfoldable pub retry_loop : List ℕ → Client → Client × Result RequestError A
      unfolding do_once
      retry_loop [] c = let r = do_once c in (r.0, if stops r then r.2 else give_up r.2)
      retry_loop (d ∷ ds) c =
          let r = do_once c in
          let rest = retry_loop ds (sleep d r.0) in if stops r then (r.0, r.2) else rest

      unfoldable pub do_with_retry : Client → Client × Result RequestError A
      unfolding retry_loop
      do_with_retry c = retry_loop retry_delays c
