-- ===== src/Tests/Requests.antt =====
-- The theorems on a request, from the receiver's guards to the queue.
use desktop_client.Base.{ℕ, ◌+◌, ◌≡◌, lit, str_eq, none, some, [], ◌∷◌, length}
use desktop_client.Api.{NormalizedEvent}
use desktop_client.Counters.{new_registry}
use desktop_client.Filter.{new_metric_filter}
use desktop_client.Filter.Conservation.{input}
use desktop_client.Queue.{open_queue}
use desktop_client.Daemon.{Surroundings, Daemon, filter_events}
use desktop_client.Daemon.Tokens.{held_tokens, filter_events_conserves}
use desktop_client.Receiver.{Request, Library, Server, post, serve}
use desktop_client.Receiver.Guards.{is_trusted, is_logs, is_metrics, Served, serve-Served}
use desktop_client.Tests.Filters.{event, floats, policy}
use desktop_client.Tests.Flushes.{codec, metrics_codec}
use desktop_client.Tests.Merges.{merge_library}
use desktop_client.Tests.Records.{outside, payload}

abbrev surroundings : Surroundings ℕ (NormalizedEvent ℕ) ℕ ℕ
surroundings = record {
  outside = outside;
  floats = floats;
  events_codec = codec;
  points_codec = metrics_codec;
  size = λ rows points sessions. length rows;
  mint = λ i. some (i ∷ []);
  now = 100;
  timestamp = lit "2026-01-02T00:00:00Z";
  resolve_codex = λ id. lit "codex/repo";
  resolve_claude = λ id. [];
  sessions_codec = record {
    codec = record { marshal = λ s. some 0; unmarshal = λ n. none };
    seconds = λ s. 0;
  };
  merge = merge_library;
}

abbrev daemon : Daemon ℕ (NormalizedEvent ℕ) ℕ ℕ
daemon = record {
  queue = open_queue 10 1000 [] [] [];
  filter = policy;
  metric_filter = new_metric_filter [];
  counters = new_registry;
  repo = [];
  retention_days = 7;
  last_rollup = 0;
}

filter_events_conserves_example :
    let batch = event "codex.websocket_event" 5 ∷ event "codex.sse_event" 7 ∷ [] in
    let (d', kept, queued) = filter_events surroundings batch daemon in
    held_tokens surroundings input (lit "gpt") queued d'
    ≡ held_tokens surroundings input (lit "gpt") batch daemon
filter_events_conserves_example =
    filter_events_conserves surroundings input (lit "gpt")
      (event "codex.websocket_event" 5 ∷ event "codex.sse_event" 7 ∷ []) daemon

-- A pipeline that counts the requests that it is given.
abbrev server : Server ℕ ℕ
server = record {
  handler = some (λ fields p. (p + 1, some (1, 0)));
  metrics_handler = none;
  token = lit "token";
  logs_received = 0;
  metrics_received = 0;
  token_missing = 0;
}

abbrev library : Library ℕ
library = record {
  split_host_port = λ host. none;
  is_loopback_ip = λ h. str_eq h (lit "127.0.0.1");
  equal_fold = str_eq;
  media_type = λ t. some t;
  decode_object = λ body. some payload;
}

abbrev request : Request
request = record {
  method = lit "POST";
  path = lit "/v1/logs";
  host = lit "127.0.0.1";
  origin = [];
  content_type = lit "application/json";
  token = lit "token";
  body = some (lit "{}");
}

serve-Served_example :
    Served library
      (str_eq request.method post)
      (is_trusted library request server)
      (is_logs request)
      (is_metrics request)
      request
      server
      0
      (serve library request server 0)
serve-Served_example = serve-Served library request server 0
