-- ===== src/Normalize/Logs.antt =====
-- NormalizeLogBatch (internal/normalize/normalize.go): the log records of a request become events.
use desktop_client.Base.{ℕ, suc, Str, lit, Option, none, some, List, [], ◌∷◌, ◌++◌}
use desktop_client.Api.{NormalizedEvent}
use desktop_client.Normalize.Values.{
  Value, text, object, Values, nil, cons, Fields, at, as_slice, first_attr, Outside, attrs_to_map,
  py_or,
}
use desktop_client.Normalize.Fields.{
  max_mcp_server_len, max_mcp_tool_len, max_tool_name_len, max_skill_name_len,
  max_mcp_server_tool_count, max_mcp_schema_tokens, as_string, normalize_event_name,
  display_identity, derive_mcp_identity, int_or_nil, float_or_nil, bounded_int, boolish, truncated,
  event_timestamp,
}

abbrev pub session_aliases : List Str
session_aliases = lit "session.id" ∷ lit "session_id" ∷ lit "conversation.id" ∷ lit "thread.id" ∷ []

abbrev pub or_derived : Option Str → Option Str → Option Str
or_derived none derived = derived
or_derived (some s) derived = some s

module _ {F : Type 0} where
  abbrev pub cache_read_aliases : Fields F → List (Value F)
  cache_read_aliases attrs =
      at attrs (lit "cache_read_tokens")
      ∷ at attrs (lit "cached_input_tokens")
      ∷ at attrs (lit "cached_token_count")
      ∷ []

module _ {F : Type 0} (o : Outside F) where
  abbrev pub event_name_of : Fields F → Fields F → Option Str
  event_name_of attrs m = normalize_event_name (
      py_or o
        (at attrs (lit "event.name") ∷ at attrs (lit "otel.name") ∷ at m (lit "eventName") ∷ []))

  abbrev pub tool_name_of : Fields F → Option Str
  tool_name_of attrs = display_identity o max_tool_name_len (
      py_or o (at attrs (lit "tool_name") ∷ at attrs (lit "tool") ∷ at attrs (lit "codex.op") ∷ []))

  abbrev pub mcp_server_of : Fields F → Option Str
  mcp_server_of attrs =
      display_identity o max_mcp_server_len
        (py_or o (at attrs (lit "mcp.server.name") ∷ at attrs (lit "mcp_server") ∷ []))

  abbrev pub mcp_tool_of : Fields F → Option Str
  mcp_tool_of attrs =
      display_identity o max_mcp_tool_len
        (py_or o (at attrs (lit "mcp.tool.name") ∷ at attrs (lit "mcp_tool") ∷ []))

  unfoldable pub build_event : Fields F → Fields F → Str → Str → NormalizedEvent F
  build_event attrs m repo name =
      let tool_name = tool_name_of attrs in
      let derived = derive_mcp_identity o tool_name in
      record {
        event_id = none;
        event_name = some name;
        timestamp = event_timestamp o attrs m;
        session_id = as_string (first_attr attrs session_aliases);
        model = as_string (py_or o (at attrs (lit "model") ∷ at attrs (lit "slug") ∷ []));
        tool_name = tool_name;
        mcp_server = or_derived (mcp_server_of attrs) derived.0;
        mcp_tool = or_derived (mcp_tool_of attrs) derived.1;
        mcp_server_tool_count = bounded_int o 0 max_mcp_server_tool_count (
            py_or o (
              at attrs (lit "mcp.server.tool_count")
              ∷ at attrs (lit "mcp_server_tool_count")
              ∷ []));
        mcp_schema_tokens = bounded_int o 0 max_mcp_schema_tokens (
            py_or o (at attrs (lit "mcp.schema.tokens") ∷ at attrs (lit "mcp_schema_tokens") ∷ []));
        skill_name = display_identity o max_skill_name_len (at attrs (lit "skill_name"));
        tool_success = boolish o (at attrs (lit "success"));
        tool_duration_ms = float_or_nil o (at attrs (lit "duration_ms"));
        cost_usd = float_or_nil o (at attrs (lit "cost_usd"));
        input_tokens =
            int_or_nil o
              (py_or o (at attrs (lit "input_tokens") ∷ at attrs (lit "input_token_count") ∷ []));
        output_tokens =
            int_or_nil o
              (py_or o (at attrs (lit "output_tokens") ∷ at attrs (lit "output_token_count") ∷ []));
        cache_read_tokens = int_or_nil o (py_or o (cache_read_aliases attrs));
        cache_create_tokens = int_or_nil o (at attrs (lit "cache_creation_tokens"));
        repo =
            as_string
              (py_or o (text repo ∷ at attrs (lit "repo") ∷ at attrs (lit "repository") ∷ []));
        error_message =
            truncated o
              (as_string (py_or o (at attrs (lit "error") ∷ at attrs (lit "error.message") ∷ [])));
      }

  abbrev pub named_event : Fields F → Fields F → Str → Option Str → Option (NormalizedEvent F)
  named_event attrs m repo none = none
  named_event attrs m repo (some name) = some (build_event attrs m repo name)

  unfoldable pub flatten_log_record : Value F → Str → Option (NormalizedEvent F)
  unfolding build_event attrs_to_map
  flatten_log_record (object m) repo =
      let attrs = attrs_to_map o (at m (lit "attributes")) in
      named_event attrs m repo (event_name_of attrs m)
  flatten_log_record _ repo = none

  -- The events so far, and how many records were dropped.
  abbrev pub Batch : Type 0
  Batch = List (NormalizedEvent F) × ℕ

  abbrev pub add_event : Option (NormalizedEvent F) → Batch → Batch
  add_event none (events, dropped) = (events, suc dropped)
  add_event (some e) (events, dropped) = (events ++ e ∷ [], dropped)

  unfoldable pub add_records : Str → Values F → Batch → Batch
  unfolding flatten_log_record
  add_records repo nil acc = acc
  add_records repo (cons r rs) acc = add_records repo rs (add_event (flatten_log_record r repo) acc)

  unfoldable pub add_scopes : Str → Values F → Batch → Batch
  unfolding add_records
  add_scopes repo nil acc = acc
  add_scopes repo (cons (object m) scopes) acc =
      add_scopes repo scopes (add_records repo (as_slice (at m (lit "logRecords"))) acc)
  add_scopes repo (cons v scopes) acc = add_scopes repo scopes acc

  unfoldable pub add_resources : Str → Values F → Batch → Batch
  unfolding add_scopes
  add_resources repo nil acc = acc
  add_resources repo (cons (object m) resources) acc =
      add_resources repo resources (add_scopes repo (as_slice (at m (lit "scopeLogs"))) acc)
  add_resources repo (cons v resources) acc = add_resources repo resources acc

  unfoldable pub normalize_log_batch : Fields F → Str → Batch
  unfolding add_resources
  normalize_log_batch payload repo =
      add_resources repo (as_slice (at payload (lit "resourceLogs"))) ([], 0)
