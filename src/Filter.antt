-- ===== src/Filter.antt =====
-- internal/filter: the upload noise policy for events (filter.go) and the allowlist for metrics
-- (metrics.go). The pending rollups are an association list; the order in which Go walks its map is
-- not fixed, and no property rests on it.
pub mod Conservation
pub mod Batches
use desktop_client.Base.{
  ℕ, ◌+◌, Bool, true, false, ◌||◌, Str, lit, str_eq, trim_prefix, contains, Option, none, some,
  List, [], ◌∷◌, ◌++◌, map, ◌==◌, if◌then◌else◌, length,
}
use desktop_client.Base.Words.{add64, deref}
use desktop_client.Api.{NormalizedEvent, MetricPoint}

abbrev pub rollup_event_name : Str
rollup_event_name = lit "token_rollup"

unfoldable pub keep_families : List Str
keep_families =
    lit "sse_event"
    ∷ lit "tool_result"
    ∷ lit "tool_decision"
    ∷ lit "hook_execution_start"
    ∷ lit "hook_execution_complete"
    ∷ lit "api_error"
    ∷ lit "api_retries_exhausted"
    ∷ lit "compaction"
    ∷ []

unfoldable pub drop_families : List Str
drop_families = lit "websocket_event" ∷ []

pub record Stats : Type 0 where
  pub kept : ℕ
  pub filtered : ℕ
  pub rollups : ℕ

pub record Bucket (F : Type 0) : Type 0 where
  pub input : ℕ
  pub output : ℕ
  pub cache_read : ℕ
  pub cache_create : ℕ
  pub cost : F
  pub has_cost : Bool

pub record Filter (F : Type 0) : Type 0 where
  pub keep : List Str
  pub drop : List Str
  pub pending : List (Str × Bucket F)
  pub stats : Stats

unfoldable pub new_filter : {F : Type 0} → List Str → List Str → Filter F
new_filter extra_keep extra_drop = record {
  keep = keep_families ++ extra_keep;
  drop = drop_families ++ extra_drop;
  pending = [];
  stats = record { kept = 0; filtered = 0; rollups = 0 };
}

-- A nil name is the empty one.
abbrev pub name : Option Str → Str
name none = []
name (some s) = s

abbrev pub non_zero : ℕ → Option ℕ
non_zero v = if v == 0 then none else some v

abbrev is_set : {A : Type 0} → Option A → Bool
is_set none = false
is_set (some a) = true

-- The float64 operations that the filter uses.
pub record FloatOps (F : Type 0) : Type 0 where
  pub zero : F
  pub add : F → F → F

module _ {F : Type 0} where
  unfoldable pub should_keep : Filter F → Str → Bool
  should_keep f event_name =
      let family = trim_prefix event_name (lit "codex.") in
      if contains f.keep family then true else if contains f.drop family then false else true

  unfoldable pub has_value : NormalizedEvent F → Bool
  has_value ev =
      is_set ev.input_tokens
      || is_set ev.output_tokens
      || is_set ev.cache_read_tokens
      || is_set ev.cache_create_tokens
      || is_set ev.cost_usd

module _ {F : Type 0} where
  abbrev pub count_kept : Filter F → Filter F
  count_kept f = record f { stats = record f.stats { kept = f.stats.kept + 1 } }

  abbrev pub count_filtered : Filter F → Filter F
  count_filtered f = record f { stats = record f.stats { filtered = f.stats.filtered + 1 } }

module _ {F : Type 0} (fl : FloatOps F) where
  abbrev pub empty_bucket : Bucket F
  empty_bucket = record {
    input = 0;
    output = 0;
    cache_read = 0;
    cache_create = 0;
    cost = fl.zero;
    has_cost = false;
  }

  abbrev add_cost : Option F → Bucket F → Bucket F
  add_cost none b = b
  add_cost (some x) b = record b { cost = fl.add b.cost x; has_cost = true }

  unfoldable pub fold_into : NormalizedEvent F → Bucket F → Bucket F
  fold_into ev b = add_cost ev.cost_usd (record b {
    input = add64 b.input (deref ev.input_tokens);
    output = add64 b.output (deref ev.output_tokens);
    cache_read = add64 b.cache_read (deref ev.cache_read_tokens);
    cache_create = add64 b.cache_create (deref ev.cache_create_tokens);
  })

  -- The bucket of a model, new if there is none.
  unfoldable pub update_bucket :
      Str → NormalizedEvent F → List (Str × Bucket F) → List (Str × Bucket F)
  unfolding fold_into
  update_bucket key ev [] = (key, fold_into ev empty_bucket) ∷ []
  update_bucket key ev ((k, b) ∷ rest) =
      if str_eq k key then (k, fold_into ev b) ∷ rest else (k, b) ∷ update_bucket key ev rest

  unfoldable pub accumulate : NormalizedEvent F → Filter F → Filter F
  unfolding has_value update_bucket
  accumulate ev f =
      if has_value ev then record f { pending = update_bucket (name ev.model) ev f.pending } else f

  -- The loop of Apply: the kept events in order, and the filter afterwards.
  unfoldable pub apply : Filter F → List (NormalizedEvent F) → List (NormalizedEvent F) × Filter F
  apply f [] = ([], f)
  apply f (ev ∷ events) =
      let skipped = apply (accumulate ev (count_filtered f)) events in
      let (kept, f') = apply (count_kept f) events in
      if should_keep f (name ev.event_name) then (ev ∷ kept, f') else skipped

abbrev pub model_of : Str → Option Str
model_of [] = none
model_of (c ∷ s) = some (c ∷ s)

module _ {F : Type 0} where
  unfoldable pub rollup_event : Str → Str × Bucket F → NormalizedEvent F
  rollup_event ts (model, b) = record {
    event_id = none;
    event_name = some rollup_event_name;
    timestamp = some ts;
    session_id = none;
    model = model_of model;
    tool_name = none;
    mcp_server = none;
    mcp_tool = none;
    mcp_server_tool_count = none;
    mcp_schema_tokens = none;
    skill_name = none;
    tool_success = none;
    tool_duration_ms = none;
    cost_usd = if b.has_cost then some b.cost else none;
    input_tokens = non_zero b.input;
    output_tokens = non_zero b.output;
    cache_read_tokens = non_zero b.cache_read;
    cache_create_tokens = non_zero b.cache_create;
    repo = none;
    error_message = none;
  }

  unfoldable pub flush : Str → Filter F → List (NormalizedEvent F) × Filter F
  unfolding rollup_event
  flush ts f = (
    map (rollup_event ts) f.pending,
    record f {
      pending = [];
      stats = record f.stats { rollups = f.stats.rollups + length f.pending };
    },
  )

unfoldable pub metric_allowlist : List Str
metric_allowlist =
    lit "claude_code.token.usage"
    ∷ lit "claude_code.cost.usage"
    ∷ lit "claude_code.commit.count"
    ∷ lit "claude_code.lines_of_code.count"
    ∷ []

pub record MetricFilter : Type 0 where
  pub keep : List Str
  pub kept : ℕ
  pub filtered : ℕ

unfoldable pub new_metric_filter : List Str → MetricFilter
new_metric_filter extra_keep = record {
  keep = metric_allowlist ++ extra_keep;
  kept = 0;
  filtered = 0;
}

unfoldable pub apply_metrics :
    {F : Type 0} → MetricFilter → List (MetricPoint F) → List (MetricPoint F) × MetricFilter
apply_metrics f [] = ([], f)
apply_metrics f (p ∷ points) =
    let skipped = apply_metrics (record f { filtered = f.filtered + 1 }) points in
    let (kept, f') = apply_metrics (record f { kept = f.kept + 1 }) points in
    if contains f.keep p.metric_name then (p ∷ kept, f') else skipped
