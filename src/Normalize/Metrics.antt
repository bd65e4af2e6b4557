-- ===== src/Normalize/Metrics.antt =====
-- NormalizeMetricsBatch (internal/normalize/metrics.go): the data points of a request's metrics.
use desktop_client.Base.{ℕ, suc, ◌+◌, Str, lit, Option, none, some, List, [], ◌∷◌, ◌++◌}
use desktop_client.Api.{MetricPoint}
use desktop_client.Normalize.Values.{
  Value, null, text, object, Values, nil, cons, Fields, at, as_slice, first_attr, Outside,
  attrs_to_map, nano_to_iso, py_or,
}
use desktop_client.Normalize.Fields.{as_string, float_or_nil, or_now}
use desktop_client.Normalize.Logs.{session_aliases}

abbrev pub aggregation_keys : List Str
aggregation_keys = lit "sum" ∷ lit "gauge" ∷ lit "histogram" ∷ lit "summary" ∷ []

module _ {F : Type 0} where
  unfoldable pub first_present : List (Value F) → Value F
  first_present [] = null
  first_present (null ∷ vs) = first_present vs
  first_present (v ∷ vs) = v

  -- A name that is a text and not empty.
  abbrev pub metric_name_of : Value F → Option Str
  metric_name_of v = as_string v

module _ {F : Type 0} (o : Outside F) where
  abbrev pub metric_timestamp : Fields F → Option Str
  metric_timestamp m =
      or_now o
        (as_string (py_or o (nano_to_iso o (at m (lit "timeUnixNano")) ∷ text o.now_iso ∷ [])))

  abbrev pub valued_point : Fields F → Str → Str → Option F → Option (MetricPoint F)
  valued_point m name repo none = none
  valued_point m name repo (some value) =
      let attrs = attrs_to_map o (at m (lit "attributes")) in
      some (record {
        metric_name = name;
        value = value;
        timestamp = metric_timestamp m;
        model = as_string (py_or o (at attrs (lit "model") ∷ at attrs (lit "slug") ∷ []));
        repo =
            as_string
              (py_or o (text repo ∷ at attrs (lit "repo") ∷ at attrs (lit "repository") ∷ []));
        session_id = as_string (first_attr attrs session_aliases);
        point_id = none;
      })

  unfoldable pub flatten_data_point : Value F → Str → Str → Option (MetricPoint F)
  unfolding attrs_to_map first_present
  flatten_data_point (object m) name repo =
      valued_point m name repo
        (float_or_nil o (first_present (at m (lit "asDouble") ∷ at m (lit "asInt") ∷ [])))
  flatten_data_point _ name repo = none

  abbrev pub Points : Type 0
  Points = List (MetricPoint F) × ℕ

  abbrev pub add_point : Option (MetricPoint F) → Points → Points
  add_point none (points, dropped) = (points, suc dropped)
  add_point (some p) (points, dropped) = (points ++ p ∷ [], dropped)

  unfoldable pub add_points : Str → Str → Values F → Points → Points
  unfolding flatten_data_point
  add_points name repo nil acc = acc
  add_points name repo (cons dp dps) acc =
      add_points name repo dps (add_point (flatten_data_point dp name repo) acc)

  abbrev pub add_aggregation : Str → Str → Value F → Points → Points
  add_aggregation name repo (object agg) acc =
      add_points name repo (as_slice (at agg (lit "dataPoints"))) acc
  add_aggregation name repo _ acc = acc

  unfoldable pub add_aggregations : Str → Str → Fields F → List Str → Points → Points
  unfolding add_points
  add_aggregations name repo m [] acc = acc
  add_aggregations name repo m (key ∷ keys) acc =
      add_aggregations name repo m keys (add_aggregation name repo (at m key) acc)

  abbrev pub named_metric : Option Str → Str → Fields F → Points
  named_metric none repo m = ([], 0)
  named_metric (some name) repo m = add_aggregations name repo m aggregation_keys ([], 0)

  unfoldable pub flatten_metric : Value F → Str → Points
  unfolding add_aggregations
  flatten_metric (object m) repo = named_metric (metric_name_of (at m (lit "name"))) repo m
  flatten_metric _ repo = ([], 0)

  abbrev pub join_points : Points → Points → Points
  join_points (points, dropped) (more, drop) = (points ++ more, dropped + drop)

  unfoldable pub add_metrics : Str → Values F → Points → Points
  unfolding flatten_metric
  add_metrics repo nil acc = acc
  add_metrics repo (cons metric metrics) acc =
      add_metrics repo metrics (join_points acc (flatten_metric metric repo))

  unfoldable pub add_metric_scopes : Str → Values F → Points → Points
  unfolding add_metrics
  add_metric_scopes repo nil acc = acc
  add_metric_scopes repo (cons (object m) scopes) acc =
      add_metric_scopes repo scopes (add_metrics repo (as_slice (at m (lit "metrics"))) acc)
  add_metric_scopes repo (cons v scopes) acc = add_metric_scopes repo scopes acc

  unfoldable pub add_metric_resources : Str → Values F → Points → Points
  unfolding add_metric_scopes
  add_metric_resources repo nil acc = acc
  add_metric_resources repo (cons (object m) resources) acc =
      add_metric_resources repo resources
        (add_metric_scopes repo (as_slice (at m (lit "scopeMetrics"))) acc)
  add_metric_resources repo (cons v resources) acc = add_metric_resources repo resources acc

  unfoldable pub normalize_metrics_batch : Fields F → Str → Points
  unfolding add_metric_resources
  normalize_metrics_batch payload repo =
      add_metric_resources repo (as_slice (at payload (lit "resourceMetrics"))) ([], 0)
