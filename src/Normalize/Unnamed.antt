-- ===== src/Normalize/Unnamed.antt =====
-- The data points of metrics without a usable name (flattenMetric, internal/normalize/metrics.go), which are skipped.
use desktop_client.Base.{
  ◌+◌, ◌≡◌, refl, Str, lit, Option, none, some, List, [], ◌∷◌, ◌++◌, length, length-map,
  length-append, arith,
}
use desktop_client.Normalize.Values.{
  Value, null, bool, int, float, text, array, object, Fields, at, as_slice,
}
use desktop_client.Normalize.Metrics.{aggregation_keys, metric_name_of}
use desktop_client.Normalize.Batches.{under_two}
use desktop_client.Normalize.Points.{
  named, under_aggregations, named_points, metric_points, all_metric_points, data_points,
}

module _ {F : Type 0} where
  -- The data points of a metric, whatever its name.
  abbrev points_of : Value F → List (Value F)
  points_of (object m) = under_aggregations m aggregation_keys
  points_of _ = []

  abbrev all_points : List (Value F) → List (Value F)
  all_points [] = []
  all_points (v ∷ vs) = points_of v ++ all_points vs

  abbrev if_unnamed : Option Str → Fields F → List (Value F)
  if_unnamed none m = under_aggregations m aggregation_keys
  if_unnamed (some name) m = []

  -- Those of a metric whose name is missing, no text or empty.
  abbrev unnamed_of : Value F → List (Value F)
  unnamed_of (object m) = if_unnamed (metric_name_of (at m (lit "name"))) m
  unnamed_of _ = []

  abbrev all_unnamed : List (Value F) → List (Value F)
  all_unnamed [] = []
  all_unnamed (v ∷ vs) = unnamed_of v ++ all_unnamed vs

  abbrev metrics_of : Fields F → List (Value F)
  metrics_of payload =
      under_two (lit "scopeMetrics") (lit "metrics") (as_slice (at payload (lit "resourceMetrics")))

  abbrev pub every_point : Fields F → List (Value F)
  every_point payload = all_points (metrics_of payload)

  abbrev pub unnamed_points : Fields F → List (Value F)
  unnamed_points payload = all_unnamed (metrics_of payload)

  by_name :
      (name : Option Str) (m : Fields F)
      → length (named_points name m) + length (if_unnamed name m)
        ≡ length (under_aggregations m aggregation_keys)
  by_name none m = omega arith
  by_name (some name) m =
      omega (arith, length-map (named name) (under_aggregations m aggregation_keys))

  split_metric :
      (v : Value F) → length (metric_points v) + length (unnamed_of v) ≡ length (points_of v)
  split_metric (object m) = by_name (metric_name_of (at m (lit "name"))) m
  split_metric null = refl
  split_metric (bool b) = refl
  split_metric (int n) = refl
  split_metric (float x) = refl
  split_metric (text s) = refl
  split_metric (array vs) = refl

  split_metrics :
      (vs : List (Value F))
      → length (all_metric_points vs) + length (all_unnamed vs) ≡ length (all_points vs)
  split_metrics [] = refl
  split_metrics (v ∷ vs) = omega (
    arith,
    split_metric v,
    split_metrics vs,
    length-append (metric_points v) (all_metric_points vs),
    length-append (unnamed_of v) (all_unnamed vs),
    length-append (points_of v) (all_points vs),
  )

  pub every_point-split :
      (payload : Fields F)
      → length (data_points payload) + length (unnamed_points payload)
        ≡ length (every_point payload)
  every_point-split payload = split_metrics (metrics_of payload)
