-- ===== src/Normalize/Points.antt =====
-- Each data point of a named metric is kept or counted as dropped.
use desktop_client.Base.{
  ℕ, suc, ◌+◌, ◌≡◌, refl, sym, ap, ◌∙◌, Str, lit, Option, none, some, List, [], ◌∷◌, ◌++◌, map,
  length, length-map, arith,
}
use mathlib.Core.List.{append_assoc, append-nil, map-append}
use desktop_client.Api.{MetricPoint}
use desktop_client.Normalize.Values.{
  Value, null, bool, int, float, text, array, object, Values, nil, cons, Fields, at, as_slice,
  Outside,
}
use desktop_client.Normalize.Metrics.{
  aggregation_keys, metric_name_of, flatten_data_point, add_point, add_points, add_aggregation,
  add_aggregations, named_metric, flatten_metric, join_points, add_metrics, add_metric_scopes,
  add_metric_resources, normalize_metrics_batch,
}
use desktop_client.Normalize.Batches.{
  gather, missing, after, pair_eq, after-append, after-nil, after_start, to_list, under, under_two,
}

module _ {F : Type 0} where
  abbrev pub named : Str → Value F → Str × Value F
  named name dp = (name, dp)

  abbrev under_aggregation : Value F → List (Value F)
  under_aggregation (object agg) = to_list (as_slice (at agg (lit "dataPoints")))
  under_aggregation _ = []

  abbrev pub under_aggregations : Fields F → List Str → List (Value F)
  under_aggregations m [] = []
  under_aggregations m (key ∷ keys) = under_aggregation (at m key) ++ under_aggregations m keys

  abbrev pub named_points : Option Str → Fields F → List (Str × Value F)
  named_points none m = []
  named_points (some name) m = map (named name) (under_aggregations m aggregation_keys)

  abbrev pub metric_points : Value F → List (Str × Value F)
  metric_points (object m) = named_points (metric_name_of (at m (lit "name"))) m
  metric_points _ = []

  abbrev pub all_metric_points : List (Value F) → List (Str × Value F)
  all_metric_points [] = []
  all_metric_points (v ∷ vs) = metric_points v ++ all_metric_points vs

  all_metric_points-append :
      (xs ys : List (Value F))
      → all_metric_points (xs ++ ys) ≡ all_metric_points xs ++ all_metric_points ys
  all_metric_points-append [] ys = refl
  all_metric_points-append (v ∷ vs) ys =
      ap (λ ps. metric_points v ++ ps) (all_metric_points-append vs ys)
      ∙ sym (append_assoc (metric_points v) (all_metric_points vs) (all_metric_points ys))

  -- The data points of a request's named metrics. Those of the others are Unnamed's.
  abbrev pub data_points : Fields F → List (Str × Value F)
  data_points payload = all_metric_points (
      under_two (lit "scopeMetrics") (lit "metrics")
        (as_slice (at payload (lit "resourceMetrics"))))

module _ {F : Type 0} (o : Outside F) where
  abbrev outcome : Str → Str × Value F → Option (MetricPoint F)
  outcome repo (name, dp) = flatten_data_point o dp name repo

  abbrev outcomes : Str → List (Str × Value F) → List (Option (MetricPoint F))
  outcomes repo nps = map (outcome repo) nps

  add_point-after :
      (x : Option (MetricPoint F)) (acc : List (MetricPoint F) × ℕ)
      → add_point o x acc ≡ after acc (x ∷ [])
  add_point-after none (ps, n) =
      pair_eq ps (ps ++ []) (suc n) (n + 1) (sym (append-nil ps)) (omega arith)
  add_point-after (some p) (ps, n) =
      pair_eq (ps ++ p ∷ []) (ps ++ p ∷ []) n (n + 0) refl (omega arith)

  join_points-after :
      (acc : List (MetricPoint F) × ℕ) (xs : List (Option (MetricPoint F)))
      → join_points o acc (after ([], 0) xs) ≡ after acc xs
  join_points-after (ps, n) xs =
      pair_eq (ps ++ gather xs) (ps ++ gather xs) (n + (0 + missing xs)) (n + missing xs) refl
        (omega arith)

  add_points-after :
      (name repo : Str) (dps : Values F) (acc : List (MetricPoint F) × ℕ)
      → add_points o name repo dps acc ≡ after acc (outcomes repo (map (named name) (to_list dps)))
  unfolding add_points
  add_points-after name repo nil acc = sym (after-nil acc)
  add_points-after name repo (cons dp dps) acc =
      let x = flatten_data_point o dp name repo in
      add_points-after name repo dps (add_point o x acc)
      ∙ ap (λ b. after b (outcomes repo (map (named name) (to_list dps)))) (add_point-after x acc)
      ∙ after-append acc (x ∷ []) (outcomes repo (map (named name) (to_list dps)))

  add_aggregation-after :
      (name repo : Str) (v : Value F) (acc : List (MetricPoint F) × ℕ)
      → add_aggregation o name repo v acc
        ≡ after acc (outcomes repo (map (named name) (under_aggregation v)))
  unfolding add_points
  add_aggregation-after name repo (object agg) acc =
      add_points-after name repo (as_slice (at agg (lit "dataPoints"))) acc
  add_aggregation-after name repo null acc = sym (after-nil acc)
  add_aggregation-after name repo (bool x) acc = sym (after-nil acc)
  add_aggregation-after name repo (int x) acc = sym (after-nil acc)
  add_aggregation-after name repo (float x) acc = sym (after-nil acc)
  add_aggregation-after name repo (text x) acc = sym (after-nil acc)
  add_aggregation-after name repo (array x) acc = sym (after-nil acc)

  add_aggregations-after :
      (name repo : Str) (m : Fields F) (keys : List Str) (acc : List (MetricPoint F) × ℕ)
      → add_aggregations o name repo m keys acc
        ≡ after acc (outcomes repo (map (named name) (under_aggregations m keys)))
  unfolding add_aggregations
  add_aggregations-after name repo m [] acc = sym (after-nil acc)
  add_aggregations-after name repo m (key ∷ keys) acc =
      let these = map (named name) (under_aggregation (at m key)) in
      let later = map (named name) (under_aggregations m keys) in
      add_aggregations-after name repo m keys (add_aggregation o name repo (at m key) acc)
      ∙ ap (λ b. after b (outcomes repo later)) (add_aggregation-after name repo (at m key) acc)
      ∙ after-append acc (outcomes repo these) (outcomes repo later)
      ∙ ap (λ xs. after acc xs)
          (sym (map-append (outcome repo) these later)
            ∙ ap (outcomes repo) (
                sym (
                  map-append (named name) (under_aggregation (at m key))
                    (under_aggregations m keys))))

  named_metric-after :
      (name : Option Str) (repo : Str) (m : Fields F)
      → named_metric o name repo m ≡ after ([], 0) (outcomes repo (named_points name m))
  unfolding add_aggregations
  named_metric-after none repo m = sym (after-nil ([], 0))
  named_metric-after (some name) repo m =
      add_aggregations-after name repo m aggregation_keys ([], 0)

  flatten_metric-after :
      (v : Value F) (repo : Str)
      → flatten_metric o v repo ≡ after ([], 0) (outcomes repo (metric_points v))
  unfolding flatten_metric
  flatten_metric-after (object m) repo =
      named_metric-after (metric_name_of (at m (lit "name"))) repo m
  flatten_metric-after null repo = sym (after-nil ([], 0))
  flatten_metric-after (bool x) repo = sym (after-nil ([], 0))
  flatten_metric-after (int x) repo = sym (after-nil ([], 0))
  flatten_metric-after (float x) repo = sym (after-nil ([], 0))
  flatten_metric-after (text x) repo = sym (after-nil ([], 0))
  flatten_metric-after (array x) repo = sym (after-nil ([], 0))

  -- Results of two lists of metrics, one after the other.
  after_both :
      (repo : Str) (acc : List (MetricPoint F) × ℕ) (xs ys : List (Value F))
      → after
          (after acc (outcomes repo (all_metric_points xs)))
          (outcomes repo (all_metric_points ys))
        ≡ after acc (outcomes repo (all_metric_points (xs ++ ys)))
  after_both repo acc xs ys =
      after-append acc (outcomes repo (all_metric_points xs)) (outcomes repo (all_metric_points ys))
      ∙ ap (λ ps. after acc ps)
          (sym (map-append (outcome repo) (all_metric_points xs) (all_metric_points ys))
            ∙ ap (outcomes repo) (sym (all_metric_points-append xs ys)))

  add_metrics-after :
      (repo : Str) (vs : Values F) (acc : List (MetricPoint F) × ℕ)
      → add_metrics o repo vs acc ≡ after acc (outcomes repo (all_metric_points (to_list vs)))
  unfolding add_metrics
  add_metrics-after repo nil acc = sym (after-nil acc)
  add_metrics-after repo (cons v vs) acc =
      let later = outcomes repo (all_metric_points (to_list vs)) in
      add_metrics-after repo vs (join_points o acc (flatten_metric o v repo))
      ∙ ap (λ b. after b later)
          (ap (join_points o acc) (flatten_metric-after v repo)
            ∙ join_points-after acc (outcomes repo (metric_points v)))
      ∙ after-append acc (outcomes repo (metric_points v)) later
      ∙ ap (λ xs. after acc xs)
          (sym (map-append (outcome repo) (metric_points v) (all_metric_points (to_list vs))))

  add_metric_scopes-after :
      (repo : Str) (scopes : Values F) (acc : List (MetricPoint F) × ℕ)
      → add_metric_scopes o repo scopes acc
        ≡ after acc (outcomes repo (all_metric_points (under (lit "metrics") scopes)))
  unfolding add_metric_scopes
  add_metric_scopes-after repo nil acc = sym (after-nil acc)
  add_metric_scopes-after repo (cons null vs) acc = add_metric_scopes-after repo vs acc
  add_metric_scopes-after repo (cons (bool x) vs) acc = add_metric_scopes-after repo vs acc
  add_metric_scopes-after repo (cons (int x) vs) acc = add_metric_scopes-after repo vs acc
  add_metric_scopes-after repo (cons (float x) vs) acc = add_metric_scopes-after repo vs acc
  add_metric_scopes-after repo (cons (text x) vs) acc = add_metric_scopes-after repo vs acc
  add_metric_scopes-after repo (cons (array x) vs) acc = add_metric_scopes-after repo vs acc
  add_metric_scopes-after repo (cons (object m) vs) acc =
      let these = as_slice (at m (lit "metrics")) in
      let later = under (lit "metrics") vs in
      add_metric_scopes-after repo vs (add_metrics o repo these acc)
      ∙ ap (λ b. after b (outcomes repo (all_metric_points later)))
          (add_metrics-after repo these acc)
      ∙ after_both repo acc (to_list these) later

  add_metric_resources-after :
      (repo : Str) (resources : Values F) (acc : List (MetricPoint F) × ℕ)
      → add_metric_resources o repo resources acc
        ≡ after acc (
            outcomes repo
              (all_metric_points (under_two (lit "scopeMetrics") (lit "metrics") resources)))
  unfolding add_metric_resources
  add_metric_resources-after repo nil acc = sym (after-nil acc)
  add_metric_resources-after repo (cons null vs) acc = add_metric_resources-after repo vs acc
  add_metric_resources-after repo (cons (bool x) vs) acc = add_metric_resources-after repo vs acc
  add_metric_resources-after repo (cons (int x) vs) acc = add_metric_resources-after repo vs acc
  add_metric_resources-after repo (cons (float x) vs) acc = add_metric_resources-after repo vs acc
  add_metric_resources-after repo (cons (text x) vs) acc = add_metric_resources-after repo vs acc
  add_metric_resources-after repo (cons (array x) vs) acc = add_metric_resources-after repo vs acc
  add_metric_resources-after repo (cons (object m) vs) acc =
      let scopes = as_slice (at m (lit "scopeMetrics")) in
      let later = under_two (lit "scopeMetrics") (lit "metrics") vs in
      add_metric_resources-after repo vs (add_metric_scopes o repo scopes acc)
      ∙ ap (λ b. after b (outcomes repo (all_metric_points later)))
          (add_metric_scopes-after repo scopes acc)
      ∙ after_both repo acc (under (lit "metrics") scopes) later

  -- A request's points are, in their order, the points of those data points of its named metrics that give
  -- one, and every other data point is counted: points and dropped data points make up the data points.
  pub normalize_metrics_batch-Points :
      (payload : Fields F) (repo : Str)
      → let (points, dropped) = normalize_metrics_batch o payload repo in
        (points
          ≡ gather (map (λ (name, dp). flatten_data_point o dp name repo) (data_points payload)))
        × (length points + dropped ≡ length (data_points payload))
  unfolding normalize_metrics_batch
  normalize_metrics_batch-Points payload repo =
      let (points, total) = after_start (outcomes repo (data_points payload)) in
      rw (add_metric_resources-after repo (as_slice (at payload (lit "resourceMetrics"))) ([], 0))
        (points, total ∙ length-map (outcome repo) (data_points payload))
