-- ===== src/Filter/Batches.antt =====
-- Filter.Apply and Filter.Flush over a whole batch: which events are kept, how they are counted, and
-- that the tokens of the dropped ones come out in the rollups.
use desktop_client.Base.{
  ℕ, ◌+◌, ◌≡◌, refl, ap, sym, ◌∙◌, Bool, not, Str, List, [], ◌∷◌, map, inl, inr, arith, length,
  filter, Bool-cases,
}
use desktop_client.Base.Words.{add64, add64_assoc, add64_comm}
use desktop_client.Api.{NormalizedEvent, MetricPoint}
use desktop_client.Filter.{
  Filter, Stats, Bucket, FloatOps, name, should_keep, accumulate, count_kept, count_filtered, apply,
  flush, rollup_event, model_of, MetricFilter, apply_metrics,
}
use desktop_client.Base.{contains}
use desktop_client.Filter.Conservation.{
  TokenKind, input, output, cache_read, cache_create, event_tokens, bucket_tokens, event_total,
  pending_total, pending_total-lt, pending_total-accumulate, add64_none,
}

name-model_of : (s : Str) → name (model_of s) ≡ s
name-model_of [] = refl
name-model_of (c ∷ s) = refl

module _ {F : Type 0} where
  abbrev pub is_kept : Filter F → NormalizedEvent F → Bool
  is_kept f ev = should_keep f (name ev.event_name)

  abbrev pub is_dropped : Filter F → NormalizedEvent F → Bool
  is_dropped f ev = not (is_kept f ev)

  should_keep-count_kept : (f : Filter F) (s : Str) → should_keep (count_kept f) s ≡ should_keep f s
  unfolding should_keep
  should_keep-count_kept f s = refl

  rollup_tokens :
      (k : TokenKind) (ts m : Str) (b : Bucket F)
      → event_tokens k (rollup_event ts (m, b)) ≡ bucket_tokens k b
  unfolding rollup_event
  rollup_tokens input ts m b = ground arith
  rollup_tokens output ts m b = ground arith
  rollup_tokens cache_read ts m b = ground arith
  rollup_tokens cache_create ts m b = ground arith

  rollup_model : (ts m : Str) (b : Bucket F) → name (rollup_event ts (m, b)).model ≡ m
  unfolding rollup_event
  rollup_model ts m b = name-model_of m

  pub event_total-rollups :
      (k : TokenKind) (ts m : Str) (p : List (Str × Bucket F))
      → event_total k m (map (rollup_event ts) p) ≡ pending_total k m p
  unfolding event_total pending_total
  event_total-rollups k ts m [] = refl
  event_total-rollups k ts m ((key, b) ∷ rest) =
      rw (rollup_tokens k ts key b)
        (rw (rollup_model ts key b) (rw (event_total-rollups k ts m rest)))

module _ {F : Type 0} (fl : FloatOps F) where
  should_keep-accumulate :
      (ev : NormalizedEvent F) (f : Filter F) (s : Str)
      → should_keep (accumulate fl ev (count_filtered f)) s ≡ should_keep f s
  unfolding should_keep accumulate
  should_keep-accumulate ev f s = ground arith

  add64_regroup : (r t p : ℕ) → add64 r (add64 t p) ≡ add64 (add64 t r) p
  add64_regroup r t p = rw (add64_comm t r) (sym (add64_assoc r t p))

  module _ (f : Filter F) where
    pub pending_total-apply :
        (k : TokenKind) (m : Str) (g : Filter F)
        (same : (s : Str) → should_keep g s ≡ should_keep f s) (events : List (NormalizedEvent F))
        → pending_total k m (apply fl g events).1.pending
          ≡ add64 (event_total k m (filter (is_dropped f) events)) (pending_total k m g.pending)
    unfolding apply event_total
    pending_total-apply k m g same [] =
        sym (add64_none fl (pending_total k m g.pending) (pending_total-lt k m g.pending))
    pending_total-apply k m g same (ev ∷ events) = elim (Bool-cases (is_kept f ev)) [
      | inl e ↦ rw (same (name ev.event_name)) (
          rw e (
            pending_total-apply k m (count_kept g) (λ s. should_keep-count_kept g s ∙ same s)
              events))
      | inr e ↦ rw (same (name ev.event_name)) (
          rw e (
            pending_total-apply k m (accumulate fl ev (count_filtered g))
              (λ s. should_keep-accumulate ev g s ∙ same s) events
            ∙ (rw (pending_total-accumulate fl k m ev (count_filtered g)) (
                ground (
                  arith,
                  add64_regroup (event_total k m (filter (is_dropped f) events)) (event_tokens k ev)
                      (pending_total k m g.pending),
                )))))
    ]

  -- For every model and every kind of tokens, what a flush after a batch reports, summed over the
  -- rollups of the model, is what the dropped events of the batch held and what was pending before, as
  -- int64 sums; nothing is pending after the flush, and each rollup is counted.
  pub apply-flush_conserves :
      (f : Filter F) (events : List (NormalizedEvent F)) (ts : Str) (k : TokenKind) (m : Str)
      → let (rollups, f') = flush ts (apply fl f events).1 in
        (event_total k m rollups
          ≡ add64 (event_total k m (filter (is_dropped f) events)) (pending_total k m f.pending))
        × (f'.pending ≡ [])
        × (f'.stats.rollups
            ≡ (apply fl f events).1.stats.rollups + length (apply fl f events).1.pending)
  unfolding flush
  apply-flush_conserves f events ts k m = (
    event_total-rollups k ts m (apply fl f events).1.pending
        ∙ pending_total-apply f k m f (λ s. refl) events,
    refl,
    refl,
  )

  accumulate-stats : (ev : NormalizedEvent F) (f : Filter F) → (accumulate fl ev f).stats ≡ f.stats
  unfolding accumulate
  accumulate-stats ev f = ground arith

  module _ (f : Filter F) where
    apply-partition :
        (g : Filter F) (same : (s : Str) → should_keep g s ≡ should_keep f s)
        (events : List (NormalizedEvent F))
        → let (kept, g') = apply fl g events in
          (kept ≡ filter (is_kept f) events)
          × (g'.stats.kept ≡ g.stats.kept + length kept)
          × (g'.stats.filtered + length kept ≡ g.stats.filtered + length events)
    unfolding apply
    apply-partition g same [] = ground arith
    apply-partition g same (ev ∷ events) = elim (Bool-cases (is_kept f ev)) [
      | inl e ↦
          let ih =
            apply-partition (count_kept g) (λ s. should_keep-count_kept g s ∙ same s) events in
          rw (same (name ev.event_name))
            (rw e (ap (◌∷◌ ev) ih.0, omega (arith, ih.1), omega (arith, ih.2)))
      | inr e ↦
          let ih =
            apply-partition (accumulate fl ev (count_filtered g))
              (λ s. should_keep-accumulate ev g s ∙ same s) events in
          let st = accumulate-stats ev (count_filtered g) in
          rw (same (name ev.event_name)) (
            rw e (
              ih.0,
              omega (arith, ih.1, ap (λ (t : Stats). t.kept) st),
              omega (arith, ih.2, ap (λ (t : Stats). t.filtered) st),
            ))
    ]

  -- Apply keeps the events whose name passes the policy, all of them and in their order, and every
  -- event of the batch is counted once, as kept or as filtered.
  pub apply_partitions :
      (f : Filter F) (events : List (NormalizedEvent F))
      → let (kept, f') = apply fl f events in
        (kept ≡ filter (is_kept f) events)
        × (f'.stats.kept ≡ f.stats.kept + length kept)
        × (f'.stats.filtered + length kept ≡ f.stats.filtered + length events)
  apply_partitions f events = apply-partition f f (λ s. refl) events

module _ {F : Type 0} where
  abbrev pub is_allowed : MetricFilter → MetricPoint F → Bool
  is_allowed f p = contains f.keep p.metric_name

  -- The metric filter keeps the points whose name is on its list and no other, in their order, and
  -- counts every point once.
  pub apply_metrics_partitions :
      (f : MetricFilter) (points : List (MetricPoint F))
      → let (kept, f') = apply_metrics f points in
        (kept ≡ filter (is_allowed f) points)
        × (f'.keep ≡ f.keep)
        × (f'.kept ≡ f.kept + length kept)
        × (f'.filtered + length kept ≡ f.filtered + length points)
  unfolding apply_metrics
  apply_metrics_partitions f [] = ground arith
  apply_metrics_partitions f (p ∷ points) = elim (Bool-cases (is_allowed f p)) [
    | inl e ↦
        let ih = apply_metrics_partitions (record f { kept = f.kept + 1 }) points in
        rw e (ap (◌∷◌ p) ih.0, ih.1, omega (arith, ih.2), omega (arith, ih.3))
    | inr e ↦
        let ih = apply_metrics_partitions (record f { filtered = f.filtered + 1 }) points in
        rw e (ih.0, ih.1, omega (arith, ih.2), omega (arith, ih.3))
  ]
