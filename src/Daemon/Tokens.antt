-- ===== src/Daemon/Tokens.antt =====
-- No token is lost between normalize and the queue.
use desktop_client.Base.{
  ℕ, ◌-◌, ◌≡◌, refl, sym, ap, ◌∙◌, inl, inr, Str, str_eq, Option, none, some, List, [], ◌∷◌, ◌++◌,
  length, filter, arith, ltb, Bool-cases,
}
use mathlib.Core.List.{append-nil}
use desktop_client.Base.Words.{add64, add64_assoc, add64_comm}
use desktop_client.Api.{NormalizedEvent}
use desktop_client.Counters
use desktop_client.Filter.{Filter, name, apply, flush}
use desktop_client.Filter.Conservation.{TokenKind, event_tokens, event_total, pending_total}
use desktop_client.Filter.Batches.{
  is_kept, is_dropped, pending_total-apply, event_total-rollups, apply_partitions,
}
use desktop_client.Queue.Table.Ops.{Error}
use desktop_client.Queue.Sessions.{SessionRow}
use desktop_client.Daemon.{
  Surroundings, Daemon, add, due_rollups, upserted, upsert, with_kept, filter_events,
  rollup_interval,
}

add64_shuffle : (x a b : ℕ) → add64 a (add64 x b) ≡ add64 x (add64 a b)
add64_shuffle x a b =
    sym (add64_assoc a x b) ∙ ap (λ y. add64 y b) (add64_comm a x) ∙ add64_assoc x a b

add64_zero : add64 0 0 ≡ 0
unfolding add64
add64_zero = omega arith

module _ {F : Type 0} (k : TokenKind) (m : Str) where
  event_total-lt :
      (events : List (NormalizedEvent F))
      → add64 0 (event_total k m events) ≡ event_total k m events
  unfolding event_total add64
  event_total-lt [] = omega arith
  event_total-lt (ev ∷ events) = elim (Bool-cases (str_eq (name ev.model) m)) [
    | inl e ↦ rw e (omega arith)
    | inr e ↦ rw e (event_total-lt events)
  ]

  event_total-append :
      (xs ys : List (NormalizedEvent F))
      → event_total k m (xs ++ ys) ≡ add64 (event_total k m xs) (event_total k m ys)
  unfolding event_total
  event_total-append [] ys = sym (event_total-lt ys)
  event_total-append (ev ∷ xs) ys = elim (Bool-cases (str_eq (name ev.model) m)) [
    | inl e ↦ rw e (
        ap (add64 (event_tokens k ev)) (event_total-append xs ys)
        ∙ sym (add64_assoc (event_tokens k ev) (event_total k m xs) (event_total k m ys)))
    | inr e ↦ rw e (event_total-append xs ys)
  ]

  -- The kept and the dropped events of a batch are its events.
  event_total-split :
      (f : Filter F) (events : List (NormalizedEvent F))
      → add64
          (event_total k m (filter (is_kept f) events))
          (event_total k m (filter (is_dropped f) events))
        ≡ event_total k m events
  unfolding event_total
  event_total-split f [] = add64_zero
  event_total-split f (ev ∷ events) =
      let t = event_tokens k ev in
      let a = event_total k m (filter (is_kept f) events) in
      let b = event_total k m (filter (is_dropped f) events) in
      let rest = event_total-split f events in
      elim (Bool-cases (is_kept f ev)) [
        | inl e ↦ elim (Bool-cases (str_eq (name ev.model) m)) [
          | inl here ↦ rw e (rw here (add64_assoc t a b ∙ ap (add64 t) rest))
          | inr there ↦ rw e (rw there rest)
        ]
        | inr e ↦ elim (Bool-cases (str_eq (name ev.model) m)) [
          | inl here ↦ rw e (rw here (add64_shuffle t a b ∙ ap (add64 t) rest))
          | inr there ↦ rw e (rw there rest)
        ]
      ]

module _ {F E M P : Type 0} (env : Surroundings F E M P) (k : TokenKind) (m : Str) where
  -- The tokens in a list of events and in the pending rollups of a daemon.
  abbrev pub held_tokens : List (NormalizedEvent F) → Daemon F E M P → ℕ
  held_tokens events d = add64 (event_total k m events) (pending_total k m d.filter.pending)

  upserted-filter :
      (d : Daemon F E M P) (r : List (SessionRow P) × Option Error)
      → (upserted env d r).filter ≡ d.filter
  upserted-filter d (q, none) = refl
  upserted-filter d (q, some e) = refl

  -- Rollups that are due leave the filter, and their tokens are in the rollups.
  due_rollups-tokens :
      (kept : List (NormalizedEvent F)) (d : Daemon F E M P)
      → let (d', kept', queued) = with_kept env kept (due_rollups env d) in
        held_tokens queued d' ≡ held_tokens kept d
  unfolding due_rollups flush pending_total
  due_rollups-tokens kept d = elim (Bool-cases (ltb (env.now - d.last_rollup) rollup_interval)) [
    | inl e ↦ rw e (ap (λ es. held_tokens es d) (append-nil kept))
    | inr e ↦
        let rollups = (flush env.timestamp d.filter).0 in
        let total = pending_total k m d.filter.pending in
        rw e (
          add64_comm (event_total k m (kept ++ rollups)) 0
          ∙ event_total-lt k m (kept ++ rollups)
          ∙ event_total-append k m kept rollups
          ∙ ap (add64 (event_total k m kept))
              (event_total-rollups k env.timestamp m d.filter.pending))
  ]

  apply-tokens :
      (f : Filter F) (events : List (NormalizedEvent F))
      → let (kept, f') = apply env.floats f events in
        add64 (event_total k m kept) (pending_total k m f'.pending)
        ≡ add64 (event_total k m events) (pending_total k m f.pending)
  apply-tokens f events =
      let a = event_total k m (filter (is_kept f) events) in
      let b = event_total k m (filter (is_dropped f) events) in
      rw (apply_partitions env.floats f events).0 (
        rw (pending_total-apply env.floats f k m f (λ s. refl) events) (
          sym (add64_assoc a b (pending_total k m f.pending))
          ∙ ap (λ t. add64 t (pending_total k m f.pending)) (event_total-split k m f events)))

  -- For every model and every kind of tokens, the events that a request hands to the queue and the rollups
  -- that stay pending hold the tokens of the request's events and of the rollups pending before, as int64
  -- sums, whether rollups are due or not and whether the sessions' merge fails or not.
  pub filter_events_conserves :
      (events : List (NormalizedEvent F)) (d : Daemon F E M P)
      → let (d', kept, queued) = filter_events env events d in
        held_tokens queued d' ≡ held_tokens events d
  unfolding filter_events
  filter_events_conserves events d =
      let (kept, f) = apply env.floats d.filter events in
      let d1 = add Counters.filtered (length events - length kept) (record d { filter = f }) in
      let r = upsert env events d1.queue.sessions in
      due_rollups-tokens kept (upserted env d1 r)
      ∙ ap (λ g. add64 (event_total k m kept) (pending_total k m g.pending)) (upserted-filter d1 r)
      ∙ apply-tokens d.filter events
