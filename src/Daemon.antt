-- ===== src/Daemon.antt =====
-- internal/daemon/daemon.go: the handlers of a request, which compose normalize, the filter and the queue,
-- and the retention. The calls of one daemon run one after the other; the logger is left out.
pub mod Pipeline
pub mod Tokens
use desktop_client.Base.{
  ℕ, ◌+◌, ◌-◌, ◌*◌, Bool, true, false, Str, lit, str_eq, has_prefix, Option, none, some, List, [],
  ◌∷◌, ◌++◌, length, ltb, if◌then◌else◌,
}
use desktop_client.Api.{NormalizedEvent, MetricPoint, second}
use desktop_client.Counters
use desktop_client.Counters.{Registry}
use desktop_client.Filter.{Filter, FloatOps, MetricFilter, apply, flush, apply_metrics, name}
use desktop_client.Normalize.Values.{Fields, Outside}
use desktop_client.Normalize.Logs.{normalize_log_batch}
use desktop_client.Normalize.Metrics.{normalize_metrics_batch}
use desktop_client.Queue.Table.Ops.{Codec, Error}
use desktop_client.Queue.Sessions.Merge.{MergeLibrary}
use desktop_client.Queue.Sessions.Upsert.{SessionCodec, upsert_session_events}
use desktop_client.Queue.Sessions.{SessionRow, prune_acked_sessions}
use desktop_client.Queue.{
  Queue, FileSize, enqueue, enqueue_metrics, prune_acked, prune_acked_metrics,
}

abbrev pub rollup_interval : ℕ
rollup_interval = 60 * second

-- One day.
abbrev pub day : ℕ
day = 24 * 3600 * second

-- What a call meets: the codecs, the size of the file, the UUIDs, the time, the repositories that the
-- sessions' local files name, and what the merge of a session calls.
pub record Surroundings (F E M P : Type 0) : Type 0 where
  pub outside : Outside F
  pub floats : FloatOps F
  pub events_codec : Codec (NormalizedEvent F) E
  pub points_codec : Codec (MetricPoint F) M
  pub size : FileSize E M (List (SessionRow P))
  pub mint : ℕ → Option Str
  pub now : ℕ
  pub timestamp : Str
  pub resolve_codex : Str → Str
  pub resolve_claude : Str → Str
  pub sessions_codec : SessionCodec F P
  pub merge : MergeLibrary

pub record Daemon (F E M P : Type 0) : Type 0 where
  pub queue : Queue E M (List (SessionRow P))
  pub filter : Filter F
  pub metric_filter : MetricFilter
  pub counters : Registry
  pub repo : Str
  pub retention_days : ℕ
  pub last_rollup : ℕ

abbrev pub text_of : Option Str → Option Str → Str
text_of none (some id) = id
text_of _ _ = []

module _ {F : Type 0} where
  -- Empty where the event has a repository, or no session.
  unfoldable pub event_session_id : NormalizedEvent F → Str
  event_session_id ev = text_of ev.repo ev.session_id

  abbrev pub with_repo : Str → NormalizedEvent F → NormalizedEvent F
  with_repo repo ev = if str_eq repo [] then ev else record ev { repo = some repo }

-- The repository that a session resolved to.
unfoldable pub seen : List (Str × Str) → Str → Option Str
seen [] id = none
seen ((key, repo) ∷ rest) id = if str_eq key id then some repo else seen rest id

module _ {F E M P : Type 0} where
  abbrev pub add : Str → ℕ → Daemon F E M P → Daemon F E M P
  add counter delta d = record d { counters = Counters.add counter delta d.counters }

module _ {F E M P : Type 0} (env : Surroundings F E M P) where
  abbrev pub or_codex : Str → Str → Str
  or_codex id repo = if str_eq repo [] then env.resolve_codex id else repo

  unfoldable pub resolve_event_repo : NormalizedEvent F → Str → Str
  resolve_event_repo ev id =
      if has_prefix (name ev.event_name) (lit "codex.")
      then env.resolve_codex id
      else or_codex id (env.resolve_claude id)

  abbrev pub enrich_seen :
      List (Str × Str) → NormalizedEvent F → Str → Option Str → NormalizedEvent F × List (Str × Str)
  enrich_seen resolved ev id (some repo) = (with_repo repo ev, resolved)
  enrich_seen resolved ev id none =
      let repo = resolve_event_repo ev id in (with_repo repo ev, (id, repo) ∷ resolved)

  unfoldable pub enrich_event :
      List (Str × Str) → NormalizedEvent F → NormalizedEvent F × List (Str × Str)
  unfolding event_session_id resolve_event_repo seen
  enrich_event resolved ev =
      let id = event_session_id ev in
      if str_eq id [] then (ev, resolved) else enrich_seen resolved ev id (seen resolved id)

  -- Each session is resolved once.
  unfoldable pub enrich_loop :
      List (Str × Str) → List (NormalizedEvent F) → List (NormalizedEvent F)
  unfolding enrich_event
  enrich_loop resolved [] = []
  enrich_loop resolved (ev ∷ events) =
      let (ev', resolved') = enrich_event resolved ev in ev' ∷ enrich_loop resolved' events

  unfoldable pub enrich_repos : Str → List (NormalizedEvent F) → List (NormalizedEvent F)
  unfolding enrich_loop
  enrich_repos repo events = if str_eq repo [] then enrich_loop [] events else events

  abbrev pub flushed :
      Daemon F E M P
      → List (NormalizedEvent F) × Filter F
      → Daemon F E M P × List (NormalizedEvent F)
  flushed d (rollups, f) = (
    add Counters.rollups (length rollups) (record d { filter = f; last_rollup = env.now }),
    rollups,
  )

  unfoldable pub due_rollups : Daemon F E M P → Daemon F E M P × List (NormalizedEvent F)
  due_rollups d =
      if ltb (env.now - d.last_rollup) rollup_interval
      then (d, [])
      else flushed d (flush env.timestamp d.filter)

  -- A failure is counted and otherwise ignored.
  abbrev pub upserted : Daemon F E M P → List (SessionRow P) × Option Error → Daemon F E M P
  upserted d (rows, none) = record d { queue = record d.queue { sessions = rows } }
  upserted d (rows, some e) =
      add Counters.errors 1 (record d { queue = record d.queue { sessions = rows } })

  abbrev pub upsert :
      List (NormalizedEvent F) → List (SessionRow P) → List (SessionRow P) × Option Error
  upsert events rows =
      upsert_session_events env.merge env.floats env.sessions_codec events env.now rows

  abbrev pub with_kept :
      List (NormalizedEvent F)
      → Daemon F E M P × List (NormalizedEvent F)
      → Daemon F E M P × List (NormalizedEvent F) × List (NormalizedEvent F)
  with_kept kept (d, rollups) = (d, kept, kept ++ rollups)

  abbrev pub filtered :
      List (NormalizedEvent F)
      → Daemon F E M P
      → List (NormalizedEvent F) × Filter F
      → Daemon F E M P × List (NormalizedEvent F) × List (NormalizedEvent F)
  filtered events d (kept, f) =
      let d1 = add Counters.filtered (length events - length kept) (record d { filter = f }) in
      let d2 = upserted d1 (upsert events d1.queue.sessions) in with_kept kept (due_rollups d2)

  -- handleLogs from the filter to the queue: the kept events, and what is to be queued.
  unfoldable pub filter_events :
      List (NormalizedEvent F)
      → Daemon F E M P
      → Daemon F E M P × List (NormalizedEvent F) × List (NormalizedEvent F)
  unfolding due_rollups upsert_session_events
  filter_events events d = filtered events d (apply env.floats d.filter events)

  -- The daemon, and the accepted and the dropped records of the answer.
  abbrev pub finish_logs :
      ℕ
      → ℕ
      → List (NormalizedEvent F)
      → List (NormalizedEvent F)
      → Daemon F E M P
      → Queue E M (List (SessionRow P)) × Option Error
      → Daemon F E M P × ℕ × ℕ
  finish_logs total norm_dropped kept queued d (q, none) = (
    add Counters.queued (length queued) (record d { queue = q }),
    length kept,
    norm_dropped + (total - length kept),
  )
  finish_logs total norm_dropped kept queued d (q, some e) =
      (add Counters.errors 1 (record d { queue = q }), 0, total + norm_dropped)

  abbrev pub queue_logs :
      ℕ
      → ℕ
      → Daemon F E M P × List (NormalizedEvent F) × List (NormalizedEvent F)
      → Daemon F E M P × ℕ × ℕ
  queue_logs total norm_dropped (d, kept, queued) =
      finish_logs total norm_dropped kept queued d
        (enqueue env.events_codec env.size env.mint env.now queued d.queue)

  abbrev pub normalized_logs :
      Daemon F E M P → List (NormalizedEvent F) × ℕ → Daemon F E M P × ℕ × ℕ
  normalized_logs d (plain, norm_dropped) =
      let events = enrich_repos d.repo plain in
      let d1 = add Counters.received (length events + norm_dropped) d in
      let d2 = add Counters.normalized (length events) d1 in
      queue_logs (length events) norm_dropped (filter_events events d2)

  unfoldable pub handle_logs : Fields F → Daemon F E M P → Daemon F E M P × ℕ × ℕ
  unfolding enrich_repos filter_events
  handle_logs payload d = normalized_logs d (normalize_log_batch env.outside payload d.repo)

  abbrev pub finish_metrics :
      ℕ
      → ℕ
      → List (MetricPoint F)
      → Daemon F E M P
      → Queue E M (List (SessionRow P)) × Option Error
      → Daemon F E M P × ℕ × ℕ
  finish_metrics total norm_dropped kept d (q, none) = (
    add Counters.metrics_queued (length kept) (record d { queue = q }),
    length kept,
    norm_dropped + (total - length kept),
  )
  finish_metrics total norm_dropped kept d (q, some e) =
      (add Counters.errors 1 (record d { queue = q }), 0, total + norm_dropped)

  abbrev pub filtered_metrics :
      ℕ → ℕ → Daemon F E M P → List (MetricPoint F) × MetricFilter → Daemon F E M P × ℕ × ℕ
  filtered_metrics total norm_dropped d (kept, f) =
      let d1 =
        add Counters.metrics_filtered (total - length kept) (record d { metric_filter = f }) in
      finish_metrics total norm_dropped kept d1
        (enqueue_metrics env.points_codec env.size env.mint env.now kept d1.queue)

  abbrev pub normalized_metrics : Daemon F E M P → List (MetricPoint F) × ℕ → Daemon F E M P × ℕ × ℕ
  normalized_metrics d (points, norm_dropped) =
      let d1 = add Counters.metrics_normalized (length points) d in
      filtered_metrics (length points) norm_dropped d1 (apply_metrics d1.metric_filter points)

  unfoldable pub handle_metrics : Fields F → Daemon F E M P → Daemon F E M P × ℕ × ℕ
  handle_metrics payload d =
      normalized_metrics d (normalize_metrics_batch env.outside payload d.repo)

  -- The statements of the prunes do not fail here.
  unfoldable pub prune_once : Daemon F E M P → Daemon F E M P
  prune_once d =
      let cutoff = env.now - d.retention_days * day in
      let q1 = (prune_acked cutoff d.queue).0 in
      let q2 = (prune_acked_metrics cutoff q1).0 in
      record d { queue = record q2 { sessions = (prune_acked_sessions cutoff q2.sessions).0 } }
