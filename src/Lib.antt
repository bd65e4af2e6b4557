-- ===== src/Lib.antt =====
-- The Burndown desktop client takes telemetry of coding agents on a loopback port, filters it, keeps it
-- in a durable SQLite queue, and uploads it to a backend with a collector key that it rotates.
--
-- Parts, and the file that models each:
--   Queue        internal/queue/queue.go, metrics.go. `Queue` is the open database with its caps;
--                enqueue, lease_batch, ack, nack, prune_acked, stats and depth are Enqueue, LeaseBatch,
--                Ack, Nack, PruneAcked, Stats and Depth, and the names with `metrics` those of
--                metrics.go. Queue/Table has the rows and the SQL statements, Queue/Table/Ops the code
--                that the two tables have in common. Queue/History has the calls in any order.
--                Queue/Sessions has the table of sessions.go, Queue/Sessions/Upsert UpsertSessionEvents and
--                Queue/Sessions/Merge mergeSessionEvents;
--                Queue/Sessions/History has the calls on that table in any order.
--   Filter       internal/filter/filter.go, metrics.go. `apply` and `flush` are Filter.Apply and
--                Filter.Flush, `apply_metrics` is MetricFilter.Apply.
--   Uploader     internal/uploader/uploader.go, rotation.go, inventory.go. Auth has the modes Active and
--                Degraded and the recovery from a 401, Rotation RotateCheckOnce, Heartbeat HeartbeatOnce,
--                Backoff the delay of a cycle, History the steps in any order, Flush the loops of FlushOnce and
--                FlushMetricsOnce, which share a `Lane`.
--   Normalize    internal/normalize: NormalizeLogBatch and NormalizeMetricsBatch, with the reading of OTLP
--                values in Values and of the typed fields in Fields.
--   Receiver     internal/receiver: `serve` is ServeHTTP, with its guards, before a pipeline of any kind.
--   Daemon       internal/daemon/daemon.go: handleLogs and handleMetrics, which compose the parts, and
--                pruneOnce.
--   Setup        internal/setup/codex.go: editCodex and the edits by lines that it makes.
--   Credstore    internal/credstore: Load and Save with the keychain.
--   Api/Client   internal/api/client.go: doWithRetry and what it calls; Api/Endpoints has the calls.
--   Counters     internal/counters: the registry that the uploader and the daemon write.
--   Config, Api  internal/config/config.go, and the wire types and the policy of internal/api.
--
-- The daemon passes what normalize makes of a request through the filter to the queue; the uploader
-- leases from the queue, sends, and acks or nacks. A call of the model takes the state and returns the new
-- state with its results. What the code takes from outside is an argument: the JSON codec, the keychain,
-- gzip, the parsing of numbers and of UTF-8, the UUIDs, the size of the database file, the clock, the text
-- of times, the answers of the backend, and whether a save of the config file succeeds.
--
-- Numbers: an int64 that can wrap around is its bit pattern, and `add64` wraps. Instants
-- are nanoseconds, without a bound; the flush interval and the backoff are int64 durations that wrap around;
-- a negative cap, limit or interval is read as 0, which the code treats alike. The eviction loop has one unit of fuel for each row and one more: a round that deletes nothing
-- ends the loop, and every other round deletes a row. The flush loop has as
-- many rounds as rows are unacked, and one more: a round that goes on acks a row.
--
-- Not modelled: codexrepo, whose answers the daemon takes as arguments, the inventory, the local stats, the
-- rest of setup, doctor, the platform services and the command line, which are for the most part input and
-- output; errors of SQLite itself; the logger; goroutines, since a call of the queue or the filter holds
-- its mutex and the uploader's steps run one after the other, all but the inventory worker.
mod Base
pub mod Api
pub mod Config
pub mod Counters
pub mod Queue
pub mod Filter
pub mod Uploader
pub mod Credstore
pub mod Daemon
pub mod Normalize
pub mod Receiver
pub mod Setup
mod Tests
