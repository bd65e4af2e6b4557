-- ===== src/Uploader/Lanes.antt =====
-- FlushOnce on the queue: it ends, and it drains the queue while the backend takes what it is sent.
use desktop_client.Base.{ℕ, ◌+◌, ◌*◌, ◌<◌, ◌≡◌, refl, sym, ◌∙◌, Str, [], ◌∷◌, filter, All}
use desktop_client.Api.{NormalizedEvent, batch_size, second}
use desktop_client.Queue.Table.{is_leasable, set_acked, set_leased}
use desktop_client.Queue.Table.Ops.{Codec, Item, item_ids}
use desktop_client.Queue.Table.LeaseLaws.{lease_rows-eq-ok}
use desktop_client.Queue.Table.Leasing.{update_by_ids-nil}
use desktop_client.Queue.Table.Decoding.{Decodes}
use desktop_client.Queue.{Queue, lease_batch, ack, nack, depth}
use desktop_client.Queue.Lease.{lease_batch-inv, lease_batch_total}
use desktop_client.Uploader.State.{Uploader, active, lease_duration}
use desktop_client.Uploader.Flush.{
  Round, drained, Lane, events_lane, flush_once, wire_event, on_upload_success,
}
use desktop_client.Uploader.Draining.{
  Progresses, EmptyAt, Ends, flush_lane-Ends, Answers, Accepts, flush_lane_drains, batch_size-pos,
}
use desktop_client.Uploader.Waiting.{
  leased-lt, no_rows, none_leasable-Resting, Resting, items-le, All-Decodes-update,
}

module _ {F E M S : Type 0} (c : Codec (NormalizedEvent F) E) where
  abbrev lane : Lane (Queue E M S) (Item Str (NormalizedEvent F)) (NormalizedEvent F)
  lane = events_lane c

  events-Progresses : Progresses lane
  unfolding events_lane ack depth
  events-Progresses now later n q q' i is h =
      let (done, shape) = lease_batch-inv c now n lease_duration q q' (i ∷ is) h in
      let (ids, rows) = lease_rows-eq-ok c now n lease_duration q.rows q'.rows (i ∷ is) done in
      rw rows (leased-lt now later (now + lease_duration) n i.id (item_ids is) q.rows ids)

  abbrev pub NothingLeasable : ℕ → Queue E M S → Type 0
  NothingLeasable now q = All (Resting now) q.rows

  events-EmptyAt : (n : ℕ) → 0 < n → EmptyAt lane NothingLeasable n
  unfolding events_lane
  events-EmptyAt n pos now q q' h =
      let (done, shape) = lease_batch-inv c now n lease_duration q q' [] h in
      let (ids, rows) = lease_rows-eq-ok c now n lease_duration q.rows q'.rows [] done in
      let same : q'.rows ≡ q.rows =
        rows ∙ update_by_ids-nil (set_leased (now + lease_duration)) q.rows in
      rw same (
        none_leasable-Resting now q.rows
          (no_rows n (filter (is_leasable now) q.rows) pos (sym ids)))

  -- The calls of the queue that a flush of events makes.
  abbrev pub queue_calls : Lane (Queue E M S) (Item Str (NormalizedEvent F)) (NormalizedEvent F)
  queue_calls = record {
    lease = λ now n q. lease_batch c now n (120 * second) q;
    ack_items = λ now items q. ack now (item_ids items) q;
    nack_items = λ items q. nack (item_ids items) q;
    wire = wire_event;
    on_upload = on_upload_success;
    waiting = depth;
  }

  -- FlushOnce ends, whatever the backend and the clock do, after a number of rounds that each leased a batch and
  -- acked it. Drained: one more lease, at the time of the last round, handed out nothing, no row of the queue was
  -- leasable at that time, and the backoff is 0. Stopped: the batch of the last round was nacked. Failed: the
  -- last lease did. Skipped: the queue is as it was.
  pub flush_once-Ends :
      (rounds : ℕ → Round (NormalizedEvent F)) (u : Uploader) (q : Queue E M S)
      → Ends queue_calls NothingLeasable rounds (batch_size u.policy) q (flush_once c rounds u q)
  unfolding flush_once events_lane
  flush_once-Ends rounds u q =
      flush_lane-Ends lane events-Progresses NothingLeasable rounds u q
        (events-EmptyAt (batch_size u.policy) (batch_size-pos u.policy))

  abbrev Good : Queue E M S → Type 0
  Good q = All (Decodes c) q.rows

  events-Answers : Answers lane Good
  unfolding events_lane
  events-Answers now n q good =
      let (q', items, h) = lease_batch_total c now n lease_duration q good in
      let (done, shape) = lease_batch-inv c now n lease_duration q q' items h in
      let (ids, rows) = lease_rows-eq-ok c now n lease_duration q.rows q'.rows items done in
      (
        q',
        items,
        h,
        rw rows (
            All-Decodes-update c (set_leased (now + lease_duration)) (λ r. refl) (item_ids items)
              q.rows good),
        items-le n items (filter (is_leasable now) q.rows) ids,
      )

  -- While the backend takes every batch, an Active FlushOnce on a queue whose payloads can all be read
  -- back drains it: the loop ends on an empty lease.
  pub flush_once_drains :
      (rounds : ℕ → Round (NormalizedEvent F)) (u : Uploader) (q : Queue E M S)
      → u.mode ≡ active
      → Accepts lane rounds
      → All (Decodes c) q.rows
      → (flush_once c rounds u q).2 ≡ drained
  unfolding flush_once events_lane ack
  flush_once_drains rounds u q m accepts good =
      flush_lane_drains lane events-Progresses Good events-Answers
        (λ now items q' g.
          All-Decodes-update c (set_acked now) (λ r. refl) (item_ids items) q'.rows g)
        rounds u q m accepts good
