-- ===== src/Uploader/Draining.antt =====
-- The flush loop over any lane: how it ends, and that it drains the queue while the backend accepts.
use desktop_client.Base.{
  ℕ, zero, suc, ◌+◌, ◌≤◌, ◌<◌, ◌≡◌, ◌≢◌, refl, Bool, true, false, List, [], ◌∷◌, map, arith, length,
  ltb, length-map,
}
use desktop_client.Base.Results.{Result, ok, err}
use desktop_client.Queue.Table.Ops.{Error}
use desktop_client.Api.{Policy, batch_size, max_ingest_batch}
use desktop_client.Uploader.State.{Mode, active, degraded, Uploader}
use desktop_client.Uploader.Backoff.{on_flush_success}
use desktop_client.Uploader.Flush.{
  Counts, SendAnswer, accepted, rejected, failed, Round, Outcome, drained, stopped, lease_failed,
  skipped, out_of_fuel, Lane, send_capped, send_batch, after_send, after_lease, flush_loop,
  flush_lane,
}

-- The size of a batch is never above what one request takes, and never 0.
pub batch_size-le : (p : Policy) → batch_size p ≤ max_ingest_batch
unfolding batch_size
batch_size-le p = ground arith

pub batch_size-pos : (p : Policy) → 0 < batch_size p
unfolding batch_size
batch_size-pos p = ground arith

module _ {Q I T : Type 0} (lane : Lane Q I T) where
  -- A lease and the ack of what it handed out leave fewer rows that wait.
  abbrev pub Progresses : Type 0
  Progresses =
      (now later n : ℕ) (q q' : Q) (i : I) (is : List I)
      → lane.lease now n q ≡ (q', ok (i ∷ is))
      → lane.waiting (lane.ack_items later (i ∷ is) q') < lane.waiting q

  -- The queue that a lease of no rows leaves has none to lease, for the number of rows asked.
  abbrev pub EmptyAt : (ℕ → Q → Type 0) → ℕ → Type 0
  EmptyAt Empty n = (now : ℕ) (q q' : Q) → lane.lease now n q ≡ (q', ok []) → Empty now q'

  -- From the round `i` with one queue to the round `j` with another: every round between leased a batch
  -- that is not empty and acked it.
  pub data Acks (rounds : ℕ → Round T) (n : ℕ) : ℕ → Q → ℕ → Q → Type 0 where
    no_round : {i : ℕ} {q : Q} → Acks rounds n i q i q
    one_round :
        {i j : ℕ} {q q' end : Q} {item : I} {items : List I}
        → lane.lease (rounds i).env.now n q ≡ (q', ok (item ∷ items))
        → Acks rounds n (i + 1) (lane.ack_items (rounds i).env.now (item ∷ items) q') j end
        → Acks rounds n i q j end

  -- What an outcome promises of a loop that began at the round `i` with the queue `start`. Drained: the
  -- backoff is 0, and the lease of the last round `j` handed out nothing and left nothing for its time.
  -- Stopped: the batch of the last round is nacked. Lease failed: the last lease did. Skipped: nothing ran.
  abbrev pub EndsFrom :
      (ℕ → Q → Type 0) → (ℕ → Round T) → ℕ → ℕ → Q → Uploader × Q × Outcome → Type 0
  EndsFrom Empty rounds n i start (u, q, drained) =
      (j : ℕ) × (before : Q) × Acks rounds n i start j before
      × (lane.lease (rounds j).env.now n before ≡ (q, ok []))
      × Empty (rounds j).env.now q
      × (u.backoff ≡ 0)
  EndsFrom Empty rounds n i start (u, q, stopped) =
      (j : ℕ) × (before : Q) × (after : Q) × (item : I) × (items : List I) × Acks rounds n i start j
        before
      × (lane.lease (rounds j).env.now n before ≡ (after, ok (item ∷ items)))
      × (q ≡ lane.nack_items (item ∷ items) after)
  EndsFrom Empty rounds n i start (u, q, lease_failed) =
      (j : ℕ) × (before : Q) × (e : Error) × Acks rounds n i start j before
      × (lane.lease (rounds j).env.now n before ≡ (q, err e))
  EndsFrom Empty rounds n i start (u, q, skipped) = q ≡ start
  EndsFrom Empty rounds n i start (u, q, out_of_fuel) = ⊥

  -- What a flush of this queue promises.
  abbrev pub Ends : (ℕ → Q → Type 0) → (ℕ → Round T) → ℕ → Q → Uploader × Q × Outcome → Type 0
  Ends Empty rounds n start = EndsFrom Empty rounds n 0 start

  -- What a send that lets the loop go on leaves is the queue with its batch acked.
  sent :
      (round : Round T) (items : List I) (u : Uploader) (q : Q) (a : SendAnswer)
      → send_capped round.post (map lane.wire items) ≡ a
      → (send_batch lane round items u q).2 ≡ true
      → (send_batch lane round items u q).1 ≡ lane.ack_items round.env.now items q
  unfolding send_batch
  sent round items u q (accepted counts) e = rw (e, send_batch) (λ h. refl)
  sent round items u q (rejected code) e = rw (e, send_batch) (λ h. cc)
  sent round items u q failed e = rw (e, send_batch) (λ h. cc)

  send_batch-acks :
      (round : Round T) (items : List I) (u : Uploader) (q : Q)
      → (send_batch lane round items u q).2 ≡ true
      → (send_batch lane round items u q).1 ≡ lane.ack_items round.env.now items q
  send_batch-acks round items u q = sent round items u q _ refl

  -- What a send that ends the loop leaves is the queue with its batch nacked.
  not_sent :
      (round : Round T) (items : List I) (u : Uploader) (q : Q) (a : SendAnswer)
      → send_capped round.post (map lane.wire items) ≡ a
      → (send_batch lane round items u q).2 ≡ false
      → (send_batch lane round items u q).1 ≡ lane.nack_items items q
  unfolding send_batch
  not_sent round items u q (accepted counts) e = rw (e, send_batch) (λ h. cc)
  not_sent round items u q (rejected code) e = rw (e, send_batch) (λ h. refl)
  not_sent round items u q failed e = rw (e, send_batch) (λ h. refl)

  send_batch-nacks :
      (round : Round T) (items : List I) (u : Uploader) (q : Q)
      → (send_batch lane round items u q).2 ≡ false
      → (send_batch lane round items u q).1 ≡ lane.nack_items items q
  send_batch-nacks round items u q = not_sent round items u q _ refl

  module _ (Empty : ℕ → Q → Type 0) (rounds : ℕ → Round T) (n : ℕ) where
    -- A round that acked its batch stands before the rounds of the rest of the loop, which ran.
    one_more :
        (i : ℕ) (q q' : Q) (item : I) (items : List I) (r : Uploader × Q × Outcome)
        → lane.lease (rounds i).env.now n q ≡ (q', ok (item ∷ items))
        → r.2 ≢ skipped
        → EndsFrom Empty rounds n (i + 1) (lane.ack_items (rounds i).env.now (item ∷ items) q') r
        → EndsFrom Empty rounds n i q r
    one_more i q q' item items (u, end, drained) e ran
          (j, before, acks, last, empty, zero_backoff) =
        (j, before, one_round e acks, last, empty, zero_backoff)
    one_more i q q' item items (u, end, stopped) e ran
          (j, before, after, x, xs, acks, last, nacked) =
        (j, before, after, x, xs, one_round e acks, last, nacked)
    one_more i q q' item items (u, end, lease_failed) e ran (j, before, x, acks, last) =
        (j, before, x, one_round e acks, last)
    one_more i q q' item items (u, end, skipped) e ran h = absurd (ran refl)
    one_more i q q' item items (u, end, out_of_fuel) e ran h = absurd h

  module _ (progresses : Progresses) (Empty : ℕ → Q → Type 0) (n : ℕ) (empty_at : EmptyAt Empty n)
      (rounds : ℕ → Round T) where
    -- What the rest of the loop, from a round on, does with every queue of fewer rows.
    abbrev RestEnds : (Uploader → Q → Uploader × Q × Outcome) → ℕ → ℕ → Type 0
    RestEnds rest fuel i =
        (u : Uploader) (q : Q)
        → lane.waiting q < fuel
        → EndsFrom Empty rounds n i q (rest u q) × ((rest u q).2 ≢ skipped)

    after_send-Ends :
        (rest : Uploader → Q → Uploader × Q × Outcome) (fuel i : ℕ) (q q' : Q) (item : I)
        (items : List I)
        → RestEnds rest fuel (i + 1)
        → lane.lease (rounds i).env.now n q ≡ (q', ok (item ∷ items))
        → lane.waiting (lane.ack_items (rounds i).env.now (item ∷ items) q') < fuel
        → (r : Uploader × Q × Bool)
        → (r.2 ≡ true → r.1 ≡ lane.ack_items (rounds i).env.now (item ∷ items) q')
        → (r.2 ≡ false → r.1 ≡ lane.nack_items (item ∷ items) q')
        → EndsFrom Empty rounds n i q (after_send lane rest r)
          × ((after_send lane rest r).2 ≢ skipped)
    after_send-Ends rest fuel i q q' item items ends e less (u, end, true) acks nacks =
        let acked_queue = lane.ack_items (rounds i).env.now (item ∷ items) q' in
        let (rest_ends, ran) = ends u acked_queue less in
        rw (acks refl)
          (one_more Empty rounds n i q q' item items (rest u acked_queue) e ran rest_ends, ran)
    after_send-Ends rest fuel i q q' item items ends e less (u, end, false) acks nacks =
        ((i, q, q', item, items, no_round, e, nacks refl), λ s. cc)

    after_lease-Ends :
        (u : Uploader) (rest : Uploader → Q → Uploader × Q × Outcome) (fuel i : ℕ) (q : Q)
        → RestEnds rest fuel (i + 1)
        → lane.waiting q < suc fuel
        → (r : Q × Result Error (List I)) → lane.lease (rounds i).env.now n q ≡ r
        → EndsFrom Empty rounds n i q (after_lease lane (rounds i) u rest r)
          × ((after_lease lane (rounds i) u rest r).2 ≢ skipped)
    unfolding on_flush_success
    after_lease-Ends u rest fuel i q ends h (q', err x) e = ((i, q, x, no_round, e), λ s. cc)
    after_lease-Ends u rest fuel i q ends h (q', ok []) e =
        ((i, q, no_round, e, empty_at _ q q' e, refl), λ s. cc)
    after_lease-Ends u rest fuel i q ends h (q', ok (item ∷ items)) e =
        let now = (rounds i).env.now in
        let shrinks = progresses now now n q q' item items e in
        after_send-Ends rest fuel i q q' item items ends e (omega (arith, shrinks, h))
          (send_batch lane (rounds i) (item ∷ items) u q')
          (send_batch-acks (rounds i) (item ∷ items) u q')
          (send_batch-nacks (rounds i) (item ∷ items) u q')

    -- With more rounds than rows that wait, the loop ends as its outcome promises, and is not skipped.
    pub flush_loop-Ends :
        (fuel i : ℕ) (u : Uploader) (q : Q)
        → lane.waiting q < fuel
        → EndsFrom Empty rounds n i q (flush_loop lane rounds n fuel i u q)
          × ((flush_loop lane rounds n fuel i u q).2 ≢ skipped)
    unfolding flush_loop
    flush_loop-Ends zero i u q h = elim h [ ]
    flush_loop-Ends (suc fuel) i u q h =
        after_lease-Ends u (flush_loop lane rounds n fuel (i + 1)) fuel i q
          (λ u' q' less. flush_loop-Ends fuel (i + 1) u' q' less) h
          (lane.lease (rounds i).env.now n q) refl

  in_mode :
      (progresses : Progresses) (Empty : ℕ → Q → Type 0) (rounds : ℕ → Round T) (u : Uploader)
      (q : Q)
      → EmptyAt Empty (batch_size u.policy)
      → (m : Mode) → u.mode ≡ m
      → Ends Empty rounds (batch_size u.policy) q (flush_lane lane rounds u q)
  unfolding flush_lane
  in_mode progresses Empty rounds u q empty_at degraded e = rw (e, flush_lane) refl
  in_mode progresses Empty rounds u q empty_at active e =
      rw (e, flush_lane)
        (flush_loop-Ends progresses Empty (batch_size u.policy) empty_at rounds (lane.waiting q + 1)
          0 u q (omega arith)).0

  -- A flush ends as its outcome promises.
  pub flush_lane-Ends :
      (progresses : Progresses) (Empty : ℕ → Q → Type 0) (rounds : ℕ → Round T) (u : Uploader)
      (q : Q)
      → EmptyAt Empty (batch_size u.policy)
      → Ends Empty rounds (batch_size u.policy) q (flush_lane lane rounds u q)
  flush_lane-Ends progresses Empty rounds u q empty_at =
      in_mode progresses Empty rounds u q empty_at u.mode refl

  -- Every lease answers, with no more rows than asked for, and what it needs for that stays.
  abbrev pub Answers : (Q → Type 0) → Type 0
  Answers Good =
      (now n : ℕ) (q : Q)
      → Good q
      → (q' : Q) × (items : List I) × (lane.lease now n q ≡ (q', ok items))
        × Good q'
        × (length items ≤ n)

  -- The backend takes every batch.
  abbrev pub Accepts : (ℕ → Round T) → Type 0
  Accepts rounds =
      (i : ℕ) (items : List T) → (counts : Counts) × ((rounds i).post items ≡ accepted counts)

  module _ (progresses : Progresses) (Good : Q → Type 0) (answers : Answers Good)
      (keeps : (now : ℕ) (items : List I) (q : Q)
        → Good q
        → Good (lane.ack_items now items q)) where
    send_batch-accepted :
        (round : Round T) (items : List I) (u : Uploader) (q : Q) (counts : Counts)
        → length items ≤ max_ingest_batch
        → round.post (map lane.wire items) ≡ accepted counts
        → send_batch lane round items u q
          ≡ (lane.on_upload round.env counts u, lane.ack_items round.env.now items q, true)
    unfolding send_batch send_capped
    send_batch-accepted round items u q counts few e =
        let within : ltb max_ingest_batch (length (map lane.wire items)) ≡ false =
          rw (length-map lane.wire items) (ground (arith)) in
        rw (within, e, send_batch) refl

    leased_drains :
        (round : Round T) (u : Uploader) (rest : Uploader → Q → Uploader × Q × Outcome) (n fuel : ℕ)
        (q q' : Q) (items : List I)
        → ((u : Uploader) (q : Q) → Good q → lane.waiting q < fuel → (rest u q).2 ≡ drained)
        → ((items : List T) → (counts : Counts) × (round.post items ≡ accepted counts))
        → n ≤ max_ingest_batch
        → lane.waiting q < suc fuel
        → lane.lease round.env.now n q ≡ (q', ok items)
        → Good q'
        → length items ≤ n
        → (after_lease lane round u rest (q', ok items)).2 ≡ drained
    leased_drains round u rest n fuel q q' [] drains accepts limit h e good few = refl
    leased_drains round u rest n fuel q q' (item ∷ items) drains accepts limit h e good few =
        let batch = item ∷ items in
        let (counts, a) = accepts (map lane.wire batch) in
        let shrinks = progresses round.env.now round.env.now n q q' item items e in
        rw (send_batch-accepted round batch u q' counts (omega (arith, few, limit)) a)
          (drains _ _ (keeps round.env.now batch q' good) (omega (arith, shrinks, h)))

    flush_loop_drains :
        (rounds : ℕ → Round T) (n fuel i : ℕ) (u : Uploader) (q : Q)
        → Accepts rounds
        → n ≤ max_ingest_batch
        → Good q
        → lane.waiting q < fuel
        → (flush_loop lane rounds n fuel i u q).2 ≡ drained
    unfolding flush_loop
    flush_loop_drains rounds n zero i u q accepts limit good h = elim h [ ]
    flush_loop_drains rounds n (suc fuel) i u q accepts limit good h =
        let (q', items, e, good', few) = answers (rounds i).env.now n q good in
        rw e (
          leased_drains (rounds i) u (flush_loop lane rounds n fuel (i + 1)) n fuel q q' items
            (λ u' q'' g less. flush_loop_drains rounds n fuel (i + 1) u' q'' accepts limit g less)
            (accepts i) limit h e good' few)

    -- While the backend takes every batch and every lease answers, an Active flush drains the queue.
    pub flush_lane_drains :
        (rounds : ℕ → Round T) (u : Uploader) (q : Q)
        → u.mode ≡ active
        → Accepts rounds
        → Good q
        → (flush_lane lane rounds u q).2 ≡ drained
    unfolding flush_lane batch_size
    flush_lane_drains rounds u q m accepts good =
        rw (m, flush_lane)
          (flush_loop_drains rounds (batch_size u.policy) (lane.waiting q + 1) 0 u q accepts
            (batch_size-le u.policy) good (omega arith))
