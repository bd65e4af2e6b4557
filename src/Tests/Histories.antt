-- ===== src/Tests/Histories.antt =====
-- The theorems on the calls and the histories, on the same queue of three events.
use desktop_client.Base.{
  ℕ, ◌+◌, ◌≡◌, refl, arith, true, false, not, Str, none, some, List, [], ◌∷◌, ◌⊎◌, length, filter,
  elem,
}
use desktop_client.Queue.Table.{
  Row, leasable_rows, get, is_acked, is_leasable, update_by_ids, prune_rows,
}
use desktop_client.Queue.Table.Ops.{Error, scan_item, scan_items, select_leasable, lease_rows}
use desktop_client.Queue.Table.EvictLoop.{EvictsInOrder}
use desktop_client.Queue.{evict_if_needed, enqueue, lease_batch, ack, nack, prune_acked}
use desktop_client.Queue.Enqueue.{
  enqueue_poisoned, enqueue-Appends, evict-settled, FitsCaps, Appends,
}
use desktop_client.Queue.Retention.{prune_acked_exact, ack-nack_settle, Pruned, uploaded, to_retry}
use desktop_client.Queue.History.{Call, leases, acks, nacks, prunes, run, step}
use desktop_client.Queue.History.Invariant.{IsValid, run-IsValid}
use desktop_client.Queue.History.Delivery.{run-Holds}
use desktop_client.Queue.History.Keeping.{Holds}
use desktop_client.Tests.Queues.{
  codec, waiting, three_rows, size, minted, three_rows-IsValid, found_waiting, done, found_done,
}

enqueue_poisoned_example :
    (e : Error) × (enqueue codec size minted 50 (1 ∷ 13 ∷ 2 ∷ []) three_rows ≡ (three_rows, some e))
enqueue_poisoned_example =
    enqueue_poisoned codec size minted 50 (1 ∷ []) (2 ∷ []) 13 three_rows refl

enqueue-Appends_example :
    (rows : List (Row Str ℕ)) × (enqueue codec size minted 50 (1 ∷ 2 ∷ []) three_rows
      ≡ (evict_if_needed size (record three_rows { rows = rows }), none))
    × Appends 50 three_rows.rows rows (1 ∷ 2 ∷ [])
enqueue-Appends_example =
    enqueue-Appends codec size minted (λ j. (j ∷ [], refl)) 50 (1 ∷ 2 ∷ []) (1 ∷ 2 ∷ []) three_rows
      (λ e. cc) refl

evict-settled_example :
    (FitsCaps size (evict_if_needed size three_rows)
      ⊎ ((evict_if_needed size three_rows).rows ≡ []))
    × ((evict_if_needed size three_rows).evicted + length (evict_if_needed size three_rows).rows
        ≡ 0 + 3)
    × EvictsInOrder three_rows.rows (evict_if_needed size three_rows).rows
evict-settled_example = evict-settled size three_rows three_rows-IsValid.events.ascending

prune_acked_exact_example :
    Pruned 30 done.state done.acked_at done (get 8 (prune_acked 30 three_rows).0.rows)
    × (filter (λ r. not (is_acked r)) (prune_acked 30 three_rows).0.rows
        ≡ filter (λ r. not (is_acked r)) three_rows.rows)
    × ((prune_acked 30 three_rows).1 + length (prune_acked 30 three_rows).0.rows
        ≡ length three_rows.rows)
prune_acked_exact_example = prune_acked_exact 30 8 three_rows done three_rows-IsValid found_done

ack-nack_settle_example :
    ((elem 3 (3 ∷ []) ≡ true)
      × (get 3 (ack 30 (3 ∷ []) three_rows).rows ≡ some (uploaded 30 waiting))
      × (is_leasable 60 (uploaded 30 waiting) ≡ false)
      × (get 3 (nack (3 ∷ []) three_rows).rows ≡ some (to_retry waiting))
      × (is_leasable 60 (to_retry waiting) ≡ true))
    ⊎ ((elem 3 (3 ∷ []) ≡ false)
        × (get 3 (ack 30 (3 ∷ []) three_rows).rows ≡ some waiting)
        × (get 3 (nack (3 ∷ []) three_rows).rows ≡ some waiting))
ack-nack_settle_example = ack-nack_settle 30 60 3 (3 ∷ []) three_rows waiting found_waiting

abbrev history : List (Call ℕ ℕ)
history = leases 30 2 100 ∷ nacks (3 ∷ []) ∷ acks 45 (5 ∷ []) ∷ prunes 30 ∷ []

run-IsValid_example : IsValid (run codec codec size three_rows history)
run-IsValid_example = run-IsValid codec codec size three_rows history three_rows-IsValid

nothing_evicted : (run codec codec size three_rows history).evicted ≡ three_rows.evicted
unfolding run step lease_batch lease_rows select_leasable scan_items scan_item leasable_rows
    update_by_ids nack ack prune_acked prune_rows
nothing_evicted = refl

waiting-Holds : Holds 3 waiting three_rows.rows
waiting-Holds = record {
  row = waiting;
  found = found_waiting;
  same_key = refl;
  same_payload = refl;
  unacked = refl;
  attempts = omega arith;
}

run-Holds_example : Holds 3 waiting (run codec codec size three_rows history).rows
run-Holds_example =
    run-Holds codec codec size three_rows history 3 waiting three_rows-IsValid
      (refl, (refl, (refl, (refl, tt)))) nothing_evicted waiting-Holds
