-- ===== src/Queue/History/Keeping.antt =====
-- What each call on the events table does to a row that is still to be delivered.
use desktop_client.Base.{
  ℕ, ◌+◌, ◌≤◌, ◌≡◌, refl, ap, ◌∙◌, Bool, false, not, Str, Option, some, List, [], ◌∷◌, inl, inr,
  arith, elem, length, Bool-cases, Option-cases,
}
use desktop_client.Base.Results.{ok, Result-cases}
use desktop_client.Queue.Table.{
  Row, get, is_acked, insert_row, set_acked, set_nacked, set_leased, prune_rows, is_prunable,
}
use desktop_client.Queue.Table.Ops.{Codec, insert_all, lease_rows, evict_rows}
use desktop_client.Queue.Table.Order.{get-append_some, get-update_by_ids, get-filter}
use desktop_client.Queue.Table.EvictIdle.{evict_loop_idle}
use desktop_client.Queue.Table.LeaseLaws.{get-lease_rows}
use desktop_client.Queue.{
  Queue, FileSize, enqueue, lease_batch, ack, nack, prune_acked, evict_if_needed,
}
use desktop_client.Queue.History.{Call, acks}
use desktop_client.Queue.History.Invariant.{IsValid}

-- The event of `r` is in the table under the id `i`, unacked.
pub record Holds {E : Type 0} (i : ℕ) (r : Row Str E) (rows : List (Row Str E)) : Type 0 where
  pub row : Row Str E
  pub found : get i rows ≡ some row
  pub same_key : row.key ≡ r.key
  pub same_payload : row.payload ≡ r.payload
  pub unacked : is_acked row ≡ false
  pub attempts : r.attempts ≤ row.attempts

-- The same row found in another table.
pub Holds-found :
    {E : Type 0} (i : ℕ) (r : Row Str E) (xs ys : List (Row Str E)) (h : Holds i r xs)
    → get i ys ≡ some h.row
    → Holds i r ys
Holds-found i r xs ys h e = record {
  row = h.row;
  found = e;
  same_key = h.same_key;
  same_payload = h.same_payload;
  unacked = h.unacked;
  attempts = h.attempts;
}

abbrev pub acks_id : {A B : Type 0} → ℕ → Call A B → Bool
acks_id i (acks now ids) = elem i ids
acks_id i _ = false

-- No call of the history acks the id.
abbrev pub NeverAcked : {A B : Type 0} → ℕ → List (Call A B) → Type 0
NeverAcked i [] = Unit
NeverAcked i (call ∷ calls) = (acks_id i call ≡ false) × NeverAcked i calls

module _ {A E : Type 0} (c : Codec A E) where
  insert_all-get :
      (mint : ℕ → Option Str) (i now j : ℕ) (rows rows' : List (Row Str E)) (events : List A)
      (r : Row Str E)
      → get j rows ≡ some r
      → insert_all c mint i now rows events ≡ ok rows'
      → get j rows' ≡ some r
  unfolding insert_all
  insert_all-get mint i now j rows rows' [] r h e = ground arith
  insert_all-get mint i now j rows rows' (a ∷ events) r h e = elim (Option-cases (c.marshal a)) [
    | inl bad ↦ ground arith
    | inr (p, good) ↦ elim (Option-cases (mint i)) [
      | inl bad ↦ ground arith
      | inr (k, minted) ↦
          insert_all-get mint (i + 1) now j (insert_row rows k p now) rows' events r
            (unfold insert_row in get-append_some j rows _ r h) (ground arith)
    ]
  ]

module _ {A E M S : Type 0} (c : Codec A E) (size : FileSize E M S) where
  evicted-evict : (q : Queue E M S) → q.evicted ≤ (evict_if_needed size q).evicted
  unfolding evict_if_needed
  evicted-evict q = omega arith

  evict_idle :
      (q : Queue E M S)
      → (evict_if_needed size q).evicted ≡ q.evicted
      → (evict_if_needed size q).rows ≡ q.rows
  unfolding evict_if_needed evict_rows
  evict_idle q h =
      evict_loop_idle (λ rows. size rows q.metric_rows q.sessions) q.max_rows q.max_bytes
        (length q.rows + 1) q.rows 0 (omega arith)

  pub evicted-enqueue :
      (mint : ℕ → Option Str) (now : ℕ) (events : List A) (q : Queue E M S)
      → q.evicted ≤ (enqueue c size mint now events q).0.evicted
  unfolding enqueue
  evicted-enqueue mint now [] q = omega arith
  evicted-enqueue mint now (a ∷ events) q =
      elim (Result-cases (insert_all c mint 0 now q.rows (a ∷ events))) [
        | inl (e, failed) ↦ rw (failed, enqueue) (omega arith)
        | inr (rows, done) ↦
            rw (done, enqueue) (omega (arith, evicted-evict (record q { rows = rows })))
      ]

  -- An enqueue without an eviction keeps every row.
  pub enqueue-get :
      (mint : ℕ → Option Str) (now : ℕ) (events : List A) (q : Queue E M S) (i : ℕ) (r : Row Str E)
      → get i q.rows ≡ some r
      → (enqueue c size mint now events q).0.evicted ≡ q.evicted
      → get i (enqueue c size mint now events q).0.rows ≡ some r
  unfolding enqueue
  enqueue-get mint now [] q i r h = λ idle. h
  enqueue-get mint now (a ∷ events) q i r h =
      elim (Result-cases (insert_all c mint 0 now q.rows (a ∷ events))) [
        | inl (e, failed) ↦ rw (failed, enqueue) (λ idle. h)
        | inr (rows, done) ↦
            rw (done, enqueue)
              λ idle.
                rw (evict_idle (record q { rows = rows }) idle)
                  (insert_all-get c mint 0 now i q.rows rows (a ∷ events) r h done)
      ]

module _ {A E M S : Type 0} (c : Codec A E) where
  pub lease_batch-Holds :
      (now n dur : ℕ) (q : Queue E M S) (i : ℕ) (r : Row Str E)
      → IsValid q
      → Holds i r q.rows
      → Holds i r (lease_batch c now n dur q).0.rows
  unfolding lease_batch
  lease_batch-Holds now n dur q i r v h = elim (Result-cases (lease_rows c now n dur q.rows)) [
    | inl (e, failed) ↦ rw (failed, lease_batch) h
    | inr ((items, rows), done) ↦
        rw (done, lease_batch)
          (elim (get-lease_rows c now n dur i q.rows rows items v.events.ascending done) [
            | inl (hit, s, at, free, mine) ↦
                let same : s ≡ h.row = ground (arith, at, h.found) in
                record {
                  row = set_leased (now + dur) s;
                  found = mine;
                  same_key = ap (λ (x : Row Str E). x.key) same ∙ h.same_key;
                  same_payload = ap (λ (x : Row Str E). x.payload) same ∙ h.same_payload;
                  unacked = refl;
                  attempts = omega (arith, ap (λ (x : Row Str E). x.attempts) same, h.attempts);
                }
            | inr (miss, same) ↦ Holds-found i r q.rows rows h (same ∙ h.found)
          ])
  ]

unacked_not_prunable :
    {E : Type 0} → (cutoff : ℕ) (r : Row Str E) → is_acked r ≡ false → is_prunable cutoff r ≡ false
unacked_not_prunable cutoff r h = ground arith

module _ {E M S : Type 0} where
  pub ack-Holds :
      (now : ℕ) (ids : List ℕ) (q : Queue E M S) (i : ℕ) (r : Row Str E)
      → elem i ids ≡ false
      → Holds i r q.rows
      → Holds i r (ack now ids q).rows
  unfolding ack
  ack-Holds now ids q i r out h =
      Holds-found i r q.rows _ h
        (get-update_by_ids (set_acked now) (λ x. refl) ids i q.rows ∙ (rw (out, h.found)))

  pub nack-Holds :
      (ids : List ℕ) (q : Queue E M S) (i : ℕ) (r : Row Str E)
      → Holds i r q.rows
      → Holds i r (nack ids q).rows
  unfolding nack
  nack-Holds ids q i r h = elim (Bool-cases (elem i ids)) [
    | inl e ↦ record {
      row = set_nacked h.row;
      found = get-update_by_ids set_nacked (λ x. refl) ids i q.rows ∙ (rw (e, h.found));
      same_key = h.same_key;
      same_payload = h.same_payload;
      unacked = refl;
      attempts = omega (arith, h.attempts);
    }
    | inr e ↦
        Holds-found i r q.rows _ h
          (get-update_by_ids set_nacked (λ x. refl) ids i q.rows ∙ (rw (e, h.found)))
  ]

  pub prune-Holds :
      (cutoff : ℕ) (q : Queue E M S) (i : ℕ) (r : Row Str E)
      → IsValid q
      → Holds i r q.rows
      → Holds i r (prune_acked cutoff q).0.rows
  unfolding prune_acked prune_rows
  prune-Holds cutoff q i r v h = Holds-found i r q.rows _ h (
      get-filter (λ x. not (is_prunable cutoff x)) i 0 q.rows v.events.ascending
      ∙ (rw (h.found) (rw (unacked_not_prunable cutoff h.row h.unacked))))
