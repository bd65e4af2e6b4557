-- ===== src/Queue/Retention.antt =====
-- PruneAcked, Ack, Nack and the counts of Depth and Stats.
use desktop_client.Base.{
  ℕ, ◌+◌, ◌≡◌, refl, ◌∙◌, true, false, Str, none, some, Option, ltb, ◌<◌, ◌≤◌, if◌then◌else◌, List,
  [], ◌∷◌, inl, inr, ◌⊎◌, arith, length, elem, filter, Bool-cases, not, length-filter-le,
}
use desktop_client.Queue.Table.{
  Row, pending, leased, acked, get, is_leasable, is_acked, is_prunable, prunable_state, RowState,
  prune_rows, depth_rows, set_acked, set_nacked,
}
use desktop_client.Queue.Table.Order.{get-filter, get-update_by_ids}
use desktop_client.Queue.History.Invariant.{IsValid}
use desktop_client.Queue.{Queue, prune_acked, depth, stats, count_state, ack, nack}

module _ {E : Type 0} where
  filter-prune :
      (cutoff : ℕ) (rows : List (Row Str E))
      → filter (λ r. not (is_acked r)) (prune_rows cutoff rows)
        ≡ filter (λ r. not (is_acked r)) rows
  unfolding prune_rows
  filter-prune cutoff [] = refl
  filter-prune cutoff (r ∷ rows) = ground (arith, filter-prune cutoff rows)

  count_sum :
      (rows : List (Row Str E))
      → (count_state pending rows + count_state leased rows ≡ depth_rows rows)
        × (depth_rows rows + count_state acked rows ≡ length rows)
  unfolding depth_rows
  count_sum [] = omega arith
  count_sum (r ∷ rows) = ground (arith, count_sum rows)

  -- What a prune before the cutoff may make of a row: gone if it was acked before the cutoff, and as it
  -- was if it was acked later, or was not acked, or has no time of an ack.
  abbrev pub Pruned : ℕ → RowState → Option ℕ → Row Str E → Option (Row Str E) → Type 0
  Pruned cutoff acked (some at) r found =
      ((at < cutoff) × (found ≡ none)) ⊎ ((cutoff ≤ at) × (found ≡ some r))
  Pruned cutoff _ _ r found = found ≡ some r

  when-Pruned :
      (cutoff : ℕ) (state : RowState) (at : Option ℕ) (r : Row Str E) (found : Option (Row Str E))
      → found ≡ (if prunable_state cutoff state at then none else some r)
      → Pruned cutoff state at r found
  when-Pruned cutoff acked (some at) r found e = elim (Bool-cases (ltb at cutoff)) [
    | inl t ↦ inl (ground (arith, t), e ∙ (rw t refl))
    | inr t ↦ inr (ground (arith, t), e ∙ (rw t refl))
  ]
  when-Pruned cutoff acked none r found e = e
  when-Pruned cutoff pending at r found e = e
  when-Pruned cutoff leased at r found e = e

  -- The row of an upload that the backend took, and that of one that is to be tried again.
  abbrev pub uploaded : ℕ → Row Str E → Row Str E
  uploaded now r = record {
    id = r.id;
    key = r.key;
    payload = r.payload;
    created_at = r.created_at;
    attempts = r.attempts;
    state = acked;
    leased_until = none;
    acked_at = some now;
  }

  abbrev pub to_retry : Row Str E → Row Str E
  to_retry r = record {
    id = r.id;
    key = r.key;
    payload = r.payload;
    created_at = r.created_at;
    attempts = r.attempts + 1;
    state = pending;
    leased_until = none;
    acked_at = r.acked_at;
  }

module _ {E M S : Type 0} where
  -- A row of a valid queue is gone after a prune exactly if it was acked before the cutoff, and unchanged
  -- if not; the unacked rows stay in their order, and the answer is the number of rows that are gone.
  pub prune_acked_exact :
      (cutoff i : ℕ) (q : Queue E M S) (r : Row Str E)
      → IsValid q
      → get i q.rows ≡ some r
      → let (q', deleted) = prune_acked cutoff q in
        Pruned cutoff r.state r.acked_at r (get i q'.rows)
        × (filter (λ r. not (is_acked r)) q'.rows ≡ filter (λ r. not (is_acked r)) q.rows)
        × (deleted + length q'.rows ≡ length q.rows)
  unfolding prune_acked
  prune_acked_exact cutoff i q r v h =
      let looked = get-filter (λ r. not (is_prunable cutoff r)) i 0 q.rows v.events.ascending in
      (
        unfold prune_rows in
            when-Pruned cutoff r.state r.acked_at r _ (looked ∙ (rw h (ground arith))),
        filter-prune cutoff q.rows,
        unfold prune_rows in
            omega (arith, length-filter-le (λ r. not (is_prunable cutoff r)) q.rows),
      )

  -- An ack or a nack changes the rows of the ids that it is given and no other. An acked row has the time
  -- of the ack, no lease and is not leasable at any time; a nacked one is pending with one more attempt,
  -- no lease, and is leasable at once; all else of the row is as it was.
  pub ack-nack_settle :
      (now later i : ℕ) (ids : List ℕ) (q : Queue E M S) (r : Row Str E)
      → get i q.rows ≡ some r
      → ((elem i ids ≡ true)
          × (get i (ack now ids q).rows ≡ some (uploaded now r))
          × (is_leasable later (uploaded now r) ≡ false)
          × (get i (nack ids q).rows ≡ some (to_retry r))
          × (is_leasable later (to_retry r) ≡ true))
        ⊎ ((elem i ids ≡ false)
            × (get i (ack now ids q).rows ≡ some r)
            × (get i (nack ids q).rows ≡ some r))
  unfolding ack nack
  ack-nack_settle now later i ids q r h =
      let acks = get-update_by_ids (set_acked now) (λ x. refl) ids i q.rows in
      let nacks = get-update_by_ids set_nacked (λ x. refl) ids i q.rows in
      elim (Bool-cases (elem i ids)) [
        | inl e ↦ inl (e, acks ∙ (rw (e, h)), refl, nacks ∙ (rw (e, h)), refl)
        | inr e ↦ inr (e, acks ∙ (rw (e, h)), nacks ∙ (rw (e, h)))
      ]

  -- The depth is the number of pending and leased rows, and with the acked ones every row is counted.
  pub depth-stats :
      (q : Queue E M S)
      → (depth q ≡ (stats q).pending_rows + (stats q).leased_rows)
        × (length q.rows ≡ (stats q).pending_rows + (stats q).leased_rows + (stats q).acked_rows)
  unfolding depth stats
  depth-stats q = omega (arith, count_sum q.rows)
