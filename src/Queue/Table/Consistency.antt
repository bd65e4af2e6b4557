-- ===== src/Queue/Table/Consistency.antt =====
-- The invariant of a table: rising ids, and in each row the columns that its state calls for. Each
-- operation on a table keeps it.
use desktop_client.Base.{
  ℕ, zero, suc, ◌+◌, ◌≡◌, refl, none, some, List, [], ◌∷◌, Option, inl, inr, arith, ◌==◌, length,
  elem, Bool-cases, All, All-filter, All-append, Option-cases,
}
use desktop_client.Base.Results.{ok}
use desktop_client.Queue.Table.{
  RowState, pending, leased, acked, Row, insert_row, update_by_ids, set_leased, set_acked,
  set_nacked, prune_rows, delete_ids,
}
use desktop_client.Queue.Table.Ops.{
  Codec, Item, item_ids, insert_all, lease_rows, evict_round, evict_loop, evict_rows, over_cap,
}
use desktop_client.Queue.Table.Order.{
  Ascending, insert_row-Ascending, update-Ascending, filter-Ascending,
}
use desktop_client.Queue.Table.LeaseLaws.{lease_rows-eq-ok}
use desktop_client.Queue.Table.EvictLoop.{evict_rows-Settles}

-- A lease has its end exactly while the row is leased, and an acked row the time of its ack.
abbrev pub StateFits : RowState → Option ℕ → Option ℕ → Type 0
StateFits pending until at = until ≡ none
StateFits leased until at = (t : ℕ) × (until ≡ some t)
StateFits acked until at = (until ≡ none) × (t : ℕ) × (at ≡ some t)

module _ {K P : Type 0} where
  abbrev pub IsConsistent : Row K P → Type 0
  IsConsistent r = StateFits r.state r.leased_until r.acked_at

  pub record IsValidTable (rows : List (Row K P)) : Type 0 where
    pub ascending : Ascending 0 rows
    pub consistent : All IsConsistent rows

  All-update :
      (set : Row K P → Row K P) (sets : (r : Row K P) → IsConsistent (set r)) (ids : List ℕ)
      (rows : List (Row K P))
      → All IsConsistent rows
      → All IsConsistent (update_by_ids set ids rows)
  unfolding update_by_ids
  All-update set sets ids [] h = tt
  All-update set sets ids (r ∷ rows) h = elim (Bool-cases (elem r.id ids)) [
    | inl e ↦ rw e (sets r, All-update set sets ids rows h.1)
    | inr e ↦ rw e (h.0, All-update set sets ids rows h.1)
  ]

  pub insert_row-IsValid :
      (rows : List (Row K P)) (k : K) (p : P) (now : ℕ)
      → IsValidTable rows
      → IsValidTable (insert_row rows k p now)
  unfolding insert_row
  insert_row-IsValid rows k p now v = record {
    ascending = unfold insert_row in insert_row-Ascending rows k p now v.ascending;
    consistent = All-append IsConsistent rows _ v.consistent (refl, tt);
  }

  pub set_acked-IsValid :
      (now : ℕ) (ids : List ℕ) (rows : List (Row K P))
      → IsValidTable rows
      → IsValidTable (update_by_ids (set_acked now) ids rows)
  set_acked-IsValid now ids rows v = record {
    ascending = update-Ascending (set_acked now) (λ r. refl) ids 0 rows v.ascending;
    consistent = All-update (set_acked now) (λ r. (refl, now, refl)) ids rows v.consistent;
  }

  pub set_nacked-IsValid :
      (ids : List ℕ) (rows : List (Row K P))
      → IsValidTable rows
      → IsValidTable (update_by_ids set_nacked ids rows)
  set_nacked-IsValid ids rows v = record {
    ascending = update-Ascending set_nacked (λ r. refl) ids 0 rows v.ascending;
    consistent = All-update set_nacked (λ r. refl) ids rows v.consistent;
  }

  pub set_leased-IsValid :
      (until : ℕ) (ids : List ℕ) (rows : List (Row K P))
      → IsValidTable rows
      → IsValidTable (update_by_ids (set_leased until) ids rows)
  set_leased-IsValid until ids rows v = record {
    ascending = update-Ascending (set_leased until) (λ r. refl) ids 0 rows v.ascending;
    consistent = All-update (set_leased until) (λ r. (until, refl)) ids rows v.consistent;
  }

  pub prune_rows-IsValid :
      (cutoff : ℕ) (rows : List (Row K P))
      → IsValidTable rows
      → IsValidTable (prune_rows cutoff rows)
  unfolding prune_rows
  prune_rows-IsValid cutoff rows v = record {
    ascending = filter-Ascending _ 0 rows v.ascending;
    consistent = All-filter IsConsistent _ rows v.consistent;
  }

module _ {K A P : Type 0} (c : Codec A P) where
  pub insert_all-IsValid :
      (mint : ℕ → Option K) (i now : ℕ) (rows rows' : List (Row K P)) (events : List A)
      → IsValidTable rows
      → insert_all c mint i now rows events ≡ ok rows'
      → IsValidTable rows'
  unfolding insert_all
  insert_all-IsValid mint i now rows rows' [] v e =
      let same : rows ≡ rows' = ground arith in rw (← same) v
  insert_all-IsValid mint i now rows rows' (a ∷ events) v e = elim (Option-cases (c.marshal a)) [
    | inl bad ↦ ground arith
    | inr (p, good) ↦ elim (Option-cases (mint i)) [
      | inl bad ↦ ground arith
      | inr (k, minted) ↦
          insert_all-IsValid mint (i + 1) now (insert_row rows k p now) rows' events
            (insert_row-IsValid rows k p now v) (ground arith)
    ]
  ]

  pub lease_rows-IsValid :
      (now n dur : ℕ) (rows rows' : List (Row K P)) (items : List (Item K A))
      → IsValidTable rows
      → lease_rows c now n dur rows ≡ ok (items, rows')
      → IsValidTable rows'
  lease_rows-IsValid now n dur rows rows' items v e =
      rw ((lease_rows-eq-ok c now n dur rows rows' items e).1)
        (set_leased-IsValid (now + dur) (item_ids items) rows v)

module _ {K P : Type 0} (size : List (Row K P) → ℕ) (max_rows max_bytes : ℕ) where
  evict_loop-All :
      (Q : Row K P → Type 0) (fuel : ℕ) (rows : List (Row K P)) (n : ℕ)
      → All Q rows
      → All Q (evict_loop size max_rows max_bytes fuel rows n).0
  unfolding evict_loop
  evict_loop-All Q zero rows n h = h
  evict_loop-All Q (suc fuel) rows n h =
      let (left, deleted) = evict_round size max_rows max_bytes rows in
      let kept : All Q (evict_round size max_rows max_bytes rows).0 =
        unfold evict_round delete_ids in All-filter Q _ rows h in
      elim (Bool-cases (over_cap size max_rows max_bytes rows)) [
        | inr e ↦ rw (e, evict_loop) h
        | inl e ↦
            rw (e, evict_loop)
              (elim (Bool-cases (deleted == 0)) [
                | inl d ↦ rw d kept
                | inr d ↦ rw d (evict_loop-All Q fuel left (n + deleted) kept)
              ])
      ]

  pub evict_rows-IsValid :
      (rows : List (Row K P))
      → IsValidTable rows
      → IsValidTable (evict_rows size max_rows max_bytes rows).0
  unfolding evict_rows
  evict_rows-IsValid rows v = record {
    ascending =
        unfold evict_rows in
        (evict_rows-Settles size max_rows max_bytes rows v.ascending).ascending;
    consistent = evict_loop-All IsConsistent (length rows + 1) rows 0 v.consistent;
  }
