-- ===== src/Queue/Lease.antt =====
-- LeaseBatch as the uploader meets it: which events it hands out, that it hands each to one caller,
-- that it answers, and that what was not acked comes again.
use desktop_client.Base.{
  ℕ, zero, suc, ◌+◌, ◌≤◌, ◌≡◌, ap, ◌∙◌, Bool, true, false, Str, none, some, List, [], ◌∷◌, ◌++◌,
  inl, inr, arith, length, elem, All, filter, take, Bool-cases,
}
use desktop_client.Base.Results.{ok, err}
use desktop_client.Queue.Table.{Row, get, is_leasable, row_ids, leasable_rows, depth_rows}
use desktop_client.Queue.Table.Ops.{Codec, unmarshal_failed, Item, item_ids, lease_rows}
use desktop_client.Queue.Table.Order.{Ascending}
use desktop_client.Queue.Table.Leasing.{lease_first}
use desktop_client.Queue.Table.LeaseLaws.{
  lease_rows-eq-ok, lease_rows-eq-lease_first, lease_rows_exclusive,
}
use desktop_client.Queue.Table.Decoding.{Decodes, lease_rows_total, lease_rows_stuck}
use desktop_client.Queue.Table.Consistency.{lease_rows-IsValid}
use desktop_client.Queue.History.Invariant.{IsValid}
use desktop_client.Queue.{Queue, lease_batch, depth}

module _ {A E M S : Type 0} (c : Codec A E) where
  pub lease_batch-inv :
      (now n dur : ℕ) (q q' : Queue E M S) (items : List (Item Str A))
      → lease_batch c now n dur q ≡ (q', ok items)
      → (lease_rows c now n dur q.rows ≡ ok (items, q'.rows)) × (q' ≡ record q { rows = q'.rows })
  unfolding lease_batch
  lease_batch-inv now n dur q q' items h = ground arith

  -- A lease at `now` on a valid queue that hands out `items` hands out the ids of the first `n`
  -- leasable rows, oldest first, and leaves the queue with exactly these rows leased until `now + dur`.
  pub lease_batch_takes_oldest :
      (now n dur : ℕ) (q q' : Queue E M S) (items : List (Item Str A))
      → IsValid q
      → lease_batch c now n dur q ≡ (q', ok items)
      → (item_ids items ≡ row_ids (leasable_rows now n q.rows))
        × (q' ≡ record q { rows = lease_first now (now + dur) n q.rows })
  unfolding leasable_rows
  lease_batch_takes_oldest now n dur q q' items v h =
      let (done, shape) = lease_batch-inv now n dur q q' items h in
      let rows =
        lease_rows-eq-lease_first c now n dur 0 q.rows q'.rows items v.events.ascending done in
      (
        (lease_rows-eq-ok c now n dur q.rows q'.rows items done).0,
        shape ∙ ap (λ (x : List (Row Str E)). record q { rows = x }) rows,
      )

  -- While a lease runs, the next lease hands out none of its rows, whatever its size.
  pub lease_batch_exclusive :
      (now later n m dur dur' i : ℕ) (q q' q'' : Queue E M S) (items items' : List (Item Str A))
      → IsValid q
      → lease_batch c now n dur q ≡ (q', ok items)
      → later ≤ now + dur
      → lease_batch c later m dur' q' ≡ (q'', ok items')
      → elem i (item_ids items) ≡ true
      → elem i (item_ids items') ≡ false
  lease_batch_exclusive now later n m dur dur' i q q' q'' items items' v h le h' e =
      let (done, shape) = lease_batch-inv now n dur q q' items h in
      let (done', shape') = lease_batch-inv later m dur' q' q'' items' h' in
      let v' = lease_rows-IsValid c now n dur q.rows q'.rows items v.events done in
      lease_rows_exclusive c now later n m dur dur' i q.rows q'.rows q''.rows items items'
        v.events.ascending v'.ascending done le done' e

  -- A queue whose payloads can all be read back answers every lease.
  pub lease_batch_total :
      (now n dur : ℕ) (q : Queue E M S)
      → All (Decodes c) q.rows
      → (q' : Queue E M S) × (items : List (Item Str A)) × (lease_batch c now n dur q
          ≡ (q', ok items))
  unfolding lease_batch
  lease_batch_total now n dur q h =
      let (items, rows, done) = lease_rows_total c now n dur q.rows h in
      (record q { rows = rows }, items, rw done)

  -- One payload that cannot be read back, among the first `n + 1` leasable rows, fails the lease and
  -- leaves the queue as it was, so that the next lease meets it again.
  pub lease_batch_stuck :
      (now n dur : ℕ) (q : Queue E M S) (before after : List (Row Str E)) (r : Row Str E)
      → leasable_rows now (suc n) q.rows ≡ before ++ r ∷ after
      → c.unmarshal r.payload ≡ none
      → lease_batch c now (suc n) dur q ≡ (q, err unmarshal_failed)
  unfolding lease_batch
  lease_batch_stuck now n dur q before after r e bad =
      rw (lease_rows_stuck c now n dur q.rows before after r e bad)

module _ {E : Type 0} where
  leasable-le-depth :
      (now : ℕ) (rows : List (Row Str E)) → length (filter (is_leasable now) rows) ≤ depth_rows rows
  unfolding depth_rows
  leasable-le-depth now [] = omega arith
  leasable-le-depth now (r ∷ rows) = ground (arith, leasable-le-depth now rows)

  elem_of_get :
      (p : Row Str E → Bool) (i m n : ℕ) (rows : List (Row Str E)) (r : Row Str E)
      → Ascending n rows
      → length (filter p rows) ≤ m
      → get i rows ≡ some r
      → p r ≡ true
      → elem i (row_ids (take m (filter p rows))) ≡ true
  unfolding get
  elem_of_get p i m n [] r a le h e = ground arith
  elem_of_get p i zero n (x ∷ rows) r a le h e = elim (Bool-cases (p x)) [
    | inl f ↦ absurd (ground arith)
    | inr f ↦ ground (arith, elem_of_get p i zero x.id rows r a.1)
  ]
  elem_of_get p i (suc m) n (x ∷ rows) r a le h e = elim (Bool-cases (p x)) [
    | inl f ↦ ground (arith, elem_of_get p i m x.id rows r a.1)
    | inr f ↦ ground (arith, elem_of_get p i (suc m) x.id rows r a.1)
  ]

module _ {A E M S : Type 0} (c : Codec A E) where
  -- What is pending, or was leased by an upload that never ended, comes again: a lease for as many rows
  -- as are unacked hands out every row that is leasable at its time.
  pub lease_batch_reaches :
      (now n dur i : ℕ) (q q' : Queue E M S) (items : List (Item Str A)) (r : Row Str E)
      → IsValid q
      → depth q ≤ n
      → get i q.rows ≡ some r
      → is_leasable now r ≡ true
      → lease_batch c now n dur q ≡ (q', ok items)
      → elem i (item_ids items) ≡ true
  unfolding depth
  lease_batch_reaches now n dur i q q' items r v le at free h =
      let (done, shape) = lease_batch-inv c now n dur q q' items h in
      let (ids, set) = lease_rows-eq-ok c now n dur q.rows q'.rows items done in
      let few : length (filter (is_leasable now) q.rows) ≤ n =
        omega (arith, leasable-le-depth now q.rows) in
      rw ids (elem_of_get (is_leasable now) i n 0 q.rows r v.events.ascending few at free)
