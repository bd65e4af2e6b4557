-- ===== src/Queue/Table/LeaseLaws.antt =====
-- What a lease (lease_rows) promises: which rows it takes, that it takes them for itself, and when it
-- answers.
use desktop_client.Base.{
  ℕ, zero, suc, ◌+◌, ◌≤◌, ◌<◌, ◌≡◌, refl, ap, sym, ◌∙◌, Bool, true, false, some, List, [], ◌∷◌, ◌⊎◌,
  inl, inr, arith, ◌==◌, length, take, filter, elem, Bool-cases,
}
use desktop_client.Base.Results.{ok, Result-cases}
use desktop_client.Queue.Table.{
  Row, update_by_ids, row_ids, get, is_leasable, set_leased, leasable_rows,
}
use desktop_client.Queue.Table.Ops.{Codec, Item, item_ids, scan_items, lease_rows}
use desktop_client.Queue.Table.Order.{Ascending, get-update_by_ids}
use desktop_client.Queue.Table.Leasing.{
  lease_first, update-first_ids, update_by_ids-nil, first_ids, item_ids-scan_items,
}

module _ {K P : Type 0} where
  -- An id among those of the first rows that pass is the id of a row that passes.
  pub get_of_elem :
      (p : Row K P → Bool) (i m n : ℕ) (rows : List (Row K P))
      → Ascending n rows
      → elem i (row_ids (take m (filter p rows))) ≡ true
      → (n < i) × (r : Row K P) × (get i rows ≡ some r) × (p r ≡ true)
  unfolding get
  get_of_elem p i zero n rows a h = cc
  get_of_elem p i (suc m) n [] a h = cc
  get_of_elem p i (suc m) n (r ∷ rows) a h = elim (Bool-cases (p r)) [
    | inl e ↦ elim (Bool-cases (i == r.id)) [
      | inl here ↦ (ground arith, r, ground arith, e)
      | inr there ↦
          let (above, s, at, passes) = get_of_elem p i m r.id rows a.1 (ground arith) in
          (omega arith, s, ground arith, passes)
    ]
    | inr e ↦
        let (above, s, at, passes) = get_of_elem p i (suc m) r.id rows a.1 (ground arith) in
        (omega arith, s, ground arith, passes)
  ]

  length-row_ids : (rows : List (Row K P)) → length (row_ids rows) ≡ length rows
  length-row_ids [] = refl
  length-row_ids (r ∷ rows) = ap suc (length-row_ids rows)

module _ {K A P : Type 0} (c : Codec A P) where
  -- A lease that answers takes the first leasable ids, and sets the rows of these ids.
  pub lease_rows-eq-ok :
      (now n dur : ℕ) (rows rows' : List (Row K P)) (items : List (Item K A))
      → lease_rows c now n dur rows ≡ ok (items, rows')
      → (item_ids items ≡ first_ids now n rows)
        × (rows' ≡ update_by_ids (set_leased (now + dur)) (item_ids items) rows)
  unfolding lease_rows leasable_rows
  lease_rows-eq-ok now zero dur rows rows' items h =
      ground (arith, update_by_ids-nil (set_leased (now + dur)) rows)
  lease_rows-eq-ok now (suc n) dur rows rows' items h =
      elim (Result-cases (scan_items c (leasable_rows now (suc n) rows))) [
        | inl (e, failed) ↦ ground arith
        | inr ([], read) ↦ ground (
          arith,
          item_ids-scan_items c (leasable_rows now (suc n) rows) [] read,
          update_by_ids-nil (set_leased (now + dur)) rows,
        )
        | inr (i ∷ is, read) ↦
            ground (arith, item_ids-scan_items c (leasable_rows now (suc n) rows) (i ∷ is) read)
      ]

  -- The rows after a lease are those of one pass that leases the oldest leasable rows.
  pub lease_rows-eq-lease_first :
      (now n dur k : ℕ) (rows rows' : List (Row K P)) (items : List (Item K A))
      → Ascending k rows
      → lease_rows c now n dur rows ≡ ok (items, rows')
      → rows' ≡ lease_first now (now + dur) n rows
  lease_rows-eq-lease_first now n dur k rows rows' items a h =
      let (ids, set) = lease_rows-eq-ok now n dur rows rows' items h in
      set ∙ (rw ids (update-first_ids now (now + dur) n k rows a))

  -- Every leased id has a row, which was leasable and is now leased until the end of the lease; the
  -- row of any other id is as it was.
  pub get-lease_rows :
      (now n dur i : ℕ) (rows rows' : List (Row K P)) (items : List (Item K A))
      → Ascending 0 rows
      → lease_rows c now n dur rows ≡ ok (items, rows')
      → ((elem i (item_ids items) ≡ true)
          × (r : Row K P) × (get i rows ≡ some r)
          × (is_leasable now r ≡ true)
          × (get i rows' ≡ some (set_leased (now + dur) r)))
        ⊎ ((elem i (item_ids items) ≡ false) × (get i rows' ≡ get i rows))
  get-lease_rows now n dur i rows rows' items a h =
      let (ids, set) = lease_rows-eq-ok now n dur rows rows' items h in
      let after = get-update_by_ids (set_leased (now + dur)) (λ r. refl) (item_ids items) i rows in
      elim (Bool-cases (elem i (item_ids items))) [
        | inl e ↦
            let (above, r, at, free) =
              get_of_elem (is_leasable now) i n 0 rows a (ap (elem i) (sym ids) ∙ e) in
            inl (e, r, at, free, ground (arith, after))
        | inr e ↦ inr (e, ground (arith, after))
      ]

  -- No row is handed out twice while its lease runs.
  pub lease_rows_exclusive :
      (now later n m dur dur' i : ℕ) (rows rows' rows'' : List (Row K P))
      (items items' : List (Item K A))
      → Ascending 0 rows
      → Ascending 0 rows'
      → lease_rows c now n dur rows ≡ ok (items, rows')
      → later ≤ now + dur
      → lease_rows c later m dur' rows' ≡ ok (items', rows'')
      → elem i (item_ids items) ≡ true
      → elem i (item_ids items') ≡ false
  lease_rows_exclusive now later n m dur dur' i rows rows' rows'' items items' a a' h le h' e =
      elim (get-lease_rows now n dur i rows rows' items a h) [
        | inr (miss, same) ↦ cc
        | inl (hit, r, at, free, mine) ↦
            elim (get-lease_rows later m dur' i rows' rows'' items' a' h') [
              | inr (miss', same') ↦ miss'
              | inl (hit', r', at', free', theirs) ↦ ground arith
            ]
      ]
