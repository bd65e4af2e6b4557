-- ===== src/Queue/Table/Decoding.antt =====
-- When a lease answers: it decodes every selected row, and one that cannot be decoded fails it
-- (scanItem, selectLeasable).
use desktop_client.Base.{
  ℕ, zero, suc, ◌+◌, ◌≡◌, refl, Option, none, some, List, [], ◌∷◌, ◌++◌, inl, inr, arith, take,
  filter, All, All-take, Option-cases, Bool-cases, All-append,
}
use desktop_client.Base.Results.{ok, err}
use desktop_client.Queue.Table.{
  Row, is_leasable, leasable_rows, insert_row, update_by_ids, set_leased,
}
use desktop_client.Queue.Table.Ops.{
  Codec, Item, unmarshal_failed, scan_items, lease_rows, insert_all, select_leasable, item_ids,
}

module _ {K A P : Type 0} (c : Codec A P) where
  -- The payload can be read back.
  abbrev pub Decodes : Row K P → Type 0
  Decodes r = (a : A) × (c.unmarshal r.payload ≡ some a)

  filter-All-Decodes :
      (now : ℕ) (rows : List (Row K P))
      → All Decodes rows
      → All Decodes (filter (is_leasable now) rows)
  filter-All-Decodes now [] h = tt
  filter-All-Decodes now (r ∷ rows) h = elim (Bool-cases (is_leasable now r)) [
    | inl e ↦ rw e (h.0, filter-All-Decodes now rows h.1)
    | inr e ↦ rw e (filter-All-Decodes now rows h.1)
  ]

  scan_items_total :
      (rows : List (Row K P))
      → All Decodes rows
      → (items : List (Item K A)) × (scan_items c rows ≡ ok items)
  unfolding scan_items
  scan_items_total [] h = ([], refl)
  scan_items_total (r ∷ rows) ((a, e), h) =
      let (items, more) = scan_items_total rows h in
      (record { id = r.id; key = r.key; event = a; attempts = r.attempts } ∷ items, rw (e, more))

  -- A lease of a table whose rows can all be decoded answers.
  pub lease_rows_total :
      (now n dur : ℕ) (rows : List (Row K P))
      → All Decodes rows
      → (items : List (Item K A)) × (rows' : List (Row K P)) × (lease_rows c now n dur rows
          ≡ ok (items, rows'))
  unfolding lease_rows leasable_rows
  lease_rows_total now zero dur rows h = ([], rows, refl)
  lease_rows_total now (suc n) dur rows h =
      let picked = take (suc n) (filter (is_leasable now) rows) in
      let (items, read) = scan_items_total picked (
        All-take Decodes (suc n) (filter (is_leasable now) rows) (filter-All-Decodes now rows h)) in
      answer items read
    where
      answer :
          (items : List (Item K A))
          → scan_items c (take (suc n) (filter (is_leasable now) rows)) ≡ ok items
          → (items' : List (Item K A)) × (rows' : List (Row K P)) × (lease_rows c now
                (suc n)
                dur
                rows
              ≡ ok (items', rows'))
      answer [] read = ([], rows, rw (read, select_leasable))
      answer (i ∷ is) read = (
        i ∷ is,
        update_by_ids (set_leased (now + dur)) (item_ids (i ∷ is)) rows,
        rw (read, select_leasable),
      )

  scan_items_stuck :
      (before after : List (Row K P)) (r : Row K P)
      → c.unmarshal r.payload ≡ none
      → scan_items c (before ++ r ∷ after) ≡ err unmarshal_failed
  unfolding scan_items
  scan_items_stuck [] after r e = rw e
  scan_items_stuck (b ∷ before) after r e = ground (arith, scan_items_stuck before after r e)

  -- A row that cannot be decoded fails every lease that selects it.
  pub lease_rows_stuck :
      (now n dur : ℕ) (rows before after : List (Row K P)) (r : Row K P)
      → leasable_rows now (suc n) rows ≡ before ++ r ∷ after
      → c.unmarshal r.payload ≡ none
      → lease_rows c now (suc n) dur rows ≡ err unmarshal_failed
  unfolding lease_rows
  lease_rows_stuck now n dur rows before after r e bad = rw (e, scan_items_stuck before after r bad)

  -- What is inserted can be read back, if what `marshal` writes can be.
  pub insert_all-Decodes :
      (reads : (a : A) (p : P) → c.marshal a ≡ some p → (b : A) × (c.unmarshal p ≡ some b))
      (mint : ℕ → Option K) (i now : ℕ) (rows rows' : List (Row K P)) (events : List A)
      → All Decodes rows
      → insert_all c mint i now rows events ≡ ok rows'
      → All Decodes rows'
  unfolding insert_all insert_row
  insert_all-Decodes reads mint i now rows rows' [] h e = ground arith
  insert_all-Decodes reads mint i now rows rows' (a ∷ events) h e =
      elim (Option-cases (c.marshal a)) [
        | inl bad ↦ ground arith
        | inr (p, good) ↦ elim (Option-cases (mint i)) [
          | inl bad ↦ ground arith
          | inr (k, minted) ↦
              insert_all-Decodes reads mint (i + 1) now (insert_row rows k p now) rows' events
                (All-append Decodes rows _ h (reads a p good, tt)) (ground arith)
        ]
      ]
