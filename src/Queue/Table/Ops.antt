-- ===== src/Queue/Table/Ops.antt =====
-- The operations that the events queue and the metrics queue have in common, on one table:
-- insertEvents and insertMetrics, the two lease functions, and the two eviction loops
-- (internal/queue/queue.go, metrics.go). The random source of the UUIDs, the JSON codec and the size
-- of the database file are arguments.
use desktop_client.Base.{
  ℕ, zero, suc, ◌+◌, ◌-◌, Bool, true, false, ◌||◌, Option, List, [], ◌∷◌, ltb, ◌==◌, if◌then◌else◌,
  length, map,
}
use desktop_client.Base.Results.{Result, ok, ◌>>=◌, or_fail}
use desktop_client.Queue.Table.{
  Row, insert_row, leasable_rows, update_by_ids, set_leased, victims, delete_ids,
}

-- What `json.Marshal` and `json.Unmarshal` answer, `none` for an error.
pub record Codec (A P : Type 0) : Type 0 where
  pub marshal : A → Option P
  pub unmarshal : P → Option A

pub data Error : Type 0 where
  marshal_failed mint_failed unmarshal_failed : Error

-- A leased row as it is handed to the uploader.
pub record Item (K A : Type 0) : Type 0 where
  pub id : ℕ
  pub key : K
  pub event : A
  pub attempts : ℕ

module _ {K A P : Type 0} (c : Codec A P) where
  -- The loop of insertEvents, inside the transaction. `mint i` is the key of the i-th event.
  unfoldable pub insert_all :
      (ℕ → Option K) → ℕ → ℕ → List (Row K P) → List A → Result Error (List (Row K P))
  insert_all mint i now rows [] = ok rows
  insert_all mint i now rows (a ∷ as') = do
    payload ← or_fail (c.marshal a) marshal_failed
    key ← or_fail (mint i) mint_failed
    insert_all mint (i + 1) now (insert_row rows key payload now) as'

  unfoldable pub scan_item : Row K P → Result Error (Item K A)
  scan_item r = do
    event ← or_fail (c.unmarshal r.payload) unmarshal_failed
    ok (record { id = r.id; key = r.key; event = event; attempts = r.attempts })

  -- The loop over the selected rows: the first one that cannot be decoded ends it with an error.
  unfoldable pub scan_items : List (Row K P) → Result Error (List (Item K A))
  unfolding scan_item
  scan_items [] = ok []
  scan_items (r ∷ rows) = do item ← scan_item r; items ← scan_items rows; ok (item ∷ items)

  unfoldable pub select_leasable : ℕ → ℕ → List (Row K P) → Result Error (List (Item K A))
  select_leasable now n rows = scan_items (leasable_rows now n rows)

abbrev pub item_ids : {K A : Type 0} → List (Item K A) → List ℕ
item_ids = map (λ i. i.id)

module _ {K A P : Type 0} (c : Codec A P) where
  abbrev mark_leased :
      ℕ → List (Row K P) → List (Item K A) → Result Error (List (Item K A) × List (Row K P))
  mark_leased until rows [] = ok ([], rows)
  mark_leased until rows items = ok (items, update_by_ids (set_leased until) (item_ids items) rows)

  -- LeaseBatch and LeaseMetricsBatch. A negative `n` is read as 0.
  unfoldable pub lease_rows :
      ℕ → ℕ → ℕ → List (Row K P) → Result Error (List (Item K A) × List (Row K P))
  unfolding select_leasable
  lease_rows now zero dur rows = ok ([], rows)
  lease_rows now n dur rows = do
    items ← select_leasable c now n rows
    mark_leased (now + dur) rows items

abbrev pub evict_chunk : ℕ
evict_chunk = 512

-- `rows - maxRows` is below 0 where the row cap is kept, and then not above the chunk.
unfoldable pub evict_target : ℕ → ℕ → ℕ
evict_target rows max_rows =
    let over = rows - max_rows in if ltb evict_chunk over then over else evict_chunk

module _ {K P : Type 0} (size : List (Row K P) → ℕ) (max_rows max_bytes : ℕ) where
  abbrev pub over_cap : List (Row K P) → Bool
  over_cap rows = ltb max_rows (length rows) || ltb max_bytes (size rows)

  -- One round: the rows that are left, how many were deleted.
  unfoldable pub evict_round : List (Row K P) → List (Row K P) × ℕ
  evict_round rows =
      let left = delete_ids (victims (evict_target (length rows) max_rows) rows) rows in
      (left, length rows - length left)

  -- The loop of evictIfNeeded. The count is of the rows deleted so far.
  unfoldable pub evict_loop : ℕ → List (Row K P) → ℕ → List (Row K P) × ℕ
  evict_loop zero rows n = (rows, n)
  evict_loop (suc fuel) rows n = elim (over_cap rows) [
    | false ↦ (rows, n)
    | true ↦
        let (left, deleted) = evict_round rows in
        elim (deleted == 0) [ true ↦ (left, n) | false ↦ evict_loop fuel left (n + deleted) ]
  ]

  -- A round that deletes nothing ends the loop, so that one round for each row, and one, are enough.
  unfoldable pub evict_rows : List (Row K P) → List (Row K P) × ℕ
  evict_rows rows = evict_loop (length rows + 1) rows 0
