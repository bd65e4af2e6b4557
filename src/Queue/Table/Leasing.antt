-- ===== src/Queue/Table/Leasing.antt =====
-- The lease of a table (LeaseBatch, selectLeasable, markLeased) against one pass over its rows.
use desktop_client.Base.{
  ℕ, zero, suc, ◌≤◌, ◌≡◌, refl, ap, false, List, [], ◌∷◌, inl, inr, arith, if◌then◌else◌, take,
  filter, elem, Bool-cases,
}
use desktop_client.Base.Results.{ok}
use desktop_client.Queue.Table.{Row, update_by_ids, row_ids, is_leasable, set_leased}
use desktop_client.Queue.Table.Ops.{Codec, Item, item_ids, scan_items}
use desktop_client.Queue.Table.Order.{Ascending}

module _ {K P : Type 0} where
  -- The first `n` leasable rows leased until `until`, in one pass from the oldest row on.
  unfoldable pub lease_first : ℕ → ℕ → ℕ → List (Row K P) → List (Row K P)
  lease_first now until zero rows = rows
  lease_first now until (suc n) [] = []
  lease_first now until (suc n) (r ∷ rows) =
      let here = set_leased until r ∷ lease_first now until n rows in
      let later = r ∷ lease_first now until (suc n) rows in
      if is_leasable now r then here else later

  abbrev pub first_ids : ℕ → ℕ → List (Row K P) → List ℕ
  first_ids now n rows = row_ids (take n (filter (is_leasable now) rows))

  elem_above :
      (i now m n : ℕ) (rows : List (Row K P))
      → Ascending n rows
      → i ≤ n
      → elem i (first_ids now m rows) ≡ false
  elem_above i now zero n rows a h = refl
  elem_above i now (suc m) n [] a h = refl
  elem_above i now (suc m) n (r ∷ rows) a h = elim (Bool-cases (is_leasable now r)) [
    | inl e ↦ rw e (ground (arith, elem_above i now m r.id rows a.1))
    | inr e ↦ rw e (elem_above i now (suc m) r.id rows a.1 (omega arith))
  ]

  update_by_ids-cons_fresh :
      (set : Row K P → Row K P) (i n : ℕ) (ids : List ℕ) (rows : List (Row K P))
      → Ascending n rows
      → i ≤ n
      → update_by_ids set (i ∷ ids) rows ≡ update_by_ids set ids rows
  unfolding update_by_ids
  update_by_ids-cons_fresh set i n ids [] a h = refl
  update_by_ids-cons_fresh set i n ids (r ∷ rows) a h =
      ground (arith, update_by_ids-cons_fresh set i r.id ids rows a.1)

  pub update_by_ids-nil :
      (set : Row K P → Row K P) (rows : List (Row K P)) → update_by_ids set [] rows ≡ rows
  unfolding update_by_ids
  update_by_ids-nil set [] = refl
  update_by_ids-nil set (r ∷ rows) = ap (◌∷◌ r) (update_by_ids-nil set rows)

  -- SELECT the first leasable ids, then UPDATE by id, is one pass.
  pub update-first_ids :
      (now until m n : ℕ) (rows : List (Row K P))
      → Ascending n rows
      → update_by_ids (set_leased until) (first_ids now m rows) rows ≡ lease_first now until m rows
  unfolding update_by_ids lease_first
  update-first_ids now until zero n rows a = update_by_ids-nil (set_leased until) rows
  update-first_ids now until (suc m) n [] a = refl
  update-first_ids now until (suc m) n (r ∷ rows) a = elim (Bool-cases (is_leasable now r)) [
    | inl e ↦ ground (
      arith,
      update-first_ids now until m r.id rows a.1,
      update_by_ids-cons_fresh (set_leased until) r.id r.id (first_ids now m rows) rows a.1,
    )
    | inr e ↦ ground (
      arith,
      update-first_ids now until (suc m) r.id rows a.1,
      elem_above r.id now (suc m) r.id rows a.1,
    )
  ]

module _ {K A P : Type 0} (c : Codec A P) where
  pub item_ids-scan_items :
      (rows : List (Row K P)) (items : List (Item K A))
      → scan_items c rows ≡ ok items
      → item_ids items ≡ row_ids rows
  unfolding scan_items
  item_ids-scan_items [] items h = ground arith
  item_ids-scan_items (r ∷ rows) [] h = ground arith
  item_ids-scan_items (r ∷ rows) (i ∷ items) h = ground (arith, item_ids-scan_items rows items)
