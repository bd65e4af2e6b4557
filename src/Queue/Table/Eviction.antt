-- ===== src/Queue/Table/Eviction.antt =====
-- One round of the eviction (evictRound, deleteVictims) against two passes over the table: delivered
-- history goes first, then the oldest rows still to be delivered.
use desktop_client.Base.{
  ℕ, zero, suc, ◌+◌, ◌-◌, ◌≤◌, ◌≡◌, refl, ap, Bool, true, false, not, List, [], ◌∷◌, ◌++◌, inl, inr,
  arith, if◌then◌else◌, length, take, filter, elem, Bool-cases, min, elem-append, take-append,
  length-filter-le,
}
use desktop_client.Queue.Table.{Row, row_ids, is_acked, victims, delete_ids}
use desktop_client.Queue.Table.Order.{Ascending, Ascending-weaken}

module _ {K P : Type 0} where
  -- The table without the first `n` rows that pass a test.
  unfoldable pub drop_first : (Row K P → Bool) → ℕ → List (Row K P) → List (Row K P)
  drop_first p zero rows = rows
  drop_first p (suc n) [] = []
  drop_first p (suc n) (r ∷ rows) =
      let dropped = drop_first p n rows in
      let kept = r ∷ drop_first p (suc n) rows in if p r then dropped else kept

  abbrev pub is_unacked : Row K P → Bool
  is_unacked r = not (is_acked r)

  -- The rows that one round leaves: the first `n` acked rows are gone, and of the others, from the
  -- oldest on, as many as the acked ones fall short of `n`.
  abbrev pub evict_first : ℕ → List (Row K P) → List (Row K P)
  evict_first n rows =
      drop_first is_unacked (n - length (filter is_acked rows)) (drop_first is_acked n rows)

  elem_above :
      (p : Row K P → Bool) (i m n : ℕ) (rows : List (Row K P))
      → Ascending n rows
      → i ≤ n
      → elem i (take m (row_ids (filter p rows))) ≡ false
  elem_above p i zero n rows a h = refl
  elem_above p i (suc m) n [] a h = refl
  elem_above p i (suc m) n (r ∷ rows) a h = elim (Bool-cases (p r)) [
    | inl e ↦ rw e (ground (arith, elem_above p i m r.id rows a.1))
    | inr e ↦ rw e (elem_above p i (suc m) r.id rows a.1 (omega arith))
  ]

  delete_ids-nil : (rows : List (Row K P)) → delete_ids [] rows ≡ rows
  unfolding delete_ids
  delete_ids-nil [] = refl
  delete_ids-nil (r ∷ rows) = ap (◌∷◌ r) (delete_ids-nil rows)

  delete_ids-cons_fresh :
      (i n : ℕ) (ids : List ℕ) (rows : List (Row K P))
      → Ascending n rows
      → i ≤ n
      → delete_ids (i ∷ ids) rows ≡ delete_ids ids rows
  unfolding delete_ids
  delete_ids-cons_fresh i n ids [] a h = refl
  delete_ids-cons_fresh i n ids (r ∷ rows) a h =
      ground (arith, delete_ids-cons_fresh i r.id ids rows a.1)

  delete_ids-append :
      (xs ys : List ℕ) (rows : List (Row K P))
      → delete_ids (xs ++ ys) rows ≡ delete_ids ys (delete_ids xs rows)
  unfolding delete_ids
  delete_ids-append xs ys [] = refl
  delete_ids-append xs ys (r ∷ rows) =
      ground (arith, elem-append r.id xs ys, delete_ids-append xs ys rows)

  -- DELETE by the first ids that pass is one pass.
  delete-first :
      (p : Row K P → Bool) (m n : ℕ) (rows : List (Row K P))
      → Ascending n rows
      → delete_ids (take m (row_ids (filter p rows))) rows ≡ drop_first p m rows
  unfolding delete_ids drop_first
  delete-first p zero n rows a = delete_ids-nil rows
  delete-first p (suc m) n [] a = refl
  delete-first p (suc m) n (r ∷ rows) a = elim (Bool-cases (p r)) [
    | inl e ↦ ground (
      arith,
      delete-first p m r.id rows a.1,
      delete_ids-cons_fresh r.id r.id (take m (row_ids (filter p rows))) rows a.1,
    )
    | inr e ↦
        ground
          (arith, delete-first p (suc m) r.id rows a.1, elem_above p r.id (suc m) r.id rows a.1)
  ]

  pub drop_first-Ascending :
      (p : Row K P → Bool) (m n : ℕ) (rows : List (Row K P))
      → Ascending n rows
      → Ascending n (drop_first p m rows)
  unfolding drop_first
  drop_first-Ascending p zero n rows a = a
  drop_first-Ascending p (suc m) n [] a = tt
  drop_first-Ascending p (suc m) n (r ∷ rows) a = elim (Bool-cases (p r)) [
    | inl e ↦ rw e (
        Ascending-weaken n r.id (drop_first p m rows) (omega arith)
          (drop_first-Ascending p m r.id rows a.1))
    | inr e ↦ rw e (a.0, drop_first-Ascending p (suc m) r.id rows a.1)
  ]

  -- Rows of another kind stay.
  pub filter-drop_first :
      (p q : Row K P → Bool) (apart : (r : Row K P) → p r ≡ true → q r ≡ false) (m : ℕ)
      (rows : List (Row K P))
      → filter q (drop_first p m rows) ≡ filter q rows
  unfolding drop_first
  filter-drop_first p q apart zero rows = refl
  filter-drop_first p q apart (suc m) [] = refl
  filter-drop_first p q apart (suc m) (r ∷ rows) = elim (Bool-cases (p r)) [
    | inl e ↦ rw (e, apart r e) (filter-drop_first p q apart m rows)
    | inr e ↦ ground (arith, filter-drop_first p q apart (suc m) rows)
  ]

  pub length-drop_first :
      (p : Row K P → Bool) (m : ℕ) (rows : List (Row K P))
      → length (drop_first p m rows) ≡ length rows - min m (length (filter p rows))
  unfolding drop_first
  length-drop_first p zero rows = omega arith
  length-drop_first p (suc m) [] = omega arith
  length-drop_first p (suc m) (r ∷ rows) = elim (Bool-cases (p r)) [
    | inl e ↦ rw e (omega (arith, length-drop_first p m rows))
    | inr e ↦ rw e (omega (arith, length-drop_first p (suc m) rows, length-filter-le p rows))
  ]

  length-row_ids : (rows : List (Row K P)) → length (row_ids rows) ≡ length rows
  length-row_ids [] = refl
  length-row_ids (r ∷ rows) = ap suc (length-row_ids rows)

  length-acked :
      (rows : List (Row K P))
      → length (filter is_acked rows) + length (filter is_unacked rows) ≡ length rows
  length-acked [] = omega arith
  length-acked (r ∷ rows) = ground (arith, length-acked rows)

  -- What the two SQL statements of a round delete is what the two passes drop.
  pub delete-victims :
      (n : ℕ) (rows : List (Row K P))
      → Ascending 0 rows
      → delete_ids (victims n rows) rows ≡ evict_first n rows
  unfolding victims
  delete-victims n rows a =
      let gone = take n (row_ids (filter is_acked rows)) in
      let m = n - length (filter is_acked rows) in
      rw (take-append n (row_ids (filter is_acked rows)) (row_ids (filter is_unacked rows))) (
        rw (length-row_ids (filter is_acked rows)) (
          rw (delete_ids-append gone (take m (row_ids (filter is_unacked rows))) rows) (
            rw (delete-first is_acked n 0 rows a) (
              rw (← filter-drop_first is_acked is_unacked (λ r e. rw e) n rows) (
                delete-first is_unacked m 0 (drop_first is_acked n rows)
                  (drop_first-Ascending is_acked n 0 rows a))))))

  -- A round deletes as many rows as it was told to, or all.
  pub length-delete-victims :
      (n : ℕ) (rows : List (Row K P))
      → Ascending 0 rows
      → length (delete_ids (victims n rows) rows) ≡ length rows - min n (length rows)
  length-delete-victims n rows a = rw (delete-victims n rows a) (
      omega (
        arith,
        length-drop_first is_unacked (n - length (filter is_acked rows))
            (drop_first is_acked n rows),
        length-drop_first is_acked n rows,
        ap length (filter-drop_first is_acked is_unacked (λ r e. rw e) n rows),
        length-acked rows,
      ))
