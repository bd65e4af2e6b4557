-- ===== src/Queue/Table/Order.antt =====
-- The order of a table by its ids, and what it gives for the look-up of a row.
use desktop_client.Base.{
  ℕ, ◌≤◌, ◌<◌, ◌≡◌, refl, Bool, true, Option, none, some, List, [], ◌∷◌, ◌++◌, arith, if◌then◌else◌,
  filter, elem, Bool-cases, inl, inr,
}
use desktop_client.Queue.Table.{Row, max_id, next_id, insert_row, update_by_ids, get}

module _ {K P : Type 0} where
  -- The ids rise along the table, from above `n`.
  abbrev pub Ascending : ℕ → List (Row K P) → Type 0
  Ascending n [] = Unit
  Ascending n (r ∷ rows) = (n < r.id) × Ascending r.id rows

  pub Ascending-weaken :
      (m n : ℕ) (rows : List (Row K P)) → m ≤ n → Ascending n rows → Ascending m rows
  Ascending-weaken m n [] h a = tt
  Ascending-weaken m n (r ∷ rows) h a = (omega arith, a.1)

  pub filter-Ascending :
      (p : Row K P → Bool) (n : ℕ) (rows : List (Row K P))
      → Ascending n rows
      → Ascending n (filter p rows)
  filter-Ascending p n [] a = tt
  filter-Ascending p n (r ∷ rows) a =
      ground (arith, filter-Ascending p r.id rows a.1, Ascending-weaken n r.id (filter p rows))

  pub update-Ascending :
      (set : Row K P → Row K P) (keeps : (r : Row K P) → (set r).id ≡ r.id) (ids : List ℕ) (n : ℕ)
      (rows : List (Row K P))
      → Ascending n rows
      → Ascending n (update_by_ids set ids rows)
  unfolding update_by_ids
  update-Ascending set keeps ids n [] a = tt
  update-Ascending set keeps ids n (r ∷ rows) a = elim (Bool-cases (elem r.id ids)) [
    | inl e ↦ rw e (rw (keeps r) (a.0, update-Ascending set keeps ids r.id rows a.1))
    | inr e ↦ rw e (a.0, update-Ascending set keeps ids r.id rows a.1)
  ]

  append-Ascending :
      (n : ℕ) (rows : List (Row K P)) (r : Row K P)
      → max_id rows < r.id
      → n < r.id
      → Ascending n rows
      → Ascending n (rows ++ r ∷ [])
  unfolding max_id
  append-Ascending n [] r h k a = (k, tt)
  append-Ascending n (x ∷ rows) r h k a =
      (a.0, append-Ascending x.id rows r (omega arith) (omega arith) a.1)

  pub insert_row-Ascending :
      (rows : List (Row K P)) (k : K) (p : P) (now : ℕ)
      → Ascending 0 rows
      → Ascending 0 (insert_row rows k p now)
  unfolding insert_row next_id
  insert_row-Ascending rows k p now a = append-Ascending 0 rows _ (omega arith) (omega arith) a

  -- An id at or below the bound has no row.
  pub get_below : (i n : ℕ) (rows : List (Row K P)) → Ascending n rows → i ≤ n → get i rows ≡ none
  unfolding get
  get_below i n [] a h = refl
  get_below i n (r ∷ rows) a h = ground (arith, get_below i r.id rows a.1)

  -- An id above them all has none either.
  pub get_above : (i : ℕ) (rows : List (Row K P)) → max_id rows < i → get i rows ≡ none
  unfolding get max_id
  get_above i [] h = refl
  get_above i (r ∷ rows) h =
      let k : max_id rows < i = omega arith in ground (arith, get_above i rows k)

  pub get-append_some :
      (i : ℕ) (rows more : List (Row K P)) (r : Row K P)
      → get i rows ≡ some r
      → get i (rows ++ more) ≡ some r
  unfolding get
  get-append_some i [] more r h = cc
  get-append_some i (x ∷ rows) more r h = ground (arith, get-append_some i rows more r)

  pub get-append_none :
      (i : ℕ) (rows more : List (Row K P)) → get i rows ≡ none → get i (rows ++ more) ≡ get i more
  unfolding get
  get-append_none i [] more h = refl
  get-append_none i (x ∷ rows) more h = ground (arith, get-append_none i rows more)

  pub get_id : (i : ℕ) (rows : List (Row K P)) (r : Row K P) → get i rows ≡ some r → r.id ≡ i
  unfolding get
  get_id i [] r h = cc
  get_id i (x ∷ rows) r h = ground (arith, get_id i rows r)

  abbrev pub when : (Row K P → Bool) → Option (Row K P) → Option (Row K P)
  when p none = none
  when p (some r) = if p r then some r else none

  pub get-filter :
      (p : Row K P → Bool) (i n : ℕ) (rows : List (Row K P))
      → Ascending n rows
      → get i (filter p rows) ≡ when p (get i rows)
  unfolding get
  get-filter p i n [] a = refl
  get-filter p i n (r ∷ rows) a =
      ground (arith, get-filter p i r.id rows a.1, get_below i r.id rows a.1)

  abbrev pub apply_if : (Row K P → Row K P) → Bool → Option (Row K P) → Option (Row K P)
  apply_if set true (some r) = some (set r)
  apply_if set _ o = o

  -- UPDATE ... WHERE id IN (...) sets the rows of the list and leaves the others.
  pub get-update_by_ids :
      (set : Row K P → Row K P) (keeps : (r : Row K P) → (set r).id ≡ r.id) (ids : List ℕ) (i : ℕ)
      (rows : List (Row K P))
      → get i (update_by_ids set ids rows) ≡ apply_if set (elem i ids) (get i rows)
  unfolding get update_by_ids
  get-update_by_ids set keeps ids i [] = ground arith
  get-update_by_ids set keeps ids i (r ∷ rows) =
      ground (arith, keeps r, get-update_by_ids set keeps ids i rows)
