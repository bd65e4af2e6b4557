-- ===== src/Uploader/Waiting.antt =====
-- The rows that wait after a lease and the ack of what it handed out, for one table.
use desktop_client.Base.{
  ℕ, zero, suc, ◌≤◌, ◌<◌, ◌≡◌, refl, ap, true, false, Str, Option, none, some, ◌⊎◌, List, [], ◌∷◌,
  arith, inl, inr, length, filter, take, elem, All, Bool-cases, length-map, length-take,
}
use desktop_client.Queue.Table.{
  Row, RowState, pending, leased, acked, leasable_state, is_leasable, update_by_ids, set_acked,
  set_leased, depth_rows, row_ids,
}
use desktop_client.Queue.Table.Ops.{Codec, Item, item_ids}
use desktop_client.Queue.Table.Leasing.{first_ids}
use desktop_client.Queue.Table.Decoding.{Decodes}

module _ {K P : Type 0} where
  acked-le :
      (now until : ℕ) (ids : List ℕ) (rows : List (Row K P))
      → depth_rows (update_by_ids (set_acked now) ids (update_by_ids (set_leased until) ids rows))
        ≤ depth_rows rows
  unfolding depth_rows update_by_ids
  acked-le now until ids [] = omega arith
  acked-le now until ids (r ∷ rows) = ground (arith, acked-le now until ids rows)

  -- One unacked row with an id of the list is enough.
  acked-lt :
      (now later until i : ℕ) (ids rest : List ℕ) (rows : List (Row K P))
      → row_ids (filter (is_leasable now) rows) ≡ i ∷ rest
      → elem i ids ≡ true
      → depth_rows (update_by_ids (set_acked later) ids (update_by_ids (set_leased until) ids rows))
        < depth_rows rows
  unfolding depth_rows update_by_ids
  acked-lt now later until i ids rest [] e h = cc
  acked-lt now later until i ids rest (r ∷ rows) e h = elim (Bool-cases (is_leasable now r)) [
    | inl l ↦
        let below = acked-le later until ids rows in
        let same : r.id ≡ i = ground arith in ground (arith, below, l, same, h)
    | inr l ↦
        let e' : row_ids (filter (is_leasable now) rows) ≡ i ∷ rest = ground arith in
        ground (arith, acked-lt now later until i ids rest rows e' h)
  ]

  picked-lt :
      (now later until n i : ℕ) (ids : List ℕ) (rows picked : List (Row K P))
      → filter (is_leasable now) rows ≡ picked
      → i ∷ ids ≡ row_ids (take (suc n) picked)
      → depth_rows (
          update_by_ids
            (set_acked later)
            (i ∷ ids)
            (update_by_ids (set_leased until) (i ∷ ids) rows))
        < depth_rows rows
  picked-lt now later until n i ids rows [] p e = cc
  picked-lt now later until n i ids rows (r ∷ l) p e =
      let same : r.id ≡ i = cc in
      acked-lt now later until i (i ∷ ids) (row_ids l) rows (rw p (ap (λ k. k ∷ row_ids l) same))
        (ground arith)

  -- The same for the first n leasable rows.
  pub leased-lt :
      (now later until n i : ℕ) (ids : List ℕ) (rows : List (Row K P))
      → i ∷ ids ≡ first_ids now n rows
      → depth_rows (
          update_by_ids
            (set_acked later)
            (i ∷ ids)
            (update_by_ids (set_leased until) (i ∷ ids) rows))
        < depth_rows rows
  leased-lt now later until zero i ids rows e = cc
  leased-lt now later until (suc n) i ids rows e =
      picked-lt now later until n i ids rows (filter (is_leasable now) rows) refl e

  pub no_rows : (n : ℕ) (rows : List (Row K P)) → 0 < n → row_ids (take n rows) ≡ [] → rows ≡ []
  no_rows zero rows h e = elim h [ ]
  no_rows (suc n) [] h e = refl
  no_rows (suc n) (r ∷ rows) h e = cc

  pub items-le :
      {A : Type 0} (n : ℕ) (items : List (Item K A)) (rows : List (Row K P))
      → item_ids items ≡ row_ids (take n rows)
      → length items ≤ n
  items-le n items rows e =
      let ids : length (item_ids items) ≡ length (row_ids (take n rows)) = ap length e in
      omega (
        arith,
        ids,
        length-map (λ (x : Item K _). x.id) items,
        length-map (λ (r : Row K P). r.id) (take n rows),
        length-take n rows,
      )

module _ {A E : Type 0} (c : Codec A E) where
  pub All-Decodes-update :
      (set : Row Str E → Row Str E)
      → ((r : Row Str E) → (set r).payload ≡ r.payload)
      → (ids : List ℕ) (rows : List (Row Str E)) → All (Decodes c) rows
      → All (Decodes c) (update_by_ids set ids rows)
  unfolding update_by_ids
  All-Decodes-update set keeps ids [] h = tt
  All-Decodes-update set keeps ids (r ∷ rows) (h, hs) = elim (Bool-cases (elem r.id ids)) [
    | inl e ↦ rw e (rw (keeps r) h, All-Decodes-update set keeps ids rows hs)
    | inr e ↦ rw e (h, All-Decodes-update set keeps ids rows hs)
  ]

-- The row needs no lease at the time: it is acked, or leased until then or later.
abbrev pub Resting : {K P : Type 0} → ℕ → Row K P → Type 0
Resting now r =
    (r.state ≡ acked)
    ⊎ ((r.state ≡ leased) × (until : ℕ) × (r.leased_until ≡ some until) × (now ≤ until))

state-Resting :
    {K P : Type 0} (now : ℕ) (r : Row K P) (state : RowState) (until : Option ℕ)
    → r.state ≡ state
    → r.leased_until ≡ until
    → leasable_state now state until ≡ false
    → Resting now r
state-Resting now r acked until e f h = inl e
state-Resting now r leased (some until) e f h = inr (e, until, f, ground arith)
state-Resting now r leased none e f h = cc
state-Resting now r pending until e f h = cc

pub none_leasable-Resting :
    {K P : Type 0} (now : ℕ) (rows : List (Row K P))
    → filter (is_leasable now) rows ≡ []
    → All (Resting now) rows
none_leasable-Resting now [] h = tt
none_leasable-Resting now (r ∷ rows) h = elim (Bool-cases (is_leasable now r)) [
  | inl e ↦ ground arith
  | inr e ↦ (
    state-Resting now r r.state r.leased_until refl refl e,
    none_leasable-Resting now rows (ground (arith, e)),
  )
]
