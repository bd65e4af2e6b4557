-- ===== src/Queue/Table/EvictIdle.antt =====
-- An eviction loop that counts no deleted row has changed nothing.
use desktop_client.Base.{
  ℕ, zero, suc, ◌+◌, ◌≤◌, ◌≡◌, refl, Bool, List, [], ◌∷◌, inl, inr, arith, ◌==◌, length, filter,
  Bool-cases, length-filter-le, ==_iff,
}
use desktop_client.Queue.Table.{Row, delete_ids}
use desktop_client.Queue.Table.Ops.{evict_round, evict_loop, over_cap}

module _ {K P : Type 0} where
  filter-whole :
      (p : Row K P → Bool) (rows : List (Row K P))
      → length (filter p rows) ≡ length rows
      → filter p rows ≡ rows
  filter-whole p [] h = refl
  filter-whole p (r ∷ rows) h = elim (Bool-cases (p r)) [
    | inl e ↦ ground (arith, filter-whole p rows)
    | inr e ↦ ground (arith, length-filter-le p rows)
  ]

  module _ (size : List (Row K P) → ℕ) (max_rows max_bytes : ℕ) where
    pub evict_loop-le :
        (fuel : ℕ) (rows : List (Row K P)) (n : ℕ)
        → n ≤ (evict_loop size max_rows max_bytes fuel rows n).1
    unfolding evict_loop
    evict_loop-le zero rows n = omega arith
    evict_loop-le (suc fuel) rows n =
        let (left, deleted) = evict_round size max_rows max_bytes rows in
        elim (Bool-cases (over_cap size max_rows max_bytes rows)) [
          | inr e ↦ rw (e, evict_loop) (omega arith)
          | inl e ↦
              rw (e, evict_loop)
                (elim (Bool-cases (deleted == 0)) [
                  | inl d ↦ rw d (omega arith)
                  | inr d ↦ rw d (omega (arith, evict_loop-le fuel left (n + deleted)))
                ])
        ]

    round_whole :
        (rows : List (Row K P))
        → (evict_round size max_rows max_bytes rows).1 ≡ 0
        → (evict_round size max_rows max_bytes rows).0 ≡ rows
    unfolding evict_round delete_ids
    round_whole rows h = filter-whole _ rows (omega (arith, length-filter-le _ rows))

    -- A loop that counts no deleted row leaves the table as it was.
    pub evict_loop_idle :
        (fuel : ℕ) (rows : List (Row K P)) (n : ℕ)
        → (evict_loop size max_rows max_bytes fuel rows n).1 ≡ n
        → (evict_loop size max_rows max_bytes fuel rows n).0 ≡ rows
    unfolding evict_loop
    evict_loop_idle zero rows n = λ h. refl
    evict_loop_idle (suc fuel) rows n =
        let (left, deleted) = evict_round size max_rows max_bytes rows in
        elim (Bool-cases (over_cap size max_rows max_bytes rows)) [
          | inr e ↦ rw (e, evict_loop) (λ h. refl)
          | inl e ↦
              rw (e, evict_loop)
                (elim (Bool-cases (deleted == 0)) [
                  | inl d ↦ rw d (λ h. round_whole rows ((==_iff _ 0).0 d))
                  | inr d ↦
                      rw d (λ h. absurd (ground (arith, evict_loop-le fuel left (n + deleted))))
                ])
        ]
