-- ===== src/Queue/Table/EvictLoop.antt =====
-- The eviction loop (evictIfNeeded, evictMetricsIfNeeded): it ends within the caps or with an empty
-- table, and what it takes of the rows still to be delivered are the oldest, after all the others.
use desktop_client.Base.{
  ℕ, zero, suc, ◌+◌, ◌-◌, ◌<◌, ◌≡◌, refl, ap, ◌∙◌, Bool, false, List, [], ◌∷◌, ◌⊎◌, inl, inr, arith,
  ◌==◌, length, filter, Bool-cases, min, drop, drop-drop, drop-nil, drop_all, nil_of_length, ==_iff,
}
use desktop_client.Queue.Table.{Row, is_acked}
use desktop_client.Queue.Table.Ops.{evict_target, evict_round, evict_loop, evict_rows, over_cap}
use desktop_client.Queue.Table.Order.{Ascending}
use desktop_client.Queue.Table.Eviction.{
  drop_first, is_unacked, evict_first, drop_first-Ascending, filter-drop_first, delete-victims,
  length-delete-victims,
}

evict_target-pos : (rows max_rows : ℕ) → 0 < evict_target rows max_rows
unfolding evict_target
evict_target-pos rows max_rows = ground arith

module _ {K P : Type 0} where
  filter-drop_first_self :
      (p : Row K P → Bool) (m : ℕ) (rows : List (Row K P))
      → filter p (drop_first p m rows) ≡ drop m (filter p rows)
  unfolding drop_first
  filter-drop_first_self p zero rows = refl
  filter-drop_first_self p (suc m) [] = refl
  filter-drop_first_self p (suc m) (r ∷ rows) = elim (Bool-cases (p r)) [
    | inl e ↦ ground (arith, filter-drop_first_self p m rows)
    | inr e ↦ ground (arith, filter-drop_first_self p (suc m) rows)
  ]

  -- Of the rows still to be delivered the `lost` oldest are gone, and if any is, no delivered row is left.
  pub record EvictsInOrder (rows left : List (Row K P)) : Type 0 where
    pub lost : ℕ
    pub oldest : filter is_unacked left ≡ drop lost (filter is_unacked rows)
    pub last_resort : (lost ≡ 0) ⊎ (filter is_acked left ≡ [])
    pub acked_lost : ℕ
    pub acked_oldest : filter is_acked left ≡ drop acked_lost (filter is_acked rows)

  EvictsInOrder-refl : (rows : List (Row K P)) → EvictsInOrder rows rows
  EvictsInOrder-refl rows = record {
    lost = 0;
    oldest = refl;
    last_resort = inl refl;
    acked_lost = 0;
    acked_oldest = refl;
  }

  EvictsInOrder-trans :
      (a b c : List (Row K P)) → EvictsInOrder a b → EvictsInOrder b c → EvictsInOrder a c
  EvictsInOrder-trans a b c h k = record {
    lost = h.lost + k.lost;
    oldest = k.oldest ∙ ap (drop k.lost) h.oldest ∙ drop-drop k.lost h.lost (filter is_unacked a);
    last_resort = resort h.last_resort k.last_resort;
    acked_lost = h.acked_lost + k.acked_lost;
    acked_oldest =
        k.acked_oldest
        ∙ ap (drop k.acked_lost) h.acked_oldest
        ∙ drop-drop k.acked_lost h.acked_lost (filter is_acked a);
  }
    where
      resort :
          (h.lost ≡ 0) ⊎ (filter is_acked b ≡ [])
          → (k.lost ≡ 0) ⊎ (filter is_acked c ≡ [])
          → (h.lost + k.lost ≡ 0) ⊎ (filter is_acked c ≡ [])
      resort (inl x) (inl y) = inl (omega arith)
      resort x (inr y) = inr y
      resort (inr x) (inl y) =
          inr (k.acked_oldest ∙ ap (drop k.acked_lost) x ∙ drop-nil k.acked_lost)

  evict_first-EvictsInOrder :
      (n : ℕ) (rows : List (Row K P)) → EvictsInOrder rows (evict_first n rows)
  evict_first-EvictsInOrder n rows =
      let m = n - length (filter is_acked rows) in
      let once = drop_first is_acked n rows in
      let un =
        filter-drop_first_self is_unacked m once
        ∙ ap (drop m) (filter-drop_first is_acked is_unacked (λ r e. rw e) n rows) in
      let ac =
        filter-drop_first is_unacked is_acked (λ r e. ground arith) m once
        ∙ filter-drop_first_self is_acked n rows in
      record {
        lost = m;
        oldest = un;
        last_resort = elim (Bool-cases (m == 0)) [
          | inl e ↦ inl ((==_iff m 0).0 e)
          | inr e ↦ inr (ac ∙ drop_all n (filter is_acked rows) (ground arith))
        ];
        acked_lost = n;
        acked_oldest = ac;
      }

module _ {K P : Type 0} (size : List (Row K P) → ℕ) (max_rows max_bytes : ℕ) where
  -- What the loop leaves: the caps are kept or nothing is left, the count is right, the order is kept.
  pub record Settles (rows left : List (Row K P)) (before after : ℕ) : Type 0 where
    pub fits : (over_cap size max_rows max_bytes left ≡ false) ⊎ (left ≡ [])
    pub counted : after + length left ≡ before + length rows
    pub ascending : Ascending 0 left
    pub in_order : EvictsInOrder rows left

  round_left :
      (rows : List (Row K P))
      → Ascending 0 rows
      → let left = (evict_round size max_rows max_bytes rows).0 in
        EvictsInOrder rows left
        × Ascending 0 left
        × (length left ≡ length rows - min (evict_target (length rows) max_rows) (length rows))
        × ((evict_round size max_rows max_bytes rows).1 ≡ length rows - length left)
  unfolding evict_round
  round_left rows a =
      let n = evict_target (length rows) max_rows in
      let e = delete-victims n rows a in
      (
        rw e (evict_first-EvictsInOrder n rows),
        rw e (drop_first-Ascending is_unacked _ 0 _ (drop_first-Ascending is_acked n 0 rows a)),
        length-delete-victims n rows a,
        refl,
      )

  evict_loop-Settles :
      (fuel : ℕ) (rows : List (Row K P)) (n : ℕ)
      → length rows < fuel
      → Ascending 0 rows
      → let (left, m) = evict_loop size max_rows max_bytes fuel rows n in Settles rows left n m
  unfolding evict_loop
  evict_loop-Settles zero rows n h a = elim h [ ]
  evict_loop-Settles (suc fuel) rows n h a =
      elim (Bool-cases (over_cap size max_rows max_bytes rows)) [
        | inr e ↦
            rw (e, evict_loop)
              (record {
                fits = inl e;
                counted = refl;
                ascending = a;
                in_order = EvictsInOrder-refl rows;
              })
        | inl e ↦
            rw (e, evict_loop)
              (elim (Bool-cases ((evict_round size max_rows max_bytes rows).1 == 0)) [
                | inl none_deleted ↦
                    let empty = nil_of_length left (
                      omega (
                        arith,
                        (==_iff _ 0).0 none_deleted,
                        facts,
                        evict_target-pos (length rows) max_rows,
                      )) in
                    rw none_deleted (record {
                      fits = inr empty;
                      counted = omega (
                        arith,
                        (==_iff _ 0).0 none_deleted,
                        facts,
                        evict_target-pos (length rows) max_rows,
                      );
                      ascending = facts.1;
                      in_order = facts.0;
                    })
                | inr deleted ↦
                    let rest =
                      evict_loop-Settles fuel left
                        (n + (evict_round size max_rows max_bytes rows).1)
                        (ground (arith, facts.2, facts.3)) facts.1 in
                    rw deleted (record {
                      fits = rest.fits;
                      counted = omega (arith, rest.counted, facts.2, facts.3);
                      ascending = rest.ascending;
                      in_order = EvictsInOrder-trans rows left _ facts.0 rest.in_order;
                    })
              ])
      ]
    where
      left : List (Row K P)
      left = (evict_round size max_rows max_bytes rows).0

      facts :
          EvictsInOrder rows left
          × Ascending 0 left
          × (length left ≡ length rows - min (evict_target (length rows) max_rows) (length rows))
          × ((evict_round size max_rows max_bytes rows).1 ≡ length rows - length left)
      facts = round_left rows a

  -- One round for each row, and one, are enough.
  pub evict_rows-Settles :
      (rows : List (Row K P))
      → Ascending 0 rows
      → Settles rows
          (evict_rows size max_rows max_bytes rows).0
          0
          (evict_rows size max_rows max_bytes rows).1
  unfolding evict_rows
  evict_rows-Settles rows a = evict_loop-Settles (length rows + 1) rows 0 (omega arith) a
