-- ===== src/Queue/Sessions/Oldest.antt =====
-- leaseSessionItems (internal/queue/sessions.go): which sessions a lease hands out, and what it makes of the
-- rows of the table.
use mathlib.Core.List.{Permᴰ}
use mathlib.Core.List.Permᴰ
use desktop_client.Base.{
  ℕ, zero, suc, ◌+◌, ◌≤◌, ◌≡◌, refl, ap, Str, some, List, [], ◌∷◌, ◌++◌, map, arith, inl, inr,
  length, take, drop, filter, All, Bool-cases, ltb, min, length-map, length-take,
}
use desktop_client.Base.Results.{ok}
use desktop_client.Queue.Table.Ops.{Codec}
use desktop_client.Queue.Sessions.{
  SessionRow, SessionItem, session_leasable, leasable_sessions, insert_by_update, sort_by_update,
  session_leased, get_session, lease_sessions_batch,
}
use desktop_client.Queue.Sessions.Outlives.{
  key_of, handed_out, SetIfNamed, any_key-SetIfNamed, get_session-update_by_keys,
  lease_sessions-inv, scan_session_items-ok,
}

module _ {P : Type 0} where
  -- Every row of the second list was updated as late as the row, or later.
  abbrev pub UpdatedBefore : List (SessionRow P) → SessionRow P → Type 0
  UpdatedBefore rows r = All (λ s. r.updated_at ≤ s.updated_at) rows

  -- The rows stand in the order of their updates, the one updated longest ago first.
  abbrev pub OldestFirst : List (SessionRow P) → Type 0
  OldestFirst [] = Unit
  OldestFirst (r ∷ rows) = UpdatedBefore rows r × OldestFirst rows

  insert-Perm :
      (r : SessionRow P) (rows : List (SessionRow P)) → Permᴰ (insert_by_update r rows) (r ∷ rows)
  unfolding insert_by_update
  insert-Perm r [] = Permᴰ.refl _
  insert-Perm r (s ∷ rows) = elim (Bool-cases (ltb s.updated_at r.updated_at)) [
    | inl e ↦ rw e (Permᴰ.trans (Permᴰ.cons refl (insert-Perm r rows)) (Permᴰ.swap refl refl))
    | inr e ↦ rw e (Permᴰ.refl _)
  ]

  sort-Perm : (rows : List (SessionRow P)) → Permᴰ (sort_by_update rows) rows
  unfolding sort_by_update
  sort-Perm [] = Permᴰ.nil
  sort-Perm (r ∷ rows) =
      Permᴰ.trans (insert-Perm r (sort_by_update rows)) (Permᴰ.cons refl (sort-Perm rows))

  UpdatedBefore-trans :
      (r s : SessionRow P) (rows : List (SessionRow P))
      → r.updated_at ≤ s.updated_at
      → UpdatedBefore rows s
      → UpdatedBefore rows r
  UpdatedBefore-trans r s [] h a = tt
  UpdatedBefore-trans r s (t ∷ rows) h (here, more) =
      (omega (arith, h, here), UpdatedBefore-trans r s rows h more)

  insert-UpdatedBefore :
      (r s : SessionRow P) (rows : List (SessionRow P))
      → s.updated_at ≤ r.updated_at
      → UpdatedBefore rows s
      → UpdatedBefore (insert_by_update r rows) s
  unfolding insert_by_update
  insert-UpdatedBefore r s [] h a = (h, tt)
  insert-UpdatedBefore r s (t ∷ rows) h (here, more) =
      elim (Bool-cases (ltb t.updated_at r.updated_at)) [
        | inl e ↦ rw e (here, insert-UpdatedBefore r s rows h more)
        | inr e ↦ rw e (h, (here, more))
      ]

  insert-OldestFirst :
      (r : SessionRow P) (rows : List (SessionRow P))
      → OldestFirst rows
      → OldestFirst (insert_by_update r rows)
  unfolding insert_by_update
  insert-OldestFirst r [] o = (tt, tt)
  insert-OldestFirst r (s ∷ rows) (before, o) = elim (Bool-cases (ltb s.updated_at r.updated_at)) [
    | inl e ↦
        let le : s.updated_at ≤ r.updated_at = ground (arith, e) in
        rw e (insert-UpdatedBefore r s rows le before, insert-OldestFirst r rows o)
    | inr e ↦
        let le : r.updated_at ≤ s.updated_at = ground (arith, e) in
        rw e ((le, UpdatedBefore-trans r s rows le before), (before, o))
  ]

  sort-OldestFirst : (rows : List (SessionRow P)) → OldestFirst (sort_by_update rows)
  unfolding sort_by_update
  sort-OldestFirst [] = tt
  sort-OldestFirst (r ∷ rows) = insert-OldestFirst r (sort_by_update rows) (sort-OldestFirst rows)

  UpdatedBefore-take :
      (r : SessionRow P) (n : ℕ) (rows : List (SessionRow P))
      → UpdatedBefore rows r
      → UpdatedBefore (take n rows) r × UpdatedBefore (drop n rows) r
  UpdatedBefore-take r zero rows a = (tt, a)
  UpdatedBefore-take r (suc n) [] a = (tt, tt)
  UpdatedBefore-take r (suc n) (s ∷ rows) (here, more) =
      let (some_of, others) = UpdatedBefore-take r n rows more in ((here, some_of), others)

  take-OldestFirst :
      (n : ℕ) (rows : List (SessionRow P))
      → OldestFirst rows
      → OldestFirst (take n rows) × All (UpdatedBefore (drop n rows)) (take n rows)
  take-OldestFirst zero rows o = (tt, tt)
  take-OldestFirst (suc n) [] o = (tt, tt)
  take-OldestFirst (suc n) (r ∷ rows) (before, o) =
      let (ordered, older) = take-OldestFirst n rows o in
      let (some_of, others) = UpdatedBefore-take r n rows before in
      ((some_of, ordered), (others, older))

take-drop : {A : Type 0} (n : ℕ) (xs : List A) → take n xs ++ drop n xs ≡ xs
take-drop zero xs = refl
take-drop (suc n) [] = refl
take-drop (suc n) (x ∷ xs) = ap (λ ys. x ∷ ys) (take-drop n xs)

module _ {P : Type 0} where
  length-insert :
      (r : SessionRow P) (rows : List (SessionRow P))
      → length (insert_by_update r rows) ≡ length rows + 1
  unfolding insert_by_update
  length-insert r [] = refl
  length-insert r (s ∷ rows) = ground (arith, length-insert r rows)

  length-sort : (rows : List (SessionRow P)) → length (sort_by_update rows) ≡ length rows
  unfolding sort_by_update
  length-sort [] = refl
  length-sort (r ∷ rows) = omega (arith, length-insert r (sort_by_update rows), length-sort rows)

module _ {A P : Type 0} (c : Codec A P) where
  length-keys :
      (items : List (SessionItem A)) (taken : List (SessionRow P))
      → map (λ i. i.lease) items ≡ map key_of taken
      → length items ≡ length taken
  length-keys items taken e =
      let lengths : length (map (λ (i : SessionItem A). i.lease) items)
          ≡ length (map key_of taken) =
        ap length e in
      omega
        (arith, lengths, length-map (λ (i : SessionItem A). i.lease) items, length-map key_of taken)

  -- A lease of sessions that answers hands out leasable sessions by their revisions, those that were updated
  -- longest ago, in that order: the leasable rows are those handed out and some others, none of which was
  -- updated earlier than one handed out. There are as many as were asked for, as one send takes (500), or as
  -- there are leasable rows, whichever is fewest. The row of any session is leased until the end of the lease
  -- if it was handed out, and unchanged if not.
  pub lease_sessions_takes :
      (now n dur : ℕ) (rows rows' : List (SessionRow P)) (items : List (SessionItem A)) (id : Str)
      (r : SessionRow P)
      → lease_sessions_batch c now n dur rows ≡ ok (items, rows')
      → get_session id rows ≡ some r
      → (taken : List (SessionRow P)) × (others : List (SessionRow P)) × (map (λ i. i.lease) items
          ≡ map key_of taken)
        × Permᴰ (taken ++ others) (filter (session_leasable now) rows)
        × OldestFirst taken
        × All (UpdatedBefore others) taken
        × (length items ≡ min (min n 500) (length (filter (session_leasable now) rows)))
        × SetIfNamed (map (λ i. i.lease) items) r (handed_out (now + dur) r) (get_session id rows')
  unfolding leasable_sessions
  lease_sessions_takes now n dur rows rows' items id r h found =
      let (read, set) = lease_sessions-inv c now n dur rows rows' items h in
      let leasable = filter (session_leasable now) rows in
      let sorted = sort_by_update leasable in
      let limit = min n 500 in
      let taken = take limit sorted in
      let keys = scan_session_items-ok c taken items read in
      let (ordered, older) = take-OldestFirst limit sorted (sort-OldestFirst leasable) in
      let many = length-keys items taken keys in
      (
        taken,
        drop limit sorted,
        keys,
        rw (take-drop limit sorted) (sort-Perm leasable),
        ordered,
        older,
        omega (arith, many, length-take limit sorted, length-sort leasable),
        rw set (
            any_key-SetIfNamed (map (λ i. i.lease) items) r (handed_out (now + dur) r) _ (
              get_session-update_by_keys (session_leased (now + dur)) (λ s. refl) (λ s. refl)
                (λ s. refl) (map (λ i. i.lease) items) id rows r found)),
      )
