-- ===== src/Queue/Sessions/Capped.antt =====
-- UpsertSessionEvents (internal/queue/sessions.go) on a table that stays within the cap: how many rows an upsert
-- adds, and that then the cap deletes none.
use desktop_client.Base.{
  ℕ, ◌+◌, ◌-◌, ◌≤◌, ◌≡◌, refl, ap, Bool, true, Str, contains, Option, none, some, List, [], ◌∷◌,
  arith, inl, inr, length, filter,
}
use desktop_client.Base.Results.{ok, Result-cases, or_fail}
use desktop_client.Api.{NormalizedEvent}
use desktop_client.Filter.{FloatOps}
use desktop_client.Queue.Table.Ops.{marshal_failed}
use desktop_client.Queue.Sessions.{
  SessionRow, SessionLease, upsert_row, update_by_key, update_by_keys,
}
use desktop_client.Queue.Sessions.Merge.{MergeLibrary, merge_session_events}
use desktop_client.Queue.Sessions.Upsert.{
  max_session_rows, SessionCodec, add_to_group, group_event, group_events, load_session_summary,
  upsert_session_group, upsert_groups, cap_sessions,
}

filter_all : {A : Type 0} (p : A → Bool) → ((x : A) → p x ≡ true) → (xs : List A) → filter p xs ≡ xs
filter_all p h [] = refl
filter_all p h (x ∷ xs) = rw (h x, filter_all p h xs) refl

module _ {P : Type 0} where
  pub cap_sessions_fits :
      (rows : List (SessionRow P)) → length rows ≤ max_session_rows → cap_sessions rows ≡ rows
  unfolding cap_sessions contains
  cap_sessions_fits rows h =
      let e : length rows - max_session_rows ≡ 0 = omega (arith, h) in
      rw e (filter_all _ (λ r. refl) rows)

  length-upsert_row :
      (id : Str) (payload : P) (updated now : ℕ) (rows : List (SessionRow P))
      → length (upsert_row id payload updated now rows) ≤ length rows + 1
  unfolding upsert_row
  length-upsert_row id payload updated now [] = omega arith
  length-upsert_row id payload updated now (r ∷ rows) =
      ground (arith, length-upsert_row id payload updated now rows)

  length-update_by_key :
      (set : SessionRow P → SessionRow P) (key : SessionLease) (rows : List (SessionRow P))
      → length (update_by_key set key rows) ≡ length rows
  unfolding update_by_key
  length-update_by_key set key [] = refl
  length-update_by_key set key (r ∷ rows) = ground (arith, length-update_by_key set key rows)

  pub length-update_by_keys :
      (set : SessionRow P → SessionRow P) (keys : List SessionLease) (rows : List (SessionRow P))
      → length (update_by_keys set keys rows) ≡ length rows
  unfolding update_by_keys
  length-update_by_keys set [] rows = refl
  length-update_by_keys set (key ∷ keys) rows = omega (
    arith,
    length-update_by_keys set keys (update_by_key set key rows),
    length-update_by_key set key rows,
  )

module _ {F : Type 0} (lib : MergeLibrary) where
  length-add_to_group :
      (id : Str) (ev : NormalizedEvent F) (groups : List (Str × List (NormalizedEvent F)))
      → length (add_to_group lib id ev groups) ≤ length groups + 1
  length-add_to_group id ev [] = omega arith
  length-add_to_group id ev ((key, events) ∷ rest) = ground (arith, length-add_to_group id ev rest)

  length-group_event :
      (id : Option Str) (ev : NormalizedEvent F) (groups : List (Str × List (NormalizedEvent F)))
      → length (group_event lib id ev groups) ≤ length groups + 1
  length-group_event none ev groups = omega arith
  length-group_event (some id) ev groups = ground (arith, length-add_to_group id ev groups)

  pub length-group_events :
      (groups : List (Str × List (NormalizedEvent F))) (events : List (NormalizedEvent F))
      → length (group_events lib groups events) ≤ length groups + length events
  unfolding group_events
  length-group_events groups [] = omega arith
  length-group_events groups (ev ∷ events) = omega (
    arith,
    length-group_events (group_event lib ev.session_id ev groups) events,
    length-group_event ev.session_id ev groups,
  )

module _ {F P : Type 0} (lib : MergeLibrary) (fl : FloatOps F) (c : SessionCodec F P) where
  -- A group that is merged is one upsert of its session.
  pub upsert_session_group-inv :
      (id : Str) (events : List (NormalizedEvent F)) (now : ℕ) (rows rows' : List (SessionRow P))
      → upsert_session_group lib fl c id events now rows ≡ ok rows'
      → (payload : P) × (updated : ℕ) × (rows' ≡ upsert_row id payload updated now rows)
  unfolding upsert_session_group
  upsert_session_group-inv id events now rows rows' h =
      elim (Result-cases (load_session_summary lib fl c id rows)) [
        | inl (e, failed) ↦ ground arith
        | inr (s, read) ↦
            let merged = merge_session_events lib fl id events now s in
            elim (Result-cases (or_fail (c.codec.marshal merged) marshal_failed)) [
              | inl (e, failed) ↦ ground arith
              | inr (payload, written) ↦ (payload, c.seconds merged.updated_at, ground arith)
            ]
      ]

  pub length-upsert_groups :
      (now : ℕ) (groups : List (Str × List (NormalizedEvent F))) (rows rows' : List (SessionRow P))
      → upsert_groups lib fl c now groups rows ≡ ok rows'
      → length rows' ≤ length rows + length groups
  unfolding upsert_groups
  length-upsert_groups now [] rows rows' h = ground arith
  length-upsert_groups now ((id, events) ∷ groups) rows rows' h =
      elim (Result-cases (upsert_session_group lib fl c id events now rows)) [
        | inl (e, failed) ↦ ground arith
        | inr (rows1, done) ↦
            let (payload, updated, same) = upsert_session_group-inv id events now rows rows1 done in
            let rest : upsert_groups lib fl c now groups rows1 ≡ ok rows' = ground arith in
            omega (
              arith,
              length-upsert_groups now groups rows1 rows' rest,
              ap length same,
              length-upsert_row id payload updated now rows,
            )
      ]
