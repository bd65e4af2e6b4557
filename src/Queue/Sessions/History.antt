-- ===== src/Queue/Sessions/History.antt =====
-- Histories of the table of sessions: what was not uploaded stays to be uploaded.
use desktop_client.Base.{
  ℕ, ◌+◌, ◌≤◌, ◌≡◌, refl, sym, ◌∙◌, Bool, false, not, Str, str_eq, str_eq_sound, List, [], ◌∷◌, map,
  arith, inl, inr, Bool-cases, length, length-filter-le,
}
use desktop_client.Base.Results.{Result, ok, err, Result-cases}
use desktop_client.Api.{NormalizedEvent}
use desktop_client.Filter.{FloatOps}
use desktop_client.Queue.Table.{prunable_state}
use desktop_client.Queue.Table.Ops.{Codec, Error}
use desktop_client.Queue.Sessions.{
  SessionRow, SessionLease, SessionItem, revised, upsert_row, session_leased, session_acked,
  session_nacked, ack_sessions, nack_sessions, prune_acked_sessions, lease_sessions_batch,
}
use desktop_client.Queue.Sessions.Merge.{MergeLibrary}
use desktop_client.Queue.Sessions.Upsert.{
  max_session_rows, SessionCodec, group_events, upsert_session_group, upsert_groups, upsert_all,
  upsert_session_events,
}
use desktop_client.Queue.Sessions.Outlives.{get_session-upsert, lease_sessions-inv}
use desktop_client.Queue.Sessions.Unsent.{
  settles, Unsent, get_session-id, get_session-upsert_other, get_session-filter,
  update_by_keys-Unsent, ack-Unsent,
}
use desktop_client.Queue.Sessions.Capped.{
  cap_sessions_fits, length-update_by_keys, length-group_events, upsert_session_group-inv,
  length-upsert_groups,
}

-- The calls that change the table, each with its time: UpsertSessionEvents, LeaseSessionsBatch, AckSessions,
-- NackSessions and PruneAckedSessions.
pub data Call (F : Type 0) : Type 0 where
  upserts : List (NormalizedEvent F) → ℕ → Call F
  leases : ℕ → ℕ → ℕ → Call F
  acks : ℕ → List SessionLease → Call F
  nacks : List SessionLease → Call F
  prunes : ℕ → Call F

module _ {A P : Type 0} where
  abbrev pub leased_rows :
      List (SessionRow P)
      → Result Error (List (SessionItem A) × List (SessionRow P))
      → List (SessionRow P)
  leased_rows rows (err e) = rows
  leased_rows rows (ok (items, rows')) = rows'

module _ {F P : Type 0} (lib : MergeLibrary) (fl : FloatOps F) (c : SessionCodec F P) where
  unfoldable pub step : List (SessionRow P) → Call F → List (SessionRow P)
  unfolding upsert_session_events
  step rows (upserts events now) = (upsert_session_events lib fl c events now rows).0
  step rows (leases now n dur) = leased_rows rows (lease_sessions_batch c.codec now n dur rows)
  step rows (acks now keys) = ack_sessions now keys rows
  step rows (nacks keys) = nack_sessions keys rows
  step rows (prunes cutoff) = (prune_acked_sessions cutoff rows).0

  unfoldable pub run : List (SessionRow P) → List (Call F) → List (SessionRow P)
  unfolding step
  run rows [] = rows
  run rows (call ∷ calls) = run (step rows call) calls

-- The events of the upserts of a history, which bound the rows that it can add.
abbrev pub new_events : {F : Type 0} → List (Call F) → ℕ
new_events [] = 0
new_events (upserts events now ∷ calls) = length events + new_events calls
new_events (_ ∷ calls) = new_events calls

abbrev pub settles_in : {F : Type 0} → Str → ℕ → Call F → Bool
settles_in id v (acks now keys) = settles id v keys
settles_in id v _ = false

-- No call acks the session with the revision `v` or a later one.
abbrev pub NeverSettled : {F : Type 0} → Str → ℕ → List (Call F) → Type 0
NeverSettled id v [] = Unit
NeverSettled id v (call ∷ calls) = (settles_in id v call ≡ false) × NeverSettled id v calls

module _ {P : Type 0} where
  upsert-Unsent :
      (id other : Str) (payload : P) (updated now v : ℕ) (rows : List (SessionRow P))
      → Unsent id v rows
      → Unsent id v (upsert_row other payload updated now rows)
  upsert-Unsent id other payload updated now v rows h =
      elim (Bool-cases (str_eq h.row.session_id other)) [
        | inl e ↦
            let named = str_eq_sound h.row.session_id id (get_session-id id rows h.row h.found) in
            let same : other ≡ id = sym (str_eq_sound h.row.session_id other e) ∙ named in
            record {
              row = revised payload updated h.row;
              found = rw same (get_session-upsert id payload updated now rows h.row h.found);
              recent = omega (arith, h.recent);
              unacked = refl;
            }
        | inr e ↦ record {
          row = h.row;
          found = get_session-upsert_other id other payload updated now rows h.row h.found e;
          recent = h.recent;
          unacked = h.unacked;
        }
      ]

module _ {A P : Type 0} (c : Codec A P) where
  lease-Unsent :
      (now n dur : ℕ) (id : Str) (v : ℕ) (rows : List (SessionRow P))
      → Unsent id v rows
      → Unsent id v (leased_rows rows (lease_sessions_batch c now n dur rows))
  lease-Unsent now n dur id v rows h = elim (Result-cases (lease_sessions_batch c now n dur rows)) [
    | inl (e, failed) ↦ rw failed h
    | inr ((items, rows'), done) ↦
        rw (done, (lease_sessions-inv c now n dur rows rows' items done).1)
          (update_by_keys-Unsent (session_leased (now + dur)) (λ r. refl) (λ r. refl) (λ r. refl)
            (map (λ i. i.lease) items) id v rows h)
  ]

  length-leased :
      (now n dur : ℕ) (rows : List (SessionRow P))
      → length (leased_rows rows (lease_sessions_batch c now n dur rows)) ≡ length rows
  length-leased now n dur rows = elim (Result-cases (lease_sessions_batch c now n dur rows)) [
    | inl (e, failed) ↦ rw failed refl
    | inr ((items, rows'), done) ↦
        rw (done, (lease_sessions-inv c now n dur rows rows' items done).1)
          (length-update_by_keys (session_leased (now + dur)) (map (λ i. i.lease) items) rows)
  ]

module _ {F P : Type 0} (lib : MergeLibrary) (fl : FloatOps F) (c : SessionCodec F P) where
  groups-Unsent :
      (now : ℕ) (groups : List (Str × List (NormalizedEvent F))) (id : Str) (v : ℕ)
      (rows rows' : List (SessionRow P))
      → upsert_groups lib fl c now groups rows ≡ ok rows'
      → Unsent id v rows
      → Unsent id v rows'
  unfolding upsert_groups
  groups-Unsent now [] id v rows rows' e h =
      let same : rows ≡ rows' = ground arith in rw (sym same) h
  groups-Unsent now ((other, events) ∷ groups) id v rows rows' e h =
      elim (Result-cases (upsert_session_group lib fl c other events now rows)) [
        | inl (x, failed) ↦ ground arith
        | inr (rows1, done) ↦
            let (payload, updated, same) =
              upsert_session_group-inv lib fl c other events now rows rows1 done in
            let rest : upsert_groups lib fl c now groups rows1 ≡ ok rows' = ground arith in
            groups-Unsent now groups id v rows1 rows' rest
              (rw same (upsert-Unsent id other payload updated now v rows h))
      ]

  -- An upsert of events that keep the table within the cap.
  upsert_all-Unsent :
      (now : ℕ) (groups : List (Str × List (NormalizedEvent F))) (id : Str) (v : ℕ)
      (rows : List (SessionRow P))
      → length rows + length groups ≤ max_session_rows
      → Unsent id v rows
      → Unsent id v (upsert_all lib fl c now rows groups).0
        × (length (upsert_all lib fl c now rows groups).0 ≤ length rows + length groups)
  upsert_all-Unsent now [] id v rows fits h = (h, omega arith)
  upsert_all-Unsent now (g ∷ gs) id v rows fits h =
      elim (Result-cases (upsert_groups lib fl c now (g ∷ gs) rows)) [
        | inl (x, failed) ↦ rw failed (h, omega arith)
        | inr (rows', done) ↦
            let few = length-upsert_groups lib fl c now (g ∷ gs) rows rows' done in
            rw (done, cap_sessions_fits rows' (omega (arith, few, fits)))
              (groups-Unsent now (g ∷ gs) id v rows rows' done h, few)
      ]

  -- What a call leaves of the session, and how many rows.
  step-Unsent :
      (rows : List (SessionRow P)) (call : Call F) (calls : List (Call F)) (id : Str) (v : ℕ)
      → settles_in id v call ≡ false
      → length rows + new_events (call ∷ calls) ≤ max_session_rows
      → Unsent id v rows
      → Unsent id v (step lib fl c rows call)
        × (length (step lib fl c rows call) + new_events calls ≤ max_session_rows)
  unfolding step ack_sessions nack_sessions prune_acked_sessions upsert_session_events
  step-Unsent rows (upserts events now) calls id v out fits h =
      let groups = group_events lib [] events in
      let few : length groups ≤ length events = omega (arith, length-group_events lib [] events) in
      let (kept, within) = upsert_all-Unsent now groups id v rows (omega (arith, few, fits)) h in
      (kept, omega (arith, few, fits, within))
  step-Unsent rows (leases now n dur) calls id v out fits h = (
    lease-Unsent c.codec now n dur id v rows h,
    omega (arith, fits, length-leased c.codec now n dur rows),
  )
  step-Unsent rows (acks now keys) calls id v out fits h = (
    ack-Unsent now keys id v rows out h,
    omega (arith, fits, length-update_by_keys (session_acked now) keys rows),
  )
  step-Unsent rows (nacks keys) calls id v out fits h = (
    update_by_keys-Unsent session_nacked (λ r. refl) (λ r. refl) (λ r. refl) keys id v rows h,
    omega (arith, fits, length-update_by_keys session_nacked keys rows),
  )
  step-Unsent rows (prunes cutoff) calls id v out fits h = (
    record {
      row = h.row;
      found =
          get_session-filter id (λ r. not (prunable_state cutoff r.state r.acked_at)) rows h.row
            h.found (let unacked = h.unacked in ground (arith, unacked));
      recent = h.recent;
      unacked = h.unacked;
    },
    omega
        (arith, fits, length-filter-le (λ r. not (prunable_state cutoff r.state r.acked_at)) rows),
  )

  -- Through every history of upserts of events, leases, acks, nacks and prunes in which no ack names the
  -- session with the revision `v` or a later one, a row of the session that is not acked and has the
  -- revision `v` or a later one stays in the table, with a revision that is not below `v`, provided that
  -- the rows and the events of the upserts are together no more than the cap of 10000 rows.
  pub run-Unsent :
      (rows : List (SessionRow P)) (calls : List (Call F)) (id : Str) (v : ℕ)
      → NeverSettled id v calls
      → length rows + new_events calls ≤ 10000
      → Unsent id v rows
      → Unsent id v (run lib fl c rows calls)
  unfolding run
  run-Unsent rows [] id v out fits h = h
  run-Unsent rows (call ∷ calls) id v out fits h =
      let (kept, within) = step-Unsent rows call calls id v out.0 fits h in
      run-Unsent (step lib fl c rows call) calls id v out.1 within kept
