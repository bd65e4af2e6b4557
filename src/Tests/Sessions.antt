-- ===== src/Tests/Sessions.antt =====
-- The theorems on the sessions, on a table of two.
use mathlib.Core.List.{Permᴰ}
use desktop_client.Base.{
  ℕ, ◌+◌, ◌≡◌, refl, arith, str_eq, lit, none, some, List, [], ◌∷◌, ◌++◌, map, min, length, true,
  All, filter,
}
use desktop_client.Base.Results.{ok}
use desktop_client.Queue.Table.{pending, leased}
use desktop_client.Queue.Table.Ops.{Codec}
use desktop_client.Queue.Sessions.{
  SessionRow, SessionLease, SessionItem, revised, upsert_row, session_leasable, leasable_sessions,
  sort_by_update, insert_by_update, update_by_key, update_by_keys, ack_sessions, nack_sessions,
  get_session, scan_session_items, lease_sessions_batch,
}
use desktop_client.Queue.Sessions.Upsert.{SessionCodec, empty_summary}
use desktop_client.Queue.Sessions.History.{
  Call, upserts, leases, acks, prunes, run, NeverSettled, run-Unsent,
}
use desktop_client.Queue.Sessions.Unsent.{Unsent}
use desktop_client.Queue.Sessions.Outlives.{
  upsert-outlives, ack_sessions_exact, key_of, uploaded, handed_out, SetIfNamed,
}
use desktop_client.Queue.Sessions.Oldest.{UpdatedBefore, OldestFirst, lease_sessions_takes}
use desktop_client.Tests.Filters.{event, floats}
use desktop_client.Tests.Merges.{merge_library}

abbrev codec : Codec ℕ ℕ
codec = record { marshal = λ n. some n; unmarshal = λ p. some p }

abbrev running : SessionRow ℕ
running = record {
  session_id = lit "s";
  revision = 2;
  payload = 7;
  updated_at = 50;
  created_at = 10;
  attempts = 0;
  state = leased;
  leased_until = some 90;
  acked_at = none;
}

abbrev waiting : SessionRow ℕ
waiting = record {
  session_id = lit "t";
  revision = 1;
  payload = 8;
  updated_at = 40;
  created_at = 11;
  attempts = 0;
  state = pending;
  leased_until = none;
  acked_at = none;
}

abbrev table : List (SessionRow ℕ)
table = running ∷ waiting ∷ []

abbrev in_flight : SessionLease
in_flight = record { session_id = lit "s"; revision = 2 }

found : get_session (lit "s") table ≡ some running
unfolding get_session str_eq
found = refl

upsert-outlives_example :
    (get_session (lit "s") (ack_sessions 70 (in_flight ∷ []) (upsert_row (lit "s") 9 60 60 table))
      ≡ some (revised 9 60 running))
    × (get_session (lit "s") (nack_sessions (in_flight ∷ []) (upsert_row (lit "s") 9 60 60 table))
        ≡ some (revised 9 60 running))
    × (session_leasable 70 (revised 9 60 running) ≡ true)
upsert-outlives_example =
    upsert-outlives (lit "s") 9 60 60 70 70 (in_flight ∷ []) table running found (omega arith, tt)

ack_sessions_exact_example :
    SetIfNamed
      (in_flight ∷ [])
      running
      (uploaded 70 running)
      (get_session (lit "s") (ack_sessions 70 (in_flight ∷ []) table))
ack_sessions_exact_example = ack_sessions_exact 70 (in_flight ∷ []) (lit "s") table running found

-- Both sessions are leasable at 100, and a lease of one takes the older.
abbrev item_t : SessionItem ℕ
item_t = record { lease = record { session_id = lit "t"; revision = 1 }; summary = 8; attempts = 0 }

abbrev leased_table : List (SessionRow ℕ)
leased_table = running ∷ handed_out 130 waiting ∷ []

leased_t : lease_sessions_batch codec 100 1 30 table ≡ ok (item_t ∷ [], leased_table)
unfolding lease_sessions_batch scan_session_items leasable_sessions sort_by_update insert_by_update
    update_by_keys update_by_key str_eq
leased_t = refl

lease_sessions_takes_example :
    (taken : List (SessionRow ℕ)) × (others : List (SessionRow ℕ)) × (map
        (λ i. i.lease)
        (item_t ∷ [])
      ≡ map key_of taken)
    × Permᴰ (taken ++ others) (filter (session_leasable 100) table)
    × OldestFirst taken
    × All (UpdatedBefore others) taken
    × (length (item_t ∷ []) ≡ min (min 1 500) (length (filter (session_leasable 100) table)))
    × SetIfNamed
        (map (λ i. i.lease) (item_t ∷ []))
        running
        (handed_out (100 + 30) running)
        (get_session (lit "s") leased_table)
lease_sessions_takes_example =
    lease_sessions_takes codec 100 1 30 table leased_table (item_t ∷ []) (lit "s") running leased_t
      found

-- A codec that keeps the input tokens of a summary.
abbrev summary_codec : SessionCodec ℕ ℕ
summary_codec = record {
  codec = record {
    marshal = λ s. some s.input_tokens;
    unmarshal = λ n. some (record empty_summary { input_tokens = n });
  };
  seconds = λ t. 60;
}

-- A lease, an ack of the revision in flight, an upsert of an event of another session, and a prune.
abbrev history : List (Call ℕ)
history =
    leases 100 5 30
    ∷ acks 110 (in_flight ∷ [])
    ∷ upserts (record (event "codex.sse_event" 7) { session_id = some (lit "t") } ∷ []) 120
    ∷ prunes 200
    ∷ []

abbrev updated_table : List (SessionRow ℕ)
updated_table = revised 9 60 running ∷ waiting ∷ []

session-Unsent : Unsent (lit "s") 3 updated_table
unfolding get_session str_eq
session-Unsent = record {
  row = revised 9 60 running;
  found = refl;
  recent = omega arith;
  unacked = refl;
}

never_settled : NeverSettled (lit "s") 3 history
unfolding str_eq
never_settled = (refl, (refl, (refl, (refl, tt))))

run-Unsent_example :
    Unsent (lit "s") 3 (run merge_library floats summary_codec updated_table history)
run-Unsent_example =
    run-Unsent merge_library floats summary_codec updated_table history (lit "s") 3 never_settled
      (omega arith) session-Unsent
