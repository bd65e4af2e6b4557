-- ===== src/Queue/Sessions/Unsent.antt =====
-- A session that is not uploaded, and what the changes of other rows and revisions leave of it.
use desktop_client.Base.{
  ℕ, ◌≤◌, ◌≡◌, refl, sym, ◌∙◌, Bool, true, false, not, ◌&&◌, ◌||◌, Str, str_eq, str_eq_sound, some,
  List, [], ◌∷◌, arith, inl, inr, Bool-cases, ltb, filter,
}
use desktop_client.Queue.Table.{is_acked_state}
use desktop_client.Queue.Sessions.{
  SessionRow, SessionLease, upsert_row, has_key, update_by_key, update_by_keys, session_acked,
  get_session,
}
use desktop_client.Queue.Sessions.Outlives.{KeepsId, get_session-update_by_key}

-- A key of the session with the revision `v` or a later one.
abbrev pub settles : Str → ℕ → List SessionLease → Bool
settles id v [] = false
settles id v (key ∷ keys) =
    (str_eq key.session_id id && not (ltb key.revision v)) || settles id v keys

-- The session has a row that is not acked, of the revision `v` or a later one.
pub record Unsent {P : Type 0} (id : Str) (v : ℕ) (rows : List (SessionRow P)) : Type 0 where
  pub row : SessionRow P
  pub found : get_session id rows ≡ some row
  pub recent : v ≤ row.revision
  pub unacked : is_acked_state row.state ≡ false

module _ {P : Type 0} where
  pub get_session-id :
      (id : Str) (rows : List (SessionRow P)) (r : SessionRow P)
      → get_session id rows ≡ some r
      → str_eq r.session_id id ≡ true
  unfolding get_session
  get_session-id id [] r h = cc
  get_session-id id (s ∷ rows) r h = ground (arith, get_session-id id rows r)

  pub get_session-upsert_other :
      (id other : Str) (payload : P) (updated now : ℕ) (rows : List (SessionRow P))
      (r : SessionRow P)
      → get_session id rows ≡ some r
      → str_eq r.session_id other ≡ false
      → get_session id (upsert_row other payload updated now rows) ≡ some r
  unfolding get_session upsert_row
  get_session-upsert_other id other payload updated now [] r h e = cc
  get_session-upsert_other id other payload updated now (s ∷ rows) r h e =
      ground (arith, get_session-upsert_other id other payload updated now rows r)

  pub get_session-filter :
      (id : Str) (p : SessionRow P → Bool) (rows : List (SessionRow P)) (r : SessionRow P)
      → get_session id rows ≡ some r
      → p r ≡ true
      → get_session id (filter p rows) ≡ some r
  unfolding get_session
  get_session-filter id p [] r h e = cc
  get_session-filter id p (s ∷ rows) r h e = ground (arith, get_session-filter id p rows r)

  -- An update by keys whose change leaves the id, the revision and the missing ack.
  pub update_by_keys-Unsent :
      (set : SessionRow P → SessionRow P)
      → KeepsId set
      → ((r : SessionRow P) → (set r).revision ≡ r.revision)
      → ((r : SessionRow P) → is_acked_state (set r).state ≡ false)
      → (keys : List SessionLease) (id : Str) (v : ℕ) (rows : List (SessionRow P))
      → Unsent id v rows
      → Unsent id v (update_by_keys set keys rows)
  unfolding update_by_keys
  update_by_keys-Unsent set keeps same unacked [] id v rows h = h
  update_by_keys-Unsent set keeps same unacked (key ∷ keys) id v rows h =
      let step = get_session-update_by_key set keeps key id rows h.row h.found in
      update_by_keys-Unsent set keeps same unacked keys id v (update_by_key set key rows)
        (elim (Bool-cases (has_key key h.row)) [
          | inl e ↦ record {
            row = set h.row;
            found = step ∙ (rw e refl);
            recent = rw (same h.row) h.recent;
            unacked = unacked h.row;
          }
          | inr e ↦ record {
            row = h.row;
            found = step ∙ (rw e refl);
            recent = h.recent;
            unacked = h.unacked;
          }
        ])

  key-differs :
      (key : SessionLease) (id : Str) (v : ℕ) (r : SessionRow P)
      → str_eq r.session_id id ≡ true
      → v ≤ r.revision
      → (str_eq key.session_id id && not (ltb key.revision v)) ≡ false
      → has_key key r ≡ false
  key-differs key id v r named recent out = elim (Bool-cases (str_eq r.session_id key.session_id)) [
    | inl e ↦
        let same : str_eq key.session_id id ≡ true =
          rw (sym (str_eq_sound r.session_id key.session_id e)) named in
        ground (arith, e, same, out, recent)
    | inr e ↦ ground (arith, e)
  ]

  pub ack-Unsent :
      (now : ℕ) (keys : List SessionLease) (id : Str) (v : ℕ) (rows : List (SessionRow P))
      → settles id v keys ≡ false
      → Unsent id v rows
      → Unsent id v (update_by_keys (session_acked now) keys rows)
  unfolding update_by_keys
  ack-Unsent now [] id v rows out h = h
  ack-Unsent now (key ∷ keys) id v rows out h =
      let step =
        get_session-update_by_key (session_acked now) (λ r. refl) key id rows h.row h.found in
      let named = get_session-id id rows h.row h.found in
      let other : has_key key h.row ≡ false =
        key-differs key id v h.row named h.recent (ground (arith)) in
      let rest : settles id v keys ≡ false = ground arith in
      ack-Unsent now keys id v (update_by_key (session_acked now) key rows) rest record {
        row = h.row;
        found = step ∙ (rw other refl);
        recent = h.recent;
        unacked = h.unacked;
      }
