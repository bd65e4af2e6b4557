-- ===== src/Queue/Sessions/Outlives.antt =====
-- Leases by revision: what an ack settles, and that a session that is updated while its upload is in
-- flight outlives the end of that upload.
use desktop_client.Base.{
  ℕ, ◌+◌, ◌≤◌, ◌≡◌, refl, ◌∙◌, Bool, true, false, ◌||◌, Str, str_eq, str_eq_sound, str_eq_refl, sym,
  Option, none, some, ◌⊎◌, List, [], ◌∷◌, map, arith, inl, inr, All, Bool-cases, if◌then◌else◌, min,
}
use mathlib.Core.List.{Memᴰ}
use mathlib.Core.List.Memᴰ
use desktop_client.Queue.Table.{leased, acked}
use desktop_client.Base.Results.{ok, Result-cases}
use desktop_client.Queue.Table.Ops.{Codec}
use desktop_client.Queue.Sessions.{
  SessionRow, SessionLease, SessionItem, max_lease, revised, upsert_row, session_leasable,
  leasable_sessions, has_key, update_by_key, update_by_keys, session_leased, session_acked,
  session_nacked, ack_sessions, nack_sessions, get_session, scan_session_items,
  lease_sessions_batch,
}

module _ {P : Type 0} where
  abbrev pub KeepsId : (SessionRow P → SessionRow P) → Type 0
  KeepsId set = (r : SessionRow P) → (set r).session_id ≡ r.session_id

  pub get_session-upsert :
      (id : Str) (payload : P) (updated now : ℕ) (rows : List (SessionRow P)) (r : SessionRow P)
      → get_session id rows ≡ some r
      → get_session id (upsert_row id payload updated now rows) ≡ some (revised payload updated r)
  unfolding get_session upsert_row
  get_session-upsert id payload updated now [] r h = cc
  get_session-upsert id payload updated now (s ∷ rows) r h =
      ground (arith, get_session-upsert id payload updated now rows r)

  pub get_session-update_by_key :
      (set : SessionRow P → SessionRow P)
      → KeepsId set
      → (key : SessionLease) (id : Str) (rows : List (SessionRow P)) (r : SessionRow P)
      → get_session id rows ≡ some r
      → get_session id (update_by_key set key rows) ≡ some (if has_key key r then set r else r)
  unfolding get_session update_by_key
  get_session-update_by_key set keeps key id [] r h = cc
  get_session-update_by_key set keeps key id (s ∷ rows) r h =
      ground (arith, get_session-update_by_key set keeps key id rows r, keeps s)

  abbrev pub any_key : List SessionLease → SessionRow P → Bool
  any_key [] r = false
  any_key (key ∷ keys) r = has_key key r || any_key keys r

  get_session_unnamed :
      (set : SessionRow P → SessionRow P)
      → KeepsId set
      → (keys : List SessionLease) (id : Str) (rows : List (SessionRow P)) (r : SessionRow P)
      → get_session id rows ≡ some r
      → any_key keys r ≡ false
      → get_session id (update_by_keys set keys rows) ≡ some r
  unfolding update_by_keys
  get_session_unnamed set keeps [] id rows r h e = h
  get_session_unnamed set keeps (key ∷ keys) id rows r h e =
      let here : has_key key r ≡ false = ground arith in
      let rest : any_key keys r ≡ false = ground arith in
      let step = get_session-update_by_key set keeps key id rows r h in
      get_session_unnamed set keeps keys id (update_by_key set key rows) r
        (ground (arith, step, here)) rest

  older-any_key :
      (keys : List SessionLease) (payload : P) (updated : ℕ) (r : SessionRow P)
      → All (λ key. key.revision ≤ r.revision) keys
      → any_key keys (revised payload updated r) ≡ false
  older-any_key [] payload updated r h = refl
  older-any_key (key ∷ keys) payload updated r (h, hs) =
      let rest = older-any_key keys payload updated r hs in
      elim (Bool-cases (str_eq r.session_id key.session_id)) [
        | inl e ↦ ground (arith, e, h, rest)
        | inr e ↦ ground (arith, e, rest)
      ]

  -- A session that is updated while uploads of its earlier revisions are in flight is pending again with
  -- the new summary, and neither the acks nor the nacks of those revisions change its row, which is
  -- leasable at every time.
  pub upsert-outlives :
      (id : Str) (payload : P) (updated now later t : ℕ) (keys : List SessionLease)
      (rows : List (SessionRow P)) (r : SessionRow P)
      → get_session id rows ≡ some r
      → All (λ key. key.revision ≤ r.revision) keys
      → (get_session id (ack_sessions later keys (upsert_row id payload updated now rows))
          ≡ some (revised payload updated r))
        × (get_session id (nack_sessions keys (upsert_row id payload updated now rows))
            ≡ some (revised payload updated r))
        × (session_leasable t (revised payload updated r) ≡ true)
  unfolding ack_sessions nack_sessions
  upsert-outlives id payload updated now later t keys rows r h older =
      let found = get_session-upsert id payload updated now rows r h in
      let unnamed = older-any_key keys payload updated r older in
      let table = upsert_row id payload updated now rows in
      (
        get_session_unnamed (session_acked later) (λ s. refl) keys id table
            (revised payload updated r) found unnamed,
        get_session_unnamed session_nacked (λ s. refl) keys id table (revised payload updated r)
            found unnamed,
        refl,
      )

  -- The row that an ack leaves, and the one that a lease leaves.
  abbrev pub uploaded : ℕ → SessionRow P → SessionRow P
  uploaded now r = record {
    session_id = r.session_id;
    revision = r.revision;
    payload = r.payload;
    updated_at = r.updated_at;
    created_at = r.created_at;
    attempts = r.attempts;
    state = acked;
    leased_until = none;
    acked_at = some now;
  }

  abbrev pub handed_out : ℕ → SessionRow P → SessionRow P
  handed_out until r = record {
    session_id = r.session_id;
    revision = r.revision;
    payload = r.payload;
    updated_at = r.updated_at;
    created_at = r.created_at;
    attempts = r.attempts;
    state = leased;
    leased_until = some until;
    acked_at = r.acked_at;
  }

  abbrev pub key_of : SessionRow P → SessionLease
  key_of r = record { session_id = r.session_id; revision = r.revision }

  -- What is found of a row after an update by keys: the row set if its session and revision are among the
  -- keys, and the row as it was if not.
  abbrev pub SetIfNamed :
      List SessionLease → SessionRow P → SessionRow P → Option (SessionRow P) → Type 0
  SetIfNamed keys r set_row found =
      (Memᴰ (key_of r) keys × (found ≡ some set_row))
      ⊎ ((¬ Memᴰ (key_of r) keys) × (found ≡ some r))

  has_key-key_of : (key : SessionLease) (r : SessionRow P) → has_key key r ≡ true → key_of r ≡ key
  has_key-key_of key r h =
      let names : str_eq r.session_id key.session_id ≡ true = ground (arith, h) in
      let same : r.session_id ≡ key.session_id = str_eq_sound _ _ names in
      let revision : r.revision ≡ key.revision = ground (arith, h) in rw (same, revision) refl

  any_key-Mem :
      (keys : List SessionLease) (r : SessionRow P) → any_key keys r ≡ true → Memᴰ (key_of r) keys
  any_key-Mem [] r h = cc
  any_key-Mem (key ∷ keys) r h = elim (Bool-cases (has_key key r)) [
    | inl e ↦ Memᴰ.head (has_key-key_of key r e)
    | inr e ↦ Memᴰ.tail (any_key-Mem keys r (ground (arith, e, h)))
  ]

  has_key_self : (r : SessionRow P) → has_key (key_of r) r ≡ true
  has_key_self r = ground (arith, str_eq_refl r.session_id)

  Mem-any_key :
      (keys : List SessionLease) (r : SessionRow P) → Memᴰ (key_of r) keys → any_key keys r ≡ true
  Mem-any_key [] r m = absurd (Memᴰ.not-nil m)
  Mem-any_key (key ∷ keys) r m = elim (Memᴰ.cases_cons m) [
    | inl e ↦ rw (sym e) (rw (has_key_self r) refl)
    | inr rest ↦ ground (arith, Mem-any_key keys r rest)
  ]

  pub any_key-SetIfNamed :
      (keys : List SessionLease) (r set_row : SessionRow P) (found : Option (SessionRow P))
      → found ≡ some (if any_key keys r then set_row else r)
      → SetIfNamed keys r set_row found
  any_key-SetIfNamed keys r set_row found h = elim (Bool-cases (any_key keys r)) [
    | inl e ↦ inl (any_key-Mem keys r e, h ∙ (rw e refl))
    | inr e ↦ inr (λ m. let named = Mem-any_key keys r m in cc, h ∙ (rw e refl))
  ]

  any_key-set :
      (set : SessionRow P → SessionRow P)
      → KeepsId set
      → ((r : SessionRow P) → (set r).revision ≡ r.revision)
      → (keys : List SessionLease) (r : SessionRow P) → any_key keys (set r) ≡ any_key keys r
  any_key-set set keeps same [] r = refl
  any_key-set set keeps same (key ∷ keys) r =
      rw (any_key-set set keeps same keys r, keeps r, same r) refl

  pub get_session-update_by_keys :
      (set : SessionRow P → SessionRow P)
      → KeepsId set
      → ((r : SessionRow P) → (set r).revision ≡ r.revision)
      → ((r : SessionRow P) → set (set r) ≡ set r)
      → (keys : List SessionLease) (id : Str) (rows : List (SessionRow P)) (r : SessionRow P)
      → get_session id rows ≡ some r
      → get_session id (update_by_keys set keys rows) ≡ some (if any_key keys r then set r else r)
  unfolding update_by_keys
  get_session-update_by_keys set keeps same again [] id rows r h = h
  get_session-update_by_keys set keeps same again (key ∷ keys) id rows r h =
      let step = get_session-update_by_key set keeps key id rows r h in
      let table = update_by_key set key rows in
      elim (Bool-cases (has_key key r)) [
        | inl e ↦
            let rest =
              get_session-update_by_keys set keeps same again keys id table (set r)
                (step ∙ (rw e refl)) in
            rw e (rest ∙ (ground (arith, again r)))
        | inr e ↦
            rw e
              (get_session-update_by_keys set keeps same again keys id table r (step ∙ (rw e refl)))
      ]

  -- An ack settles a session exactly if one of its keys is the session with the revision that the row has:
  -- the row is then acked at the time of the ack, and unchanged if there is no such key.
  pub ack_sessions_exact :
      (now : ℕ) (keys : List SessionLease) (id : Str) (rows : List (SessionRow P))
      (r : SessionRow P)
      → get_session id rows ≡ some r
      → SetIfNamed keys r (uploaded now r) (get_session id (ack_sessions now keys rows))
  unfolding ack_sessions
  ack_sessions_exact now keys id rows r h = any_key-SetIfNamed keys r (uploaded now r) _ (
      get_session-update_by_keys (session_acked now) (λ s. refl) (λ s. refl) (λ s. refl) keys id
        rows r h)

module _ {A P : Type 0} (c : Codec A P) where
  pub scan_session_items-ok :
      (rows : List (SessionRow P)) (items : List (SessionItem A))
      → scan_session_items c rows ≡ ok items
      → map (λ i. i.lease) items ≡ map key_of rows
  unfolding scan_session_items
  scan_session_items-ok [] items h = ground arith
  scan_session_items-ok (r ∷ rows) items h = elim (Result-cases (scan_session_items c rows)) [
    | inl (e, failed) ↦ ground arith
    | inr (more, read) ↦ ground (arith, scan_session_items-ok rows more read)
  ]

  pub lease_sessions-inv :
      (now n dur : ℕ) (rows rows' : List (SessionRow P)) (items : List (SessionItem A))
      → lease_sessions_batch c now n dur rows ≡ ok (items, rows')
      → (scan_session_items c (leasable_sessions now (min n max_lease) rows) ≡ ok items)
        × (rows' ≡ update_by_keys (session_leased (now + dur)) (map (λ i. i.lease) items) rows)
  unfolding lease_sessions_batch
  lease_sessions-inv now n dur rows rows' items h =
      elim (Result-cases (scan_session_items c (leasable_sessions now (min n max_lease) rows))) [
        | inl (e, failed) ↦ ground arith
        | inr (more, read) ↦ ground arith
      ]
