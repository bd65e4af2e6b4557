-- ===== src/Queue/Enqueue.antt =====
-- Enqueue and insertEvents: a batch goes in whole or not at all, and the caps hold afterwards.
use desktop_client.Base.{
  ℕ, ◌+◌, ◌≡◌, refl, ◌≢◌, ap, sym, ◌∙◌, false, Str, Option, none, some, List, [], ◌∷◌, ◌++◌, map,
  inl, inr, ◌⊎◌, arith, length, Option-cases, All, ltb,
}
use desktop_client.Base.Results.{ok, err}
use mathlib.Core.List.{append_assoc, append-nil}
use desktop_client.Queue.Table.{Row, pending, insert_row}
use desktop_client.Queue.Table.Ops.{Codec, Error, marshal_failed, mint_failed, insert_all}
use desktop_client.Queue.Table.Order.{Ascending}
use desktop_client.Queue.Table.EvictLoop.{EvictsInOrder, evict_rows-Settles}
use desktop_client.Queue.{Queue, FileSize, enqueue, evict_if_needed}

module _ {K P : Type 0} where
  -- A row as it was inserted.
  abbrev pub IsNew : ℕ → Row K P → Type 0
  IsNew now r =
      (r.state ≡ pending)
      × (r.attempts ≡ 0)
      × (r.created_at ≡ now)
      × (r.leased_until ≡ none)
      × (r.acked_at ≡ none)

  abbrev pub Appends : ℕ → List (Row K P) → List (Row K P) → List P → Type 0
  Appends now rows rows' payloads =
      (new : List (Row K P)) × (rows' ≡ rows ++ new)
      × (map (λ (r : Row K P). r.payload) new ≡ payloads)
      × All (IsNew now) new

module _ {A P : Type 0} (c : Codec A P) where
  -- The payloads of a batch.
  abbrev pub marshal_all : List A → Option (List P)
  marshal_all [] = some []
  marshal_all (a ∷ as') = elim (c.marshal a) [
    | none ↦ none
    | some p ↦ elim (marshal_all as') [ none ↦ none | some ps ↦ some (p ∷ ps) ]
  ]

module _ {K A P : Type 0} (c : Codec A P) where
  insert_all_poisoned :
      (mint : ℕ → Option K) (i now : ℕ) (rows : List (Row K P)) (before after : List A) (a : A)
      → c.marshal a ≡ none
      → (e : Error) × (insert_all c mint i now rows (before ++ a ∷ after) ≡ err e)
  unfolding insert_all
  insert_all_poisoned mint i now rows [] after a bad = (marshal_failed, rw bad)
  insert_all_poisoned mint i now rows (b ∷ before) after a bad = elim (Option-cases (c.marshal b)) [
    | inl poor ↦ (marshal_failed, rw poor)
    | inr (p, good) ↦ elim (Option-cases (mint i)) [
      | inl none_left ↦ (mint_failed, rw (good, none_left))
      | inr (k, minted) ↦
          let (e, fails) =
            insert_all_poisoned mint (i + 1) now (insert_row rows k p now) before after a bad in
          (e, rw (good, minted) fails)
    ]
  ]

  insert_all-Appends :
      (mint : ℕ → Option K) (minted : (j : ℕ) → (k : K) × (mint j ≡ some k)) (i now : ℕ)
      (rows : List (Row K P)) (events : List A) (payloads : List P)
      → marshal_all c events ≡ some payloads
      → (rows' : List (Row K P)) × (insert_all c mint i now rows events ≡ ok rows')
        × Appends now rows rows' payloads
  unfolding insert_all insert_row
  insert_all-Appends mint minted i now rows [] payloads h =
      (rows, refl, ([], sym (append-nil rows), ground arith, tt))
  insert_all-Appends mint minted i now rows (a ∷ events) payloads h =
      elim (Option-cases (c.marshal a)) [
        | inl bad ↦ ground arith
        | inr (p, good) ↦ elim (Option-cases (marshal_all c events)) [
          | inl bad ↦ ground arith
          | inr (ps, more) ↦
              let (k, key) = minted i in
              let (rows', done, (new, appended, read, fresh)) =
                insert_all-Appends mint minted (i + 1) now (insert_row rows k p now) events ps
                  more in
              (
                rows',
                rw (good, key) done,
                (
                  _,
                  appended ∙ append_assoc rows _ new,
                  ground (arith, ap (◌∷◌ p) read),
                  ((refl, refl, refl, refl, refl), fresh),
                ),
              )
        ]
      ]

module _ {A E M S : Type 0} (c : Codec A E) (size : FileSize E M S) where
  -- One event that cannot be marshalled, anywhere in a batch, fails the batch whole: the call answers
  -- an error and the queue is as it was, without the events before it and after it.
  pub enqueue_poisoned :
      (mint : ℕ → Option Str) (now : ℕ) (before after : List A) (a : A) (q : Queue E M S)
      → c.marshal a ≡ none
      → (e : Error) × (enqueue c size mint now (before ++ a ∷ after) q ≡ (q, some e))
  unfolding enqueue
  enqueue_poisoned mint now [] after a q bad =
      let (e, fails) = insert_all_poisoned c mint 0 now q.rows [] after a bad in (e, rw fails)
  enqueue_poisoned mint now (b ∷ before) after a q bad =
      let (e, fails) = insert_all_poisoned c mint 0 now q.rows (b ∷ before) after a bad in
      (e, rw fails)

  -- A batch whose events can all be marshalled, with a key for each, goes in whole: the call answers
  -- no error, and before the eviction the table is the old one and the new rows behind it, which are
  -- pending, not yet attempted, created now, and hold the payloads of the batch in its order.
  pub enqueue-Appends :
      (mint : ℕ → Option Str) (minted : (j : ℕ) → (k : Str) × (mint j ≡ some k)) (now : ℕ)
      (events : List A) (payloads : List E) (q : Queue E M S)
      → events ≢ []
      → marshal_all c events ≡ some payloads
      → (rows : List (Row Str E)) × (enqueue c size mint now events q
          ≡ (evict_if_needed size (record q { rows = rows }), none))
        × Appends now q.rows rows payloads
  unfolding enqueue
  enqueue-Appends mint minted now [] payloads q some_events h = absurd (some_events refl)
  enqueue-Appends mint minted now (a ∷ events) payloads q some_events h =
      let (rows, done, appended) =
        insert_all-Appends c mint minted 0 now q.rows (a ∷ events) payloads h in
      (rows, rw done, appended)

module _ {E M S : Type 0} (size : FileSize E M S) where
  abbrev pub FitsCaps : Queue E M S → Type 0
  FitsCaps q =
      (ltb q.max_rows (length q.rows) ≡ false)
      × (ltb q.max_bytes (size q.rows q.metric_rows q.sessions) ≡ false)

  -- The eviction after an enqueue on a table with rising ids ends: then both caps are kept or no row is
  -- left; every row that is gone is counted; and of the unacked rows the oldest are gone, and none while
  -- an acked row is left.
  pub evict-settled :
      (q : Queue E M S)
      → Ascending 0 q.rows
      → let q' = evict_if_needed size q in
        (FitsCaps q' ⊎ (q'.rows ≡ []))
        × (q'.evicted + length q'.rows ≡ q.evicted + length q.rows)
        × EvictsInOrder q.rows q'.rows
  unfolding evict_if_needed
  evict-settled q a =
      let s =
        evict_rows-Settles (λ rows. size rows q.metric_rows q.sessions) q.max_rows q.max_bytes
          q.rows a in
      (ground (arith, s.fits), omega (arith, s.counted), s.in_order)
