-- ===== src/Uploader/FlushSync.antt =====
-- The key in use and the key of the config file, over a flush of any lane (FlushOnce, FlushMetricsOnce): a 401 in
-- it can change both.
use desktop_client.Base.{ℕ, zero, suc, ◌+◌, ◌≡◌, refl, Bool, true, false, List, [], ◌∷◌, map}
use desktop_client.Base.Results.{Result, ok, err}
use desktop_client.Api.{batch_size}
use desktop_client.Queue.Table.Ops.{Error}
use desktop_client.Uploader.State.{Mode, active, degraded, Env, Uploader}
use desktop_client.Uploader.Backoff.{on_flush_success, widen_backoff}
use desktop_client.Uploader.Flush.{
  Counts, SendAnswer, accepted, rejected, failed, Round, Outcome, Lane, send_capped, send_batch,
  after_send, after_lease, flush_loop, flush_lane, defer_send,
}
use desktop_client.Uploader.KeySync.{InSync, handle_auth_error-InSync}

-- Every save of a round succeeds.
abbrev pub SavesIn : {T : Type 0} → (ℕ → Round T) → Type 0
SavesIn rounds = (i : ℕ) → (rounds i).env.saves ≡ true

module _ {Q I T : Type 0} (lane : Lane Q I T) where
  -- What the lane counts of an upload touches neither key.
  abbrev pub KeepsSync : Type 0
  KeepsSync =
      (env : Env) (counts : Counts) (u : Uploader) → InSync u → InSync (lane.on_upload env counts u)

  sent-InSync :
      (keeps : KeepsSync) (round : Round T) (items : List I) (u : Uploader) (q : Q) (a : SendAnswer)
      → send_capped round.post (map lane.wire items) ≡ a
      → round.env.saves ≡ true
      → InSync u
      → InSync (send_batch lane round items u q).0
  unfolding send_batch defer_send widen_backoff
  sent-InSync keeps round items u q (accepted counts) e sv h =
      rw (e, send_batch) (keeps round.env counts u h)
  sent-InSync keeps round items u q (rejected code) e sv h =
      rw (e, send_batch) (handle_auth_error-InSync round.env code u sv h)
  sent-InSync keeps round items u q failed e sv h = rw (e, send_batch) h

  module _ (keeps : KeepsSync) (rounds : ℕ → Round T) (saves : SavesIn rounds) (n : ℕ) where
    after_send-InSync :
        (rest : Uploader → Q → Uploader × Q × Outcome)
        → ((u : Uploader) (q : Q) → InSync u → InSync (rest u q).0)
        → (r : Uploader × Q × Bool) → InSync r.0
        → InSync (after_send lane rest r).0
    after_send-InSync rest sync (u, q, true) h = sync u q h
    after_send-InSync rest sync (u, q, false) h = h

    after_lease-InSync :
        (i : ℕ) (u : Uploader) (rest : Uploader → Q → Uploader × Q × Outcome)
        → ((u : Uploader) (q : Q) → InSync u → InSync (rest u q).0)
        → (r : Q × Result Error (List I)) → InSync u
        → InSync (after_lease lane (rounds i) u rest r).0
    unfolding on_flush_success
    after_lease-InSync i u rest sync (q, err x) h = h
    after_lease-InSync i u rest sync (q, ok []) h = h
    after_lease-InSync i u rest sync (q, ok (item ∷ items)) h =
        after_send-InSync rest sync (send_batch lane (rounds i) (item ∷ items) u q)
          (sent-InSync keeps (rounds i) (item ∷ items) u q _ refl (saves i) h)

    flush_loop-InSync :
        (fuel i : ℕ) (u : Uploader) (q : Q)
        → InSync u
        → InSync (flush_loop lane rounds n fuel i u q).0
    unfolding flush_loop
    flush_loop-InSync zero i u q h = h
    flush_loop-InSync (suc fuel) i u q h =
        after_lease-InSync i u (flush_loop lane rounds n fuel (i + 1))
          (λ u' q' s. flush_loop-InSync fuel (i + 1) u' q' s) (lane.lease (rounds i).env.now n q) h

  in_mode :
      (keeps : KeepsSync) (rounds : ℕ → Round T) (u : Uploader) (q : Q)
      → SavesIn rounds
      → InSync u
      → (m : Mode) → u.mode ≡ m
      → InSync (flush_lane lane rounds u q).0
  unfolding flush_lane
  in_mode keeps rounds u q saves h degraded e = rw (e, flush_lane) h
  in_mode keeps rounds u q saves h active e =
      rw (e, flush_lane)
        (flush_loop-InSync keeps rounds saves (batch_size u.policy) (lane.waiting q + 1) 0 u q h)

  pub flush_lane-InSync :
      (keeps : KeepsSync) (rounds : ℕ → Round T) (u : Uploader) (q : Q)
      → SavesIn rounds
      → InSync u
      → InSync (flush_lane lane rounds u q).0
  flush_lane-InSync keeps rounds u q saves h = in_mode keeps rounds u q saves h u.mode refl
