-- ===== src/Api/Encoding.antt =====
-- The gzip fallback: a backend that refused a compressed body gets no other one.
use desktop_client.Base.{
  ℕ, ◌≡◌, refl, sym, ◌∙◌, ◌++◌, Bool, true, false, ◌&&◌, ◌||◌, Str, Option, List, [], ◌∷◌, ltb,
  if◌then◌else◌, Bool-cases, if_both, inl, inr,
}
use desktop_client.Base.Results.{Result}
use desktop_client.Api.Attempts.{retry_loop-keeps}
use mathlib.Core.Bool.{true≢false}
use desktop_client.Api.Client.{
  Method, Request, Answer, replied, no_reply, Exchange, Outside, RequestError, Client,
  gzip_threshold, payload_length, maybe_compress, disable_gzip, gzip_rejected, check_gzip_rejected,
  after_answer, build_request, do_once, do_with_retry, retry_delays,
}

module _ (o : Outside) where
  abbrev answer_rejects : Answer → Bool
  answer_rejects (replied status body) = gzip_rejected o status body
  answer_rejects no_reply = false

  -- A compressed body was refused.
  abbrev refused : List Exchange → Bool
  refused [] = false
  refused (x ∷ xs) = x.request.gzipped && answer_rejects x.answer || refused xs

  -- After a refusal no body is compressed.
  abbrev Ordered : List Exchange → Type 0
  Ordered [] = Unit
  Ordered (x ∷ xs) = ((refused xs && x.request.gzipped) ≡ false) × Ordered xs

  -- The client's flag remembers every refusal.
  abbrev pub Latched : Client → Type 0
  Latched c = ((refused c.exchanges && c.gzip_ok) ≡ false) × Ordered c.exchanges

  no_more :
      (past now ok : Bool) → (now ≡ true → ok ≡ true) → (past && ok) ≡ false → (past && now) ≡ false
  no_more false now ok on h = refl
  no_more true false ok on h = refl
  no_more true true ok on h = absurd (true≢false (sym (on refl) ∙ h))

  and_false : (x : Bool) → (x && false) ≡ false
  and_false false = refl
  and_false true = refl

  unrefused : (g r ok : Bool) → (r && ok) ≡ false → ((g && false || r) && ok) ≡ false
  unrefused false r ok h = h
  unrefused true r ok h = h

  maybe_compress_ok :
      (c : Client) (payload : Option Str) → (maybe_compress o c payload).1 ≡ true → c.gzip_ok ≡ true
  unfolding maybe_compress
  maybe_compress_ok c payload h = elim (Bool-cases c.gzip_ok) [
    | inl e ↦ e
    | inr e ↦ elim (Bool-cases (ltb gzip_threshold (payload_length payload))) [
      | inl t ↦ cc
      | inr t ↦ cc
    ]
  ]

  -- A reply to a compressed body, by whether it refuses the body.
  rejected-Latched :
      (request : Request) (status : ℕ) (body : Str) (c : Client) (rejects : Bool)
      → gzip_rejected o status body ≡ rejects
      → (request.gzipped ≡ true → c.gzip_ok ≡ true)
      → Latched c
      → Latched (
          let c' = record c {
            exchanges = record { request = request; answer = replied status body } ∷ c.exchanges;
          } in
          if rejects then disable_gzip c' else c')
  rejected-Latched request status body c true e on (h, hs) = (
    and_false (request.gzipped && gzip_rejected o status body || refused c.exchanges),
    (no_more (refused c.exchanges) request.gzipped c.gzip_ok on h, hs),
  )
  rejected-Latched request status body c false e on (h, hs) = (
    rw e (unrefused request.gzipped (refused c.exchanges) c.gzip_ok h),
    (no_more (refused c.exchanges) request.gzipped c.gzip_ok on h, hs),
  )

  module _ {A : Type 0} (decode : Str → Option A) where
    after_answer-Latched :
        (request : Request) (g : Bool) (answer : Answer) (c : Client)
        → request.gzipped ≡ g
        → (request.gzipped ≡ true → c.gzip_ok ≡ true)
        → Latched c
        → Latched
            (after_answer o decode g
              (record c { exchanges = record { request = request; answer = answer } ∷ c.exchanges })
              answer).0
    unfolding check_gzip_rejected
    after_answer-Latched request g no_reply c e on (h, hs) = (
      unrefused request.gzipped (refused c.exchanges) c.gzip_ok h,
      (no_more (refused c.exchanges) request.gzipped c.gzip_ok on h, hs),
    )
    after_answer-Latched request true (replied status body) c e on h =
        rejected-Latched request status body c (gzip_rejected o status body) refl on h
    after_answer-Latched request false (replied status body) c e on (h, hs) =
        rw e (h, (and_false (refused c.exchanges), hs))

    module _ (method : Method) (path : Str) (payload : Option Str) (with_key : Bool) where
      do_once-Latched :
          (c : Client) → Latched c → Latched (do_once o decode method path payload with_key c).0
      unfolding do_once
      do_once-Latched c h =
          let request =
            build_request o decode method path payload with_key c (maybe_compress o c payload) in
          if_both {A = Client × Bool × Result RequestError A} (λ r. Latched r.0)
            (o.parses_url (c.base_url ++ path))
            (after_answer-Latched request request.gzipped (o.answer c.exchanges request) c refl
              (maybe_compress_ok c payload) h)
            h

      -- Whatever the backend answers, a call of a client that remembers every refusal of a compressed body
      -- leaves a client that does so, and no exchange of its whole life compresses a body after a refusal.
      pub do_with_retry-Latched :
          (c : Client)
          → Latched c
          → Latched (do_with_retry o decode method path payload with_key c).0
      unfolding do_with_retry
      do_with_retry-Latched c h =
          retry_loop-keeps o decode method path payload with_key Latched do_once-Latched
            (λ d c h. h) retry_delays c h
