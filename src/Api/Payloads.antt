-- ===== src/Api/Payloads.antt =====
-- What the backend reads in the requests of one call.
use desktop_client.Base.{
  ◌≡◌, refl, ap, Bool, true, false, Str, Option, none, some, List, [], ◌∷◌, ◌++◌, All, ltb,
  if◌then◌else◌, if_both,
}
use desktop_client.Base.Results.{Result}
use desktop_client.Api.Client.{
  Method, Request, Answer, replied, no_reply, Exchange, Outside, RequestError, Client, retry_delays,
  gzip_threshold, payload_length, compressed, maybe_compress, gzip_rejected, check_gzip_rejected,
  after_answer, build_request, do_once, do_with_retry,
}
use desktop_client.Api.Attempts.{retry_loop-keeps}

module _ (o : Outside) (gunzip : Str → Option Str) where
  -- A compressed body is decompressed again.
  abbrev pub IsInverse : Type 0
  IsInverse = (p z : Str) → o.compress p ≡ some z → gunzip z ≡ some p

  abbrev read : Option Str × Bool → Option Str
  read (body, false) = body
  read (none, true) = none
  read (some z, true) = gunzip z

  compressed-read :
      (p : Str) (z : Option Str)
      → IsInverse
      → o.compress p ≡ z
      → read (compressed o (some p) z) ≡ some p
  compressed-read p none inverse e = refl
  compressed-read p (some z) inverse e = inverse p z e

  maybe_compress-read :
      (c : Client) (payload : Option Str) → IsInverse → read (maybe_compress o c payload) ≡ payload
  unfolding maybe_compress
  maybe_compress-read c none inverse = refl
  maybe_compress-read c (some p) inverse =
      let reads = λ (r : Option Str × Bool). read r ≡ some p in
      if_both reads (ltb gzip_threshold (payload_length (some p)))
        (if_both reads c.gzip_ok (compressed-read p (o.compress p) inverse refl) refl) refl

  module _ {A : Type 0} (decode : Str → Option A) (method : Method) (path : Str)
      (payload : Option Str) (with_key : Bool) where
    abbrev IsFor : Client → Request → Type 0
    IsFor c q =
        (q.method ≡ method)
        × (q.url ≡ c.base_url ++ path)
        × (q.key ≡ (if with_key then some c.collector_key else none))
        × (read (q.body, q.gzipped) ≡ payload)

    -- The exchanges since `c` are all of this call.
    abbrev pub Sent : Client → Client → Type 0
    Sent c c' =
        (c'.base_url ≡ c.base_url)
        × (c'.collector_key ≡ c.collector_key)
        × (new : List Exchange) × (c'.exchanges ≡ new ++ c.exchanges)
        × All (λ x. IsFor c x.request) new

    after_answer-Sent :
        (c c' : Client) (request : Request) (g : Bool) (answer : Answer)
        → IsFor c request
        → Sent c c'
        → Sent c
            (after_answer o decode g
              (record c' {
                exchanges = record { request = request; answer = answer } ∷ c'.exchanges;
              })
              answer).0
    unfolding check_gzip_rejected
    after_answer-Sent c c' request g no_reply q (url, key, new, ex, all) = (
      url,
      key,
      record { request = request; answer = no_reply } ∷ new,
      ap (λ xs. record { request = request; answer = no_reply } ∷ xs) ex,
      (q, all),
    )
    after_answer-Sent c c' request false (replied status body) q (url, key, new, ex, all) = (
      url,
      key,
      record { request = request; answer = replied status body } ∷ new,
      ap (λ xs. record { request = request; answer = replied status body } ∷ xs) ex,
      (q, all),
    )
    after_answer-Sent c c' request true (replied status body) q (url, key, new, ex, all) =
        let x : Exchange = record { request = request; answer = replied status body } in
        let sent : Sent c (record c' { exchanges = x ∷ c'.exchanges }) =
          (url, key, x ∷ new, ap (λ xs. x ∷ xs) ex, (q, all)) in
        if_both (λ (k : Client). Sent c k) (gzip_rejected o status body) sent sent

    do_once-Sent :
        (c c' : Client)
        → IsInverse
        → Sent c c'
        → Sent c (do_once o decode method path payload with_key c').0
    unfolding do_once
    do_once-Sent c c' inverse h =
        let sending = maybe_compress o c' payload in
        let request = build_request o decode method path payload with_key c' sending in
        let q : IsFor c request = (
          refl,
          ap (λ u. u ++ path) h.0,
          ap (λ k. if with_key then some k else none) h.1,
          maybe_compress-read c' payload inverse,
        ) in
        if_both {A = Client × Bool × Result RequestError A} (λ r. Sent c r.0)
          (o.parses_url (c'.base_url ++ path))
          (after_answer-Sent c c' request request.gzipped (o.answer c'.exchanges request) q h) h

    -- Every request of a call goes to its URL with its method, carries the key exactly if the call is
    -- authenticated, and has a body in which a backend that decompresses what compress/gzip compressed
    -- reads the payload, also after the client gave up compressing.
    pub do_with_retry-Sent :
        (c : Client) → IsInverse → Sent c (do_with_retry o decode method path payload with_key c).0
    unfolding do_with_retry
    do_with_retry-Sent c inverse =
        retry_loop-keeps o decode method path payload with_key (Sent c)
          (λ c' h. do_once-Sent c c' inverse h) (λ d c' h. h) retry_delays c
          (refl, refl, [], refl, tt)
