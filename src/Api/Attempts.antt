-- ===== src/Api/Attempts.antt =====
-- The attempts of one call: how many, with which delays, and what the call answers.
use desktop_client.Base.{
  ℕ, suc, ◌≡◌, refl, sym, ap, ◌∙◌, ◌⊎◌, inl, inr, ◌≤◌, Bool, true, false, Str, Option, List, [],
  ◌∷◌, ◌++◌, length, take, All, arith, ltb, ◌==◌, if◌then◌else◌, Bool-cases, if_both, length-append,
  All-append, take-take,
}
use desktop_client.Base.Results.{Result, ok, err}
use mathlib.Core.Bool.{true≢false}
use mathlib.Core.List.{append_assoc, append-nil}
use desktop_client.Api.Client.{
  Method, Request, Answer, replied, no_reply, Exchange, Outside, RequestError, unreachable,
  unexpected_status, Client, retry_delays, sleep, maybe_compress, gzip_rejected,
  check_gzip_rejected, handle_response, after_answer, build_request, do_once, stops, give_up,
  retry_loop, do_with_retry,
}

module _ (o : Outside) {A : Type 0} (decode : Str → Option A) (method : Method) (path : Str)
    (payload : Option Str) (with_key : Bool) where
  abbrev once : Client → Client × Bool × Result RequestError A
  once c = do_once o decode method path payload with_key c

  abbrev loop : List ℕ → Client → Client × Result RequestError A
  loop ds c = retry_loop o decode method path payload with_key ds c

  -- What the attempts and the delays keep, the loop keeps.
  pub retry_loop-keeps :
      (P : Client → Type 0)
      → ((c : Client) → P c → P (once c).0)
      → ((d : ℕ) (c : Client) → P c → P (sleep d c))
      → (ds : List ℕ) (c : Client) → P c
      → P (loop ds c).0
  unfolding retry_loop
  retry_loop-keeps P step pause [] c h = step c h
  retry_loop-keeps P step pause (d ∷ ds) c h =
      if_both {A = Client × Result RequestError A} (λ r. P r.0) (stops o (once c)) (step c h)
        (retry_loop-keeps P step pause ds (sleep d (once c).0) (pause d (once c).0 (step c h)))

  -- A network error or a server error.
  abbrev retryable : Answer → Bool
  retryable no_reply = true
  retryable (replied status body) = ltb 499 status

  -- What one answer says of the call.
  abbrev verdict : Answer → Result RequestError A
  verdict no_reply = err unreachable
  verdict (replied status body) = (handle_response o decode status body).1

  -- One exchange was made, and the attempt tells what it says.
  abbrev Attempted : Client → Client × Bool × Result RequestError A → Type 0
  Attempted c r =
      (x : Exchange) × (r.0.exchanges ≡ x ∷ c.exchanges)
      × (r.0.slept ≡ c.slept)
      × (r.0.base_url ≡ c.base_url)
      × (r.2 ≡ verdict x.answer)
      × (r.1 ≡ true → retryable x.answer ≡ true)

  handle_response-trimmed :
      (status : ℕ) (body : Str)
      → handle_response o decode status (if status == 400 then take 4096 body else body)
        ≡ handle_response o decode status body
  unfolding handle_response
  handle_response-trimmed status body = elim (Bool-cases (status == 400)) [
    | inl e ↦
        let is_400 : status ≡ 400 = ground arith in
        rw is_400 (
          ap (λ t. (false, err (unexpected_status 400 (o.trim_space t))))
            (take-take 512 4096 body (omega arith)))
    | inr e ↦ rw e refl
  ]

  handle_response_final :
      (status : ℕ) (body : Str)
      → ltb 499 status ≡ false
      → (handle_response o decode status body).0 ≡ false
  unfolding handle_response
  handle_response_final status body e =
      let final = λ (r : Bool × Result RequestError A). r.0 ≡ false in
      if_both final (status == 200) refl
        (if_both final (status == 401) refl (if_both final (status == 409) refl (rw e refl)))

  handle_response-retryable :
      (status : ℕ) (body : Str)
      → (handle_response o decode status body).0 ≡ true
      → ltb 499 status ≡ true
  handle_response-retryable status body h = elim (Bool-cases (ltb 499 status)) [
    | inl e ↦ e
    | inr e ↦ absurd (true≢false (sym h ∙ handle_response_final status body e))
  ]

  after_answer-Attempted :
      (request : Request) (g : Bool) (answer : Answer) (c : Client)
      → Attempted c (
          after_answer o decode g
            (record c { exchanges = record { request = request; answer = answer } ∷ c.exchanges })
            answer)
  unfolding check_gzip_rejected
  after_answer-Attempted request g no_reply c =
      (record { request = request; answer = no_reply }, refl, refl, refl, refl, λ h. refl)
  after_answer-Attempted request false (replied status body) c = (
    record { request = request; answer = replied status body },
    refl,
    refl,
    refl,
    refl,
    handle_response-retryable status body,
  )
  after_answer-Attempted request true (replied status body) c =
      let x : Exchange = record { request = request; answer = replied status body } in
      let logged = record c { exchanges = x ∷ c.exchanges } in
      let rejects = gzip_rejected o status body in
      rw (handle_response-trimmed status body) (
        x,
        if_both (λ (c' : Client). c'.exchanges ≡ logged.exchanges) rejects refl refl,
        if_both (λ (c' : Client). c'.slept ≡ c.slept) rejects refl refl,
        if_both (λ (c' : Client). c'.base_url ≡ c.base_url) rejects refl refl,
        refl,
        handle_response-retryable status body,
      )

  abbrev Reaches : Client → Type 0
  Reaches c = o.parses_url (c.base_url ++ path) ≡ true

  once-Attempted : (c : Client) → Reaches c → Attempted c (once c)
  unfolding do_once
  once-Attempted c reaches =
      let request =
        build_request o decode method path payload with_key c (maybe_compress o c payload) in
      rw reaches (after_answer-Attempted request request.gzipped (o.answer c.exchanges request) c)

  -- The call made one exchange, and earlier ones that each met a network or a server error and was
  -- followed by the next delay. It answers what the last one says, unless no delay was left.
  abbrev pub Attempts : List ℕ → Client → Client × Result RequestError A → Type 0
  Attempts ds c r =
      (x : Exchange) × (earlier : List Exchange) × (r.0.exchanges ≡ x ∷ (earlier ++ c.exchanges))
      × All (λ y. retryable y.answer ≡ true) earlier
      × (length earlier ≤ length ds)
      × (r.0.slept ≡ c.slept ++ take (length earlier) ds)
      × ((r.1 ≡ verdict x.answer)
          ⊎ ((length earlier ≡ length ds)
              × (retryable x.answer ≡ true)
              × (r.1 ≡ give_up (verdict x.answer))))

  going_on : (r : Client × Bool × Result RequestError A) → stops o r ≡ false → r.1 ≡ true
  going_on (c, b, ok a) h = cc
  going_on (c, true, err e) h = refl
  going_on (c, false, err e) h = cc

  -- One attempt and the rest of the loop make the loop's.
  after_pause :
      (d : ℕ) (ds : List ℕ) (c c' : Client) (r : Client × Result RequestError A) (x : Exchange)
      → c'.exchanges ≡ x ∷ c.exchanges
      → c'.slept ≡ c.slept
      → retryable x.answer ≡ true
      → Attempts ds (sleep d c') r
      → Attempts (d ∷ ds) c r
  after_pause d ds c c' r x made slept again (y, earlier, ex, all, le, sl, result) =
      let longer : length (earlier ++ x ∷ []) ≡ suc (length earlier) =
        omega (arith, length-append earlier (x ∷ [])) in
      (
        y,
        earlier ++ x ∷ [],
        ex
            ∙ ap (λ xs. y ∷ (earlier ++ xs)) made
            ∙ ap (λ xs. y ∷ xs) (sym (append_assoc earlier (x ∷ []) c.exchanges)),
        All-append (λ z. retryable z.answer ≡ true) earlier (x ∷ []) all (again, tt),
        omega arith,
        rw longer (
            sl
            ∙ ap (λ xs. (xs ++ d ∷ []) ++ take (length earlier) ds) slept
            ∙ append_assoc c.slept (d ∷ []) (take (length earlier) ds)),
        elim result [ inl e ↦ inl e | inr e ↦ inr (rw longer (ap suc e.0, e.1, e.2)) ],
      )

  loop-Attempts : (ds : List ℕ) (c : Client) → Reaches c → Attempts ds c (loop ds c)
  unfolding retry_loop
  loop-Attempts [] c reaches =
      let (x, ex, sl, url, result, again) = once-Attempted c reaches in
      let r = once c in
      (
        x,
        [],
        ex,
        tt,
        omega arith,
        sl ∙ sym (append-nil c.slept),
        elim (Bool-cases (stops o r)) [
          | inl e ↦ inl (rw e result)
          | inr e ↦ inr (rw e (refl, again (going_on r e), ap give_up result))
        ],
      )
  loop-Attempts (d ∷ ds) c reaches = elim (Bool-cases (stops o (once c))) [
    | inl e ↦
        let (x, ex, sl, url, result, again) = once-Attempted c reaches in
        rw e (x, [], ex, tt, omega arith, sl ∙ sym (append-nil c.slept), inl result)
    | inr e ↦
        let (x, ex, sl, url, result, again) = once-Attempted c reaches in
        let reaches' : Reaches (once c).0 = rw url reaches in
        rw e (
          after_pause d ds c (once c).0 (loop ds (sleep d (once c).0)) x ex sl
            (again (going_on (once c) e)) (loop-Attempts ds (sleep d (once c).0) reaches'))
  ]

  -- A call makes at least one exchange and at most four, after the delays of 1, 2 and 4 seconds: only a
  -- network error or a server error is followed by another exchange, and the call answers what the last
  -- exchange says, marked as exhausted where that was a network or a server error after every delay.
  pub do_with_retry-Attempts :
      (c : Client)
      → Reaches c
      → Attempts retry_delays c (do_with_retry o decode method path payload with_key c)
  unfolding do_with_retry
  do_with_retry-Attempts c reaches = loop-Attempts retry_delays c reaches
