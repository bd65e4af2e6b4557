-- ===== src/Receiver/Guards.antt =====
-- Which requests reach a handler, and what the others are answered.
use desktop_client.Base.{
  ◌≡◌, refl, ◌⊎◌, inl, inr, Bool, true, false, ◌&&◌, ◌||◌, Str, lit, str_eq, str_eq_sound, Option,
  none, some, [], ltb, Bool-cases,
}
use desktop_client.Receiver.{
  Request, Library, Response, status, Handler, Server, post, is_loopback_host, is_json_content_type,
  decode_body, reject_token, reject, invoke, answer, route, routed, serve,
}

abbrev Refuses : Option Response → Type 0
Refuses none = ⊥
Refuses (some refusal) = ltb 399 (status refusal) ≡ true

get_post : (method : Str) → str_eq method post ≡ true → str_eq method (lit "GET") ≡ false
unfolding str_eq
get_post method h = rw (str_eq_sound method post h) refl

abbrev pub is_logs : Request → Bool
is_logs r = str_eq r.path (lit "/v1/logs")

abbrev pub is_metrics : Request → Bool
is_metrics r = str_eq r.path (lit "/v1/metrics")

module _ {F P : Type 0} (lib : Library F) where
  -- The request comes from no web page, names this machine, declares JSON, and its token, if the request
  -- and the server have one, is the server's.
  abbrev pub is_trusted : Request → Server F P → Bool
  is_trusted r s =
      str_eq r.origin []
      && is_loopback_host lib r.host
      && is_json_content_type lib r.content_type
      && (str_eq r.token [] || str_eq s.token [] || str_eq r.token s.token)

  -- The server lets the request through as it was but for the count of missing tokens.
  abbrev SameHandlers : Server F P → Server F P → Type 0
  SameHandlers s s' = (s'.handler ≡ s.handler) × (s'.metrics_handler ≡ s.metrics_handler)

  -- A post is refused exactly if it is not trusted; another request is refused or goes on as it is.
  abbrev Decides : Bool → Bool → Server F P → Server F P × Option Response → Type 0
  Decides true true s r = SameHandlers s r.0 × (r.1 ≡ none)
  Decides true false s r = Refuses r.1
  Decides false _ s r = Refuses r.1 ⊎ (r ≡ (s, none))

  reject-Decides :
      (r : Request) (s : Server F P)
      → str_eq r.method post ≡ true
      → Decides true (is_trusted r s) s (reject lib r s)
  unfolding reject reject_token
  reject-Decides r s posts = elim (Bool-cases (str_eq r.origin [])) [
    | inr e ↦ rw e refl
    | inl e ↦ elim (Bool-cases (is_loopback_host lib r.host)) [
      | inr f ↦ rw e (rw f refl)
      | inl f ↦ elim (Bool-cases (is_json_content_type lib r.content_type)) [
        | inr g ↦ rw e (rw f (rw posts (rw g refl)))
        | inl g ↦ elim (Bool-cases (str_eq r.token [] || str_eq s.token [])) [
          | inl h ↦ rw e (rw f (rw posts (rw g (rw h ((refl, refl), refl)))))
          | inr h ↦ elim (Bool-cases (str_eq r.token s.token)) [
            | inl j ↦ rw e (rw f (rw posts (rw g (rw h (rw j ((refl, refl), refl))))))
            | inr j ↦ rw e (rw f (rw posts (rw g (rw h (rw j refl)))))
          ]
        ]
      ]
    ]
  ]

  -- A request that is no post, by whether one of the first two guards refuses it.
  others-Decides :
      (r : Request) (s : Server F P)
      → str_eq r.method post ≡ false
      → Decides false (is_trusted r s) s (reject lib r s)
  unfolding reject
  others-Decides r s posts = elim (Bool-cases (str_eq r.origin [])) [
    | inr e ↦ rw e (inl refl)
    | inl e ↦ elim (Bool-cases (is_loopback_host lib r.host)) [
      | inr f ↦ rw e (rw f (inl refl))
      | inl f ↦ rw e (rw f (rw posts (inr refl)))
    ]
  ]

  -- The pipeline and the answer are those of the handler on the decoded body.
  abbrev HandledBy : Option (Handler F P) → Request → P → Server F P × P × Response → Type 0
  HandledBy handler r p (s', p', response) =
      let (p'', response') = answer lib (invoke lib handler (decode_body lib r.body) p) in
      (p' ≡ p'') × (response ≡ response')

  -- The pipeline is not touched, and the answer is an error.
  abbrev Untouched : P → Server F P × P × Response → Type 0
  Untouched p (s', p', response) = (p' ≡ p) × (ltb 399 (status response) ≡ true)

  -- The pipeline is not touched, and the answer is an error, or the request is a GET of the health.
  abbrev Observed : Request → P → Server F P × P × Response → Type 0
  Observed r p (s', p', response) =
      (p' ≡ p)
      × ((ltb 399 (status response) ≡ true) ⊎ ((r.method ≡ lit "GET") × (r.path ≡ lit "/healthz")))

  -- By whether the request is a post, whether it is trusted, and whether its path is that of the logs or of
  -- the metrics.
  abbrev pub Served :
      Bool → Bool → Bool → Bool → Request → Server F P → P → Server F P × P × Response → Type 0
  Served true true true metrics r s p answered = HandledBy s.handler r p answered
  Served true true false true r s p answered = HandledBy s.metrics_handler r p answered
  Served true _ _ _ r s p answered = Untouched p answered
  Served false _ _ _ r s p answered = Observed r p answered

  answered-HandledBy :
      (handler handler' : Option (Handler F P)) (r : Request) (p : P) (s : Server F P)
      → handler' ≡ handler
      → let (p', response) = answer lib (invoke lib handler' (decode_body lib r.body) p) in
        HandledBy handler r p (s, p', response)
  answered-HandledBy handler handler' r p s same = rw same (refl, refl)

  route-Served :
      (r : Request) (s s' : Server F P) (p : P)
      → str_eq r.method post ≡ true
      → SameHandlers s s'
      → Served true true (is_logs r) (is_metrics r) r s p (route lib r s' p)
  unfolding route
  route-Served r s s' p posts same = elim (Bool-cases (is_logs r)) [
    | inl e ↦ rw posts (rw e (answered-HandledBy s.handler s'.handler r p s' same.0))
    | inr e ↦ elim (Bool-cases (is_metrics r)) [
      | inl f ↦
          rw posts
            (rw e (rw f (answered-HandledBy s.metrics_handler s'.metrics_handler r p s' same.1)))
      | inr f ↦ rw (get_post r.method posts) (rw posts (rw e (rw f (refl, refl))))
    ]
  ]

  route-Observed :
      (r : Request) (s : Server F P) (p : P)
      → str_eq r.method post ≡ false
      → Observed r p (route lib r s p)
  unfolding route
  route-Observed r s p posts = elim (Bool-cases (str_eq r.method (lit "GET"))) [
    | inl e ↦ elim (Bool-cases (str_eq r.path (lit "/healthz"))) [
      | inl f ↦
          rw posts (rw e (rw f (refl, inr (str_eq_sound r.method _ e, str_eq_sound r.path _ f))))
      | inr f ↦ rw posts (rw e (rw f (refl, inl refl)))
    ]
    | inr e ↦ rw posts (rw e (refl, inl refl))
  ]

  routed-Served :
      (trusted : Bool) (r : Request) (s : Server F P) (p : P)
      (decision : Server F P × Option Response)
      → str_eq r.method post ≡ true
      → Decides true trusted s decision
      → Served true trusted (is_logs r) (is_metrics r) r s p (routed lib r p decision)
  routed-Served true r s p (s', none) posts h = route-Served r s s' p posts h.0
  routed-Served true r s p (s', some refusal) posts h = cc
  routed-Served false r s p (s', none) posts h = absurd h
  routed-Served false r s p (s', some refusal) posts h = (refl, h)

  routed-Observed :
      (trusted : Bool) (r : Request) (s : Server F P) (p : P)
      (decision : Server F P × Option Response)
      → str_eq r.method post ≡ false
      → Decides false trusted s decision
      → Observed r p (routed lib r p decision)
  routed-Observed trusted r s p (s', some refusal) posts (inl h) = (refl, inl h)
  routed-Observed trusted r s p (s', none) posts (inl h) = absurd h
  routed-Observed trusted r s p decision posts (inr e) = rw e (route-Observed r s p posts)

  by_method-Served :
      (posts : Bool) (r : Request) (s : Server F P) (p : P)
      → str_eq r.method post ≡ posts
      → Served posts (is_trusted r s) (is_logs r) (is_metrics r) r s p (serve lib r s p)
  unfolding serve
  by_method-Served true r s p e =
      routed-Served (is_trusted r s) r s p (reject lib r s) e (reject-Decides r s e)
  by_method-Served false r s p e =
      routed-Observed (is_trusted r s) r s p (reject lib r s) e (others-Decides r s e)

  -- A post that comes from a web page, names another host, does not declare JSON, or has a token other than
  -- the one the server has is answered an error, and nothing of it reaches the pipeline; the same holds for a
  -- path that is not served. Any other post to the path of the logs or the metrics runs the handler of that
  -- path once, on its decoded body, and is answered the handler's counts, or an error where it panics. A
  -- request of any other method leaves the pipeline as it is, and is answered an error unless it is a GET of
  -- /healthz.
  pub serve-Served :
      (r : Request) (s : Server F P) (p : P)
      → Served
          (str_eq r.method post)
          (is_trusted r s)
          (is_logs r)
          (is_metrics r)
          r
          s
          p
          (serve lib r s p)
  serve-Served r s p = by_method-Served (str_eq r.method post) r s p refl
