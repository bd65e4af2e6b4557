-- ===== src/Filter/Conservation.antt =====
-- Filter.Apply and Filter.Flush: what is kept, what is counted, and that the tokens of the dropped
-- events come out again in the rollups.
use desktop_client.Base.{
  ℕ, ◌<◌, ◌≡◌, refl, sym, ◌∙◌, false, Str, str_eq, str_eq_iff, List, [], ◌∷◌, inl, inr, arith,
  if◌then◌else◌, Bool-cases,
}
use desktop_client.Base.Words.{add64, deref, two64, add64-lt, add64_assoc, add64_comm}
use desktop_client.Api.{NormalizedEvent}
use desktop_client.Filter.{
  Filter, Bucket, FloatOps, name, fold_into, update_bucket, accumulate, has_value, empty_bucket,
}

-- The four kinds of tokens that a rollup conserves.
pub data TokenKind : Type 0 where
  input output cache_read cache_create : TokenKind

module _ {F : Type 0} where
  abbrev pub event_tokens : TokenKind → NormalizedEvent F → ℕ
  event_tokens input ev = deref ev.input_tokens
  event_tokens output ev = deref ev.output_tokens
  event_tokens cache_read ev = deref ev.cache_read_tokens
  event_tokens cache_create ev = deref ev.cache_create_tokens

  abbrev pub bucket_tokens : TokenKind → Bucket F → ℕ
  bucket_tokens input b = b.input
  bucket_tokens output b = b.output
  bucket_tokens cache_read b = b.cache_read
  bucket_tokens cache_create b = b.cache_create

  -- The sum of the tokens of a kind over the events of a model, as an int64.
  unfoldable pub event_total : TokenKind → Str → List (NormalizedEvent F) → ℕ
  event_total k m [] = 0
  event_total k m (ev ∷ events) =
      let rest = event_total k m events in
      if str_eq (name ev.model) m then add64 (event_tokens k ev) rest else rest

  unfoldable pub pending_total : TokenKind → Str → List (Str × Bucket F) → ℕ
  pending_total k m [] = 0
  pending_total k m ((key, b) ∷ rest) =
      let more = pending_total k m rest in
      if str_eq key m then add64 (bucket_tokens k b) more else more

  pub pending_total-lt :
      (k : TokenKind) (m : Str) (p : List (Str × Bucket F)) → pending_total k m p < two64
  unfolding pending_total
  pending_total-lt k m [] = omega arith
  pending_total-lt k m ((key, b) ∷ rest) =
      ground
        (arith, pending_total-lt k m rest, add64-lt (bucket_tokens k b) (pending_total k m rest))

  event_total-lt :
      (k : TokenKind) (m : Str) (events : List (NormalizedEvent F)) → event_total k m events < two64
  unfolding event_total
  event_total-lt k m [] = omega arith
  event_total-lt k m (ev ∷ events) =
      ground
        (arith, event_total-lt k m events, add64-lt (event_tokens k ev) (event_total k m events))

module _ {F : Type 0} (fl : FloatOps F) where
  bucket_tokens-fold_into :
      (k : TokenKind) (ev : NormalizedEvent F) (b : Bucket F)
      → bucket_tokens k (fold_into fl ev b) ≡ add64 (bucket_tokens k b) (event_tokens k ev)
  unfolding fold_into
  bucket_tokens-fold_into input ev b = ground arith
  bucket_tokens-fold_into output ev b = ground arith
  bucket_tokens-fold_into cache_read ev b = ground arith
  bucket_tokens-fold_into cache_create ev b = ground arith

  add64_swap : (a t r : ℕ) → add64 (add64 a t) r ≡ add64 t (add64 a r)
  add64_swap a t r = rw (add64_comm a t) (add64_assoc t a r)

  add64_left : (a t r : ℕ) → add64 a (add64 t r) ≡ add64 t (add64 a r)
  add64_left a t r = sym (add64_assoc a t r) ∙ add64_swap a t r

  empty_tokens : (k : TokenKind) → bucket_tokens k (empty_bucket fl) ≡ 0
  empty_tokens input = refl
  empty_tokens output = refl
  empty_tokens cache_read = refl
  empty_tokens cache_create = refl

  add64-zero : (t : ℕ) → add64 (add64 0 t) 0 ≡ add64 t 0
  unfolding add64
  add64-zero t = omega arith

  pending_total-update_bucket :
      (k : TokenKind) (m key : Str) (ev : NormalizedEvent F) (p : List (Str × Bucket F))
      → pending_total k m (update_bucket fl key ev p) ≡ (
          if str_eq key m
          then add64 (event_tokens k ev) (pending_total k m p)
          else pending_total k m p)
  unfolding pending_total update_bucket
  pending_total-update_bucket k m key ev [] = elim (Bool-cases (str_eq key m)) [
    | inl e ↦ rw e (
        rw (bucket_tokens-fold_into k ev (empty_bucket fl), empty_tokens k)
          (add64-zero (event_tokens k ev)))
    | inr e ↦ rw e
  ]
  pending_total-update_bucket k m key ev ((j, b) ∷ rest) = ground (
    arith,
    str_eq_iff j key,
    bucket_tokens-fold_into k ev b,
    add64_swap (bucket_tokens k b) (event_tokens k ev) (pending_total k m rest),
    add64_left (bucket_tokens k b) (event_tokens k ev) (pending_total k m rest),
    pending_total-update_bucket k m key ev rest,
  )

  pub add64_none : (n : ℕ) → n < two64 → add64 0 n ≡ n
  unfolding add64
  add64_none n h = omega arith

  event_tokens_none :
      (k : TokenKind) (ev : NormalizedEvent F) → has_value ev ≡ false → event_tokens k ev ≡ 0
  unfolding has_value
  event_tokens_none input ev h = ground arith
  event_tokens_none output ev h = ground arith
  event_tokens_none cache_read ev h = ground arith
  event_tokens_none cache_create ev h = ground arith

  -- A dropped event adds its tokens to its model and to no other.
  pub pending_total-accumulate :
      (k : TokenKind) (m : Str) (ev : NormalizedEvent F) (f : Filter F)
      → pending_total k m (accumulate fl ev f).pending ≡ (
          if str_eq (name ev.model) m
          then add64 (event_tokens k ev) (pending_total k m f.pending)
          else pending_total k m f.pending)
  unfolding accumulate
  pending_total-accumulate k m ev f = ground (
    arith,
    pending_total-update_bucket k m (name ev.model) ev f.pending,
    event_tokens_none k ev,
    add64_none (pending_total k m f.pending),
    pending_total-lt k m f.pending,
  )
