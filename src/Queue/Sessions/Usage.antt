-- ===== src/Queue/Sessions/Usage.antt =====
-- The rows by model: their sums, and that each model has one row.
use desktop_client.Base.{
  ℕ, ◌≡◌, refl, sym, ap, ◌∙◌, inl, inr, false, ◌||◌, Str, str_eq, str_eq_sound, str_eq_refl,
  contains, Option, List, [], ◌∷◌, map, All, arith, Bool-cases,
}
use mathlib.Core.Bool.{true≢false}
use desktop_client.Base.Words.{add64, add64_assoc, add64_comm}
use desktop_client.Api.{NormalizedEvent}
use desktop_client.Api.Endpoints.{SessionModelUsage}
use desktop_client.Filter.Conservation.{
  TokenKind, input, output, cache_read, cache_create, event_tokens,
}
use desktop_client.Queue.Sessions.Models.{
  str_less, Models, key_of, model_key, keys, from_models, empty_usage, add_usage, update_model,
  insert_model, sort_models, rows_of,
}

abbrev pub row_tokens : TokenKind → SessionModelUsage → ℕ
row_tokens input r = r.input_tokens
row_tokens output r = r.output_tokens
row_tokens cache_read r = r.cache_read_tokens
row_tokens cache_create r = r.cache_create_tokens

abbrev pub sum_rows : TokenKind → List SessionModelUsage → ℕ
sum_rows k [] = 0
sum_rows k (r ∷ rs) = add64 (row_tokens k r) (sum_rows k rs)

abbrev pub sum_models : TokenKind → Models → ℕ
sum_models k ms = sum_rows k (rows_of ms)

-- No key occurs twice.
abbrev pub Distinct : List Str → Type 0
Distinct [] = Unit
Distinct (key ∷ rest) = (contains rest key ≡ false) × Distinct rest

abbrev pub IsKeyed : Str × SessionModelUsage → Type 0
IsKeyed (key, row) = key ≡ key_of row

swap64 : (a b c : ℕ) → add64 a (add64 b c) ≡ add64 b (add64 a c)
swap64 a b c = sym (add64_assoc a b c) ∙ ap (λ x. add64 x c) (add64_comm a b) ∙ add64_assoc b a c

add64_twice : (t : ℕ) → add64 0 (add64 0 t) ≡ add64 0 t
unfolding add64
add64_twice t = omega arith

str_eq_sym : (s t : Str) → str_eq s t ≡ false → str_eq t s ≡ false
str_eq_sym s t h = elim (Bool-cases (str_eq t s)) [
  | inr e ↦ e
  | inl e ↦ absurd (true≢false (sym (str_eq_refl s) ∙ ap (str_eq s) (sym (str_eq_sound t s e)) ∙ h))
]

row_tokens-add_usage :
    {F : Type 0} (k : TokenKind) (ev : NormalizedEvent F) (row : SessionModelUsage)
    → row_tokens k (add_usage ev row) ≡ add64 (row_tokens k row) (event_tokens k ev)
row_tokens-add_usage input ev row = refl
row_tokens-add_usage output ev row = refl
row_tokens-add_usage cache_read ev row = refl
row_tokens-add_usage cache_create ev row = refl

row_tokens-empty : (k : TokenKind) (model : Option Str) → row_tokens k (empty_usage model) ≡ 0
row_tokens-empty input model = refl
row_tokens-empty output model = refl
row_tokens-empty cache_read model = refl
row_tokens-empty cache_create model = refl

module _ (k : TokenKind) where
  sum_insert :
      (m : Str × SessionModelUsage) (ms : Models)
      → sum_models k (insert_model m ms) ≡ add64 (row_tokens k m.1) (sum_models k ms)
  unfolding insert_model
  sum_insert (key, row) [] = refl
  sum_insert (key, row) ((key', row') ∷ rest) = elim (Bool-cases (str_less key' key)) [
    | inl e ↦ rw e (
        ap (add64 (row_tokens k row')) (sum_insert (key, row) rest)
        ∙ swap64 (row_tokens k row') (row_tokens k row) (sum_models k rest))
    | inr e ↦ rw e refl
  ]

  pub sum_sort : (ms : Models) → sum_models k (sort_models ms) ≡ sum_models k ms
  unfolding sort_models
  sum_sort [] = refl
  sum_sort ((key, row) ∷ rest) =
      sum_insert (key, row) (sort_models rest) ∙ ap (add64 (row_tokens k row)) (sum_sort rest)

  module _ {F : Type 0} (model : Option Str) (ev : NormalizedEvent F) where
    pub sum_update :
        (ms : Models)
        → sum_models k (update_model model ev ms) ≡ add64 (sum_models k ms) (event_tokens k ev)
    unfolding update_model
    sum_update [] =
        ap (λ t. add64 t 0)
          (row_tokens-add_usage k ev (empty_usage model)
            ∙ ap (λ t. add64 t (event_tokens k ev)) (row_tokens-empty k model))
        ∙ add64_assoc 0 (event_tokens k ev) 0
        ∙ ap (add64 0) (add64_comm (event_tokens k ev) 0)
        ∙ add64_twice (event_tokens k ev)
    sum_update ((key, row) ∷ rest) = elim (Bool-cases (str_eq key (model_key model))) [
      | inl e ↦ rw e (
          ap (λ t. add64 t (sum_models k rest)) (row_tokens-add_usage k ev row)
          ∙ add64_assoc (row_tokens k row) (event_tokens k ev) (sum_models k rest)
          ∙ ap (add64 (row_tokens k row)) (add64_comm (event_tokens k ev) (sum_models k rest))
          ∙ sym (add64_assoc (row_tokens k row) (sum_models k rest) (event_tokens k ev)))
      | inr e ↦ rw e (
          ap (add64 (row_tokens k row)) (sum_update rest)
          ∙ sym (add64_assoc (row_tokens k row) (sum_models k rest) (event_tokens k ev)))
    ]

module _ {F : Type 0} (model : Option Str) (ev : NormalizedEvent F) where
  contains-update :
      (ms : Models) (s : Str)
      → contains (keys (update_model model ev ms)) s
        ≡ (contains (keys ms) s || str_eq (model_key model) s)
  unfolding update_model contains
  contains-update [] s = ground arith
  contains-update ((key, row) ∷ rest) s = elim (Bool-cases (str_eq key (model_key model))) [
    | inl e ↦ rw e (rw (sym (str_eq_sound key (model_key model) e)) (ground arith))
    | inr e ↦ rw e (ground (arith, contains-update rest s))
  ]

  pub Distinct-update :
      (ms : Models) → Distinct (keys ms) → Distinct (keys (update_model model ev ms))
  unfolding update_model contains
  Distinct-update [] h = (refl, tt)
  Distinct-update ((key, row) ∷ rest) h = elim (Bool-cases (str_eq key (model_key model))) [
    | inl e ↦ rw e h
    | inr e ↦
        let other = str_eq_sym key (model_key model) e in
        rw e (contains-update rest key ∙ ground (arith, h.0, other), Distinct-update rest h.1)
  ]

  pub IsKeyed-update : (ms : Models) → All IsKeyed ms → All IsKeyed (update_model model ev ms)
  unfolding update_model
  IsKeyed-update [] h = (refl, tt)
  IsKeyed-update ((key, row) ∷ rest) h = elim (Bool-cases (str_eq key (model_key model))) [
    | inl e ↦ rw e h
    | inr e ↦ rw e (h.0, IsKeyed-update rest h.1)
  ]

contains-insert :
    (m : Str × SessionModelUsage) (ms : Models) (s : Str)
    → contains (keys (insert_model m ms)) s ≡ (str_eq m.0 s || contains (keys ms) s)
unfolding insert_model contains
contains-insert (key, row) [] s = refl
contains-insert (key, row) ((key', row') ∷ rest) s = elim (Bool-cases (str_less key' key)) [
  | inl e ↦ rw e (ground (arith, contains-insert (key, row) rest s))
  | inr e ↦ rw e refl
]

Distinct-insert :
    (m : Str × SessionModelUsage) (ms : Models)
    → contains (keys ms) m.0 ≡ false
    → Distinct (keys ms)
    → Distinct (keys (insert_model m ms))
unfolding insert_model contains
Distinct-insert (key, row) [] new h = (refl, tt)
Distinct-insert (key, row) ((key', row') ∷ rest) new h = elim (Bool-cases (str_less key' key)) [
  | inl e ↦
      let other : str_eq key' key ≡ false = ground arith in
      let rest_new : contains (keys rest) key ≡ false = ground arith in
      let back = str_eq_sym key' key other in
      rw e (
        contains-insert (key, row) rest key' ∙ ground (arith, h.0, back),
        Distinct-insert (key, row) rest rest_new h.1,
      )
  | inr e ↦ rw e (new, h)
]

IsKeyed-insert :
    (m : Str × SessionModelUsage) (ms : Models)
    → IsKeyed m
    → All IsKeyed ms
    → All IsKeyed (insert_model m ms)
unfolding insert_model
IsKeyed-insert (key, row) [] h hs = (h, tt)
IsKeyed-insert (key, row) ((key', row') ∷ rest) h hs = elim (Bool-cases (str_less key' key)) [
  | inl e ↦ rw e (hs.0, IsKeyed-insert (key, row) rest h hs.1)
  | inr e ↦ rw e (h, hs)
]

contains-sort : (ms : Models) (s : Str) → contains (keys (sort_models ms)) s ≡ contains (keys ms) s
unfolding sort_models contains
contains-sort [] s = refl
contains-sort ((key, row) ∷ rest) s =
    contains-insert (key, row) (sort_models rest) s
    ∙ ap (λ c. str_eq key s || c) (contains-sort rest s)

Distinct-sort : (ms : Models) → Distinct (keys ms) → Distinct (keys (sort_models ms))
unfolding sort_models
Distinct-sort [] h = tt
Distinct-sort ((key, row) ∷ rest) h =
    Distinct-insert (key, row) (sort_models rest) (contains-sort rest key ∙ h.0)
      (Distinct-sort rest h.1)

IsKeyed-sort : (ms : Models) → All IsKeyed ms → All IsKeyed (sort_models ms)
unfolding sort_models
IsKeyed-sort [] h = tt
IsKeyed-sort ((key, row) ∷ rest) h =
    IsKeyed-insert (key, row) (sort_models rest) h.0 (IsKeyed-sort rest h.1)

keys-rows : (ms : Models) → All IsKeyed ms → map key_of (rows_of ms) ≡ keys ms
keys-rows [] h = refl
keys-rows ((key, row) ∷ rest) h = rw h.0 (ap (λ ks. key_of row ∷ ks) (keys-rows rest h.1))

-- The sorted rows of a map have each model once.
pub Distinct-rows :
    (ms : Models)
    → All IsKeyed ms
    → Distinct (keys ms)
    → Distinct (map key_of (rows_of (sort_models ms)))
Distinct-rows ms keyed h =
    rw (keys-rows (sort_models ms) (IsKeyed-sort ms keyed)) (Distinct-sort ms h)

-- A map filled from rows with different models has these rows.
pub from_models_rows :
    (rows : List SessionModelUsage)
    → Distinct (map key_of rows)
    → (rows_of (from_models rows) ≡ rows)
      × (keys (from_models rows) ≡ map key_of rows)
      × All IsKeyed (from_models rows)
unfolding from_models
from_models_rows [] h = (refl, refl, tt)
from_models_rows (row ∷ rows) h =
    let (same, ks, keyed) = from_models_rows rows h.1 in
    let new : contains (keys (from_models rows)) (key_of row) ≡ false = rw ks h.0 in
    rw new (ap (λ rs. row ∷ rs) same, ap (λ s. key_of row ∷ s) ks, (refl, keyed))
