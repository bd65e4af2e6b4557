-- ===== src/Normalize/Batches.antt =====
-- No record is lost: every log record and every data point of a request is kept or counted as dropped.
use desktop_client.Base.{
  ℕ, suc, ◌+◌, ◌≡◌, refl, sym, ap, ◌∙◌, Str, lit, Option, none, some, List, [], ◌∷◌, ◌++◌, map,
  length, length-map, arith,
}
use mathlib.Core.List.{append_assoc, append-nil, map-append}
use desktop_client.Api.{NormalizedEvent}
use desktop_client.Normalize.Values.{
  Value, null, bool, int, float, text, array, object, Values, nil, cons, Fields, at, as_slice,
  Outside,
}
use desktop_client.Normalize.Logs.{
  flatten_log_record, add_event, add_records, add_scopes, add_resources, normalize_log_batch,
}

module _ {T : Type 0} where
  -- The results that are there, and how many are not.
  abbrev pub gather : List (Option T) → List T
  gather [] = []
  gather (none ∷ xs) = gather xs
  gather (some x ∷ xs) = x ∷ gather xs

  abbrev pub missing : List (Option T) → ℕ
  missing [] = 0
  missing (none ∷ xs) = suc (missing xs)
  missing (some x ∷ xs) = missing xs

  -- A batch with these results added.
  abbrev pub after : List T × ℕ → List (Option T) → List T × ℕ
  after acc xs = (acc.0 ++ gather xs, acc.1 + missing xs)

  gather-append : (xs ys : List (Option T)) → gather (xs ++ ys) ≡ gather xs ++ gather ys
  gather-append [] ys = refl
  gather-append (none ∷ xs) ys = gather-append xs ys
  gather-append (some x ∷ xs) ys = ap (λ zs. x ∷ zs) (gather-append xs ys)

  missing-append : (xs ys : List (Option T)) → missing (xs ++ ys) ≡ missing xs + missing ys
  missing-append [] ys = omega arith
  missing-append (none ∷ xs) ys = omega (arith, missing-append xs ys)
  missing-append (some x ∷ xs) ys = omega (arith, missing-append xs ys)

  pub pair_eq : (a b : List T) (m n : ℕ) → a ≡ b → m ≡ n → ◌≡◌ {A = List T × ℕ} (a, m) (b, n)
  pair_eq a b m n e f = rw e (rw f refl)

  pub after-append :
      (acc : List T × ℕ) (xs ys : List (Option T)) → after (after acc xs) ys ≡ after acc (xs ++ ys)
  after-append acc xs ys =
      pair_eq ((acc.0 ++ gather xs) ++ gather ys) (acc.0 ++ gather (xs ++ ys))
        ((acc.1 + missing xs) + missing ys) (acc.1 + missing (xs ++ ys))
        (append_assoc acc.0 (gather xs) (gather ys)
          ∙ ap (λ zs. acc.0 ++ zs) (sym (gather-append xs ys)))
        (omega (arith, missing-append xs ys))

  pub after-nil : (acc : List T × ℕ) → after acc [] ≡ acc
  after-nil (xs, n) = pair_eq (xs ++ []) xs (n + 0) n (append-nil xs) (omega arith)

  pub length-gather : (xs : List (Option T)) → length (gather xs) + missing xs ≡ length xs
  length-gather [] = omega arith
  length-gather (none ∷ xs) = omega (arith, length-gather xs)
  length-gather (some x ∷ xs) = omega (arith, length-gather xs)

  pub after_start :
      (xs : List (Option T))
      → ((after ([], 0) xs).0 ≡ gather xs)
        × (length (after ([], 0) xs).0 + (after ([], 0) xs).1 ≡ length xs)
  after_start xs = (refl, omega (arith, length-gather xs))

module _ {F : Type 0} where
  abbrev pub to_list : Values F → List (Value F)
  to_list nil = []
  to_list (cons v vs) = v ∷ to_list vs

  -- What the lists under `key` hold, in the maps of a list.
  abbrev pub under : Str → Values F → List (Value F)
  under key nil = []
  under key (cons (object m) vs) = to_list (as_slice (at m key)) ++ under key vs
  under key (cons v vs) = under key vs

  abbrev pub under_two : Str → Str → Values F → List (Value F)
  under_two outer inner nil = []
  under_two outer inner (cons (object m) vs) =
      under inner (as_slice (at m outer)) ++ under_two outer inner vs
  under_two outer inner (cons v vs) = under_two outer inner vs

  -- The log records of a request.
  abbrev pub log_records : Fields F → List (Value F)
  log_records payload =
      under_two (lit "scopeLogs") (lit "logRecords") (as_slice (at payload (lit "resourceLogs")))

module _ {F : Type 0} (o : Outside F) where
  abbrev outcome : Str → Value F → Option (NormalizedEvent F)
  outcome repo r = flatten_log_record o r repo

  add_event-after :
      (x : Option (NormalizedEvent F)) (acc : List (NormalizedEvent F) × ℕ)
      → add_event o x acc ≡ after acc (x ∷ [])
  add_event-after none (events, dropped) =
      pair_eq events (events ++ []) (suc dropped) (dropped + 1) (sym (append-nil events))
        (omega arith)
  add_event-after (some e) (events, dropped) =
      pair_eq (events ++ e ∷ []) (events ++ e ∷ []) dropped (dropped + 0) refl (omega arith)

  add_records-after :
      (repo : Str) (rs : Values F) (acc : List (NormalizedEvent F) × ℕ)
      → add_records o repo rs acc ≡ after acc (map (outcome repo) (to_list rs))
  unfolding add_records
  add_records-after repo nil acc = sym (after-nil acc)
  add_records-after repo (cons r rs) acc =
      add_records-after repo rs (add_event o (outcome repo r) acc)
      ∙ ap (λ b. after b (map (outcome repo) (to_list rs))) (add_event-after (outcome repo r) acc)
      ∙ after-append acc (outcome repo r ∷ []) (map (outcome repo) (to_list rs))

  add_scopes-after :
      (repo : Str) (scopes : Values F) (acc : List (NormalizedEvent F) × ℕ)
      → add_scopes o repo scopes acc
        ≡ after acc (map (outcome repo) (under (lit "logRecords") scopes))
  unfolding add_scopes
  add_scopes-after repo nil acc = sym (after-nil acc)
  add_scopes-after repo (cons null vs) acc = add_scopes-after repo vs acc
  add_scopes-after repo (cons (bool x) vs) acc = add_scopes-after repo vs acc
  add_scopes-after repo (cons (int x) vs) acc = add_scopes-after repo vs acc
  add_scopes-after repo (cons (float x) vs) acc = add_scopes-after repo vs acc
  add_scopes-after repo (cons (text x) vs) acc = add_scopes-after repo vs acc
  add_scopes-after repo (cons (array x) vs) acc = add_scopes-after repo vs acc
  add_scopes-after repo (cons (object m) vs) acc =
      let rs = as_slice (at m (lit "logRecords")) in
      let later = under (lit "logRecords") vs in
      add_scopes-after repo vs (add_records o repo rs acc)
      ∙ ap (λ b. after b (map (outcome repo) later)) (add_records-after repo rs acc)
      ∙ after-append acc (map (outcome repo) (to_list rs)) (map (outcome repo) later)
      ∙ ap (λ xs. after acc xs) (sym (map-append (outcome repo) (to_list rs) later))

  add_resources-after :
      (repo : Str) (resources : Values F) (acc : List (NormalizedEvent F) × ℕ)
      → add_resources o repo resources acc
        ≡ after acc (map (outcome repo) (under_two (lit "scopeLogs") (lit "logRecords") resources))
  unfolding add_resources
  add_resources-after repo nil acc = sym (after-nil acc)
  add_resources-after repo (cons null vs) acc = add_resources-after repo vs acc
  add_resources-after repo (cons (bool x) vs) acc = add_resources-after repo vs acc
  add_resources-after repo (cons (int x) vs) acc = add_resources-after repo vs acc
  add_resources-after repo (cons (float x) vs) acc = add_resources-after repo vs acc
  add_resources-after repo (cons (text x) vs) acc = add_resources-after repo vs acc
  add_resources-after repo (cons (array x) vs) acc = add_resources-after repo vs acc
  add_resources-after repo (cons (object m) vs) acc =
      let scopes = as_slice (at m (lit "scopeLogs")) in
      let these = under (lit "logRecords") scopes in
      let later = under_two (lit "scopeLogs") (lit "logRecords") vs in
      add_resources-after repo vs (add_scopes o repo scopes acc)
      ∙ ap (λ b. after b (map (outcome repo) later)) (add_scopes-after repo scopes acc)
      ∙ after-append acc (map (outcome repo) these) (map (outcome repo) later)
      ∙ ap (λ xs. after acc xs) (sym (map-append (outcome repo) these later))

  pub normalize_log_batch-after :
      (payload : Fields F) (repo : Str)
      → normalize_log_batch o payload repo
        ≡ after ([], 0) (map (λ r. flatten_log_record o r repo) (log_records payload))
  unfolding normalize_log_batch
  normalize_log_batch-after payload repo =
      add_resources-after repo (as_slice (at payload (lit "resourceLogs"))) ([], 0)

  -- A request's events are, in their order, the events of those of its log records that give one, and every
  -- other record is counted: events and dropped records make up the records.
  pub normalize_log_batch-Records :
      (payload : Fields F) (repo : Str)
      → let (events, dropped) = normalize_log_batch o payload repo in
        (events ≡ gather (map (λ r. flatten_log_record o r repo) (log_records payload)))
        × (length events + dropped ≡ length (log_records payload))
  normalize_log_batch-Records payload repo =
      let (events, total) =
        after_start (map (λ r. flatten_log_record o r repo) (log_records payload)) in
      rw (normalize_log_batch-after payload repo)
        (events, total ∙ length-map (λ r. flatten_log_record o r repo) (log_records payload))
