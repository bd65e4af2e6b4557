-- ===== src/Normalize/Clean.antt =====
-- What the fields of an event may hold: labels without paths or structure, bounded counts, a bounded error.
use desktop_client.Base.{
  ℕ, zero, suc, ◌%◌, ◌≤◌, ◌<◌, ◌≡◌, refl, inl, inr, true, false, ◌||◌, Str, lit, str_eq,
  contains_text, has_prefix, trim_prefix, Option, none, some, List, [], ◌∷◌, map, length, take,
  length-take, All, arith, ltb, Bool-cases, if_both,
}
use desktop_client.Base.Words.{two63, two64, less64}
use desktop_client.Api.{NormalizedEvent}
use desktop_client.Normalize.Values.{
  Value, null, bool, int, float, text, array, object, Fields, at, Outside, attrs_to_map, py_or,
}
use desktop_client.Normalize.Fields.{
  max_mcp_server_len, max_mcp_tool_len, max_tool_name_len, max_skill_name_len,
  max_mcp_server_tool_count, max_mcp_schema_tokens, max_error_message_len, unsafe_bytes,
  contains_any, join_words, split_once, namespaced, normalize_event_name, unsafe_display_identity,
  checked_label, display_identity, both_parts, mcp_parts, derive_mcp_identity, int_or_nil, within,
  bounded_int, cut_valid, truncated, as_string,
}
use desktop_client.Normalize.Logs.{
  or_derived, build_event, event_name_of, tool_name_of, mcp_server_of, mcp_tool_of, named_event,
  flatten_log_record, normalize_log_batch,
}
use desktop_client.Normalize.Batches.{gather, log_records, normalize_log_batch-Records}

abbrev Of : {A : Type 0} → (A → Type 0) → Option A → Type 0
Of P none = Unit
Of P (some a) = P a

module _ {F : Type 0} (o : Outside F) where
  -- A text of at most so many bytes, valid UTF-8 without a control character, and none of the bytes of a
  -- path, a URL, an assignment or a structured value.
  abbrev pub IsLabel : ℕ → Str → Type 0
  IsLabel max_len s =
      (length s ≤ max_len)
      × (str_eq s [] ≡ false)
      × (o.valid_utf8 s ≡ true)
      × (contains_any s unsafe_bytes ≡ false)
      × (contains_text s (lit "://") ≡ false)
      × (o.has_control s ≡ false)

  abbrev pub IsCut : Str → Type 0
  IsCut s = length s ≤ max_error_message_len

  -- The event's name has a namespace, and its other texts and counts are bounded.
  abbrev pub IsClean : NormalizedEvent F → Type 0
  IsClean e =
      Of (λ s. contains_text s (lit ".") ≡ true) e.event_name
      × Of (IsLabel max_tool_name_len) e.tool_name
      × Of (IsLabel max_mcp_server_len) e.mcp_server
      × Of (IsLabel max_mcp_tool_len) e.mcp_tool
      × Of (IsLabel max_skill_name_len) e.skill_name
      × Of (λ n. n % two64 ≤ max_mcp_server_tool_count) e.mcp_server_tool_count
      × Of (λ n. n % two64 ≤ max_mcp_schema_tokens) e.mcp_schema_tokens
      × Of IsCut e.error_message

  safe-IsLabel :
      (max_len : ℕ) (s : Str)
      → ltb max_len (length s) ≡ false
      → str_eq s [] ≡ false
      → unsafe_display_identity o s ≡ false
      → IsLabel max_len s
  unfolding unsafe_display_identity
  safe-IsLabel max_len s short full safe = elim (Bool-cases (o.valid_utf8 s)) [
    | inr e ↦ cc
    | inl e ↦ elim (Bool-cases (contains_any s unsafe_bytes)) [
      | inl f ↦ cc
      | inr f ↦ elim (Bool-cases (contains_text s (lit "://"))) [
        | inl g ↦ cc
        | inr g ↦ (ground arith, full, e, f, g, cc)
      ]
    ]
  ]

  checked_label-IsLabel : (max_len : ℕ) (s : Str) → Of (IsLabel max_len) (checked_label o max_len s)
  checked_label-IsLabel max_len s = elim (Bool-cases (str_eq s [])) [
    | inl e ↦ rw e tt
    | inr e ↦ elim (Bool-cases (ltb max_len (length s))) [
      | inl f ↦ rw e (rw f tt)
      | inr f ↦ elim (Bool-cases (unsafe_display_identity o s)) [
        | inl g ↦ rw e (rw f (rw g tt))
        | inr g ↦ rw e (rw f (rw g (safe-IsLabel max_len s f e g)))
      ]
    ]
  ]

  display_identity-IsLabel :
      (max_len : ℕ) (v : Value F) → Of (IsLabel max_len) (display_identity o max_len v)
  unfolding display_identity
  display_identity-IsLabel max_len (text s) = checked_label-IsLabel max_len (join_words (o.words s))
  display_identity-IsLabel max_len null = tt
  display_identity-IsLabel max_len (bool x) = tt
  display_identity-IsLabel max_len (int x) = tt
  display_identity-IsLabel max_len (float x) = tt
  display_identity-IsLabel max_len (array x) = tt
  display_identity-IsLabel max_len (object x) = tt

  both_parts-Of :
      (P Q : Str → Type 0) (a b : Option Str)
      → Of P a
      → Of Q b
      → Of P (both_parts o a b).0 × Of Q (both_parts o a b).1
  both_parts-Of P Q none b p q = (tt, tt)
  both_parts-Of P Q (some s) none p q = (tt, tt)
  both_parts-Of P Q (some s) (some t) p q = (p, q)

  abbrev AreLabels : Option Str × Option Str → Type 0
  AreLabels r = Of (IsLabel max_mcp_server_len) r.0 × Of (IsLabel max_mcp_tool_len) r.1

  mcp_parts-AreLabels : (parts : Option (Str × Str)) → AreLabels (mcp_parts o parts)
  mcp_parts-AreLabels none = (tt, tt)
  mcp_parts-AreLabels (some (server, tool)) =
      both_parts-Of (IsLabel max_mcp_server_len) (IsLabel max_mcp_tool_len)
        (display_identity o max_mcp_server_len (text server))
        (display_identity o max_mcp_tool_len (text tool))
        (display_identity-IsLabel max_mcp_server_len (text server))
        (display_identity-IsLabel max_mcp_tool_len (text tool))

  derive_mcp_identity-AreLabels :
      (tool_name : Option Str) → AreLabels (derive_mcp_identity o tool_name)
  unfolding derive_mcp_identity
  derive_mcp_identity-AreLabels none = (tt, tt)
  derive_mcp_identity-AreLabels (some s) =
      if_both AreLabels (has_prefix s (lit "mcp__"))
        (mcp_parts-AreLabels (split_once (lit "__") (trim_prefix s (lit "mcp__")))) (tt, tt)

  or_derived-Of : (P : Str → Type 0) (a b : Option Str) → Of P a → Of P b → Of P (or_derived a b)
  or_derived-Of P none b p q = q
  or_derived-Of P (some s) b p q = p

  within_bound :
      (high : ℕ) (n : Option ℕ) → high < two63 → Of (λ m. m % two64 ≤ high) (within o 0 high n)
  unfolding less64
  within_bound high none h = tt
  within_bound high (some n) h = elim (Bool-cases (less64 n 0)) [
    | inl e ↦ rw e tt
    | inr e ↦ elim (Bool-cases (less64 high n)) [
      | inl f ↦ rw e (rw f tt)
      | inr f ↦ rw e (rw f (ground arith))
    ]
  ]

  cut_valid-IsCut : (n : ℕ) (s : Str) → length (cut_valid o n s) ≤ n
  unfolding cut_valid
  cut_valid-IsCut zero s = omega arith
  cut_valid-IsCut (suc n) s =
      if_both (λ (t : Str). length t ≤ suc n) (o.valid_utf8 (take (suc n) s))
        (omega (arith, length-take (suc n) s)) (omega (arith, cut_valid-IsCut n s))

  truncated-IsCut : (s : Option Str) → Of IsCut (truncated o s)
  unfolding truncated
  truncated-IsCut none = tt
  truncated-IsCut (some s) = elim (Bool-cases (ltb max_error_message_len (length s))) [
    | inl e ↦ rw e (cut_valid-IsCut max_error_message_len s)
    | inr e ↦ rw e (ground arith)
  ]

  abbrev HasNamespace : Str → Type 0
  HasNamespace s = contains_text s (lit ".") ≡ true

  namespaced-HasNamespace : (s : Str) → HasNamespace (namespaced s)
  unfolding contains_text has_prefix
  namespaced-HasNamespace s = elim (Bool-cases (contains_text s (lit "."))) [
    | inl e ↦ rw e e
    | inr e ↦ rw e refl
  ]

  normalize_event_name-HasNamespace : (v : Value F) → Of HasNamespace (normalize_event_name v)
  unfolding normalize_event_name
  normalize_event_name-HasNamespace (text s) =
      if_both (Of HasNamespace) (str_eq s [] || str_eq s (lit "codex.")) tt
        (namespaced-HasNamespace s)
  normalize_event_name-HasNamespace null = tt
  normalize_event_name-HasNamespace (bool x) = tt
  normalize_event_name-HasNamespace (int x) = tt
  normalize_event_name-HasNamespace (float x) = tt
  normalize_event_name-HasNamespace (array x) = tt
  normalize_event_name-HasNamespace (object x) = tt

  build_event-IsClean :
      (attrs m : Fields F) (repo name : Str)
      → HasNamespace name
      → IsClean (build_event o attrs m repo name)
  unfolding build_event bounded_int
  build_event-IsClean attrs m repo name named =
      let derived = derive_mcp_identity-AreLabels (tool_name_of o attrs) in
      let server = py_or o (at attrs (lit "mcp.server.name") ∷ at attrs (lit "mcp_server") ∷ []) in
      let tool = py_or o (at attrs (lit "mcp.tool.name") ∷ at attrs (lit "mcp_tool") ∷ []) in
      (
        named,
        display_identity-IsLabel max_tool_name_len (
            py_or o (
              at attrs (lit "tool_name") ∷ at attrs (lit "tool") ∷ at attrs (lit "codex.op") ∷ [])),
        or_derived-Of (IsLabel max_mcp_server_len) (mcp_server_of o attrs)
            (derive_mcp_identity o (tool_name_of o attrs)).0
            (display_identity-IsLabel max_mcp_server_len server) derived.0,
        or_derived-Of (IsLabel max_mcp_tool_len) (mcp_tool_of o attrs)
            (derive_mcp_identity o (tool_name_of o attrs)).1
            (display_identity-IsLabel max_mcp_tool_len tool) derived.1,
        display_identity-IsLabel max_skill_name_len (at attrs (lit "skill_name")),
        within_bound max_mcp_server_tool_count
            (int_or_nil o (
              py_or o (
                at attrs (lit "mcp.server.tool_count")
                ∷ at attrs (lit "mcp_server_tool_count")
                ∷ [])))
            (omega arith),
        within_bound max_mcp_schema_tokens
            (int_or_nil o (
              py_or o
                (at attrs (lit "mcp.schema.tokens") ∷ at attrs (lit "mcp_schema_tokens") ∷ [])))
            (omega arith),
        truncated-IsCut
            (as_string (py_or o (at attrs (lit "error") ∷ at attrs (lit "error.message") ∷ []))),
      )

  named_event-IsClean :
      (attrs m : Fields F) (repo : Str) (name : Option Str)
      → Of HasNamespace name
      → Of IsClean (named_event o attrs m repo name)
  named_event-IsClean attrs m repo none h = tt
  named_event-IsClean attrs m repo (some name) h = build_event-IsClean attrs m repo name h

  flatten_log_record-IsClean : (r : Value F) (repo : Str) → Of IsClean (flatten_log_record o r repo)
  unfolding flatten_log_record
  flatten_log_record-IsClean (object m) repo =
      let attrs = attrs_to_map o (at m (lit "attributes")) in
      named_event-IsClean attrs m repo (event_name_of o attrs m) (
        normalize_event_name-HasNamespace (
          py_or o (
            at attrs (lit "event.name")
            ∷ at attrs (lit "otel.name")
            ∷ at m (lit "eventName")
            ∷ [])))
  flatten_log_record-IsClean null repo = tt
  flatten_log_record-IsClean (bool x) repo = tt
  flatten_log_record-IsClean (int x) repo = tt
  flatten_log_record-IsClean (float x) repo = tt
  flatten_log_record-IsClean (text x) repo = tt
  flatten_log_record-IsClean (array x) repo = tt

  gather-IsClean :
      (repo : Str) (rs : List (Value F))
      → All IsClean (gather (map (λ r. flatten_log_record o r repo) rs))
  gather-IsClean repo [] = tt
  gather-IsClean repo (r ∷ rs) =
      with_first (flatten_log_record o r repo) (map (λ r. flatten_log_record o r repo) rs)
        (flatten_log_record-IsClean r repo) (gather-IsClean repo rs)
    where
      with_first :
          (e : Option (NormalizedEvent F)) (es : List (Option (NormalizedEvent F)))
          → Of IsClean e
          → All IsClean (gather es)
          → All IsClean (gather (e ∷ es))
      with_first none es h hs = hs
      with_first (some e) es h hs = (h, hs)

  -- Whatever a request holds: each event's name has a namespace, the names of its tool, its MCP server and
  -- tool and its skill are absent or short labels without the bytes of paths, URLs, assignments and
  -- structured values, its MCP counts are absent or within their limits, and its error has at most 2048 bytes.
  pub normalize_log_batch-IsClean :
      (payload : Fields F) (repo : Str) → All IsClean (normalize_log_batch o payload repo).0
  normalize_log_batch-IsClean payload repo =
      rw (normalize_log_batch-Records o payload repo).0 (gather-IsClean repo (log_records payload))
