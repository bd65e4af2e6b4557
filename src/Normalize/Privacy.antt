-- ===== src/Normalize/Privacy.antt =====
-- What a log record may say: nothing of its body, and of its attributes only those on the allowlist.
use desktop_client.Base.{
  ◌≡◌, refl, sym, ap, ◌∙◌, inl, inr, true, false, Str, lit, str_eq, str_eq_sound, contains, Option,
  none, some, List, [], ◌∷◌, All, Bool-cases,
}
use mathlib.Core.Bool.{true≢false}
use desktop_client.Normalize.Values.{
  Value, null, bool, int, float, text, array, object, Values, nil, cons, Fields, field, end,
  look_up, at, first_attr, Outside, put_attr, add_attr, add_attrs, attrs_to_map,
}
use desktop_client.Normalize.Logs.{
  session_aliases, event_name_of, build_event, named_event, flatten_log_record,
}

-- The attributes that an event is made from.
abbrev pub allowed : List Str
allowed =
    lit "event.name"
    ∷ lit "otel.name"
    ∷ lit "tool_name"
    ∷ lit "tool"
    ∷ lit "codex.op"
    ∷ lit "mcp.server.name"
    ∷ lit "mcp_server"
    ∷ lit "mcp.tool.name"
    ∷ lit "mcp_tool"
    ∷ lit "mcp.server.tool_count"
    ∷ lit "mcp_server_tool_count"
    ∷ lit "mcp.schema.tokens"
    ∷ lit "mcp_schema_tokens"
    ∷ lit "skill_name"
    ∷ lit "success"
    ∷ lit "duration_ms"
    ∷ lit "cost_usd"
    ∷ lit "input_tokens"
    ∷ lit "input_token_count"
    ∷ lit "output_tokens"
    ∷ lit "output_token_count"
    ∷ lit "cache_read_tokens"
    ∷ lit "cached_input_tokens"
    ∷ lit "cached_token_count"
    ∷ lit "cache_creation_tokens"
    ∷ lit "repo"
    ∷ lit "repository"
    ∷ lit "error"
    ∷ lit "error.message"
    ∷ lit "model"
    ∷ lit "slug"
    ∷ lit "event.timestamp"
    ∷ lit "timestamp"
    ∷ lit "session.id"
    ∷ lit "session_id"
    ∷ lit "conversation.id"
    ∷ lit "thread.id"
    ∷ []

module _ {F : Type 0} where
  abbrev pub append_values : Values F → Values F → Values F
  append_values nil ws = ws
  append_values (cons v vs) ws = cons v (append_values vs ws)

  -- Two maps have the same allowed attributes.
  abbrev Agree : Fields F → Fields F → Type 0
  Agree a b = (k : Str) → contains allowed k ≡ true → look_up a k ≡ look_up b k

  first_attr-Agree :
      (a b : Fields F) (names : List Str)
      → Agree a b
      → All (λ k. contains allowed k ≡ true) names
      → first_attr a names ≡ first_attr b names
  unfolding first_attr
  first_attr-Agree a b [] h all = refl
  first_attr-Agree a b (k ∷ ks) h all = rw (h k all.0) (rw (first_attr-Agree a b ks h all.1) refl)

module _ {F : Type 0} (o : Outside F) where
  event_name-Agree : (a b m : Fields F) → Agree a b → event_name_of o a m ≡ event_name_of o b m
  unfolding contains str_eq
  event_name-Agree a b m h = rw (h (lit "event.name") refl, h (lit "otel.name") refl) refl

  build_event-Agree :
      (a b m : Fields F) (repo name : Str)
      → Agree a b
      → build_event o a m repo name ≡ build_event o b m repo name
  unfolding contains str_eq build_event
  build_event-Agree a b m repo name h =
      rw
        (
          first_attr-Agree a b session_aliases h (refl, (refl, (refl, (refl, tt)))),
          h (lit "tool_name") refl,
          h (lit "tool") refl,
          h (lit "codex.op") refl,
          h (lit "mcp.server.name") refl,
          h (lit "mcp_server") refl,
          h (lit "mcp.tool.name") refl,
          h (lit "mcp_tool") refl,
          h (lit "mcp.server.tool_count") refl,
          h (lit "mcp_server_tool_count") refl,
          h (lit "mcp.schema.tokens") refl,
          h (lit "mcp_schema_tokens") refl,
          h (lit "skill_name") refl,
          h (lit "success") refl,
          h (lit "duration_ms") refl,
          h (lit "cost_usd") refl,
          h (lit "input_tokens") refl,
          h (lit "input_token_count") refl,
          h (lit "output_tokens") refl,
          h (lit "output_token_count") refl,
          h (lit "cache_read_tokens") refl,
          h (lit "cached_input_tokens") refl,
          h (lit "cached_token_count") refl,
          h (lit "cache_creation_tokens") refl,
          h (lit "repo") refl,
          h (lit "repository") refl,
          h (lit "error") refl,
          h (lit "error.message") refl,
          h (lit "model") refl,
          h (lit "slug") refl,
          h (lit "event.timestamp") refl,
          h (lit "timestamp") refl,
        )
        refl

  named_event-Agree :
      (a b m m' : Fields F) (repo : Str) (name : Option Str)
      → Agree a b
      → look_up m (lit "timeUnixNano") ≡ look_up m' (lit "timeUnixNano")
      → named_event o a m repo name ≡ named_event o b m' repo name
  unfolding build_event
  named_event-Agree a b m m' repo none h same = refl
  named_event-Agree a b m m' repo (some name) h same =
      ap some (build_event-Agree a b m repo name h ∙ rw same refl)

  put_attr-Agree :
      (key v : Value F) (a b : Fields F)
      → Agree a b
      → Agree (put_attr o key v a) (put_attr o key v b)
  unfolding look_up
  put_attr-Agree null v a b h j t = h j t
  put_attr-Agree (bool x) v a b h j t = h j t
  put_attr-Agree (int x) v a b h j t = h j t
  put_attr-Agree (float x) v a b h j t = h j t
  put_attr-Agree (array x) v a b h j t = h j t
  put_attr-Agree (object x) v a b h j t = h j t
  put_attr-Agree (text k) v a b h j t = elim (Bool-cases (str_eq k [])) [
    | inl e ↦ rw e (h j t)
    | inr e ↦ rw e (rw (h j t) refl)
  ]

  add_attr-Agree :
      (item : Value F) (a b : Fields F) → Agree a b → Agree (add_attr o item a) (add_attr o item b)
  add_attr-Agree null a b h = h
  add_attr-Agree (bool x) a b h = h
  add_attr-Agree (int x) a b h = h
  add_attr-Agree (float x) a b h = h
  add_attr-Agree (text x) a b h = h
  add_attr-Agree (array x) a b h = h
  add_attr-Agree (object m) a b h = put_attr-Agree (at m (lit "key")) (at m (lit "value")) a b h

  add_attrs-Agree :
      (items : Values F) (a b : Fields F)
      → Agree a b
      → Agree (add_attrs o items a) (add_attrs o items b)
  unfolding add_attrs
  add_attrs-Agree nil a b h = h
  add_attrs-Agree (cons item items) a b h =
      add_attrs-Agree items (add_attr o item a) (add_attr o item b) (add_attr-Agree item a b h)

  -- A key off the allowlist is no allowed key.
  other_key :
      (k j : Str) → contains allowed k ≡ false → contains allowed j ≡ true → str_eq k j ≡ false
  other_key k j off on = elim (Bool-cases (str_eq k j)) [
    | inr e ↦ e
    | inl e ↦ absurd (true≢false (sym on ∙ ap (contains allowed) (sym (str_eq_sound k j e)) ∙ off))
  ]

  put_other-Agree :
      (k : Str) (v : Value F) (a : Fields F)
      → contains allowed k ≡ false
      → Agree (put_attr o (text k) v a) a
  unfolding look_up
  put_other-Agree k v a off j t = elim (Bool-cases (str_eq k [])) [
    | inl e ↦ rw e refl
    | inr e ↦ rw e (rw (other_key k j off t) refl)
  ]

  without_item-Agree :
      (pre post : Values F) (item a : Fields F) (k : Str)
      → at item (lit "key") ≡ text k
      → contains allowed k ≡ false
      → Agree
          (add_attrs o (append_values pre (cons (object item) post)) a)
          (add_attrs o (append_values pre post) a)
  unfolding add_attrs
  without_item-Agree nil post item a k e off =
      let v = at item (lit "value") in
      let skipped : Agree (add_attr o (object item) a) a = rw e (put_other-Agree k v a off) in
      add_attrs-Agree post (add_attr o (object item) a) a skipped
  without_item-Agree (cons w pre) post item a k e off =
      without_item-Agree pre post item (add_attr o w a) k e off

  -- Two records with the same allowed attributes, the same name field and the same time give the same event.
  same_record :
      (m m' : Fields F) (repo : Str)
      → Agree (attrs_to_map o (at m (lit "attributes"))) (attrs_to_map o (at m' (lit "attributes")))
      → look_up m (lit "eventName") ≡ look_up m' (lit "eventName")
      → look_up m (lit "timeUnixNano") ≡ look_up m' (lit "timeUnixNano")
      → flatten_log_record o (object m) repo ≡ flatten_log_record o (object m') repo
  unfolding flatten_log_record
  same_record m m' repo agree name time =
      let a = attrs_to_map o (at m (lit "attributes")) in
      let b = attrs_to_map o (at m' (lit "attributes")) in
      named_event-Agree a b m m' repo (event_name_of o a m) agree time
      ∙ ap (named_event o b m' repo) (event_name-Agree a b m agree ∙ rw name refl)

  -- The body of a log record and an attribute off the allowlist, whatever they hold, do not change what the
  -- record becomes: it is the same event as without them, or dropped like the record without them.
  pub flatten_log_record-private :
      (body : Value F) (pre post : Values F) (item rest : Fields F) (k repo : Str)
      → at item (lit "key") ≡ text k
      → contains allowed k ≡ false
      → flatten_log_record o
          (object (
            field (lit "body") body (
              field (lit "attributes") (array (append_values pre (cons (object item) post))) rest)))
          repo
        ≡ flatten_log_record o
            (object (field (lit "attributes") (array (append_values pre post)) rest))
            repo
  unfolding look_up str_eq attrs_to_map
  flatten_log_record-private body pre post item rest k repo key off =
      same_record
        (field (lit "body") body
          (field (lit "attributes") (array (append_values pre (cons (object item) post))) rest))
        (field (lit "attributes") (array (append_values pre post)) rest) repo
        (without_item-Agree pre post item end k key off) refl refl
