-- ===== src/Normalize/Fields.antt =====
-- The typed fields of an event, from the values of attributes (internal/normalize/normalize.go). A value
-- that does not fit is left out.
use desktop_client.Base.{
  ℕ, zero, suc, Bool, true, false, not, ◌||◌, Str, lit, str_eq, has_prefix, trim_prefix,
  contains_text, Option, none, some, List, [], ◌∷◌, ◌++◌, length, take, drop, elem, ltb, ◌==◌,
  if◌then◌else◌,
}
use desktop_client.Base.Words.{less64}
use desktop_client.Normalize.Values.{
  Value, bool, int, float, text, Fields, at, Outside, nano_to_iso, py_or,
}

-- displayIdentity's limits in bytes, and boundedInt's.
abbrev pub max_mcp_server_len : ℕ
max_mcp_server_len = 120

abbrev pub max_mcp_tool_len : ℕ
max_mcp_tool_len = 160

abbrev pub max_tool_name_len : ℕ
max_tool_name_len = 160

abbrev pub max_skill_name_len : ℕ
max_skill_name_len = 160

abbrev pub max_mcp_server_tool_count : ℕ
max_mcp_server_tool_count = 10000

abbrev pub max_mcp_schema_tokens : ℕ
max_mcp_schema_tokens = 10000000

abbrev pub max_error_message_len : ℕ
max_error_message_len = 2048

abbrev pub claude_namespace : Str
claude_namespace = lit "claude_code."

-- / \ NUL CR LF { } [ ] = < >
abbrev pub unsafe_bytes : List ℕ
unsafe_bytes = 47 ∷ 92 ∷ 0 ∷ 13 ∷ 10 ∷ 123 ∷ 125 ∷ 91 ∷ 93 ∷ 61 ∷ 60 ∷ 62 ∷ []

-- strings.ContainsAny, for bytes of ASCII
unfoldable pub contains_any : Str → List ℕ → Bool
contains_any [] bytes = false
contains_any (c ∷ s) bytes = elem c bytes || contains_any s bytes

-- strings.Join with a space
unfoldable pub join_words : List Str → Str
join_words [] = []
join_words (w ∷ []) = w
join_words (w ∷ v ∷ ws) = w ++ lit " " ++ join_words (v ∷ ws)

abbrev pub cons_before : ℕ → Option (Str × Str) → Option (Str × Str)
cons_before c none = none
cons_before c (some (before, after)) = some (c ∷ before, after)

-- strings.SplitN into two parts, `none` where the separator does not occur
unfoldable pub split_once : Str → Str → Option (Str × Str)
split_once sep [] = none
split_once sep (c ∷ s) =
    let rest = split_once sep s in
    if has_prefix (c ∷ s) sep then some ([], drop (length sep) (c ∷ s)) else cons_before c rest

abbrev pub namespaced : Str → Str
namespaced s = if contains_text s (lit ".") then s else claude_namespace ++ s

module _ {F : Type 0} where
  abbrev pub as_string : Value F → Option Str
  as_string (text s) = if str_eq s [] then none else some s
  as_string _ = none

  unfoldable pub normalize_event_name : Value F → Option Str
  normalize_event_name (text s) =
      if str_eq s [] || str_eq s (lit "codex.") then none else some (namespaced s)
  normalize_event_name _ = none

module _ {F : Type 0} (o : Outside F) where
  unfoldable pub unsafe_display_identity : Str → Bool
  unsafe_display_identity s =
      if o.valid_utf8 s
      then if contains_any s unsafe_bytes || contains_text s (lit "://")
        then true
        else o.has_control s
      else true

  abbrev pub checked_label : ℕ → Str → Option Str
  checked_label max_len s =
      if str_eq s [] || ltb max_len (length s) || unsafe_display_identity s then none else some s

  unfoldable pub display_identity : ℕ → Value F → Option Str
  unfolding unsafe_display_identity
  display_identity max_len (text s) = checked_label max_len (join_words (o.words s))
  display_identity max_len _ = none

  abbrev pub both_parts : Option Str → Option Str → Option Str × Option Str
  both_parts (some server) (some tool) = (some server, some tool)
  both_parts _ _ = (none, none)

  abbrev pub mcp_parts : Option (Str × Str) → Option Str × Option Str
  mcp_parts none = (none, none)
  mcp_parts (some (server, tool)) =
      both_parts (display_identity max_mcp_server_len (text server))
        (display_identity max_mcp_tool_len (text tool))

  unfoldable pub derive_mcp_identity : Option Str → Option Str × Option Str
  unfolding display_identity
  derive_mcp_identity none = (none, none)
  derive_mcp_identity (some tool_name) =
      if has_prefix tool_name (lit "mcp__")
      then mcp_parts (split_once (lit "__") (trim_prefix tool_name (lit "mcp__")))
      else (none, none)

  abbrev pub int_or_nil : Value F → Option ℕ
  int_or_nil (int n) = some n
  int_or_nil (float x) = some (o.float_to_int x)
  int_or_nil (text s) = o.parse_int (o.trim_space s)
  int_or_nil _ = none

  abbrev pub float_or_nil : Value F → Option F
  float_or_nil (float x) = some x
  float_or_nil (int n) = some (o.int_to_float n)
  float_or_nil (text s) = o.parse_float (o.trim_space s)
  float_or_nil _ = none

  abbrev pub within : ℕ → ℕ → Option ℕ → Option ℕ
  within low high none = none
  within low high (some n) = if less64 n low || less64 high n then none else some n

  unfoldable pub bounded_int : ℕ → ℕ → Value F → Option ℕ
  bounded_int low high v = within low high (int_or_nil v)

  abbrev pub boolish_text : Str → Option Bool
  boolish_text s =
      if str_eq s (lit "1")
        || str_eq s (lit "true")
        || str_eq s (lit "yes")
        || str_eq s (lit "ok")
        || str_eq s (lit "success")
      then some true
      else if str_eq s (lit "0")
          || str_eq s (lit "false")
          || str_eq s (lit "no")
          || str_eq s (lit "error")
          || str_eq s (lit "failure")
      then some false
      else none

  abbrev pub boolish : Value F → Option Bool
  boolish (bool b) = some b
  boolish (int n) = some (not (n == 0))
  boolish (float x) = some (not (o.float_to_int x == 0))
  boolish (text s) = boolish_text (o.lower (o.trim_space s))
  boolish _ = none

  -- The first `n` bytes, or so many fewer that no rune is cut.
  unfoldable pub cut_valid : ℕ → Str → Str
  cut_valid zero s = []
  cut_valid (suc n) s =
      let shorter = cut_valid n s in
      if o.valid_utf8 (take (suc n) s) then take (suc n) s else shorter

  unfoldable pub truncated : Option Str → Option Str
  unfolding cut_valid
  truncated none = none
  truncated (some s) =
      some (if ltb max_error_message_len (length s) then cut_valid max_error_message_len s else s)

  abbrev pub or_now : Option Str → Option Str
  or_now none = some o.now_iso
  or_now (some s) = some s

  abbrev pub event_timestamp : Fields F → Fields F → Option Str
  event_timestamp attrs record_map = or_now (
      as_string (
        py_or o (
          at attrs (lit "event.timestamp")
          ∷ at attrs (lit "timestamp")
          ∷ nano_to_iso o (at record_map (lit "timeUnixNano"))
          ∷ text o.now_iso
          ∷ [])))
