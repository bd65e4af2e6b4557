-- ===== src/Setup/Codex.antt =====
-- editCodex and the edits of the exporter (internal/setup/codex.go). `port` is the text of the port; the
-- descriptions of the changes are left out.
use desktop_client.Base.{
  ℕ, suc, ◌+◌, Bool, true, false, ◌||◌, Str, lit, str_eq, Option, none, some, List, [], ◌∷◌, ◌++◌,
  take, drop, if◌then◌else◌,
}
use desktop_client.Setup.Lines.{split_lines, join_lines, ensure_trailing_newline, with_depths}
use desktop_client.Setup.Tables.{
  ended_lines, key_line, insert_at, find_table, table_end, find_key, body, last_line, append_table,
  ensure_table_key,
}

-- The keys of [otel] that are inserted where they are absent, with their values.
abbrev pub codex_scalars : List (Str × Str)
codex_scalars =
    (lit "environment", lit "\"control-center\"")
    ∷ (lit "metrics_exporter", lit "\"none\"")
    ∷ (lit "trace_exporter", lit "\"none\"")
    ∷ (lit "log_user_prompt", lit "false")
    ∷ []

abbrev pub otel : Str
otel = lit "otel"

abbrev pub codex_exporter_table : Str → Str → Str
codex_exporter_table endpoint token =
    lit "{ otlp-http = { endpoint = \""
    ++ endpoint
    ++ lit "\", protocol = \"json\", headers = { \"X-Burndown-Token\" = \""
    ++ token
    ++ lit "\" } } }"

abbrev set_at : List Str → ℕ → Str → List Str
set_at lines i s = take i lines ++ s ∷ drop (suc i) lines

abbrev line_at : List Str → ℕ → Str
line_at lines i = first_line (drop i lines)
  where
    first_line : List Str → Str
    first_line [] = []
    first_line (line ∷ rest) = line

module _ (trim : Str → Str) where
  abbrev replaced : List Str → ℕ → ℕ → Str → Option ℕ → Str × Bool
  replaced lines start end_index wanted none =
      (ended_lines (insert_at lines end_index wanted), true)
  replaced lines start end_index wanted (some i) =
      let at = suc start + i in
      if str_eq (trim (line_at lines at)) wanted
      then (ended_lines lines, false)
      else (ended_lines (set_at lines at wanted), true)

  abbrev replaced_in : Str → Str → Str → Str → Option ℕ → Str × Bool
  replaced_in text table key value none =
      (append_table trim (split_lines text) table (key_line key value), true)
  replaced_in text table key value (some start) =
      let lines = split_lines text in
      let depths = with_depths 0 lines in
      replaced lines start (table_end trim depths start) (key_line key value)
        (find_key trim (body trim depths start) key)

  unfoldable pub replace_or_insert_table_key : Str → Str → Str → Str → Str × Bool
  unfolding split_lines with_depths find_table find_key table_end append_table insert_at
  replace_or_insert_table_key text table key value =
      replaced_in text table key value (find_table trim (with_depths 0 (split_lines text)) table)

  -- Empty lines are dropped while one stands before them.
  unfoldable pub drop_blank : List Str → List Str
  drop_blank [] = []
  drop_blank (line ∷ lines) =
      let rest = drop_blank lines in if str_eq (trim line) [] then rest else line ∷ lines

  abbrev collapsed : List Str → List Str → List Str
  collapsed [] rest = rest
  collapsed (line ∷ lines) rest =
      (line ∷ lines)
      ++ (if str_eq (trim (last_line trim (line ∷ lines))) [] then drop_blank rest else rest)

  abbrev removed : Str → Option ℕ → Str × Bool
  removed text none = (ensure_trailing_newline text, false)
  removed text (some start) =
      let lines = split_lines text in
      let after = drop (table_end trim (with_depths 0 lines) start) lines in
      (ensure_trailing_newline (join_lines (collapsed (take start lines) after)), true)

  unfoldable pub remove_table : Str → Str → Str × Bool
  unfolding split_lines join_lines with_depths find_table table_end ensure_trailing_newline
      drop_blank
  remove_table text table = removed text (find_table trim (with_depths 0 (split_lines text)) table)

  unfoldable pub ensure_codex_exporter : Str → Str → Str × Bool
  unfolding replace_or_insert_table_key remove_table
  ensure_codex_exporter text rendered =
      let (text1, changed) = replace_or_insert_table_key text otel (lit "exporter") rendered in
      let (text2, removed2) = remove_table text1 (lit "otel.exporter.\"otlp-http\"") in
      let (text3, removed3) = remove_table text2 (lit "otel.exporter.otlp-http") in
      (text3, changed || removed2 || removed3)

  -- The text, and the keys that were added.
  unfoldable pub ensure_scalars : List (Str × Str) → Str → Str × List Str
  unfolding ensure_table_key
  ensure_scalars [] text = (text, [])
  ensure_scalars ((key, value) ∷ scalars) text =
      let (text1, added) = ensure_table_key trim text otel key value in
      let (text2, keys) = ensure_scalars scalars text1 in
      (text2, if added then key ∷ keys else keys)

  -- The text, the keys that were added, and whether the exporter was changed.
  unfoldable pub edit_codex : Str → Str → Str → Str × List Str × Bool
  unfolding ensure_scalars ensure_codex_exporter
  edit_codex text port token =
      let endpoint = lit "http://127.0.0.1:" ++ port ++ lit "/v1/logs" in
      let (text1, keys) = ensure_scalars codex_scalars text in
      let (text2, changed) = ensure_codex_exporter text1 (codex_exporter_table endpoint token) in
      (ensure_trailing_newline text2, keys, changed)
