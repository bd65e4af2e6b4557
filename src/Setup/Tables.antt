-- ===== src/Setup/Tables.antt =====
-- The tables of a TOML file and the edits of their keys (internal/setup/codex.go). `trim` is
-- strings.TrimSpace.
use desktop_client.Base.{
  ℕ, suc, ◌+◌, ◌-◌, Bool, true, false, ◌&&◌, ◌||◌, Str, lit, str_eq, has_prefix, Option, none, some,
  List, [], ◌∷◌, ◌++◌, map, take, drop, ◌==◌, if◌then◌else◌,
}
use desktop_client.Setup.Lines.{
  split_at, split_lines, join_lines, ensure_trailing_newline, with_depths, is_table_header,
}

abbrev pub first_is : ℕ → Str → Bool
first_is q [] = false
first_is q (c ∷ s) = c == q

abbrev pub last_is : ℕ → Str → Bool
last_is q [] = false
last_is q (c ∷ []) = c == q
last_is q (c ∷ d ∷ s) = last_is q (d ∷ s)

abbrev pub without_last : Str → Str
without_last [] = []
without_last (c ∷ []) = []
without_last (c ∷ d ∷ s) = c ∷ without_last (d ∷ s)

abbrev pub between : Str → Str
between s = without_last (drop 1 s)

abbrev pub has_two : Str → Bool
has_two (c ∷ d ∷ s) = true
has_two _ = false

unfoldable pub unquote_segment : Str → Str
unquote_segment s =
    if has_two s && (first_is 34 s && last_is 34 s || first_is 39 s && last_is 39 s)
    then between s
    else s

unfoldable pub equal_path : List Str → List Str → Bool
equal_path [] [] = true
equal_path (a ∷ as') (b ∷ bs) = str_eq a b && equal_path as' bs
equal_path _ _ = false

-- The text of the lines, each ended.
abbrev pub ended_lines : List Str → Str
ended_lines lines = join_lines lines ++ 10 ∷ []

abbrev pub next_index : Option ℕ → Option ℕ
next_index none = none
next_index (some i) = some (suc i)

abbrev pub key_line : Str → Str → Str
key_line key value = key ++ lit " = " ++ value

unfoldable pub insert_at : List Str → ℕ → Str → List Str
insert_at lines i s = take i lines ++ s ∷ drop i lines

module _ (trim : Str → Str) where
  unfoldable pub split_dotted_key : Str → List Str
  unfolding split_at unquote_segment
  split_dotted_key s = map (λ part. unquote_segment (trim part)) (split_at 46 s)

  unfoldable pub header_key_path : Str → Option (List Str)
  unfolding split_dotted_key is_table_header
  header_key_path line =
      let s = trim line in
      if first_is 91 s && last_is 93 s && is_table_header s
      then some (split_dotted_key (between s))
      else none

  abbrev path_is : Option (List Str) → Str → Bool
  path_is none table = false
  path_is (some path) table = equal_path path (split_dotted_key table)

  unfoldable pub header_matches : Str → Str → Bool
  unfolding header_key_path equal_path
  header_matches line table = path_is (header_key_path line) table

  unfoldable pub find_table : List (Str × ℕ) → Str → Option ℕ
  unfolding header_matches
  find_table [] table = none
  find_table ((line, depth) ∷ lines) table =
      let later = next_index (find_table lines table) in
      if depth == 0 && header_matches line table then some 0 else later

  -- How many lines follow before the next header.
  unfoldable pub body_length : List (Str × ℕ) → ℕ
  unfolding is_table_header
  body_length [] = 0
  body_length ((line, depth) ∷ lines) =
      let rest = suc (body_length lines) in if depth == 0 && is_table_header line then 0 else rest

  unfoldable pub table_end : List (Str × ℕ) → ℕ → ℕ
  unfolding body_length
  table_end lines start = suc start + body_length (drop (suc start) lines)

  -- The index of the first line, outside of brackets, that assigns to the key.
  unfoldable pub find_key : List (Str × ℕ) → Str → Option ℕ
  find_key [] key = none
  find_key ((line, depth) ∷ lines) key =
      let later = next_index (find_key lines key) in
      if depth == 0 && has_prefix (trim line) (key ++ lit " =") then some 0 else later

  abbrev pub is_found : Option ℕ → Bool
  is_found none = false
  is_found (some i) = true

  abbrev pub body : List (Str × ℕ) → ℕ → List (Str × ℕ)
  body lines start = take (table_end lines start - suc start) (drop (suc start) lines)

  unfoldable pub key_present : List (Str × ℕ) → ℕ → Str → Bool
  unfolding find_key table_end
  key_present lines start key = is_found (find_key (body lines start) key)

  abbrev pub last_line : List Str → Str
  last_line [] = []
  last_line (line ∷ []) = line
  last_line (line ∷ next ∷ lines) = last_line (next ∷ lines)

  -- An empty line comes between, unless the file is empty or ends with one.
  abbrev pub separator : List Str → List Str
  separator [] = []
  separator (line ∷ lines) = if str_eq (trim (last_line (line ∷ lines))) [] then [] else [] ∷ []

  unfoldable pub append_table : List Str → Str → Str → Str
  append_table lines table line =
      ended_lines (lines ++ separator lines ++ (lit "[" ++ table ++ lit "]") ∷ line ∷ [])

  abbrev pub ensured : Str → Str → Str → Str → Option ℕ → Str × Bool
  ensured text table key value none =
      (append_table (split_lines text) table (key_line key value), true)
  ensured text table key value (some start) =
      let lines = with_depths 0 (split_lines text) in
      if key_present lines start key then (ensure_trailing_newline text, false) else (
        ended_lines (insert_at (split_lines text) (table_end lines start) (key_line key value)),
        true,
      )

  -- The text, and whether a line was added.
  unfoldable pub ensure_table_key : Str → Str → Str → Str → Str × Bool
  unfolding split_lines with_depths find_table key_present append_table insert_at
  ensure_table_key text table key value =
      ensured text table key value (find_table (with_depths 0 (split_lines text)) table)
