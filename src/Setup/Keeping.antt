-- ===== src/Setup/Keeping.antt =====
-- What the insertion of a key leaves of the file.
use desktop_client.Base.{
  ℕ, zero, suc, ◌≡◌, refl, sym, ap, ◌∙◌, ◌⊎◌, inl, inr, Bool, true, false, Str, lit, Option, none,
  some, List, [], ◌∷◌, ◌++◌, take, drop, if◌then◌else◌,
}
use mathlib.Core.List.{append_assoc, append-nil}
use desktop_client.Setup.Lines.{split_lines, ensure_trailing_newline, with_depths}
use desktop_client.Setup.Tables.{
  ended_lines, key_line, insert_at, find_table, key_present, table_end, separator, append_table,
  ensured, ensure_table_key,
}

pub take-drop : (n : ℕ) (xs : List Str) → take n xs ++ drop n xs ≡ xs
take-drop zero xs = refl
take-drop (suc n) [] = refl
take-drop (suc n) (x ∷ xs) = ap (λ ys. x ∷ ys) (take-drop n xs)

module _ (trim : Str → Str) (text table key value : Str) where
  abbrev new_header : List Str
  new_header = separator trim (split_lines text) ++ (lit "[" ++ table ++ lit "]") ∷ []

  -- The lines of before, with the line of the key between two of them or, behind a new header, at their end.
  abbrev pub Keeps : Str × Bool → Type 0
  Keeps (text', false) = text' ≡ ensure_trailing_newline text
  Keeps (text', true) =
      (before : List Str) × (after : List Str) × (header : List Str) × (before ++ after
        ≡ split_lines text)
      × ((header ≡ []) ⊎ ((after ≡ []) × (header ≡ new_header)))
      × (text' ≡ ended_lines (before ++ (header ++ (key_line key value ∷ after))))

  found-Keeps :
      (start : ℕ) (present : Bool)
      → Keeps (
          if present then (ensure_trailing_newline text, false) else (
            ended_lines (
                insert_at
                  (split_lines text)
                  (table_end trim (with_depths 0 (split_lines text)) start)
                  (key_line key value)),
            true,
          ))
  unfolding insert_at
  found-Keeps start true = refl
  found-Keeps start false =
      let lines = split_lines text in
      let at = table_end trim (with_depths 0 lines) start in
      (take at lines, drop at lines, [], take-drop at lines, inl refl, refl)

  ensured-Keeps : (r : Option ℕ) → Keeps (ensured trim text table key value r)
  unfolding key_present append_table insert_at
  ensured-Keeps none =
      let lines = split_lines text in
      let line = key_line key value ∷ [] in
      (
        lines,
        [],
        new_header,
        append-nil lines,
        inr (refl, refl),
        ap ended_lines (
            append_assoc lines (separator trim lines) ((lit "[" ++ table ++ lit "]") ∷ line)
            ∙ ap (λ xs. lines ++ xs)
                (sym
                  (append_assoc (separator trim lines) ((lit "[" ++ table ++ lit "]") ∷ []) line))),
      )
  ensured-Keeps (some start) =
      found-Keeps start (key_present trim (with_depths 0 (split_lines text)) start key)

  -- An insertion of a key keeps every line of the file in its place: where it reports no change the text is the
  -- one of before, but for a final line feed; otherwise the lines are those of before with the one line of the
  -- key between two of them, or at their end behind the header of the new table.
  pub ensure_table_key-Keeps : Keeps (ensure_table_key trim text table key value)
  unfolding ensure_table_key
  ensure_table_key-Keeps = ensured-Keeps (find_table trim (with_depths 0 (split_lines text)) table)
