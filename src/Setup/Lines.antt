-- ===== src/Setup/Lines.antt =====
-- The lines of a TOML file and their bracket depths (internal/setup/codex.go).
use desktop_client.Base.{
  ℕ, suc, ◌+◌, ◌-◌, Bool, true, false, ◌&&◌, ◌||◌, Str, str_eq, Option, none, some, List, [], ◌∷◌,
  ◌++◌, ◌==◌, if◌then◌else◌,
}

-- strings.Split at a byte
abbrev pub cons_first : ℕ → List Str → List Str
cons_first c [] = (c ∷ []) ∷ []
cons_first c (part ∷ parts) = (c ∷ part) ∷ parts

unfoldable pub split_at : ℕ → Str → List Str
split_at sep [] = [] ∷ []
split_at sep (c ∷ s) =
    let parts = split_at sep s in if c == sep then [] ∷ parts else cons_first c parts

abbrev pub drop_last_empty : List Str → List Str
drop_last_empty [] = []
drop_last_empty ([] ∷ []) = []
drop_last_empty (part ∷ parts) = part ∷ drop_last_empty parts

unfoldable pub split_lines : Str → List Str
unfolding split_at
split_lines [] = []
split_lines (c ∷ s) = drop_last_empty (split_at 10 (c ∷ s))

-- strings.Join with a line feed
unfoldable pub join_lines : List Str → Str
join_lines [] = []
join_lines (line ∷ []) = line
join_lines (line ∷ next ∷ lines) = line ++ 10 ∷ join_lines (next ∷ lines)

abbrev pub ends_line : Str → Bool
ends_line [] = false
ends_line (c ∷ []) = c == 10
ends_line (c ∷ d ∷ s) = ends_line (d ∷ s)

unfoldable pub ensure_trailing_newline : Str → Str
ensure_trailing_newline text = if str_eq text [] || ends_line text then text else text ++ 10 ∷ []

-- The line without its quoted texts and its comment. `quote` is the quotation mark that is open, if one is.
unfoldable pub strip : Option ℕ → Str → Str
strip quote [] = []
strip (some q) (c ∷ line) = strip (if c == q then none else some q) line
strip none (c ∷ line) =
    let quoted = strip (some c) line in
    let rest = strip none line in
    if c == 35 then [] else if c == 34 || c == 39 then quoted else c ∷ rest

unfoldable pub opening : Str → ℕ
opening [] = 0
opening (c ∷ s) = let rest = opening s in if c == 91 || c == 123 then suc rest else rest

unfoldable pub closing : Str → ℕ
closing [] = 0
closing (c ∷ s) = let rest = closing s in if c == 93 || c == 125 then suc rest else rest

-- The depth after a line; it does not fall below 0.
unfoldable pub next_depth : ℕ → Str → ℕ
unfolding strip opening closing
next_depth depth line = let s = strip none line in (depth + opening s) - closing s

-- Each line with the depth that it begins at.
unfoldable pub with_depths : ℕ → List Str → List (Str × ℕ)
unfolding next_depth
with_depths depth [] = []
with_depths depth (line ∷ lines) = (line, depth) ∷ with_depths (next_depth depth line) lines

-- White space as the regular expression has it.
abbrev pub is_space : ℕ → Bool
is_space c = c == 32 || c == 9 || c == 10 || c == 12 || c == 13

unfoldable pub all_space : Str → Bool
all_space [] = true
all_space (c ∷ s) = is_space c && all_space s

-- After the opening bracket, `inside` of the first byte: the rest of the name, the closing bracket, and space.
unfoldable pub closes_header : Bool → Str → Bool
unfolding all_space
closes_header inside [] = false
closes_header inside (c ∷ s) =
    let later = closes_header true s in if c == 93 then inside && all_space s else later

-- tableHeaderRe
unfoldable pub is_table_header : Str → Bool
unfolding closes_header
is_table_header [] = false
is_table_header (c ∷ s) =
    let later = is_table_header s in if c == 91 then closes_header false s else is_space c && later
