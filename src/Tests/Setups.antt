-- ===== src/Tests/Setups.antt =====
-- The theorem on the edit of a TOML file, on a file with one table.
use desktop_client.Base.{◌≡◌, refl, true, [], ◌∷◌, ◌++◌, lit, str_eq}
use desktop_client.Setup.Lines.{join_lines}
use desktop_client.Setup.Tables.{ensure_table_key}
use desktop_client.Setup.Keeping.{Keeps, ensure_table_key-Keeps}

ensure_table_key-Keeps_example :
    Keeps
      (λ s. s)
      (lit "[otel]")
      (lit "otel")
      (lit "environment")
      (lit "1")
      (ensure_table_key (λ s. s) (lit "[otel]") (lit "otel") (lit "environment") (lit "1"))
ensure_table_key-Keeps_example =
    ensure_table_key-Keeps (λ s. s) (lit "[otel]") (lit "otel") (lit "environment") (lit "1")

-- The key goes to the end of its table.
insert_runs :
    ensure_table_key (λ s. s) (lit "[otel]" ++ (10 ∷ lit "[b]")) (lit "otel") (lit "k") (lit "1")
    ≡ (lit "[otel]" ++ (10 ∷ (lit "k = 1" ++ (10 ∷ (lit "[b]" ++ (10 ∷ []))))), true)
unfolding ensure_table_key str_eq join_lines
insert_runs = refl
