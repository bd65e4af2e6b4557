-- ===== src/Setup.antt =====
-- internal/setup/codex.go: the edit of Codex's config.toml, line by line. Lines has the lines and their depths,
-- Tables the tables and their keys, Codex the edit, and Keeping what an insertion leaves of the file.
pub mod Lines
pub mod Tables
pub mod Codex
pub mod Keeping
