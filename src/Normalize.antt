-- ===== src/Normalize.antt =====
-- internal/normalize: an OTLP request, decoded into maps, becomes events and points. Values reads the values
-- (value.go), Fields the typed fields, Logs the log records (normalize.go) and Metrics the data points
-- (metrics.go).
pub mod Values
pub mod Fields
pub mod Logs
pub mod Metrics
pub mod Batches
pub mod Points
pub mod Unnamed
pub mod Clean
pub mod Privacy
