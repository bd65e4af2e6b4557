-- ===== src/Counters.antt =====
-- internal/counters: the registry of named int64 counters (counters.go), and those of the names
-- (names.go) that the uploader and the daemon write.
use desktop_client.Base.{ℕ, Str, lit, str_eq, if◌then◌else◌}
use desktop_client.Base.Words.{add64}

pub record Registry : Type 0 where
  pub vals : Str → ℕ

abbrev pub new_registry : Registry
new_registry = record { vals = λ name. 0 }

unfoldable pub add : Str → ℕ → Registry → Registry
add name delta r = record { vals = λ n. if str_eq n name then add64 (r.vals n) delta else r.vals n }

unfoldable pub set : Str → ℕ → Registry → Registry
set name value r = record { vals = λ n. if str_eq n name then value else r.vals n }

abbrev pub uploaded : Str
uploaded = lit "uploaded"

abbrev pub upload_dropped : Str
upload_dropped = lit "upload_dropped"

abbrev pub upload_errors : Str
upload_errors = lit "upload_errors"

abbrev pub heartbeat_errors : Str
heartbeat_errors = lit "heartbeat_errors"

abbrev pub last_upload_at : Str
last_upload_at = lit "last_upload_at"

abbrev pub last_heartbeat_at : Str
last_heartbeat_at = lit "last_heartbeat_at"

abbrev pub auth_failed : Str
auth_failed = lit "auth_failed"

abbrev pub metrics_uploaded : Str
metrics_uploaded = lit "metrics_uploaded"

abbrev pub received : Str
received = lit "received"

abbrev pub normalized : Str
normalized = lit "normalized"

abbrev pub filtered : Str
filtered = lit "filtered"

abbrev pub queued : Str
queued = lit "queued"

abbrev pub rollups : Str
rollups = lit "rollups"

abbrev pub errors : Str
errors = lit "errors"

abbrev pub metrics_normalized : Str
metrics_normalized = lit "metrics_normalized"

abbrev pub metrics_filtered : Str
metrics_filtered = lit "metrics_filtered"

abbrev pub metrics_queued : Str
metrics_queued = lit "metrics_queued"
