-- ===== src/Tests/Records.antt =====
-- The theorems on normalize on a request with one record that gives an event and one that does not, and on
-- one with a counter of two data points.
use desktop_client.Base.{
  ℕ, ◌+◌, ◌≡◌, refl, true, false, Str, lit, str_eq, contains, contains_text, has_prefix, none, [],
  ◌∷◌, map, length, All, ◌==◌,
}
use desktop_client.Normalize.Values.{
  Value, null, text, float, array, object, nil, cons, Fields, field, end, Outside, look_up,
  attrs_to_map, py_or,
}
use desktop_client.Normalize.Fields.{normalize_event_name}
use desktop_client.Normalize.Logs.{flatten_log_record, normalize_log_batch}
use desktop_client.Normalize.Batches.{gather, log_records, normalize_log_batch-Records}
use desktop_client.Normalize.Clean.{IsClean, normalize_log_batch-IsClean}
use desktop_client.Normalize.Privacy.{append_values, flatten_log_record-private}

abbrev pub outside : Outside ℕ
outside = record {
  parse_int = λ s. none;
  parse_float = λ s. none;
  trim_space = λ s. s;
  lower = λ s. s;
  words = λ s. s ∷ [];
  valid_utf8 = λ s. true;
  has_control = λ s. false;
  float_to_int = λ x. x;
  int_to_float = λ n. n;
  is_zero = λ x. x == 0;
  iso = λ n. lit "2026-01-01T00:00:00Z";
  now_iso = lit "2026-01-02T00:00:00Z";
}

abbrev one : Value ℕ → Value ℕ
one v = array (cons v nil)

abbrev under_key : Str → Value ℕ → Value ℕ
under_key key v = object (field key v end)

abbrev attr : Str → Str → Fields ℕ
attr key value =
    field (lit "key") (text key)
      (field (lit "value") (under_key (lit "stringValue") (text value)) end)

abbrev name_attr : Value ℕ
name_attr = object (attr (lit "event.name") (lit "api_request"))

abbrev log_record : Value ℕ
log_record = under_key (lit "attributes") (one name_attr)

abbrev pub payload : Fields ℕ
payload =
    field (lit "resourceLogs")
      (one (
        under_key (lit "scopeLogs")
          (one (under_key (lit "logRecords") (array (cons log_record (cons null nil)))))))
      end

one_event : length (normalize_log_batch outside payload (lit "repo")).0 ≡ 1
unfolding normalize_log_batch look_up str_eq attrs_to_map py_or normalize_event_name contains_text
    has_prefix
one_event = refl

normalize_log_batch-Records_example :
    let (events, dropped) = normalize_log_batch outside payload (lit "repo") in
    (events ≡ gather (map (λ r. flatten_log_record outside r (lit "repo")) (log_records payload)))
    × (length events + dropped ≡ length (log_records payload))
normalize_log_batch-Records_example = normalize_log_batch-Records outside payload (lit "repo")

normalize_log_batch-IsClean_example :
    All (IsClean outside) (normalize_log_batch outside payload (lit "repo")).0
normalize_log_batch-IsClean_example = normalize_log_batch-IsClean outside payload (lit "repo")

flatten_log_record-private_example :
    flatten_log_record outside
      (object (
        field (lit "body") (text (lit "a prompt")) (
          field
            (lit "attributes")
            (array (
              append_values
                (cons name_attr nil)
                (cons (object (attr (lit "prompt") (lit "secret"))) nil)))
            end)))
      (lit "repo")
    ≡ flatten_log_record outside
        (object (field (lit "attributes") (array (append_values (cons name_attr nil) nil)) end))
        (lit "repo")
unfolding look_up str_eq contains
flatten_log_record-private_example =
    flatten_log_record-private outside (text (lit "a prompt")) (cons name_attr nil) nil
      (attr (lit "prompt") (lit "secret")) end (lit "prompt") (lit "repo") refl refl

abbrev point : Value ℕ
point = under_key (lit "asDouble") (float 3)

abbrev metrics_payload : Fields ℕ
metrics_payload =
    field (lit "resourceMetrics")
      (one (
        under_key (lit "scopeMetrics") (
          one (
            under_key (lit "metrics") (
              one (
                object (
                  field (lit "name") (text (lit "tokens")) (
                    field (lit "sum")
                      (under_key (lit "dataPoints") (array (cons point (cons null nil))))
                      end))))))))
      end
