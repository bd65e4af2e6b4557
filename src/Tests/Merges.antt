-- ===== src/Tests/Merges.antt =====
-- The theorem on the merge of a session, on a new session with two events.
use desktop_client.Base.{◌≡◌, refl, lit, str_eq, none, some, [], ◌∷◌}
use desktop_client.Filter.Conservation.{input}
use desktop_client.Queue.Sessions.Merge.{MergeLibrary, merge_session_events}
use desktop_client.Queue.Sessions.Upsert.{empty_summary}
use desktop_client.Queue.Sessions.Totals.{
  IsBalanced, summary_tokens, plus_events, merge_session_events-IsBalanced,
}
use desktop_client.Tests.Filters.{event, floats}

abbrev pub merge_library : MergeLibrary
merge_library = record {
  trim_space = λ s. s;
  lower = λ s. s;
  equal_fold = str_eq;
  stamp_of = λ s. some s;
  parse = λ s. none;
  format = λ n. n ∷ [];
}

merge_session_events-IsBalanced_example :
    let events = event "codex.sse_event" 5 ∷ event "codex.sse_event" 7 ∷ [] in
    let s' = merge_session_events merge_library floats (lit "s") events 100 empty_summary in
    IsBalanced s' × (summary_tokens input s' ≡ plus_events input 0 events)
unfolding str_eq
merge_session_events-IsBalanced_example =
    merge_session_events-IsBalanced merge_library floats 100 input (lit "s")
      (event "codex.sse_event" 5 ∷ event "codex.sse_event" 7 ∷ []) empty_summary
      (refl, refl, refl, refl)
