-- ===== src/Queue/Sessions/Models.antt =====
-- The usage of a session by model (internal/queue/sessions.go): the map that mergeSessionEvents fills, as an
-- association list, and the sorted rows.
use desktop_client.Base.{
  Bool, true, false, Str, lit, str_eq, contains, Option, none, some, List, [], ◌∷◌, ltb, ◌==◌,
  if◌then◌else◌,
}
use desktop_client.Base.Words.{add64, deref}
use desktop_client.Api.{NormalizedEvent}
use desktop_client.Api.Endpoints.{SessionModelUsage}

-- `<` of texts, by their bytes
unfoldable pub str_less : Str → Str → Bool
str_less s [] = false
str_less [] (b ∷ t) = true
str_less (a ∷ s) (b ∷ t) =
    let rest = str_less s t in if ltb a b then true else if a == b then rest else false

abbrev pub unknown_model : Str
unknown_model = 0 ∷ lit "unknown"

abbrev pub model_key : Option Str → Str
model_key none = unknown_model
model_key (some s) = s

abbrev pub key_of : SessionModelUsage → Str
key_of row = model_key row.model

abbrev pub Models : Type 0
Models = List (Str × SessionModelUsage)

abbrev pub keys : Models → List Str
keys [] = []
keys ((key, row) ∷ rest) = key ∷ keys rest

-- The loop that fills the map: the last row of a key stays.
unfoldable pub from_models : List SessionModelUsage → Models
from_models [] = []
from_models (row ∷ rows) =
    let rest = from_models rows in
    if contains (keys rest) (key_of row) then rest else (key_of row, row) ∷ rest

abbrev pub empty_usage : Option Str → SessionModelUsage
empty_usage model = record {
  model = model;
  input_tokens = 0;
  output_tokens = 0;
  cache_read_tokens = 0;
  cache_create_tokens = 0;
}

module _ {F : Type 0} where
  abbrev pub add_usage : NormalizedEvent F → SessionModelUsage → SessionModelUsage
  add_usage ev row = record row {
    input_tokens = add64 row.input_tokens (deref ev.input_tokens);
    output_tokens = add64 row.output_tokens (deref ev.output_tokens);
    cache_read_tokens = add64 row.cache_read_tokens (deref ev.cache_read_tokens);
    cache_create_tokens = add64 row.cache_create_tokens (deref ev.cache_create_tokens);
  }

  -- The row of the model, new if there is none.
  unfoldable pub update_model : Option Str → NormalizedEvent F → Models → Models
  update_model model ev [] = (model_key model, add_usage ev (empty_usage model)) ∷ []
  update_model model ev ((key, row) ∷ rest) =
      let later = update_model model ev rest in
      if str_eq key (model_key model) then (key, add_usage ev row) ∷ rest else (key, row) ∷ later

-- sort.Strings on the keys, and the rows in that order
unfoldable pub insert_model : Str × SessionModelUsage → Models → Models
unfolding str_less
insert_model m [] = m ∷ []
insert_model m (n ∷ rest) =
    let later = insert_model m rest in if str_less n.0 m.0 then n ∷ later else m ∷ n ∷ rest

unfoldable pub sort_models : Models → Models
unfolding insert_model
sort_models [] = []
sort_models (m ∷ rest) = insert_model m (sort_models rest)

abbrev pub rows_of : Models → List SessionModelUsage
rows_of [] = []
rows_of ((key, row) ∷ rest) = row ∷ rows_of rest

abbrev pub only_model : List SessionModelUsage → Option Str
only_model (row ∷ []) = row.model
only_model _ = none
