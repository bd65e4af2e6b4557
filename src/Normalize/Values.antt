-- ===== src/Normalize/Values.antt =====
-- internal/normalize/value.go: a decoded JSON value, Go's `any`, and the reading of OTLP attributes. An int
-- and an int64 are its bit pattern. A map is an association list whose first entry of a key counts, so
-- that an assignment puts its entry in front.
use desktop_client.Base.{
  ℕ, ◌-◌, ◌/◌, ◌%◌, Bool, true, false, not, Str, lit, str_eq, Option, none, some, List, [], ◌∷◌,
  ltb, ◌==◌, if◌then◌else◌,
}
use desktop_client.Base.Words.{two63, two64}

mutual
  pub data Value (F : Type 0) : Type 0 where
    null : Value F
    bool : Bool → Value F
    int : ℕ → Value F
    float : F → Value F
    text : Str → Value F
    array : Values F → Value F
    object : Fields F → Value F

  pub data Values (F : Type 0) : Type 0 where
    nil : Values F
    cons : Value F → Values F → Values F

  pub data Fields (F : Type 0) : Type 0 where
    end : Fields F
    field : Str → Value F → Fields F → Fields F

-- strconv, strings, unicode and time, and Go's conversions between int64 and float64. `iso` formats a
-- number of seconds, and `now_iso` is the current time in that format.
pub record Outside (F : Type 0) : Type 0 where
  pub parse_int : Str → Option ℕ
  pub parse_float : Str → Option F
  pub trim_space : Str → Str
  pub lower : Str → Str
  pub words : Str → List Str
  pub valid_utf8 : Str → Bool
  pub has_control : Str → Bool
  pub float_to_int : F → ℕ
  pub int_to_float : ℕ → F
  pub is_zero : F → Bool
  pub iso : ℕ → Str
  pub now_iso : Str

-- `/` of int64: the quotient of the absolute values with its sign.
unfoldable pub quotient64 : ℕ → ℕ → ℕ
quotient64 n d = if ltb n two63 then n / d else (two64 - (two64 - n) / d) % two64

module _ {F : Type 0} where
  -- A key that the map lacks reads as nil.
  unfoldable pub look_up : Fields F → Str → Option (Value F)
  look_up end key = none
  look_up (field k v rest) key = if str_eq k key then some v else look_up rest key

  abbrev pub or_null : Option (Value F) → Value F
  or_null none = null
  or_null (some v) = v

  abbrev pub at : Fields F → Str → Value F
  at m key = or_null (look_up m key)

  abbrev pub has_values : Values F → Bool
  has_values nil = false
  has_values (cons v vs) = true

  abbrev pub has_fields : Fields F → Bool
  has_fields end = false
  has_fields (field k v rest) = true

  abbrev pub as_slice : Value F → Values F
  as_slice (array vs) = vs
  as_slice _ = nil

  -- Neither nil nor the empty text.
  abbrev pub is_present : Value F → Bool
  is_present null = false
  is_present (text s) = not (str_eq s [])
  is_present _ = true

  unfoldable pub first_attr : Fields F → List Str → Value F
  first_attr attrs [] = null
  first_attr attrs (name ∷ names) =
      let rest = first_attr attrs names in
      if is_present (at attrs name) then at attrs name else rest

  abbrev pub or_else : Option (Value F) → Value F → Value F
  or_else none v = v
  or_else (some w) v = w

module _ {F : Type 0} (o : Outside F) where
  abbrev pub number : Option ℕ → Value F
  number none = null
  number (some n) = int n

  abbrev pub real : Option F → Value F
  real none = null
  real (some x) = float x

  abbrev pub coerce_int_raw : Value F → Value F
  coerce_int_raw (text s) = number (o.parse_int (o.trim_space s))
  coerce_int_raw (float x) = int (o.float_to_int x)
  coerce_int_raw (int n) = int n
  coerce_int_raw _ = null

  abbrev pub coerce_float_raw : Value F → Value F
  coerce_float_raw (text s) = real (o.parse_float (o.trim_space s))
  coerce_float_raw (float x) = float x
  coerce_float_raw (int n) = float (o.int_to_float n)
  coerce_float_raw _ = null

  abbrev pub as_is : Value F → Value F
  as_is v = v

  -- `known` under the first of the keys that the map has, and otherwise `array_value`.
  abbrev pub scalar_or : Fields F → Value F → Value F
  scalar_or m array_value =
      let string_value = look_up m (lit "stringValue") in
      let int_value = look_up m (lit "intValue") in
      let double_value = look_up m (lit "doubleValue") in
      or_else string_value (
        or_else (coerced coerce_int_raw int_value) (
          or_else (coerced coerce_float_raw double_value)
            (or_else (look_up m (lit "boolValue")) array_value)))
    where
      coerced : (Value F → Value F) → Option (Value F) → Option (Value F)
      coerced f none = none
      coerced f (some v) = some (f v)

  -- decodeArray by the structure of the map: its arrayValue, of that the values, and each of them decoded.
  unfoldable mutual
    pub decode_attr_value : Value F → Value F
    decode_attr_value (object m) = scalar_or m (decode_array m)
    decode_attr_value v = v

    pub decode_array : Fields F → Value F
    decode_array end = null
    decode_array (field k v rest) =
        let later = decode_array rest in
        if str_eq k (lit "arrayValue") then decode_array_value v else later

    pub decode_array_value : Value F → Value F
    decode_array_value (object m) = decode_values m
    decode_array_value _ = null

    pub decode_values : Fields F → Value F
    decode_values end = null
    decode_values (field k v rest) =
        let later = decode_values rest in if str_eq k (lit "values") then decode_items v else later

    pub decode_items : Value F → Value F
    decode_items (array vs) = array (decode_each vs)
    decode_items _ = null

    pub decode_each : Values F → Values F
    decode_each nil = nil
    decode_each (cons v vs) = cons (decode_attr_value v) (decode_each vs)

  -- A key that is no text, or an empty one, is skipped.
  abbrev pub put_attr : Value F → Value F → Fields F → Fields F
  put_attr (text key) v out = if str_eq key [] then out else field key (decode_attr_value v) out
  put_attr _ v out = out

  abbrev pub add_attr : Value F → Fields F → Fields F
  add_attr (object m) out = put_attr (at m (lit "key")) (at m (lit "value")) out
  add_attr _ out = out

  unfoldable pub add_attrs : Values F → Fields F → Fields F
  unfolding decode_attr_value
  add_attrs nil out = out
  add_attrs (cons item items) out = add_attrs items (add_attr item out)

  unfoldable pub attrs_to_map : Value F → Fields F
  unfolding add_attrs
  attrs_to_map attrs = add_attrs (as_slice attrs) end

  abbrev pub seconds_to_iso : Value F → Value F
  seconds_to_iso (int n) = text (o.iso (quotient64 n 1000000000))
  seconds_to_iso _ = null

  abbrev pub nano_to_iso : Value F → Value F
  nano_to_iso nano = seconds_to_iso (coerce_int_raw nano)

  -- numericTruthy is the part on numbers.
  abbrev pub truthy : Value F → Bool
  truthy null = false
  truthy (bool b) = b
  truthy (text s) = not (str_eq s [])
  truthy (array vs) = has_values vs
  truthy (object m) = has_fields m
  truthy (int n) = not (n == 0)
  truthy (float x) = not (o.is_zero x)

  abbrev pub py_or_from : Value F → List (Value F) → Value F
  py_or_from last [] = last
  py_or_from last (v ∷ vs) = if truthy v then v else py_or_from v vs

  -- The first truthy value, or the last one.
  unfoldable pub py_or : List (Value F) → Value F
  py_or vs = py_or_from null vs
