-- ===== src/Editor/Fingerprint.antt =====
-- `fingerprint` of public/editor-state.mjs: a value as JSON with its keys in order.
use Prim.Native.Nat.{◌/◌, ◌%◌}
use rules.Base.{
  ℕ, ◌+◌, Bool, true, false, ◌&&◌, List, [], ◌∷◌, ◌++◌, map, Text, codes, join, flat, ltb, ◌==◌,
  sort_by, text_leb, if◌then◌else◌,
}
use rules.Value.{
  Value, undefined, null, bool, num, real, str, arr, obj, Items, nil, cons, Fields, end, field,
  decimal,
}
use rules.Spec.WellFormed.{is_high, is_low}

abbrev hex_digit : ℕ → ℕ
hex_digit n = if ltb n 10 then 48 + n else 87 + n

-- A code unit as `\uXXXX`
unfoldable pub unit_escape : ℕ → Text
unit_escape c =
    codes "\\u"
    ++ (hex_digit (c / 4096)
        ∷ hex_digit (c / 256 % 16)
        ∷ hex_digit (c / 16 % 16)
        ∷ hex_digit (c % 16)
        ∷ [])

-- One code unit of a JSON string.
unfoldable pub json_unit : ℕ → Text
json_unit c =
    if c == 34
    then codes "\\\""
    else if c == 92
    then codes "\\\\"
    else if c == 8
    then codes "\\b"
    else if c == 12
    then codes "\\f"
    else if c == 10
    then codes "\\n"
    else if c == 13
    then codes "\\r"
    else if c == 9
    then codes "\\t"
    else if ltb c 32
    then unit_escape c
    else if is_high c
    then unit_escape c
    else if is_low c
    then unit_escape c
    else c ∷ []

-- The code units between the quotes; a surrogate pair stays, a lone surrogate is escaped.
unfoldable pub json_units : Text → Text
json_units [] = []
json_units (c ∷ []) = json_unit c
json_units (c ∷ d ∷ t) = elim (is_high c && is_low d) [
  | true ↦ c ∷ d ∷ json_units t
  | false ↦ json_unit c ++ json_units (d ∷ t)
]

-- `JSON.stringify(text)`
unfoldable pub json_string : Text → Text
json_string t = flat (codes "\"" ∷ json_units t ∷ codes "\"" ∷ [])

abbrev pub by_key : Text × Text → Text × Text → Bool
by_key a b = text_leb a.0 b.0

abbrev pub entry_text : Text × Text → Text
entry_text e = flat (json_string e.0 ∷ codes ":" ∷ e.1 ∷ [])

-- `fingerprint`, of elements, and of the fields that are not `undefined`, with their keys
unfoldable mutual
  pub fingerprint : Value → Text
  fingerprint undefined = []
  fingerprint null = codes "null"
  fingerprint (bool true) = codes "true"
  fingerprint (bool false) = codes "false"
  fingerprint (num n) = decimal n
  fingerprint (real t) = t
  fingerprint (str t) = json_string t
  fingerprint (arr vs) = flat (codes "[" ∷ join (codes ",") (fingerprints vs) ∷ codes "]" ∷ [])
  fingerprint (obj fs) = flat (
      codes "{"
      ∷ join (codes ",") (map entry_text (sort_by by_key (fingerprint_fields fs)))
      ∷ codes "}"
      ∷ [])

  pub fingerprints : Items → List Text
  fingerprints nil = []
  fingerprints (cons v vs) = fingerprint v ∷ fingerprints vs

  pub fingerprint_fields : Fields → List (Text × Text)
  fingerprint_fields end = []
  fingerprint_fields (field k undefined fs) = fingerprint_fields fs
  fingerprint_fields (field k v fs) = (k, fingerprint v) ∷ fingerprint_fields fs
