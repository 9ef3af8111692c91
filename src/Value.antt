-- ===== src/Value.antt =====
-- The values that a caller of the profile service passes in: what `JSON.parse` gives, and
-- `undefined`. Objects are read by `typeof`, `Array.isArray`, `Object.keys`, `Object.hasOwn` and
-- property access; `String(value)` is `to_string`.
use Prim.Native.Nat.{◌/◌, ◌%◌}
use rules.Base.{
  ℕ, zero, suc, ◌+◌, Bool, true, false, ◌||◌, List, [], ◌∷◌, ◌++◌, Text, codes, text_eq, ltb,
  if◌then◌else◌,
}

-- A number is `num` if it is a natural number below 10^21, else `real` with its printed form.
mutual
  pub data Value : Type 0 where
    undefined : Value
    null : Value
    bool : Bool → Value
    num : ℕ → Value
    real : Text → Value
    str : Text → Value
    arr : Items → Value
    obj : Fields → Value

  pub data Items : Type 0 where
    nil : Items
    cons : Value → Items → Items

  -- The own properties in their order, no key twice.
  pub data Fields : Type 0 where
    end : Fields
    field : Text → Value → Fields → Fields

abbrev pub items : Items → List Value
items nil = []
items (cons v vs) = v ∷ items vs

abbrev pub from_items : List Value → Items
from_items [] = nil
from_items (v ∷ vs) = cons v (from_items vs)

-- `Object.keys(o)`
abbrev pub keys : Fields → List Text
keys end = []
keys (field k v fs) = k ∷ keys fs

-- `o.key`
unfoldable pub get : Text → Fields → Value
get key end = undefined
get key (field k v fs) = if text_eq k key then v else get key fs

-- `Object.hasOwn(o, key)`
unfoldable pub has_own : Text → Fields → Bool
has_own key end = false
has_own key (field k v fs) = text_eq k key || has_own key fs

abbrev pub is_undefined : Value → Bool
is_undefined undefined = true
is_undefined _ = false

-- `v !== undefined && typeof v !== "boolean"` fails exactly on these.
abbrev pub is_bool : Value → Bool
is_bool (bool b) = true
is_bool _ = false

-- `v ?? d`
abbrev pub or_default : Value → Value → Value
or_default undefined d = d
or_default null d = d
or_default v d = v

unfoldable pub decimal_fuel : ℕ → ℕ → Text
decimal_fuel zero n = []
decimal_fuel (suc f) n = elim (ltb n 10) [
  | true ↦ (48 + n) ∷ []
  | false ↦ decimal_fuel f (n / 10) ++ (48 + n % 10) ∷ []
]

-- The decimal digits of a number, the highest first.
unfoldable pub decimal : ℕ → Text
unfolding decimal_fuel
decimal n = decimal_fuel (suc n) n

-- `String(value)`, and the elements of an array joined by commas. An object prints as an object
-- without a `toString` or `valueOf` of its own does.
unfoldable mutual
  unfolding decimal

  pub to_string : Value → Text
  to_string undefined = codes "undefined"
  to_string null = codes "null"
  to_string (bool true) = codes "true"
  to_string (bool false) = codes "false"
  to_string (num n) = decimal n
  to_string (real t) = t
  to_string (str t) = t
  to_string (arr vs) = join_items vs
  to_string (obj fs) = codes "[object Object]"

  pub element_string : Value → Text
  element_string undefined = []
  element_string null = []
  element_string (bool true) = codes "true"
  element_string (bool false) = codes "false"
  element_string (num n) = decimal n
  element_string (real t) = t
  element_string (str t) = t
  element_string (arr vs) = join_items vs
  element_string (obj fs) = codes "[object Object]"

  pub join_items : Items → Text
  join_items nil = []
  join_items (cons v nil) = element_string v
  join_items (cons v (cons w vs)) = element_string v ++ b',' ∷ join_items (cons w vs)
