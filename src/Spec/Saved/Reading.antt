-- ===== src/Spec/Saved/Reading.antt =====
-- Reading a saved object field by field.
use rules.Base.{
  Bool, true, Option, none, some, List, [], ◌∷◌, map, Text, text_eq, all, is_some, ◌≡◌, refl, arith,
  if◌then◌else◌,
}
use rules.Value.{Value, undefined, get, has_own, keys}
use rules.Spec.Saved.{from_options}

abbrev pub or_undefined : Option Value → Value
or_undefined none = undefined
or_undefined (some v) = v

abbrev pub first_of_two : Option Value → Option Value → Option Value
first_of_two none d = d
first_of_two (some v) d = some v

-- The value that the list gives a field.
unfoldable pub field_of : Text → List (Text × Option Value) → Option Value
field_of key [] = none
field_of key ((k, o) ∷ l) =
    if text_eq k key then first_of_two o (field_of key l) else field_of key l

pub get-from_options :
    (key : Text) (l : List (Text × Option Value))
    → get key (from_options l) ≡ or_undefined (field_of key l)
unfolding get field_of from_options
get-from_options key [] = refl
get-from_options key ((k, none) ∷ l) = ground (arith, get-from_options key l)
get-from_options key ((k, some v) ∷ l) = ground (arith, get-from_options key l)

pub has_own-from_options :
    (key : Text) (l : List (Text × Option Value))
    → has_own key (from_options l) ≡ is_some (field_of key l)
unfolding has_own field_of from_options
has_own-from_options key [] = refl
has_own-from_options key ((k, none) ∷ l) = ground (arith, has_own-from_options key l)
has_own-from_options key ((k, some v) ∷ l) = ground (arith, has_own-from_options key l)

pub all-keys-from_options :
    (p : Text → Bool) (l : List (Text × Option Value))
    → all p (map (λ f. f.0) l) ≡ true
    → all p (keys (from_options l)) ≡ true
unfolding all from_options
all-keys-from_options p [] h = refl
all-keys-from_options p ((k, none) ∷ l) h = all-keys-from_options p l (ground arith)
all-keys-from_options p ((k, some v) ∷ l) h = ground (arith, all-keys-from_options p l)
