-- ===== src/Region.antt =====
-- Region names of worker/solver.mjs: the alias map of the catalog, and the canonical id of a
-- region that a caller names. The Unicode tables behind the alias key are the platform's.
pub mod Laws
use rules.Base.{
  ℕ, Bool, true, false, not, ◌&&◌, Option, none, some, List, [], ◌∷◌, ◌++◌, Text, text_eq, is_empty,
  trim, dedupe, if◌then◌else◌, Result, ok, err, ◌>>=◌, map_result,
}
use rules.Value.{Value, Items, undefined, null, arr, items, to_string}
use rules.Catalog.{Region, Data}
use rules.Spec.Error.{Error}

-- `toLocaleLowerCase("en-US")`, `normalize("NFKC")`, and the replacement that keeps the letters and
-- the numbers of all scripts.
pub record Unicode : Type 0 where
  pub lower : Text → Text
  pub nfkc : Text → Text
  pub keep_letters_and_numbers : Text → Text

-- `String(value ?? "")`
abbrev pub string_or_empty : Value → Text
string_or_empty undefined = []
string_or_empty null = []
string_or_empty v = to_string v

-- A `Map` from keys to region ids, in insertion order.
unfoldable pub lookup : Text → List (Text × Text) → Option Text
lookup key [] = none
lookup key ((k, v) ∷ m) = if text_eq k key then some v else lookup key m

-- `map.set(key, v)`
unfoldable pub assign : Text → Text → List (Text × Text) → List (Text × Text)
assign key v [] = (key, v) ∷ []
assign key v ((k, w) ∷ m) = if text_eq k key then (k, v) ∷ m else (k, w) ∷ assign key v m

-- `if (!region) throw`
unfoldable pub found_region : Option Text → Result Error Text
found_region none = err Error.unknown_region
found_region (some id) = if is_empty id then err Error.unknown_region else ok id

module _ (u : Unicode) where
  unfoldable pub normalize_alias : Value → Text
  normalize_alias value =
      u.keep_letters_and_numbers (u.nfkc (u.lower (trim (string_or_empty value))))

  -- One round of the inner loop of `buildRegionAliasMap`.
  unfoldable pub add_alias : Text → List (Text × Text) → Text → Result Error (List (Text × Text))
  add_alias id m value =
      let key = normalize_alias (Value.str value) in
      if is_empty key then ok m else elim (lookup key m) [
        | none ↦ ok (assign key id m)
        | some existing ↦
            if not (is_empty existing) && not (text_eq existing id)
            then err Error.invalid_profile_spec
            else ok (assign key id m)
      ]

  unfoldable pub add_aliases :
      Text → List (Text × Text) → List Text → Result Error (List (Text × Text))
  add_aliases id m [] = ok m
  add_aliases id m (value ∷ values) = do m' ← add_alias id m value; add_aliases id m' values

  abbrev pub alias_values : Region → List Text
  alias_values r = r.id ∷ r.name ∷ (r.country_codes ++ r.aliases)

  unfoldable pub add_regions : List (Text × Text) → List Region → Result Error (List (Text × Text))
  add_regions m [] = ok m
  add_regions m (r ∷ rs) = do m' ← add_aliases r.id m (alias_values r); add_regions m' rs

  unfoldable pub build_region_alias_map : Data → Result Error (List (Text × Text))
  build_region_alias_map data' = add_regions [] data'.regions

  -- The alias map of `regionAliases` is cached per catalog object, which is not changed after the
  -- first lookup, so each call here builds the same map.
  unfoldable pub canonicalize_region : Data → Value → Result Error Text
  canonicalize_region d value =
      let key = normalize_alias value in
      if is_empty key
      then err Error.empty_region
      else do aliases ← build_region_alias_map d; found_region (lookup key aliases)

  unfoldable pub canonicalize_many : Data → Value → Result Error (List Text)
  canonicalize_many d (arr values) = do
    regions ← map_result (canonicalize_region d) (items values)
    ok (dedupe regions)
  canonicalize_many d _ = err Error.invalid_option_list
