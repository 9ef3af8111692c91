-- ===== src/Spec/Services.antt =====
-- `canonicalizeServices` and `validateServiceRuleOwnership` of worker/solver.mjs: the service ids of
-- a specification, and the rules that services share.
pub mod Laws
pub mod Owners
use rules.Base.{
  ℕ, Bool, true, false, not, ◌&&◌, ◌||◌, Option, none, some, List, [], ◌∷◌, ◌++◌, map, Text,
  text_eq, codes, is_empty, trim, dedupe, includes, if◌then◌else◌, Result, ok, err, ◌>>=◌,
  map_result, keep, any, null, throw_if,
}
use rules.Value.{Value, str, arr, items}
use rules.Catalog.{RuleRef, Service, Data}
use rules.Spec.Error.{Error}

-- The ids of the services that an output format has.
unfoldable pub known_services : Text → List Service → List Text
known_services format [] = []
known_services format (s ∷ ss) =
    let rest = known_services format ss in
    if includes format s.output_formats then s.id ∷ rest else rest

-- The callback of `canonicalizeServices`.
unfoldable pub canonicalize_service : List Text → Value → Result Error Text
canonicalize_service known (str value) =
    if is_empty (trim value)
    then err Error.invalid_service
    else if includes (trim value) known
    then ok (trim value)
    else err Error.unknown_service
canonicalize_service known _ = err Error.invalid_service

unfoldable pub canonicalize_services : Data → Text → Value → Result Error (List Text)
canonicalize_services d format (arr values) = do
  services ← map_result (canonicalize_service (known_services format d.services)) (items values)
  ok (dedupe services)
canonicalize_services d format _ = err Error.invalid_option_list

-- A rule reference by its kind and value; the source keys its maps by their JSON text.
abbrev pub Reference : Type 0
Reference = Text × Text

unfoldable pub reference_eq : Reference → Reference → Bool
reference_eq a b = text_eq a.0 b.0 && text_eq a.1 b.1

-- `iniRuleReference`
unfoldable pub rule_reference : Option Text → Option Text → Option Reference
rule_reference (some kind) (some value) = if is_empty value then none else some (kind, value)
rule_reference _ _ = none

-- `owners.set(reference, owners.get(reference) ∪ {id})` on a map from references to sets of ids
unfoldable pub add_owner :
    Reference → Text → List (Reference × List Text) → List (Reference × List Text)
add_owner ref id [] = (ref, id ∷ []) ∷ []
add_owner ref id ((r, ids) ∷ m) =
    if reference_eq r ref
    then (r, (if includes id ids then ids else ids ++ id ∷ [])) ∷ m
    else (r, ids) ∷ add_owner ref id m

unfoldable pub add_owners :
    Text → List RuleRef → List (Reference × List Text) → List (Reference × List Text)
add_owners id [] m = m
add_owners id (r ∷ rs) m = elim (rule_reference r.ini_kind r.ini_value) [
  | none ↦ add_owners id rs m
  | some ref ↦ add_owners id rs (add_owner ref id m)
]

-- `serviceIniRuleOwners`
unfoldable pub ini_rule_owners_from :
    List Service → List (Reference × List Text) → List (Reference × List Text)
ini_rule_owners_from [] m = m
ini_rule_owners_from (s ∷ ss) m =
    ini_rule_owners_from ss
      (if includes (codes "ini") s.output_formats then add_owners s.id s.rule_refs m else m)

unfoldable pub ini_rule_owners : Data → List (Reference × List Text)
ini_rule_owners d = ini_rule_owners_from d.services []

-- The owners of one rule are all disabled or all enabled.
unfoldable pub mixes : List Text → List Text → Bool
mixes disabled owners =
    not (null (keep (λ id. includes id disabled) owners))
    && not (null (keep (λ id. not (includes id disabled)) owners))

unfoldable pub validate_service_rule_ownership : List Text → Data → Result Error (Unit {0})
validate_service_rule_ownership disabled d =
    throw_if (any (λ entry. mixes disabled entry.1) (ini_rule_owners d)) Error.shared_service_rule
