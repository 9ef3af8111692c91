-- ===== src/Options.antt =====
-- What worker/profile_options.mjs does again for YAML profiles that worker/solver.mjs does for INI
-- plans: filters, the order of choices, and the choices of a custom service group.
pub mod Agreement
use rules.Base.{
  ℕ, Bool, true, false, not, Option, none, some, List, [], ◌∷◌, ◌++◌, map, Text, codes, text_eq,
  includes, is_empty, null, dedupe, leb, get_or, is_some, keep, sort_by, strip_prefix, strip_last,
  if◌then◌else◌, Result, ok, err, ◌>>=◌, map_result,
}
use rules.Catalog.{GroupEntry, Data}
use rules.Spec.Error.{Error}
use rules.Spec.GroupCatalog.{source_of, service_route_group_name}
use rules.Spec.Groups.{ServiceGroup}
use rules.Region.{lookup}
use rules.Solve.Names.{reject_group}
use rules.Solve.Filters.{alternatives}
use rules.Solve.Candidates.{rank_from, fill}

-- `normalizedPattern`
unfoldable pub normalized_pattern : Option Text → Text
normalized_pattern pattern =
    strip_last b'$' (strip_prefix (codes "^") (strip_prefix (codes "(?i)") (get_or pattern [])))

-- The end of a pattern of which this is the body.
unfoldable pub pattern_end : Text → Text
pattern_end body = if is_empty body then codes ".*$" else codes "(?:" ++ (body ++ codes ")$")

-- `negativeFilter` and `positiveFilter` of this module
unfoldable pub yaml_negative_filter : Option Text → List Text → Option Text
yaml_negative_filter existing [] = existing
yaml_negative_filter existing (t ∷ ts) = some (
    codes "(?i)^"
    ++ (codes "(?!.*(?:"
        ++ (alternatives (t ∷ ts) ++ (codes "))" ++ pattern_end (normalized_pattern existing)))))

unfoldable pub yaml_positive_filter : Option Text → List Text → Option Text
yaml_positive_filter existing [] = existing
yaml_positive_filter existing (t ∷ ts) = some (
    codes "(?i)^"
    ++ (codes "(?=.*(?:"
        ++ (alternatives (t ∷ ts) ++ (codes "))" ++ pattern_end (normalized_pattern existing)))))

-- `unionFilter`
unfoldable pub union_filter : Option Text → List Text → Option Text
union_filter existing [] = existing
union_filter existing (t ∷ ts) = some (
    codes "(?i)(?:"
    ++ (alternatives (
          map (strip_prefix (codes "(?i)"))
            (keep (λ pattern. not (is_empty pattern)) (get_or existing [] ∷ t ∷ ts)))
        ++ codes ")"))

-- `Object.hasOwn(groupToRegion, choice)`
abbrev pub is_region_choice : List (Text × Text) → Text → Bool
is_region_choice group_to_region choice = is_some (lookup choice group_to_region)

-- `ranks.get(groupToRegion[choice]) ?? 10000`
unfoldable pub choice_rank : List (Text × Text) → List Text → Text → ℕ
choice_rank group_to_region order choice = elim (lookup choice group_to_region) [
  | some region ↦ get_or (rank_from 0 order region) 10000
  | none ↦ 10000
]

-- `reorderChoices`; `none` is an `undefined`
unfoldable pub reorder_choices :
    List Text → List (Text × Text) → List Text → List Text → List (Option Text)
reorder_choices choices group_to_region order removed =
    let filtered = keep (λ c. not (includes c removed)) choices in
    let test = is_region_choice group_to_region in
    fill test filtered (
      sort_by
        (λ a b. leb (choice_rank group_to_region order a) (choice_rank group_to_region order b))
        (keep test filtered))

-- The choice for a route; `none` is `undefined`.
unfoldable pub route_choice : Data → List (Text × GroupEntry) → List Text → Text → Option Text
route_choice d source ids route =
    if text_eq route (codes "default")
    then elim ids [
      | [] ↦ service_route_group_name d route
      | id ∷ _ ↦ elim (source_of id source) [ none ↦ none | some e ↦ e.default_route_group ]
    ]
    else service_route_group_name d route

-- `typeof choice !== "string" || !choice`, else the choice
unfoldable pub checked_choice : Option Text → Result Error Text
checked_choice none = err Error.invalid_profile_data
checked_choice (some t) = if is_empty t then err Error.invalid_profile_data else ok t

-- `serviceGroupRouteChoices`; `guarded` is `protectedGroup || failClosed === true`.
unfoldable pub service_group_route_choices :
    Data → List (Text × GroupEntry) → Bool → ServiceGroup → Result Error (List Text)
service_group_route_choices d source guarded layout = do
  choices ← map_result checked_choice (
      if null layout.routes
      then some (reject_group d) ∷ []
      else map (route_choice d source layout.service_ids) layout.routes)
  let unique : List Text = dedupe choices
  ok (
      if guarded
      then reject_group d ∷ keep (λ choice. not (text_eq choice (reject_group d))) unique
      else unique)
