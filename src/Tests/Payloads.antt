-- ===== src/Tests/Payloads.antt =====
-- A payload, choices of both formats, and instances of the theorems on them.
use rules.Base.{
  get_or, true, false, none, some, List, [], ◌∷◌, map, Text, codes, is_empty, All, Result, ok, err,
  ◌>>=◌, ◌≡◌, refl,
}
use rules.Value.{Value, bool, obj, end, field}
use rules.Plan.{Section}
use rules.Region.Laws.{HasKeys}
use rules.Spec.Saved.{saved, from_options, saved_fields}
use rules.Solve.Names.{group_reference}
use rules.Solve.Filters.{negative_filter, positive_filter}
use rules.Solve.Candidates.{reorder_candidates}
use rules.Solve.CustomRules.{plan_rules}
use rules.Solve.Rewrite.Rules.{TargetsNoDirect}
use rules.Solve.Subconverter.{summarize_resolved_profile, named_region}
use rules.Solve.ServiceGroups.{service_group_candidates}
use rules.Tests.{catalog, catalog-HasKeys, platform, plain, guard_group}
use rules.Tests.Solving.{planned, planned-HasExits}
use rules.Tests.Rendering.{renderer}
use rules.Render.{render_ini}
use rules.Spec.Normalize.{ProfileSpec}
use rules.Resolve.{resolution}
use rules.Payload.{
  PayloadError, PayloadSummary, Payload, is_static, template_source, static_payload, solved_payload,
  resolve_ini_payload,
}
use rules.Payload.Solved.{resolve_ini_payload-TargetsNoDirect}
use rules.Options.{
  normalized_pattern, pattern_end, yaml_negative_filter, yaml_positive_filter, choice_rank,
  reorder_choices, route_choice, checked_choice, service_group_route_choices,
}
use rules.Options.Agreement.{
  HasNoInherited, filters_agree, reorder_agrees, service_group_choices_agree,
}
use rules.Spec.Saved.{option_map}

-- All that the tests of the payloads compute with.
payloads : Unit {0}
unfolding renderer saved from_options saved_fields summarize_resolved_profile named_region is_static
    template_source static_payload solved_payload resolve_ini_payload normalized_pattern pattern_end
    yaml_negative_filter yaml_positive_filter choice_rank reorder_choices route_choice
    checked_choice service_group_route_choices
payloads = tt

abbrev strict_input : Value
strict_input =
    obj (field (codes "allowDirect") (bool false) (field (codes "failClosed") (bool true) end))

abbrev answered : Result PayloadError Payload
answered = resolve_ini_payload platform planned strict_input

abbrev strict_spec : ProfileSpec
strict_spec = record {
  base_profile = codes "ai-balanced";
  disabled_node_regions = [];
  only_node_regions = [];
  preferred_node_regions = [];
  disabled_services = none;
  preferred_services = none;
  allow_direct = some false;
  fail_closed = some true;
  language = none;
  service_groups = none;
  adblock = none;
  custom_rule_providers = none;
}

abbrev payload : Payload
payload = record {
  spec = strict_spec;
  summary =
      PayloadSummary.of_profile (
        summarize_resolved_profile planned (resolution (codes "us" ∷ codes "jp" ∷ []) strict_spec));
  ini = elim answered [ ok x ↦ x.ini | err e ↦ [] ];
}

payload_answered : resolve_ini_payload platform planned strict_input ≡ ok payload
unfolding payloads
payload_answered = refl

payload_has_options : is_static planned payload.spec.base_profile ≡ false
unfolding payloads
payload_has_options = refl

planned-HasKeys : HasKeys plain planned
planned-HasKeys = catalog-HasKeys

resolve_ini_payload-TargetsNoDirect_example :
    (plan : List Section) × (render_ini planned plan none strict_spec ≡ ok payload.ini)
    × All (TargetsNoDirect planned) (plan_rules plan)
resolve_ini_payload-TargetsNoDirect_example =
    resolve_ini_payload-TargetsNoDirect platform planned planned-HasKeys strict_input payload
      planned-HasExits payload_answered payload_has_options refl refl

abbrev choice_names : List Text
choice_names = codes "US nodes" ∷ codes "Auto" ∷ codes "JP nodes" ∷ []

abbrev regions_of_groups : List (Text × Text)
regions_of_groups = (codes "US nodes", codes "us") ∷ (codes "JP nodes", codes "jp") ∷ []

choices_reordered :
    reorder_choices choice_names regions_of_groups (codes "jp" ∷ codes "us" ∷ []) []
    ≡ some (codes "JP nodes") ∷ some (codes "Auto") ∷ some (codes "US nodes") ∷ []
unfolding payloads
choices_reordered = refl

names_own : HasNoInherited choice_names
unfolding payloads
names_own = (refl, (refl, (refl, tt)))

-- A name that every object inherits counts as a region's group in one module only.
inherited_reordered :
    reorder_candidates
      (map group_reference (codes "constructor" ∷ codes "JP nodes" ∷ []))
      regions_of_groups
      (codes "jp" ∷ [])
      []
    ≡ some (group_reference (codes "JP nodes")) ∷ some (group_reference (codes "constructor")) ∷ []
unfolding payloads
inherited_reordered = refl

inherited_choices_reordered :
    reorder_choices
      (codes "constructor" ∷ codes "JP nodes" ∷ [])
      regions_of_groups
      (codes "jp" ∷ [])
      []
    ≡ some (codes "constructor") ∷ some (codes "JP nodes") ∷ []
unfolding payloads
inherited_choices_reordered = refl

reorder_agrees_example :
    reorder_candidates
      (map group_reference choice_names)
      regions_of_groups
      (codes "jp" ∷ codes "us" ∷ [])
      []
    ≡ map
        (option_map group_reference)
        (reorder_choices choice_names regions_of_groups (codes "jp" ∷ codes "us" ∷ []) [])
reorder_agrees_example =
    reorder_agrees choice_names regions_of_groups (codes "jp" ∷ codes "us" ∷ []) []
      (refl, (refl, tt)) names_own

pattern_not_empty :
    is_empty (normalized_pattern (some (codes "^US$"))) ≡ is_empty (get_or (some (codes "^US$")) [])
unfolding payloads
pattern_not_empty = refl

filters_agree_example :
    (yaml_negative_filter (some (codes "^US$")) (codes "JP" ∷ [])
      ≡ negative_filter (some (codes "^US$")) (codes "JP" ∷ []))
    × (yaml_positive_filter (some (codes "^US$")) (codes "JP" ∷ [])
        ≡ positive_filter (some (codes "^US$")) (codes "JP" ∷ []))
filters_agree_example = filters_agree (some (codes "^US$")) (codes "JP" ∷ []) pattern_not_empty

service_group_choices_agree_example :
    (service_group_route_choices catalog [] true guard_group >>= λ names.
    ok (map group_reference names))
    ≡ service_group_candidates catalog [] true guard_group
service_group_choices_agree_example = service_group_choices_agree catalog [] true guard_group
