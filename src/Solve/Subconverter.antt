-- ===== src/Solve/Subconverter.antt =====
-- `solveSubconverterPlan` and `summarizeResolvedProfile` of worker/solver.mjs.
pub mod Groups
pub mod Rules
pub mod Direct
pub mod Denied
use rules.Base.{
  Bool, true, false, not, ◌&&◌, ◌||◌, Option, none, some, List, [], ◌∷◌, ◌++◌, map, Text, codes,
  text_eq, text_leb, includes, is_empty, if◌then◌else◌, keep, any, all, null, dedupe, sort_by,
  get_or, Result, ok, err, ◌>>=◌, ◌>>◌, throw_if,
}
use rules.Value.{Value}
use rules.Plan.{Rule, Candidate, Group, Section}
use rules.Catalog.{Region, Service, Data}
use rules.Spec.Error.{Error}
use rules.Spec.Services.{Reference, ini_rule_owners}
use rules.Spec.GroupCatalog.{present, plan_group_names, protected_id, protected_name}
use rules.Spec.Groups.{ServiceGroup}
use rules.Spec.Normalize.{Platform}
use rules.Resolve.{Resolved, resolve_profile_spec}
use rules.Solve.Names.{is_group_reference, plan_groups, region_by_id}
use rules.Solve.CustomRules.{custom_ini_rules, insert_ini_custom_rules}
use rules.Solve.Layout.{CustomLayout, unassigned_refs, group_name_for, apply_ini_service_groups}
use rules.Solve.Rewrite.{Solving, rewrite_sections}

-- The groups of inactive regions: `removedGroups`.
unfoldable pub removed_groups : Data → Resolved → List Text
removed_groups d r =
    let inactive = λ (m : List (Text × Text)).
      map (λ e. e.0) (keep (λ e. not (includes e.1 r.active_region_ids)) m) in
    inactive d.region_groups
    ++ ((if r.include_other_region then [] else d.other_region_group ∷ [])
        ++ inactive d.stable_region_groups)

-- `effectiveDisabled`
unfoldable pub effective_disabled : Data → Resolved → List Text
effective_disabled d r = dedupe (
    r.disabled_region_ids
    ++ keep (λ region. not (includes region r.active_region_ids)) d.routable_region_order)

-- `ids.map((region) => regionById.get(region)?.terms).filter(Boolean)`
unfoldable pub region_terms : List Region → List Text → List Text
region_terms regions ids =
    keep (λ t. not (is_empty t))
      (present (map (λ id. elim (region_by_id id regions) [ none ↦ none | some r ↦ r.terms ]) ids))

unfoldable pub blocked_terms : Data → Resolved → List Text
blocked_terms d r = region_terms d.regions (sort_by text_leb (effective_disabled d r))

abbrev pub ini_services : Data → List Service
ini_services d = keep (λ s. includes (codes "ini") s.output_formats) d.services

-- `serviceGroupMembers.set(group, members ∪ {id})`
unfoldable pub add_member : Text → Text → List (Text × List Text) → List (Text × List Text)
add_member group id [] = (group, id ∷ []) ∷ []
add_member group id ((g, ids) ∷ m) =
    if text_eq g group
    then (g, (if includes id ids then ids else ids ++ (id ∷ []))) ∷ m
    else (g, ids) ∷ add_member group id m

unfoldable pub members_by_group : List Service → List (Text × List Text) → List (Text × List Text)
members_by_group [] m = m
members_by_group (s ∷ ss) m = elim s.group [
  | none ↦ members_by_group ss m
  | some group ↦ members_by_group ss (if is_empty group then m else add_member group s.id m)
]

-- `serviceGroupMembers`
unfoldable pub service_group_members : Data → Option CustomLayout → List (Text × List Text)
service_group_members d none = members_by_group (ini_services d) []
service_group_members d (some l) = map (λ (g : ServiceGroup). (g.name, g.service_ids)) l.layouts

-- `serviceGroups.get(id)`
unfoldable pub service_group : Option CustomLayout → List Service → Text → Option Text
service_group (some l) services id =
    if includes id (map (λ (s : Service). s.id) services) then group_name_for id l.layouts else none
service_group none [] id = none
service_group none (s ∷ ss) id = elim (includes id (map (λ (q : Service). q.id) ss)) [
  | true ↦ service_group none ss id
  | false ↦ elim (text_eq s.id id) [ true ↦ s.group | false ↦ none ]
]

-- The protected group, if its service is disabled.
unfoldable pub disabled_protected_group : Data → Resolved → List Text
disabled_protected_group d r = elim (protected_id d) [
  | none ↦ []
  | some id ↦
      if includes id r.disabled_service_ids
      then keep (λ t. not (is_empty t)) (present (protected_name d ∷ []))
      else []
]

-- `disabledServiceGroups`
unfoldable pub disabled_service_groups : Data → Resolved → Option CustomLayout → List Text
disabled_service_groups d r layout =
    map (λ e. e.0)
      (keep (λ e. not (null e.1) && all (λ id. includes id r.disabled_service_ids) e.1)
        (service_group_members d layout))
    ++ disabled_protected_group d r

-- `disabledRuleRefs`
unfoldable pub disabled_rule_refs : Data → Resolved → Option CustomLayout → List Reference
disabled_rule_refs d r layout =
    map (λ e. e.0)
      (keep (λ e. any (λ id. includes id r.disabled_service_ids) e.1) (ini_rule_owners d))
    ++ unassigned_refs layout

unfoldable pub solving : Data → Resolved → Option CustomLayout → Solving
solving d r layout = record {
  catalog = d;
  resolved = r;
  layout = layout;
  blocked_terms = blocked_terms d r;
  allowed_terms = region_terms d.regions r.active_region_ids;
  removed_groups = removed_groups d r;
  ordering_groups = d.stable_region_groups ++ d.region_groups;
  disabled_groups = disabled_service_groups d r layout;
  disabled_refs = disabled_rule_refs d r layout;
  preferred_groups = map (service_group layout (ini_services d)) r.preferred_service_ids;
}

-- A candidate that refers to a group that the plan does not define.
abbrev pub is_dangling : List Text → Candidate → Bool
is_dangling defined c = is_group_reference c && not (includes c.value defined)

-- The check after the loop.
unfoldable pub check_references : List Section → Result Error (Unit {0})
check_references plan =
    throw_if
      (any (λ (g : Group). any (is_dangling (plan_group_names plan)) g.candidates)
        (plan_groups plan))
      Error.dangling_group_reference

-- `solveSubconverterPlan` below the check of the base profile.
unfoldable pub solve_plan : Data → Resolved → Result Error (List Section)
solve_plan d r = do
  applied ← apply_ini_service_groups d r (blocked_terms d r) d.plan
  let plan : List Section = rewrite_sections (solving d r applied.1) true applied.0
  check_references plan
  custom ← custom_ini_rules d r
  insert_ini_custom_rules d custom plan

unfoldable pub solve_subconverter_plan :
    Platform → Data → Value → Result Error (Resolved × List Section)
solve_subconverter_plan p d input = do
  r ← resolve_profile_spec p d (codes "ini") input
  throw_if (not (text_eq r.spec.base_profile (codes "ai-balanced")))
      Error.static_template_not_supported_by_solver
  plan ← solve_plan d r
  ok (r, plan)

-- `{ id, name }` of a summary
unfoldable pub named_region : Data → Text → Text × Text
named_region d id = (id, elim (region_by_id id d.regions) [ none ↦ id | some r ↦ r.name ])

pub record Summary : Type 0 where
  pub base_profile : Text
  pub active_regions : List (Text × Text)
  pub disabled_regions : List (Text × Text)
  pub preferred_regions : List (Text × Text)
  pub disabled_services : List Text
  pub preferred_services : List Text
  pub allow_direct : Option Bool
  pub fail_closed : Option Bool
  pub language : Option Value
  pub include_other_region : Bool

-- `summarizeResolvedProfile`
unfoldable pub summarize_resolved_profile : Data → Resolved → Summary
summarize_resolved_profile d r = record {
  base_profile = r.spec.base_profile;
  active_regions = map (named_region d) r.active_region_ids;
  disabled_regions = map (named_region d) r.disabled_region_ids;
  preferred_regions = map (named_region d) r.preferred_region_ids;
  disabled_services = r.disabled_service_ids;
  preferred_services = r.preferred_service_ids;
  allow_direct = r.allow_direct;
  fail_closed = r.fail_closed;
  language = r.language;
  include_other_region = r.include_other_region;
}
