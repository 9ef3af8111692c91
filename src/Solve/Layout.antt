-- ===== src/Solve/Layout.antt =====
-- `applyIniServiceGroups` of worker/solver.mjs: the rules and groups of the plan follow a custom
-- layout of service groups.
pub mod Groups
pub mod Unassigned
use rules.Base.{
  Bool, true, false, not, ◌||◌, Option, none, some, List, [], ◌∷◌, ◌++◌, map, Text, codes, text_eq,
  includes, get_or, if◌then◌else◌, keep, null, flat, is_some, Result, ok, err, ◌>>=◌, map_result,
}
use rules.Plan.{
  Rule, Group, Cluster, Selector, Section, rule_section, cluster_section, group_section,
  selector_section,
}
use rules.Catalog.{RuleRef, Service, GroupEntry, Data}
use rules.Spec.Error.{Error}
use rules.Spec.Services.{Reference, reference_eq, rule_reference}
use rules.Spec.GroupCatalog.{GroupCatalog, region_ids, service_group_catalog}
use rules.Spec.Groups.{ServiceGroup}
use rules.Spec.Normalize.{is_true}
use rules.Resolve.{Resolved}
use rules.Solve.Names.{reject_group, service_rule_reference}
use rules.Solve.CustomRules.{plan_rules}
use rules.Solve.ServiceGroups.{service_group_candidates, add_scoped_ini_region_groups}

-- What `applyIniServiceGroups` returns: the layouts stand for its maps from services to group names
-- and from names to members.
pub record CustomLayout : Type 0 where
  pub layouts : List ServiceGroup
  pub custom_names : List Text
  pub unassigned_refs : List Reference
  pub target_by_ref : List (Reference × Text)
  pub protected_group_name : Text

abbrev pub unassigned_refs : Option CustomLayout → List Reference
unassigned_refs none = []
unassigned_refs (some l) = l.unassigned_refs

-- `groupForService.get(id)`: the name of the last group that has the service
unfoldable pub group_name_for : Text → List ServiceGroup → Option Text
group_name_for id [] = none
group_name_for id (g ∷ gs) = elim (group_name_for id gs) [
  | some later ↦ some later
  | none ↦ elim (includes id g.service_ids) [ true ↦ some g.name | false ↦ none ]
]

-- `layoutById.get(id)`
unfoldable pub layout_by_id : Text → List ServiceGroup → Option ServiceGroup
layout_by_id id [] = none
layout_by_id id (g ∷ gs) = elim (layout_by_id id gs) [
  | some later ↦ some later
  | none ↦ elim (text_eq g.id id) [ true ↦ some g | false ↦ none ]
]

unfoldable pub ref_includes : Reference → List Reference → Bool
ref_includes ref [] = false
ref_includes ref (r ∷ rs) = reference_eq r ref || ref_includes ref rs

unfoldable pub target_of_ref : Reference → List (Reference × Text) → Option Text
target_of_ref ref [] = none
target_of_ref ref ((r, t) ∷ m) = if reference_eq r ref then some t else target_of_ref ref m

-- `targetByRef` and `unassignedRefs`
pub record RefTargets : Type 0 where
  pub targets : List (Reference × Text)
  pub unassigned : List Reference

abbrev mark_unassigned : Bool → Reference → RefTargets → RefTargets
mark_unassigned true ref m = m
mark_unassigned false ref m = record m { unassigned = ref ∷ m.unassigned }

-- One round of the loop over `service.ruleRefs`; `assigned` says whether the service has a group.
unfoldable pub add_ref_target : Text → Bool → RefTargets → Reference → Result Error RefTargets
add_ref_target target assigned m ref = elim (target_of_ref ref m.targets) [
  | none ↦ ok (mark_unassigned assigned ref (record m { targets = (ref, target) ∷ m.targets }))
  | some existing ↦
      if text_eq existing target
      then ok (mark_unassigned assigned ref m)
      else err Error.incompatible_service_rule_owners
]

unfoldable pub add_ref_targets : Text → Bool → RefTargets → List RuleRef → Result Error RefTargets
add_ref_targets target assigned m [] = ok m
add_ref_targets target assigned m (r ∷ rs) = elim (rule_reference r.ini_kind r.ini_value) [
  | none ↦ add_ref_targets target assigned m rs
  | some ref ↦ do m' ← add_ref_target target assigned m ref; add_ref_targets target assigned m' rs
]

unfoldable pub ref_targets :
    Text → List ServiceGroup → RefTargets → List Service → Result Error RefTargets
ref_targets reject layouts m [] = ok m
ref_targets reject layouts m (s ∷ ss) = do
  m' ←
      add_ref_targets (get_or (group_name_for s.id layouts) reject)
        (is_some (group_name_for s.id layouts)) m s.rule_refs
  ref_targets reject layouts m' ss

-- The reference of a rule, if it is one of the listed ones.
unfoldable pub reference_among : List Reference → Rule → Option Reference
reference_among refs r = elim (service_rule_reference r) [
  | none ↦ none
  | some ref ↦ if ref_includes ref refs then some ref else none
]

-- `denies.set(reference, rule)`
unfoldable pub set_deny : Reference → Rule → List (Reference × Rule) → List (Reference × Rule)
set_deny ref rule [] = (ref, rule) ∷ []
set_deny ref rule ((r, old) ∷ m) =
    if reference_eq r ref then (r, rule) ∷ m else (r, old) ∷ set_deny ref rule m

unfoldable pub collect_denies :
    List Reference → Text → List Rule → List (Reference × Rule) → List (Reference × Rule)
collect_denies refs reject [] m = m
collect_denies refs reject (r ∷ rs) m = elim (reference_among refs r) [
  | none ↦ collect_denies refs reject rs m
  | some ref ↦ collect_denies refs reject rs (set_deny ref (record r { target = reject }) m)
]

abbrev pub change_rules : (List Rule → List Rule) → Cluster → Cluster
change_rules f c = record c { rule_list = f c.rule_list }

-- A change of each list of rules of the plan.
unfoldable pub map_rules : (List Rule → List Rule) → List Section → List Section
map_rules f [] = []
map_rules f (rule_section role layout rs ∷ ss) = rule_section role layout (f rs) ∷ map_rules f ss
map_rules f (cluster_section role layout cs ∷ ss) =
    cluster_section role layout (map (change_rules f) cs) ∷ map_rules f ss
map_rules f (s ∷ ss) = s ∷ map_rules f ss

-- `before.rules.unshift(...denies)` on the first section of rules that is "legacy-before"
unfoldable pub insert_denies : List Rule → List Section → Result Error (List Section)
insert_denies denies [] = err Error.invalid_profile_data
insert_denies denies (rule_section role layout rs ∷ ss) =
    elim (text_eq role (codes "legacy-before")) [
      | true ↦ ok (rule_section role layout (denies ++ rs) ∷ ss)
      | false ↦ do rest ← insert_denies denies ss; ok (rule_section role layout rs ∷ rest)
    ]
insert_denies denies (s ∷ ss) = do rest ← insert_denies denies ss; ok (s ∷ rest)

-- The rules of services without a group become denials in front of the other rules.
unfoldable pub deny_unassigned : List Reference → Text → List Section → Result Error (List Section)
deny_unassigned refs reject plan =
    let denies = collect_denies refs reject (plan_rules plan) [] in
    let retained = map_rules (keep (λ r. not (is_some (reference_among refs r)))) plan in
    if null denies then ok retained else insert_denies (map (λ x. x.1) denies) retained

unfoldable pub retarget_rule : List (Reference × Text) → Rule → Rule
retarget_rule targets r = elim (service_rule_reference r) [
  | none ↦ r
  | some ref ↦ elim (target_of_ref ref targets) [ none ↦ r | some t ↦ record r { target = t } ]
]

-- The groups other than the protected service's.
abbrev pub unprotected_layouts : GroupEntry → List ServiceGroup → List ServiceGroup
unprotected_layouts entry layouts = keep (λ g. not (includes entry.id g.service_ids)) layouts

module _ (d : Data) (resolved : Resolved) (c : GroupCatalog) (layouts : List ServiceGroup)
    (targets : List (Reference × Text)) where
  unfoldable pub custom_selector : ServiceGroup → Result Error Selector
  custom_selector layout = do
    candidates ← service_group_candidates d c.source (is_true resolved.fail_closed) layout
    let g : Group = record {
      type = some (codes "select-group");
      name = layout.name;
      kind = none;
      candidates = candidates;
      filter_pattern = none;
      health_check_url = none;
      interval = none;
      tolerance = none;
    }
    ok (record { comments = []; group = g })

  -- The protected group takes the candidates of its layout.
  unfoldable pub protect_group : Group → Result Error Group
  protect_group g =
      if text_eq g.name c.protected_entry.name
      then elim (layout_by_id c.protected_entry.id layouts) [
        | none ↦ err Error.protected_service_group
        | some layout ↦ do
          candidates ← service_group_candidates d c.source true layout
          ok (record g { candidates = candidates })
      ]
      else ok g

  -- One round of the last loop over the sections.
  unfoldable pub apply_section : Section → Result Error Section
  apply_section (rule_section role layout rs) =
      ok (rule_section role layout (map (retarget_rule targets) rs))
  apply_section (cluster_section role layout cs) =
      ok (cluster_section role layout (map (change_rules (map (retarget_rule targets))) cs))
  apply_section (selector_section role layout xs) =
      if text_eq role (codes "service-selectors")
      then (do
        selectors ← map_result custom_selector (unprotected_layouts c.protected_entry layouts)
        ok (selector_section role layout selectors))
      else ok (selector_section role layout xs)
  apply_section (group_section role layout gs) = do
    groups ← map_result protect_group (
        if text_eq role (codes "account-group")
        then gs
        else keep (λ g. not (includes g.name c.source_names)) gs)
    ok (group_section role layout groups)

-- The routes of the layouts that are regions.
abbrev needed_regions : Data → List ServiceGroup → List Text
needed_regions d layouts =
    flat (map (λ g. keep (λ route. includes route (region_ids d)) g.routes) layouts)

unfoldable pub apply_layouts :
    Data
    → Resolved
    → List Text
    → List Section
    → List ServiceGroup
    → Result Error (List Section × Option CustomLayout)
apply_layouts d resolved blocked plan layouts = do
  c ← service_group_catalog d (codes "ini") resolved.spec.base_profile
  m ← ref_targets (reject_group d) layouts (record { targets = []; unassigned = [] }) c.services
  denied ← if null m.unassigned then ok plan else deny_unassigned m.unassigned (reject_group d) plan
  grown ← add_scoped_ini_region_groups d blocked (needed_regions d layouts) denied
  applied ← map_result (apply_section d resolved c layouts m.targets) grown
  ok (
    applied,
    some (record {
      layouts = layouts;
      custom_names = map (λ g. g.name) (unprotected_layouts c.protected_entry layouts);
      unassigned_refs = m.unassigned;
      target_by_ref = m.targets;
      protected_group_name = c.protected_entry.name;
    }),
  )

-- `applyIniServiceGroups`: the new plan, and what the function returns
unfoldable pub apply_ini_service_groups :
    Data → Resolved → List Text → List Section → Result Error (List Section × Option CustomLayout)
apply_ini_service_groups d resolved blocked plan = elim resolved.spec.service_groups [
  | none ↦ ok (plan, none)
  | some layouts ↦ apply_layouts d resolved blocked plan layouts
]
