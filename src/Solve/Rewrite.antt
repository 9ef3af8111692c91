-- ===== src/Solve/Rewrite.antt =====
-- The loop of `solveSubconverterPlan` of worker/solver.mjs over the sections of the plan: its rules,
-- selectors and groups follow the resolved profile.
pub mod Groups
pub mod Rules
pub mod Kept
use rules.Base.{
  Bool, true, false, not, ◌&&◌, ◌||◌, Option, none, some, List, [], ◌∷◌, ◌++◌, map, Text, codes,
  text_eq, includes, is_empty, if◌then◌else◌, keep, any, all, null, flat, dedupe, ◌==◌,
}
use rules.Plan.{
  Rule, Candidate, Group, Cluster, Selector, Section, rule_section, cluster_section, group_section,
  selector_section,
}
use rules.Catalog.{Data}
use rules.Spec.Services.{Reference}
use rules.Spec.GroupCatalog.{present, is_text}
use rules.Spec.Normalize.{is_false, is_true}
use rules.Resolve.{Resolved}
use rules.Solve.Names.{
  reject_group, named_group, group_reference, is_group_reference, direct_targets,
  service_rule_reference,
}
use rules.Solve.Filters.{negative_filter, positive_filter}
use rules.Solve.Candidates.{reorder_candidates}
use rules.Solve.Layout.{
  CustomLayout, unassigned_refs, ref_includes, target_of_ref, reference_among, change_rules,
}

-- What the loop reads: the constants above it.
pub record Solving : Type 0 where
  pub catalog : Data
  pub resolved : Resolved
  pub layout : Option CustomLayout
  pub blocked_terms : List Text
  pub allowed_terms : List Text
  pub removed_groups : List Text
  pub ordering_groups : List (Text × Text)
  pub disabled_groups : List Text
  pub disabled_refs : List Reference
  -- `resolved.preferredServiceIds.map((id) => serviceGroups.get(id))`
  pub preferred_groups : List (Option Text)

-- The target of a rule that the custom layout does not change.
unfoldable pub plain_target : Solving → Text → Text
plain_target x target =
    if includes target x.disabled_groups
    then reject_group x.catalog
    else if is_false x.resolved.allow_direct && includes target (direct_targets x.catalog)
    then reject_group x.catalog
    else target

-- The target that the custom layout gives to a rule, if it changes the rule.
unfoldable pub layout_target : Solving → CustomLayout → Rule → Option Text
layout_target x l r = elim (service_rule_reference r) [
  | none ↦ none
  | some ref ↦ elim (target_of_ref ref l.target_by_ref) [
    | none ↦ none
    | some target ↦
        if ref_includes ref l.unassigned_refs || ref_includes ref x.disabled_refs
        then some (reject_group x.catalog)
        else if text_eq target r.target
        then none
        else some target
  ]
]

-- The target of a rule after `rewriteRules`.
unfoldable pub new_target : Solving → Option CustomLayout → Rule → Text
new_target x none r = plain_target x r.target
new_target x (some l) r = elim (layout_target x l r) [
  | none ↦ plain_target x r.target
  | some target ↦ target
]

-- The callback of `rewriteRules`.
unfoldable pub rewrite_rule : Solving → Rule → Rule
rewrite_rule x r = record r { target = new_target x x.layout r }

unfoldable pub texts_eq : List Text → List Text → Bool
texts_eq [] [] = true
texts_eq (s ∷ ss) (t ∷ ts) = text_eq s t && texts_eq ss ts
texts_eq _ _ = false

-- Two rules have the same JSON text.
unfoldable pub rule_eq : Rule → Rule → Bool
rule_eq a b =
    text_eq a.kind b.kind
    && text_eq a.target b.target
    && (elim a.url [
      | none ↦ (elim b.url [ none ↦ true | some _ ↦ false ])
      | some u ↦ is_text b.url u
    ])
    && (elim a.interval [
      | none ↦ elim b.interval [ none ↦ true | some _ ↦ false ]
      | some m ↦ elim b.interval [ none ↦ false | some n ↦ m == n ]
    ])
    && (elim a.value [
      | none ↦ (elim b.value [ none ↦ true | some _ ↦ false ])
      | some u ↦ is_text b.value u
    ])
    && texts_eq a.options b.options

-- `new Map(rules.map((rule) => [JSON.stringify(rule), rule])).values()`
unfoldable pub unique_rules : List Rule → List Rule → List Rule
unique_rules seen [] = []
unique_rules seen (r ∷ rs) = elim (any (λ s. rule_eq s r) seen) [
  | true ↦ unique_rules seen rs
  | false ↦ r ∷ unique_rules (r ∷ seen) rs
]

-- `byName.get(name)`: the last selector of the name
unfoldable pub selector_named : Text → List Selector → Option Selector
selector_named name [] = none
selector_named name (s ∷ ss) = elim (selector_named name ss) [
  | some later ↦ some later
  | none ↦ elim (text_eq s.group.name name) [ true ↦ some s | false ↦ none ]
]

unfoldable pub selectors_named : List Text → List Selector → List Selector
selectors_named [] ss = []
selectors_named (name ∷ names) ss = elim (selector_named name ss) [
  | none ↦ selectors_named names ss
  | some s ↦ s ∷ selectors_named names ss
]

abbrev pub selector_names : List Selector → List Text
selector_names = map (λ (s : Selector). s.group.name)

unfoldable pub there : List (Option Candidate) → List Candidate
there [] = []
there (none ∷ os) = there os
there (some c ∷ os) = c ∷ there os

abbrev pub deny_cluster : List Rule → List Cluster
deny_cluster [] = []
deny_cluster (r ∷ rs) = record { source = codes "service"; rule_list = r ∷ rs } ∷ []

abbrev pub is_service_rules : Text → Bool
is_service_rules role = text_eq role (codes "service-rule-clusters")

module _ (x : Solving) where
  abbrev pub is_disabled_rule : Rule → Bool
  is_disabled_rule r = elim (reference_among x.disabled_refs r) [ none ↦ false | some _ ↦ true ]

  abbrev pub rejected : Rule → Rule
  rejected r = record r { target = reject_group x.catalog }

  unfoldable pub deny_rules : List Cluster → List Rule
  deny_rules [] = []
  deny_rules (c ∷ cs) = map rejected (keep is_disabled_rule c.rule_list) ++ deny_rules cs

  -- The clusters without the disabled rules; one that is left empty is left out.
  unfoldable pub retained_clusters : List Cluster → List Cluster
  retained_clusters [] = []
  retained_clusters (c ∷ cs) =
      let rest = retained_clusters cs in
      let active : List Rule = keep (λ r. not (is_disabled_rule r)) c.rule_list in
      if null active then rest else record c { rule_list = map (rewrite_rule x) active } ∷ rest

  -- The clusters of the section of service rules where rules are denied.
  unfoldable pub denied_clusters : List Cluster → List Cluster
  denied_clusters cs = deny_cluster (unique_rules [] (deny_rules cs)) ++ retained_clusters cs

  -- `needsDenyRules`
  abbrev pub needs_deny_rules : Bool
  needs_deny_rules =
      not (null x.resolved.disabled_service_ids) || not (null (unassigned_refs x.layout))

  -- The candidates that are there: `reorderCandidates` leaves no `undefined`.
  unfoldable pub reordered : List Candidate → List Candidate
  reordered cs =
      there (reorder_candidates cs x.ordering_groups x.resolved.active_region_ids x.removed_groups)

  abbrev pub only_reject : List Candidate
  only_reject = group_reference (reject_group x.catalog) ∷ []

  -- `rejectFirst`
  unfoldable pub with_reject_first : List Candidate → List Candidate
  with_reject_first cs =
      if is_true x.resolved.fail_closed
      then group_reference (reject_group x.catalog)
        ∷ keep (λ c. not (text_eq c.value (reject_group x.catalog))) cs
      else cs

  abbrev pub redirect : Candidate → Candidate
  redirect c =
      if is_group_reference c && includes c.value (direct_targets x.catalog)
      then group_reference (reject_group x.catalog)
      else c

  -- The candidates of a group of this name where `allowDirect` is off.
  unfoldable pub without_direct : Text → List Candidate → List Candidate
  without_direct name cs =
      if is_false x.resolved.allow_direct
      then (if text_eq name (named_group x.catalog (codes "direct"))
          then only_reject
          else map redirect cs)
      else cs

  abbrev is_custom : Option CustomLayout → Text → Bool
  is_custom none name = false
  is_custom (some l) name = includes name l.custom_names

  abbrev is_protected : Option CustomLayout → Text → Bool
  is_protected none name = false
  is_protected (some l) name = text_eq name l.protected_group_name

  unfoldable pub selector_candidates : Group → List Candidate
  selector_candidates g =
      if includes g.name x.disabled_groups
      then only_reject
      else with_reject_first (
          without_direct g.name
            (if is_custom x.layout g.name then g.candidates else reordered g.candidates))

  abbrev pub rewrite_selector : Selector → Selector
  rewrite_selector s = record s {
    group = record s.group { candidates = selector_candidates s.group };
  }

  -- `resolved.failClosed !== undefined` on the fallback group
  unfoldable pub with_fallback : Text → List Candidate → List Candidate
  with_fallback name cs = elim x.resolved.fail_closed [
    | none ↦ cs
    | some closed ↦
        if text_eq name (named_group x.catalog (codes "fallback"))
        then group_reference
            (if closed then reject_group x.catalog else named_group x.catalog (codes "auto"))
          ∷ []
        else cs
  ]

  unfoldable pub or_reject : List Candidate → List Candidate
  or_reject [] = only_reject
  or_reject (c ∷ cs) = c ∷ cs

  unfoldable pub group_candidates : Group → List Candidate
  group_candidates g = with_reject_first (
      or_reject (
        with_fallback g.name (
          without_direct g.name (
            if includes g.name x.disabled_groups
            then only_reject
            else if is_protected x.layout g.name
            then g.candidates
            else reordered g.candidates))))

  -- The filter of a proxy group; `filter_pattern` is there or not.
  unfoldable pub group_filter : Group → Option Text
  group_filter g = elim g.filter_pattern [
    | none ↦ none
    | some pattern ↦
        if is_text g.type (codes "proxy-group")
        then (if not (includes g.name (map (λ e. e.0) x.catalog.region_groups))
              && is_text g.kind (codes "select")
            then (if x.resolved.include_other_region
                then negative_filter (some pattern) x.blocked_terms
                else positive_filter (some pattern) x.allowed_terms)
            else if text_eq g.name x.catalog.other_region_group
            then negative_filter (some pattern) x.blocked_terms
            else some pattern)
        else some pattern
  ]

  unfoldable pub rewrite_group : Group → Group
  rewrite_group g = record g { candidates = group_candidates g; filter_pattern = group_filter g }

  -- `preferredGroups`
  unfoldable pub preferred_here : List Selector → List Text
  preferred_here ss = elim x.layout [
    | some l ↦ []
    | none ↦
        keep (λ n. not (is_empty n) && includes n (selector_names ss)) (present x.preferred_groups)
  ]

  -- The preferred selectors first, then the others, each name once.
  unfoldable pub prefer_selectors : List Selector → List Selector
  prefer_selectors ss =
      let preferred = dedupe (preferred_here ss) in
      if null (preferred_here ss)
      then ss
      else selectors_named
          (preferred ++ keep (λ n. not (includes n preferred)) (dedupe (selector_names ss))) ss

  -- One round of the loop; `first` says that no section of service rules came before.
  unfoldable pub rewrite_section : Bool → Section → Section
  rewrite_section first (rule_section role layout rs) =
      rule_section role layout (map (rewrite_rule x) rs)
  rewrite_section first (cluster_section role layout cs) = cluster_section role layout (
      if first && is_service_rules role && needs_deny_rules
      then denied_clusters cs
      else map (change_rules (map (rewrite_rule x))) cs)
  rewrite_section first (selector_section role layout ss) =
      selector_section role layout (prefer_selectors (map rewrite_selector ss))
  rewrite_section first (group_section role layout gs) =
      group_section role layout
        (map rewrite_group (keep (λ g. not (includes g.name x.removed_groups)) gs))

  abbrev pub still_first : Bool → Section → Bool
  still_first first (cluster_section role layout cs) = first && not (is_service_rules role)
  still_first first _ = first

  unfoldable pub rewrite_sections : Bool → List Section → List Section
  rewrite_sections first [] = []
  rewrite_sections first (s ∷ ss) =
      rewrite_section first s ∷ rewrite_sections (still_first first s) ss
