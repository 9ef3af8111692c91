-- ===== src/Solve/Names.antt =====
-- The group names that the INI plan solver of worker/solver.mjs reads from the catalog, and the
-- reference of a rule. A key of `groups` that is missing gives the empty text here, as no group has
-- an empty name.
use rules.Base.{
  Bool, true, false, Option, none, some, List, [], ◌∷◌, ◌++◌, map, Text, codes, text_eq, get_or,
}
use rules.Plan.{
  Rule, Candidate, Group, Selector, Section, rule_section, cluster_section, group_section,
  selector_section,
}
use rules.Catalog.{Region, Data}
use rules.Spec.Services.{Reference, rule_reference}
use rules.Spec.GroupCatalog.{label_of}

-- `data.groups[key]`
unfoldable pub named_group : Data → Text → Text
named_group d key = get_or (label_of key d.groups) []

abbrev pub first_of {ℓ} : {A : Type ℓ} → Option A → A → A
first_of none b = b
first_of (some a) b = a

-- `accountProtection.rejectGroup ?? data.groups.reject`
unfoldable pub reject_group : Data → Text
reject_group d = elim d.account_protection [
  | none ↦ named_group d (codes "reject")
  | some p ↦ first_of p.reject_group (named_group d (codes "reject"))
]

-- `{ kind: "group-ref", value }`
abbrev pub group_reference : Text → Candidate
group_reference name = record { kind = codes "group-ref"; value = name }

abbrev pub is_group_reference : Candidate → Bool
is_group_reference c = text_eq c.kind (codes "group-ref")

-- `new Set(["DIRECT", data.groups.direct])`
abbrev pub direct_targets : Data → List Text
direct_targets d = codes "DIRECT" ∷ named_group d (codes "direct") ∷ []

-- `rule.url ?? rule.value`
abbrev pub rule_value : Rule → Option Text
rule_value r = elim r.url [ none ↦ r.value | some url ↦ some url ]

-- `serviceRuleReference`
unfoldable pub service_rule_reference : Rule → Option Reference
service_rule_reference r = rule_reference (some r.kind) (rule_value r)

-- The map from ids to regions: of an id that stands twice, the last region.
unfoldable pub region_by_id : Text → List Region → Option Region
region_by_id id [] = none
region_by_id id (r ∷ rs) = elim (region_by_id id rs) [
  | some later ↦ some later
  | none ↦ elim (text_eq r.id id) [ true ↦ some r | false ↦ none ]
]

-- The groups of a plan, its selectors' groups among them.
unfoldable pub plan_groups : List Section → List Group
plan_groups [] = []
plan_groups (rule_section _ _ _ ∷ ss) = plan_groups ss
plan_groups (cluster_section _ _ _ ∷ ss) = plan_groups ss
plan_groups (group_section _ _ gs ∷ ss) = gs ++ plan_groups ss
plan_groups (selector_section _ _ xs ∷ ss) = map (λ (x : Selector). x.group) xs ++ plan_groups ss
