-- ===== src/Solve/CustomRules.antt =====
-- `insertIniCustomRules` of worker/solver.mjs, with `planRuleLocations` and `protectedRuleTargets`: a
-- caller's rules are put into the routing tail of the plan.
pub mod Insertion
pub mod Groups
use rules.Base.{
  ℕ, map_result, Bool, true, false, not, ◌&&◌, ◌||◌, Option, none, some, List, [], ◌∷◌, ◌++◌, map,
  Text, codes, text_eq, includes, is_empty, if◌then◌else◌, keep, any, length, null, ◌==◌, Result,
  ok, err, ◌>>=◌, ◌>>◌, throw_if,
}
use rules.Plan.{
  Rule, Cluster, Section, rule_section, cluster_section, group_section, selector_section,
}
use rules.Catalog.{GroupEntry, Data}
use rules.Spec.Error.{Error}
use rules.Spec.Providers.{Behavior, classical, domain, Target, reject, direct, proxy, Provider}
use rules.Resolve.{Resolved}
use rules.Solve.Names.{named_group}
use rules.Spec.GroupCatalog.{label_of, present, protected_name}

unfoldable pub cluster_rules : List Cluster → List Rule
cluster_rules [] = []
cluster_rules (c ∷ cs) = c.rule_list ++ cluster_rules cs

-- The rules of `planRuleLocations`, in its order.
unfoldable pub plan_rules : List Section → List Rule
plan_rules [] = []
plan_rules (rule_section role layout rs ∷ ss) = rs ++ plan_rules ss
plan_rules (cluster_section role layout cs ∷ ss) = cluster_rules cs ++ plan_rules ss
plan_rules (group_section role layout gs ∷ ss) = plan_rules ss
plan_rules (selector_section role layout xs ∷ ss) = plan_rules ss

abbrev pub is_final : Rule → Bool
is_final r = text_eq r.kind (codes "final")

-- The kinds before which a custom rule may stand.
abbrev pub is_fallback : Rule → Bool
is_fallback r = text_eq r.kind (codes "geoip") || text_eq r.kind (codes "final")

unfoldable pub ends_final : List Rule → Bool
ends_final [] = false
ends_final (r ∷ []) = is_final r
ends_final (r ∷ s ∷ rs) = ends_final (s ∷ rs)

-- `finals.length === 1 && finals[0] === locations.at(-1)`
unfoldable pub has_terminal_final : List Rule → Bool
has_terminal_final rs = length (keep is_final rs) == 1 && ends_final rs

abbrev pub has_text : Text → Bool
has_text t = not (is_empty t)

-- `protectedRuleTargets`
unfoldable pub protected_rule_targets : Data → List Text
protected_rule_targets d = keep has_text (
    present (protected_name d ∷ label_of (codes "high-risk-account") d.groups ∷ [])
    ++ map (λ (e : GroupEntry). e.name)
        (elim d.service_groups [ none ↦ [] | some es ↦ keep (λ e. e.protected) es ]))

-- The rules with the custom ones before the first fallback rule, and the old rules from there on.
unfoldable pub splice_rules : List Rule → List Rule → Option (List Rule × List Rule)
splice_rules custom [] = none
splice_rules custom (r ∷ rs) = elim (is_fallback r) [
  | true ↦ some (custom ++ r ∷ rs, r ∷ rs)
  | false ↦ elim (splice_rules custom rs) [ none ↦ none | some x ↦ some (r ∷ x.0, x.1) ]
]

-- The same in the first cluster that has a fallback rule.
unfoldable pub splice_clusters : List Rule → List Cluster → Option (List Cluster × List Rule)
splice_clusters custom [] = none
splice_clusters custom (c ∷ cs) = elim (splice_rules custom c.rule_list) [
  | some x ↦ some (record c { rule_list = x.0 } ∷ cs, x.1 ++ cluster_rules cs)
  | none ↦ elim (splice_clusters custom cs) [ none ↦ none | some x ↦ some (c ∷ x.0, x.1) ]
]

unfoldable pub splice_tail : List Rule → List Cluster → Result Error (List Cluster × List Rule)
splice_tail custom cs = elim (splice_clusters custom cs) [
  | none ↦ err Error.invalid_profile_data
  | some x ↦ ok x
]

-- The same in the first section of clusters whose role is the routing tail.
unfoldable pub splice_plan : List Rule → List Section → Result Error (List Section × List Rule)
splice_plan custom [] = err Error.invalid_profile_data
splice_plan custom (cluster_section role layout cs ∷ ss) =
    elim (text_eq role (codes "routing-tail-clusters")) [
      | true ↦ do
        x ← splice_tail custom cs
        ok (cluster_section role layout x.0 ∷ ss, x.1 ++ plan_rules ss)
      | false ↦ do x ← splice_plan custom ss; ok (cluster_section role layout cs ∷ x.0, x.1)
    ]
splice_plan custom (s ∷ ss) = do x ← splice_plan custom ss; ok (s ∷ x.0, x.1)

-- The plan after `insertIniCustomRules`.
unfoldable pub insert_ini_custom_rules :
    Data → List Rule → List Section → Result Error (List Section)
insert_ini_custom_rules d custom plan = if null custom then ok plan else do
  throw_if (not (has_terminal_final (plan_rules plan))) Error.invalid_profile_data
  x ← splice_plan custom plan
  throw_if (any (λ r. includes r.target (protected_rule_targets d)) x.1) Error.invalid_profile_data
  ok x.0

abbrev pub target_key : Target → Text
target_key reject = codes "reject"
target_key direct = codes "direct"
target_key proxy = codes "manual"

-- `customRuleTarget`
unfoldable pub custom_rule_target : Data → Target → Result Error Text
custom_rule_target d target =
    let group = named_group d (target_key target) in
    if is_empty group then err Error.invalid_profile_data else ok group

abbrev pub remote_rule : Text → Text → Text → ℕ → Rule
remote_rule kind target url interval = record {
  kind = kind;
  target = target;
  url = some url;
  interval = some interval;
  value = none;
  options = [];
}

abbrev pub provider_kind : Behavior → Text
provider_kind domain = codes "remote-domain"
provider_kind classical = codes "remote-classical"

-- The rule of `data.adblockRuleProvider`.
unfoldable pub adblock_rule : Data → ℕ → Result Error Rule
adblock_rule d interval = elim d.adblock_provider [
  | none ↦ err Error.invalid_profile_data
  | some provider ↦ do
    throw_if (not (text_eq provider.behavior (codes "domain")) || is_empty provider.url)
        Error.invalid_profile_data
    target ← custom_rule_target d reject
    ok (remote_rule (codes "remote-domain") target provider.url interval)
]

unfoldable pub provider_rule : Data → ℕ → Provider → Result Error Rule
provider_rule d interval provider = do
  target ← custom_rule_target d provider.target
  ok (remote_rule (provider_kind provider.behavior) target provider.url interval)

-- `customIniRules` below the check of the interval
unfoldable pub rules_with_interval : Data → Resolved → ℕ → Result Error (List Rule)
rules_with_interval d r interval = do
  front ← if r.adblock then map_result (adblock_rule d) (interval ∷ []) else ok []
  back ← map_result (provider_rule d interval) r.custom_rule_providers
  ok (front ++ back)

unfoldable pub custom_ini_rules : Data → Resolved → Result Error (List Rule)
custom_ini_rules d r =
    if r.adblock || not (null r.custom_rule_providers)
    then elim d.ini_interval [
      | none ↦ err Error.invalid_profile_data
      | some interval ↦
          if interval == 0 then err Error.invalid_profile_data else rules_with_interval d r interval
    ]
    else ok []
