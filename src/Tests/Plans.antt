-- ===== src/Tests/Plans.antt =====
-- Instances of the theorems on the INI plan solver.
use rules.Base.{
  refl, includes, any, true, false, none, ok, some, List, [], ◌∷◌, ◌++◌, map, Text, codes, ◌≡◌,
}
use rules.Plan.{Candidate, Rule, Cluster, Section, rule_section, cluster_section}
use rules.Tests.{solver, catalog}
use rules.Solve.Candidates.{kept_candidates, reorder_candidates}
use rules.Solve.CustomRules.{
  cluster_rules, plan_rules, ends_final, has_terminal_final, protected_rule_targets, splice_rules,
  splice_clusters, splice_tail, splice_plan, insert_ini_custom_rules,
}
use rules.Solve.CustomRules.Insertion.{IsSpliced, insert_ini_custom_rules-IsSpliced}
use rules.Solve.Candidates.Order.{IsReordered, reorder_candidates-IsReordered}

abbrev reference : Text → Candidate
reference name = record { kind = codes "group-ref"; value = name }

-- Two region groups around DIRECT, and a group that is removed.
abbrev candidates : List Candidate
candidates =
    reference (codes "US nodes")
    ∷ reference (codes "Old")
    ∷ record { kind = codes "policy"; value = codes "DIRECT" }
    ∷ reference (codes "JP nodes")
    ∷ []

abbrev group_to_region : List (Text × Text)
group_to_region = (codes "US nodes", codes "us") ∷ (codes "JP nodes", codes "jp") ∷ []

reorder_candidates-IsReordered_example :
    (out : List Candidate) × (reorder_candidates candidates group_to_region
        (codes "jp" ∷ codes "us" ∷ [])
        (codes "Old" ∷ [])
      ≡ map some out)
    × IsReordered group_to_region
        (codes "jp" ∷ codes "us" ∷ [])
        (kept_candidates (codes "Old" ∷ []) candidates)
        out
reorder_candidates-IsReordered_example =
    reorder_candidates-IsReordered candidates group_to_region (codes "jp" ∷ codes "us" ∷ [])
      (codes "Old" ∷ [])

-- All that the tests of the plan compute with.
unfoldable pub planner : Unit {0}
unfolding solver cluster_rules plan_rules ends_final has_terminal_final protected_rule_targets
    splice_rules splice_clusters splice_tail splice_plan insert_ini_custom_rules
planner = tt

abbrev pub rule : Text → Text → Rule
rule kind target = record {
  kind = kind;
  target = target;
  url = none;
  interval = none;
  value = none;
  options = [];
}

abbrev custom_rule : Rule
custom_rule = record (rule (codes "remote-domain") (codes "Proxy")) {
  url = some (codes "https://x.dev/r");
}

abbrev tail_clusters : List Rule → List Cluster
tail_clusters custom =
    record { source = codes "account"; rule_list = rule (codes "domain") (codes "Guard") ∷ [] }
    ∷ record {
      source = codes "tail";
      rule_list =
          custom
          ++ rule (codes "geoip") (codes "DIRECT") ∷ rule (codes "final") (codes "Proxy") ∷ [];
    }
    ∷ []

-- A plan with a rule of the protected group before its fallback rules.
abbrev plan_with : List Rule → List Section
plan_with custom =
    rule_section (codes "head")
      (record { comments = []; leading_blank = false; emit_if_empty = false })
      (rule (codes "domain") (codes "DIRECT") ∷ [])
    ∷ cluster_section (codes "routing-tail-clusters")
        (record { leading_blank = false; blank_before_first = false; blank_between = false })
        (tail_clusters custom)
    ∷ []

custom_inserted :
    insert_ini_custom_rules catalog (custom_rule ∷ []) (plan_with [])
    ≡ ok (plan_with (custom_rule ∷ []))
unfolding planner
custom_inserted = refl

insert_ini_custom_rules-IsSpliced_example :
    (after : List Rule) × IsSpliced
      (custom_rule ∷ [])
      (plan_rules (plan_with []))
      (plan_rules (plan_with (custom_rule ∷ [])))
      after
    × (any (λ r. includes r.target (protected_rule_targets catalog)) after ≡ false)
    × (has_terminal_final (plan_rules (plan_with [])) ≡ true)
insert_ini_custom_rules-IsSpliced_example =
    insert_ini_custom_rules-IsSpliced catalog (custom_rule ∷ []) (plan_with [])
      (plan_with (custom_rule ∷ [])) refl custom_inserted
