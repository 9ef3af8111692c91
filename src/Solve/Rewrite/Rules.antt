-- ===== src/Solve/Rewrite/Rules.antt =====
-- The rules of a plan that the loop of `solveSubconverterPlan` of worker/solver.mjs has rewritten.
use mathlib.Core.List.{append_assoc}
use rules.Base.{
  Bool, false, not, ◌&&◌, Option, none, some, List, [], ◌∷◌, ◌++◌, map, Text, includes, keep, any,
  null, All, All-append, ◌≡◌, refl, sym, Bool-cases, ◌⊎◌, inl, inr,
}
use rules.Plan.{
  Rule, Cluster, Section, rule_section, cluster_section, group_section, selector_section,
}
use rules.Catalog.{Data}
use rules.Solve.Names.{reject_group, direct_targets, service_rule_reference}
use rules.Solve.CustomRules.{cluster_rules, plan_rules}
use rules.Solve.Layout.{CustomLayout, reference_among, change_rules}
use rules.Solve.Rewrite.{
  Solving, plain_target, new_target, rewrite_rule, unique_rules, rule_eq, is_disabled_rule,
  rejected, deny_rules, retained_clusters, deny_cluster, denied_clusters, needs_deny_rules,
  is_service_rules, rewrite_section, rewrite_sections,
}

cluster_rules-append :
    (xs ys : List Cluster) → cluster_rules (xs ++ ys) ≡ cluster_rules xs ++ cluster_rules ys
unfolding cluster_rules
cluster_rules-append [] ys = refl
cluster_rules-append (c ∷ xs) ys =
    rw (cluster_rules-append xs ys)
      (sym (append_assoc c.rule_list (cluster_rules xs) (cluster_rules ys)))

module _ (P : Rule → Type 0) where
  All-unique_rules : (seen rs : List Rule) → All P rs → All P (unique_rules seen rs)
  unfolding unique_rules
  All-unique_rules seen [] a = tt
  All-unique_rules seen (r ∷ rs) a = elim (Bool-cases (any (λ s. rule_eq s r) seen)) [
    | inl old ↦ rw (old, All, unique_rules) (All-unique_rules seen rs a.1)
    | inr fresh ↦ rw (fresh, All, unique_rules) (a.0, All-unique_rules (r ∷ seen) rs a.1)
  ]

  All-deny_cluster : (rs : List Rule) → All P rs → All P (cluster_rules (deny_cluster rs))
  unfolding cluster_rules
  All-deny_cluster [] a = tt
  All-deny_cluster (r ∷ rs) a = All-append P (r ∷ rs) [] a tt

  module _ (x : Solving) (p : (r : Rule) → P (rewrite_rule x r)) where
    All-rewrite_rule : (rs : List Rule) → All P (map (rewrite_rule x) rs)
    All-rewrite_rule [] = tt
    All-rewrite_rule (r ∷ rs) = (p r, All-rewrite_rule rs)

    All-retained_clusters : (cs : List Cluster) → All P (cluster_rules (retained_clusters x cs))
    unfolding retained_clusters cluster_rules
    All-retained_clusters [] = tt
    All-retained_clusters (c ∷ cs) =
        elim (Bool-cases (null (keep (λ r. not (is_disabled_rule x r)) c.rule_list))) [
          | inl nothing ↦ rw nothing (All-retained_clusters cs)
          | inr active ↦
              rw active (All-append P _ _ (All-rewrite_rule _) (All-retained_clusters cs))
        ]

    All-changed_clusters :
        (cs : List Cluster) → All P (cluster_rules (map (change_rules (map (rewrite_rule x))) cs))
    unfolding cluster_rules
    All-changed_clusters [] = tt
    All-changed_clusters (c ∷ cs) = All-append P _ _ (All-rewrite_rule _) (All-changed_clusters cs)

    module _ (q : (r : Rule) → P (rejected x r)) where
      All-rejected : (rs : List Rule) → All P (map (rejected x) rs)
      All-rejected [] = tt
      All-rejected (r ∷ rs) = (q r, All-rejected rs)

      All-deny_rules : (cs : List Cluster) → All P (deny_rules x cs)
      unfolding deny_rules
      All-deny_rules [] = tt
      All-deny_rules (c ∷ cs) = All-append P _ _ (All-rejected _) (All-deny_rules cs)

      All-cluster_append :
          (xs ys : List Cluster)
          → All P (cluster_rules xs)
          → All P (cluster_rules ys)
          → All P (cluster_rules (xs ++ ys))
      All-cluster_append xs ys a b = rw (cluster_rules-append xs ys) (All-append P _ _ a b)

      All-denied_clusters : (cs : List Cluster) → All P (cluster_rules (denied_clusters x cs))
      unfolding denied_clusters
      All-denied_clusters cs =
          All-cluster_append _ _ (All-deny_cluster _ (All-unique_rules [] _ (All-deny_rules cs)))
            (All-retained_clusters cs)

      -- What holds of every rewritten and of every denied rule holds of all rules of the rewritten
      -- plan.
      pub All-plan_rules :
          (ss : List Section) (first : Bool) → All P (plan_rules (rewrite_sections x first ss))
      unfolding rewrite_sections rewrite_section plan_rules
      All-plan_rules [] first = tt
      All-plan_rules (rule_section role layout rs ∷ ss) first =
          All-append P _ _ (All-rewrite_rule rs) (All-plan_rules ss _)
      All-plan_rules (group_section role layout gs ∷ ss) first = All-plan_rules ss _
      All-plan_rules (selector_section role layout xs ∷ ss) first = All-plan_rules ss _
      All-plan_rules (cluster_section role layout cs ∷ ss) first =
          All-append P _ _
            (elim (Bool-cases (first && is_service_rules role && needs_deny_rules x)) [
              | inl denies ↦ rw denies (All-denied_clusters cs)
              | inr keeps ↦ rw keeps (All-changed_clusters cs)
            ])
            (All-plan_rules ss _)

-- A rule whose target is not DIRECT or the direct group.
abbrev pub TargetsNoDirect : Data → Rule → Type 0
TargetsNoDirect d r = includes r.target (direct_targets d) ≡ false

module _ (x : Solving) where
  is_disabled_rule_retargeted :
      (r : Rule) (target : Text)
      → is_disabled_rule x (record r { target = target }) ≡ is_disabled_rule x r
  unfolding reference_among service_rule_reference
  is_disabled_rule_retargeted r target = refl

  is_disabled_rule-rewrite_rule :
      (r : Rule) → is_disabled_rule x (rewrite_rule x r) ≡ is_disabled_rule x r
  unfolding rewrite_rule
  is_disabled_rule-rewrite_rule r = is_disabled_rule_retargeted r (new_target x x.layout r)

  -- The rule is rejected if its reference is among those of the disabled rules.
  abbrev pub IsDenied : Rule → Type 0
  IsDenied r = (is_disabled_rule x r ≡ false) ⊎ (r.target ≡ reject_group x.catalog)

  abbrev enabled : Rule → Bool
  enabled r = not (is_disabled_rule x r)

  IsDenied-rewritten : (rs : List Rule) → All IsDenied (map (rewrite_rule x) (keep enabled rs))
  unfolding keep
  IsDenied-rewritten [] = tt
  IsDenied-rewritten (r ∷ rs) = elim (Bool-cases (is_disabled_rule x r)) [
    | inl disabled ↦ rw disabled (IsDenied-rewritten rs)
    | inr on ↦ rw on (inl (rw is_disabled_rule-rewrite_rule on), IsDenied-rewritten rs)
  ]

  IsDenied-rejected : (rs : List Rule) → All IsDenied (map (rejected x) rs)
  IsDenied-rejected [] = tt
  IsDenied-rejected (r ∷ rs) = (inr refl, IsDenied-rejected rs)

  IsDenied-retained : (cs : List Cluster) → All IsDenied (cluster_rules (retained_clusters x cs))
  unfolding retained_clusters cluster_rules
  IsDenied-retained [] = tt
  IsDenied-retained (c ∷ cs) = elim (Bool-cases (null (keep enabled c.rule_list))) [
    | inl nothing ↦ rw nothing (IsDenied-retained cs)
    | inr active ↦
        rw active (All-append IsDenied _ _ (IsDenied-rewritten c.rule_list) (IsDenied-retained cs))
  ]

  IsDenied-deny_rules : (cs : List Cluster) → All IsDenied (deny_rules x cs)
  unfolding deny_rules
  IsDenied-deny_rules [] = tt
  IsDenied-deny_rules (c ∷ cs) =
      All-append IsDenied _ _ (IsDenied-rejected _) (IsDenied-deny_rules cs)

  -- In the rewritten section of service rules, every rule whose reference is among those of the
  -- disabled rules has the reject group as its target.
  pub denied_clusters-IsDenied :
      (cs : List Cluster) → All IsDenied (cluster_rules (denied_clusters x cs))
  unfolding denied_clusters
  denied_clusters-IsDenied cs = rw cluster_rules-append (
      All-append IsDenied _ _
        (All-deny_cluster IsDenied _ (All-unique_rules IsDenied [] _ (IsDenied-deny_rules cs)))
        (IsDenied-retained cs))

  plain_target-TargetsNoDirect :
      (target : Text)
      → x.resolved.allow_direct ≡ some false
      → includes (reject_group x.catalog) (direct_targets x.catalog) ≡ false
      → includes (plain_target x target) (direct_targets x.catalog) ≡ false
  unfolding plain_target
  plain_target-TargetsNoDirect target h exit =
      elim (Bool-cases (includes target x.disabled_groups)) [
        | inl disabled ↦ rw disabled exit
        | inr on ↦
            rw (on, h)
              (elim (Bool-cases (includes target (direct_targets x.catalog))) [
                | inl is_direct ↦ rw is_direct exit
                | inr other ↦ rw other other
              ])
      ]

  new_target-TargetsNoDirect :
      (l : Option CustomLayout) (r : Rule)
      → l ≡ none
      → x.resolved.allow_direct ≡ some false
      → includes (reject_group x.catalog) (direct_targets x.catalog) ≡ false
      → includes (new_target x l r) (direct_targets x.catalog) ≡ false
  unfolding new_target
  new_target-TargetsNoDirect none r n h exit = plain_target-TargetsNoDirect r.target h exit
  new_target-TargetsNoDirect (some l) r n h exit = cc

  pub rewrite_sections-TargetsNoDirect :
      x.layout ≡ none
      → x.resolved.allow_direct ≡ some false
      → includes (reject_group x.catalog) (direct_targets x.catalog) ≡ false
      → (ss : List Section) (first : Bool)
      → All (TargetsNoDirect x.catalog) (plan_rules (rewrite_sections x first ss))
  unfolding rewrite_rule
  rewrite_sections-TargetsNoDirect n h exit =
      All-plan_rules (TargetsNoDirect x.catalog) x
        (λ r. new_target-TargetsNoDirect x.layout r n h exit) (λ r. exit)
