-- ===== src/Solve/CustomRules/Groups.antt =====
-- `insertIniCustomRules` of worker/solver.mjs leaves the groups of the plan alone.
use rules.Base.{
  List, [], ◌∷◌, ◌++◌, map, Text, codes, text_eq, ok, ◌>>=◌, >>=-eq-ok, ◌≡◌, refl, ap, sym, ◌∙◌,
  arith, Bool-cases, inl, inr,
}
use rules.Plan.{
  Rule, Selector, Cluster, ClusterLayout, Group, Section, rule_section, cluster_section,
  group_section, selector_section,
}
use rules.Catalog.{Data}
use rules.Solve.Names.{plan_groups}
use rules.Solve.CustomRules.{splice_tail, splice_plan, insert_ini_custom_rules}
use rules.Solve.CustomRules.Insertion.{
  with_first, with_clusters, splice_plan_of_tail, splice_plan_of_other, inserted_cases,
}

module _ (custom : List Rule) where
  groups_later :
      (s : Section) (front : List Group) (ss new : List Section) (after : List Rule)
      → ((rest : List Section) → plan_groups (s ∷ rest) ≡ front ++ plan_groups rest)
      → ((later : List Section) (after : List Rule)
          → splice_plan custom ss ≡ ok (later, after)
          → plan_groups later ≡ plan_groups ss)
      → (splice_plan custom ss >>= with_first s) ≡ ok (new, after)
      → plan_groups new ≡ plan_groups (s ∷ ss)
  groups_later s front ss new after reads hyp e =
      let (x, ran, done) = >>=-eq-ok (splice_plan custom ss) (with_first s) e in
      let same_new : s ∷ x.0 ≡ new = ground arith in
      sym (ap plan_groups same_new)
      ∙ reads x.0
      ∙ ap (λ gs. front ++ gs) (hyp x.0 x.1 ran)
      ∙ sym (reads ss)

  groups_here :
      (role : Text) (layout : ClusterLayout) (cs : List Cluster) (ss new : List Section)
      (after : List Rule)
      → (splice_tail custom cs >>= with_clusters role layout ss) ≡ ok (new, after)
      → plan_groups new ≡ plan_groups ss
  unfolding plan_groups
  groups_here role layout cs ss new after e =
      let (x, ran, done) = >>=-eq-ok (splice_tail custom cs) (with_clusters role layout ss) e in
      let same_new : cluster_section role layout x.0 ∷ ss ≡ new = ground arith in
      sym (ap plan_groups same_new)

  plan_groups-splice_plan :
      (ss new : List Section) (after : List Rule)
      → splice_plan custom ss ≡ ok (new, after)
      → plan_groups new ≡ plan_groups ss
  unfolding splice_plan plan_groups
  plan_groups-splice_plan [] new after e = cc
  plan_groups-splice_plan (rule_section role layout rs ∷ ss) new after e =
      groups_later (rule_section role layout rs) [] ss new after (λ rest. refl)
        (plan_groups-splice_plan ss) e
  plan_groups-splice_plan (group_section role layout gs ∷ ss) new after e =
      groups_later (group_section role layout gs) gs ss new after (λ rest. refl)
        (plan_groups-splice_plan ss) e
  plan_groups-splice_plan (selector_section role layout xs ∷ ss) new after e =
      groups_later (selector_section role layout xs) (map (λ (x : Selector). x.group) xs) ss new
        after (λ rest. refl) (plan_groups-splice_plan ss) e
  plan_groups-splice_plan (cluster_section role layout cs ∷ ss) new after e =
      elim (Bool-cases (text_eq role (codes "routing-tail-clusters"))) [
        | inl tail ↦
            groups_here role layout cs ss new after
              (sym (splice_plan_of_tail custom role layout cs ss tail) ∙ e)
        | inr other ↦
            groups_later (cluster_section role layout cs) [] ss new after (λ rest. refl)
              (plan_groups-splice_plan ss)
              (sym (splice_plan_of_other custom role layout cs ss other) ∙ e)
      ]

-- Inserting custom rules changes no group of the plan.
pub plan_groups-insert_ini_custom_rules :
    (d : Data) (custom : List Rule) (plan new : List Section)
    → insert_ini_custom_rules d custom plan ≡ ok new
    → plan_groups new ≡ plan_groups plan
plan_groups-insert_ini_custom_rules d custom plan new e =
    elim (inserted_cases d custom plan new e) [
      | inl unchanged ↦ ap plan_groups unchanged.1
      | inr (x, spliced, same) ↦
          ap plan_groups (sym same) ∙ plan_groups-splice_plan custom plan x.0 x.1 spliced
    ]
