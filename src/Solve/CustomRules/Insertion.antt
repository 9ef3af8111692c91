-- ===== src/Solve/CustomRules/Insertion.antt =====
-- Where `insertIniCustomRules` of worker/solver.mjs puts a caller's rules.
use mathlib.Core.List.{append_assoc}
use rules.Base.{
  ◌⊎◌, true, false, some, List, [], ◌∷◌, ◌++◌, Text, codes, text_eq, includes, any, null, Result,
  ok, ◌>>=◌, ◌>>◌, throw_if, subst, >>=-eq-ok, ◌≡◌, refl, ap, sym, ◌∙◌, arith, Bool-cases,
  Option-cases, inl, inr,
}
use rules.Spec.Error.{Error}
use rules.Plan.{
  ClusterLayout, Rule, Cluster, Section, rule_section, cluster_section, group_section,
  selector_section,
}
use rules.Catalog.{Data}
use rules.Solve.CustomRules.{
  cluster_rules, plan_rules, is_fallback, has_terminal_final, protected_rule_targets, splice_rules,
  splice_clusters, splice_tail, splice_plan, insert_ini_custom_rules,
}

-- Old rules, with some rules inserted before a fallback rule of theirs: `after` is that rule and
-- what followed it.
pub record IsSpliced (custom old new after : List Rule) : Type 0 where
  pub before : List Rule
  pub fallback : Rule
  pub rest : List Rule
  pub after_fallback : after ≡ fallback ∷ rest
  pub is_one : is_fallback fallback ≡ true
  pub old_rules : old ≡ before ++ after
  pub new_rules : new ≡ before ++ (custom ++ after)

-- More rules in front, and more rules behind.
IsSpliced-front :
    (front : List Rule) {custom old new after : List Rule}
    → IsSpliced custom old new after
    → IsSpliced custom (front ++ old) (front ++ new) after
IsSpliced-front front {custom} {old} {new} {after} s = record {
  before = front ++ s.before;
  fallback = s.fallback;
  rest = s.rest;
  after_fallback = s.after_fallback;
  is_one = s.is_one;
  old_rules = ap (λ x. front ++ x) s.old_rules ∙ sym (append_assoc front s.before after);
  new_rules =
      ap (λ x. front ++ x) s.new_rules ∙ sym (append_assoc front s.before (custom ++ after));
}

IsSpliced-back :
    (back : List Rule) {custom old new after : List Rule}
    → IsSpliced custom old new after
    → IsSpliced custom (old ++ back) (new ++ back) (after ++ back)
IsSpliced-back back {custom} {old} {new} {after} s = record {
  before = s.before;
  fallback = s.fallback;
  is_one = s.is_one;
  rest = s.rest ++ back;
  after_fallback = ap (λ x. x ++ back) s.after_fallback;
  old_rules = ap (λ x. x ++ back) s.old_rules ∙ append_assoc s.before after back;
  new_rules =
      ap (λ x. x ++ back) s.new_rules
      ∙ append_assoc s.before (custom ++ after) back
      ∙ ap (λ x. s.before ++ x) (append_assoc custom after back);
}

abbrev pub with_first : Section → List Section × List Rule → Result Error (List Section × List Rule)
with_first s x = ok (s ∷ x.0, x.1)

abbrev pub with_clusters :
    Text
    → ClusterLayout
    → List Section
    → List Cluster × List Rule
    → Result Error (List Section × List Rule)
with_clusters role layout ss x = ok (cluster_section role layout x.0 ∷ ss, x.1 ++ plan_rules ss)

abbrev pub unprotected : Data → List Section × List Rule → Result Error (List Section)
unprotected d x =
    throw_if (any (λ r. includes r.target (protected_rule_targets d)) x.1)
      Error.invalid_profile_data
    >> ok x.0

module _ (custom : List Rule) where
  splice_rules-IsSpliced :
      (rs new after : List Rule)
      → splice_rules custom rs ≡ some (new, after)
      → IsSpliced custom rs new after
  unfolding splice_rules
  splice_rules-IsSpliced [] new after e = cc
  splice_rules-IsSpliced (r ∷ rs) new after e = elim (Bool-cases (is_fallback r)) [
    | inl found ↦ record {
      before = [];
      fallback = r;
      rest = rs;
      after_fallback = ground arith;
      is_one = found;
      old_rules = ground arith;
      new_rules = ground arith;
    }
    | inr other ↦ elim (Option-cases (splice_rules custom rs)) [
      | inl nowhere ↦ absurd (ground arith)
      | inr (x, here) ↦
          let tail = splice_rules-IsSpliced rs x.0 x.1 here in
          let same_new : r ∷ x.0 ≡ new = ground arith in
          let same_after : x.1 ≡ after = ground arith in
          rw (← same_new) (rw (← same_after) (IsSpliced-front (r ∷ []) tail))
    ]
  ]

  splice_clusters-IsSpliced :
      (cs new : List Cluster) (after : List Rule)
      → splice_clusters custom cs ≡ some (new, after)
      → IsSpliced custom (cluster_rules cs) (cluster_rules new) after
  unfolding splice_clusters cluster_rules
  splice_clusters-IsSpliced [] new after e = cc
  splice_clusters-IsSpliced (c ∷ cs) new after e =
      elim (Option-cases (splice_rules custom c.rule_list)) [
        | inr (x, here) ↦
            let spliced = splice_rules-IsSpliced c.rule_list x.0 x.1 here in
            let same_new : record c { rule_list = x.0 } ∷ cs ≡ new = ground arith in
            let same_after : x.1 ++ cluster_rules cs ≡ after = ground arith in
            rw (← same_new) (rw (← same_after) (IsSpliced-back (cluster_rules cs) spliced))
        | inl nowhere ↦ elim (Option-cases (splice_clusters custom cs)) [
          | inl none_later ↦ absurd (ground arith)
          | inr (x, later) ↦
              let spliced = splice_clusters-IsSpliced cs x.0 x.1 later in
              let same_new : c ∷ x.0 ≡ new = ground arith in
              let same_after : x.1 ≡ after = ground arith in
              rw (← same_new) (rw (← same_after) (IsSpliced-front c.rule_list spliced))
        ]
      ]

  splice_tail-IsSpliced :
      (cs new : List Cluster) (after : List Rule)
      → splice_tail custom cs ≡ ok (new, after)
      → IsSpliced custom (cluster_rules cs) (cluster_rules new) after
  unfolding splice_tail
  splice_tail-IsSpliced cs new after e = elim (Option-cases (splice_clusters custom cs)) [
    | inl nowhere ↦ absurd (ground arith)
    | inr (x, here) ↦ splice_clusters-IsSpliced cs new after (ground arith)
  ]

  -- One section in front of a plan that is spliced.
  splice_later :
      (s : Section) (front : List Rule) (ss new : List Section) (after : List Rule)
      → ((rest : List Section) → plan_rules (s ∷ rest) ≡ front ++ plan_rules rest)
      → ((later : List Section) (after : List Rule)
          → splice_plan custom ss ≡ ok (later, after)
          → IsSpliced custom (plan_rules ss) (plan_rules later) after)
      → (splice_plan custom ss >>= with_first s) ≡ ok (new, after)
      → IsSpliced custom (plan_rules (s ∷ ss)) (plan_rules new) after
  splice_later s front ss new after reads hyp e =
      let (x, ran, done) = >>=-eq-ok (splice_plan custom ss) (with_first s) e in
      let same_new : s ∷ x.0 ≡ new = ground arith in
      let same_after : x.1 ≡ after = ground arith in
      rw (← same_new) (
        rw (← same_after)
          (rw (reads ss) (rw (reads x.0) (IsSpliced-front front (hyp x.0 x.1 ran)))))

  pub splice_plan_of_tail :
      (role : Text) (layout : ClusterLayout) (cs : List Cluster) (ss : List Section)
      → text_eq role (codes "routing-tail-clusters") ≡ true
      → splice_plan custom (cluster_section role layout cs ∷ ss)
        ≡ (splice_tail custom cs >>= with_clusters role layout ss)
  unfolding splice_plan
  splice_plan_of_tail role layout cs ss h = rw (h, splice_plan) refl

  pub splice_plan_of_other :
      (role : Text) (layout : ClusterLayout) (cs : List Cluster) (ss : List Section)
      → text_eq role (codes "routing-tail-clusters") ≡ false
      → splice_plan custom (cluster_section role layout cs ∷ ss)
        ≡ (splice_plan custom ss >>= with_first (cluster_section role layout cs))
  unfolding splice_plan
  splice_plan_of_other role layout cs ss h = rw (h, splice_plan) refl

  -- The section of the insertion.
  splice_here :
      (role : Text) (layout : ClusterLayout) (cs : List Cluster) (ss new : List Section)
      (after : List Rule)
      → (splice_tail custom cs >>= with_clusters role layout ss) ≡ ok (new, after)
      → IsSpliced custom (cluster_rules cs ++ plan_rules ss) (plan_rules new) after
  unfolding plan_rules
  splice_here role layout cs ss new after e =
      let (x, ran, done) = >>=-eq-ok (splice_tail custom cs) (with_clusters role layout ss) e in
      let same_new : cluster_section role layout x.0 ∷ ss ≡ new = ground arith in
      let same_after : x.1 ++ plan_rules ss ≡ after = ground arith in
      rw (← same_new)
        (rw (← same_after) (IsSpliced-back (plan_rules ss) (splice_tail-IsSpliced cs x.0 x.1 ran)))

  pub splice_plan-IsSpliced :
      (ss new : List Section) (after : List Rule)
      → splice_plan custom ss ≡ ok (new, after)
      → IsSpliced custom (plan_rules ss) (plan_rules new) after
  unfolding splice_plan plan_rules
  splice_plan-IsSpliced [] new after e = cc
  splice_plan-IsSpliced (rule_section role layout rs ∷ ss) new after e =
      splice_later (rule_section role layout rs) rs ss new after (λ rest. refl)
        (splice_plan-IsSpliced ss) e
  splice_plan-IsSpliced (group_section role layout gs ∷ ss) new after e =
      splice_later (group_section role layout gs) [] ss new after (λ rest. refl)
        (splice_plan-IsSpliced ss) e
  splice_plan-IsSpliced (selector_section role layout xs ∷ ss) new after e =
      splice_later (selector_section role layout xs) [] ss new after (λ rest. refl)
        (splice_plan-IsSpliced ss) e
  splice_plan-IsSpliced (cluster_section role layout cs ∷ ss) new after e =
      elim (Bool-cases (text_eq role (codes "routing-tail-clusters"))) [
        | inl tail ↦
            splice_here role layout cs ss new after
              (sym (splice_plan_of_tail role layout cs ss tail) ∙ e)
        | inr other ↦
            splice_later (cluster_section role layout cs) (cluster_rules cs) ss new after
              (λ rest. refl) (splice_plan-IsSpliced ss)
              (sym (splice_plan_of_other role layout cs ss other) ∙ e)
      ]

-- What a run that inserts something has established.
inserted_run :
    (d : Data) (custom : List Rule) (plan new : List Section)
    → null custom ≡ false
    → insert_ini_custom_rules d custom plan ≡ ok new
    → (x : List Section × List Rule) × (splice_plan custom plan ≡ ok x)
      × (x.0 ≡ new)
      × (any (λ r. includes r.target (protected_rule_targets d)) x.1 ≡ false)
      × (has_terminal_final (plan_rules plan) ≡ true)
unfolding insert_ini_custom_rules
inserted_run d custom plan new some_rules e =
    elim (Bool-cases (has_terminal_final (plan_rules plan))) [
      | inr unfinished ↦ absurd (ground arith)
      | inl finished ↦
          let run : (splice_plan custom plan >>= unprotected d) ≡ ok new =
            rw (finished, some_rules) at e in
          let (x, ran, done) = >>=-eq-ok (splice_plan custom plan) (unprotected d) run in
          elim (Bool-cases (any (λ r. includes r.target (protected_rule_targets d)) x.1)) [
            | inl targeted ↦ absurd (ground arith)
            | inr free ↦ (x, ran, ground arith, free, finished)
          ]
    ]

-- Without custom rules the plan stays, and else it is spliced.
pub inserted_cases :
    (d : Data) (custom : List Rule) (plan new : List Section)
    → insert_ini_custom_rules d custom plan ≡ ok new
    → ((null custom ≡ true) × (new ≡ plan))
      ⊎ ((x : List Section × List Rule) × (splice_plan custom plan ≡ ok x) × (x.0 ≡ new))
unfolding insert_ini_custom_rules
inserted_cases d custom plan new e = elim (Bool-cases (null custom)) [
  | inl nothing ↦ inl (nothing, ground arith)
  | inr some_rules ↦
      let (x, ran, same, free, finished) = inserted_run d custom plan new some_rules e in
      inr (x, ran, same)
]

-- Custom rules that are accepted are inserted together, in their order, before a GEOIP or FINAL rule
-- of the plan, and change none of its rules: the plan ends in its only FINAL rule, and no rule from
-- the insertion on targets a protected group.
pub insert_ini_custom_rules-IsSpliced :
    (d : Data) (custom : List Rule) (plan new : List Section)
    → null custom ≡ false
    → insert_ini_custom_rules d custom plan ≡ ok new
    → (after : List Rule) × IsSpliced custom (plan_rules plan) (plan_rules new) after
      × (any (λ r. includes r.target (protected_rule_targets d)) after ≡ false)
      × (has_terminal_final (plan_rules plan) ≡ true)
insert_ini_custom_rules-IsSpliced d custom plan new some_rules e =
    let (x, ran, same, free, finished) = inserted_run d custom plan new some_rules e in
    (
      x.1,
      subst (λ (n : List Section). IsSpliced custom (plan_rules plan) (plan_rules n) x.1) same
          (splice_plan-IsSpliced custom plan x.0 x.1 ran),
      free,
      finished,
    )
