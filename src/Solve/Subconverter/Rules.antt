-- ===== src/Solve/Subconverter/Rules.antt =====
-- The rules of a plan that `solveSubconverterPlan` of worker/solver.mjs returns.
use rules.Base.{
  false, not, ◌||◌, List, [], ◌∷◌, ◌++◌, Text, codes, text_eq, includes, is_empty, any, null, All,
  All-append, ok, ◌>>=◌, map_result, >>=-eq-ok, if◌then◌else◌, ◌≡◌, refl, sym, subst, arith,
  Bool-cases, Option-cases, inl, inr, ℕ, ◌==◌,
}
use rules.Plan.{Rule, Section}
use rules.Catalog.{Data}
use rules.Spec.Providers.{Provider, Target, reject, direct, proxy}
use rules.Spec.Normalize.{is_direct}
use rules.Resolve.{Resolved}
use rules.Solve.Names.{named_group, direct_targets}
use rules.Solve.CustomRules.{
  plan_rules, custom_rule_target, remote_rule, provider_kind, adblock_rule, provider_rule,
  rules_with_interval, custom_ini_rules, insert_ini_custom_rules,
}
use rules.Solve.CustomRules.Insertion.{inserted_cases, splice_plan-IsSpliced}
use rules.Solve.Rewrite.Groups.{HasExits}
use rules.Solve.Rewrite.Rules.{TargetsNoDirect}

module _ {ℓ} {A : Type ℓ} (P : A → Type 0) where
  All-front : (xs ys : List A) → All P (xs ++ ys) → All P xs
  All-front [] ys a = tt
  All-front (x ∷ xs) ys a = (a.0, All-front xs ys a.1)

  All-rest : (xs ys : List A) → All P (xs ++ ys) → All P ys
  All-rest [] ys a = a
  All-rest (x ∷ xs) ys a = All-rest xs ys a.1

module _ (d : Data) (exits : HasExits d) where
  custom_rule_target-TargetsNoDirect :
      (t : Target) (name : Text)
      → is_direct t ≡ false
      → custom_rule_target d t ≡ ok name
      → includes name (direct_targets d) ≡ false
  unfolding custom_rule_target
  custom_rule_target-TargetsNoDirect reject name h e =
      let same : named_group d (codes "reject") ≡ name = ground arith in
      subst (λ n. includes n (direct_targets d) ≡ false) same exits.plain_reject
  custom_rule_target-TargetsNoDirect proxy name h e =
      let same : named_group d (codes "manual") ≡ name = ground arith in
      subst (λ n. includes n (direct_targets d) ≡ false) same exits.manual
  custom_rule_target-TargetsNoDirect direct name h e = cc

  adblock_rule-TargetsNoDirect :
      (interval : ℕ) (r : Rule) → adblock_rule d interval ≡ ok r → TargetsNoDirect d r
  unfolding adblock_rule
  adblock_rule-TargetsNoDirect interval r e = elim (Option-cases d.adblock_provider) [
    | inl missing ↦ absurd (ground arith)
    | inr (provider, present) ↦
        elim (Bool-cases
          (not (text_eq provider.behavior (codes "domain")) || is_empty provider.url)) [
            | inl bad ↦ absurd (ground arith)
            | inr good ↦
                let run : (custom_rule_target d reject >>= λ target.
                ok (remote_rule (codes "remote-domain") target provider.url interval))
                    ≡ ok r =
                  ground arith in
                let (target, found, done) =
                  >>=-eq-ok (custom_rule_target d reject)
                    (λ target.
                      ok (remote_rule (codes "remote-domain") target provider.url interval))
                    run in
                let same : remote_rule (codes "remote-domain") target provider.url interval ≡ r =
                  ground arith in
                subst (TargetsNoDirect d) same
                  (custom_rule_target-TargetsNoDirect reject target refl found)
          ]
  ]

  provider_rule-TargetsNoDirect :
      (interval : ℕ) (q : Provider) (r : Rule)
      → is_direct q.target ≡ false
      → provider_rule d interval q ≡ ok r
      → TargetsNoDirect d r
  unfolding provider_rule
  provider_rule-TargetsNoDirect interval q r h e =
      let (target, found, done) =
        >>=-eq-ok (custom_rule_target d q.target)
          (λ target. ok (remote_rule (provider_kind q.behavior) target q.url interval)) e in
      let same : remote_rule (provider_kind q.behavior) target q.url interval ≡ r = ground arith in
      subst (TargetsNoDirect d) same (custom_rule_target-TargetsNoDirect q.target target h found)

  provider_rules-TargetsNoDirect :
      (interval : ℕ) (qs : List Provider) (rs : List Rule)
      → any (λ q. is_direct q.target) qs ≡ false
      → map_result (provider_rule d interval) qs ≡ ok rs
      → All (TargetsNoDirect d) rs
  unfolding map_result any
  provider_rules-TargetsNoDirect interval [] rs h e =
      let same : [] ≡ rs = ground arith in rw (← same) tt
  provider_rules-TargetsNoDirect interval (q ∷ qs) rs h e =
      let (r, one, more) = >>=-eq-ok (provider_rule d interval q) _ e in
      let (rest, ran, done) =
        >>=-eq-ok (map_result (provider_rule d interval) qs) (λ rest. ok (r ∷ rest)) more in
      let same : r ∷ rest ≡ rs = ground arith in
      rw (← same) (
        provider_rule-TargetsNoDirect interval q r (ground arith) one,
        provider_rules-TargetsNoDirect interval qs rest (ground arith) ran,
      )

  adblock_rules-TargetsNoDirect :
      (interval : ℕ) (rs : List Rule)
      → map_result (adblock_rule d) (interval ∷ []) ≡ ok rs
      → All (TargetsNoDirect d) rs
  unfolding map_result
  adblock_rules-TargetsNoDirect interval rs e =
      let (r, one, more) = >>=-eq-ok (adblock_rule d interval) _ e in
      let same : r ∷ [] ≡ rs = ground arith in
      rw (← same) (adblock_rule-TargetsNoDirect interval r one, tt)

  rules_with_interval-TargetsNoDirect :
      (r : Resolved) (interval : ℕ) (rs : List Rule)
      → any (λ q. is_direct q.target) r.custom_rule_providers ≡ false
      → rules_with_interval d r interval ≡ ok rs
      → All (TargetsNoDirect d) rs
  unfolding rules_with_interval
  rules_with_interval-TargetsNoDirect r interval rs h e =
      let (front, first, e₁) =
        >>=-eq-ok (if r.adblock then map_result (adblock_rule d) (interval ∷ []) else ok []) _ e in
      let (back, second, e₂) =
        >>=-eq-ok (map_result (provider_rule d interval) r.custom_rule_providers)
          (λ back. ok (front ++ back)) e₁ in
      let same : front ++ back ≡ rs = ground arith in
      subst (All (TargetsNoDirect d)) same (
        All-append (TargetsNoDirect d) front back
          (elim (Bool-cases r.adblock) [
            | inl on ↦ adblock_rules-TargetsNoDirect interval front (rw on at first)
            | inr off ↦ let none_here : [] ≡ front = ground arith in rw (← none_here) tt
          ])
          (provider_rules-TargetsNoDirect interval r.custom_rule_providers back h second))

  pub custom_ini_rules-TargetsNoDirect :
      (r : Resolved) (rs : List Rule)
      → any (λ q. is_direct q.target) r.custom_rule_providers ≡ false
      → custom_ini_rules d r ≡ ok rs
      → All (TargetsNoDirect d) rs
  unfolding custom_ini_rules
  custom_ini_rules-TargetsNoDirect r rs h e =
      elim (Bool-cases (r.adblock || not (null r.custom_rule_providers))) [
        | inr nothing ↦ let same : [] ≡ rs = ground arith in rw (← same) tt
        | inl wanted ↦ elim (Option-cases d.ini_interval) [
          | inl missing ↦ absurd (ground arith)
          | inr (interval, present) ↦ elim (Bool-cases (interval == 0)) [
            | inl zero_here ↦ absurd (ground arith)
            | inr positive ↦ rules_with_interval-TargetsNoDirect r interval rs h (ground arith)
          ]
        ]
      ]

  -- Custom rules and the rules of the plan go into the new plan, and no others.
  pub insert_ini_custom_rules-All :
      (P : Rule → Type 0) (custom : List Rule) (plan new : List Section)
      → All P custom
      → All P (plan_rules plan)
      → insert_ini_custom_rules d custom plan ≡ ok new
      → All P (plan_rules new)
  insert_ini_custom_rules-All P custom plan new a b e = elim (inserted_cases d custom plan new e) [
    | inl unchanged ↦ subst (λ n. All P (plan_rules n)) (sym unchanged.1) b
    | inr (x, ran, same) ↦
        let s = splice_plan-IsSpliced custom plan x.0 x.1 ran in
        let old : All P (s.before ++ x.1) = subst (All P) s.old_rules b in
        subst (λ n. All P (plan_rules n)) same
          (subst (All P) (sym s.new_rules) (
            All-append P _ _ (All-front P s.before x.1 old)
              (All-append P _ _ a (All-rest P s.before x.1 old))))
  ]
