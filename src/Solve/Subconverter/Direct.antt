-- ===== src/Solve/Subconverter/Direct.antt =====
-- The rules of a plan that `solveSubconverterPlan` of worker/solver.mjs solves without direct
-- traffic.
use rules.Base.{
  true, false, not, Option, none, some, List, Text, codes, text_eq, any, All, Result, ok, throw_if,
  >>=-eq-ok, ◌≡◌, ap, sym, ◌∙◌, subst, arith,
}
use rules.Value.{Value}
use rules.Plan.{Section}
use rules.Catalog.{Data}
use rules.Spec.Error.{Error}
use rules.Spec.Normalize.{ProfileSpec, Platform, is_direct, normalize_profile_spec}
use rules.Spec.Normalize.Stages.{normalize_profile_spec-no_direct}
use rules.Resolve.{Resolved, resolve_spec, resolve_profile_spec, resolution}
use rules.Solve.CustomRules.{plan_rules}
use rules.Solve.Layout.{CustomLayout, apply_ini_service_groups}
use rules.Solve.Rewrite.Groups.{HasExits}
use rules.Solve.Rewrite.Rules.{TargetsNoDirect, rewrite_sections-TargetsNoDirect}
use rules.Solve.Subconverter.{blocked_terms, solving, solve_plan, solve_subconverter_plan}
use rules.Solve.Subconverter.Groups.{solve_plan-Run}
use rules.Solve.Subconverter.Rules.{custom_ini_rules-TargetsNoDirect, insert_ini_custom_rules-All}

pub resolve_spec-resolution :
    (routable : List Text) (s : ProfileSpec) (r : Resolved)
    → resolve_spec routable s ≡ ok r
    → resolution routable s ≡ r
unfolding resolve_spec
resolve_spec-resolution routable s r e = ground arith

-- A resolution without direct traffic has no rule provider that goes direct.
resolve_profile_spec-no_direct :
    (p : Platform) (d : Data) (format : Text) (input : Value) (r : Resolved)
    → resolve_profile_spec p d format input ≡ ok r
    → r.allow_direct ≡ some false
    → any (λ q. is_direct q.target) r.custom_rule_providers ≡ false
unfolding resolve_profile_spec resolution
resolve_profile_spec-no_direct p d format input r e h =
    let (s, accepted, resolved) = >>=-eq-ok (normalize_profile_spec p d format input) _ e in
    let same : resolution d.routable_region_order s ≡ r =
      resolve_spec-resolution d.routable_region_order s r resolved in
    subst (λ (x : Resolved). any (λ q. is_direct q.target) x.custom_rule_providers ≡ false) same
      (normalize_profile_spec-no_direct p d format input s accepted
        (ap (λ (x : Resolved). x.allow_direct) same ∙ h))

no_layout :
    (d : Data) (r : Resolved) (applied : List Section × Option CustomLayout)
    → r.spec.service_groups ≡ none
    → apply_ini_service_groups d r (blocked_terms d r) d.plan ≡ ok applied
    → applied.1 ≡ none
unfolding apply_ini_service_groups
no_layout d r applied n e =
    let same : ◌≡◌ {A = Result Error (List Section × Option CustomLayout)} (ok (d.plan, none))
        (ok applied) =
      rw n at e in
    let applied_plan : ◌≡◌ {A = List Section × Option CustomLayout} (d.plan, none) applied =
      ground arith in
    sym (ap (λ (x : List Section × Option CustomLayout). x.1) applied_plan)

solve_plan-TargetsNoDirect :
    (d : Data) (r : Resolved) (plan : List Section)
    → HasExits d
    → any (λ q. is_direct q.target) r.custom_rule_providers ≡ false
    → r.allow_direct ≡ some false
    → r.spec.service_groups ≡ none
    → solve_plan d r ≡ ok plan
    → All (TargetsNoDirect d) (plan_rules plan)
unfolding solving
solve_plan-TargetsNoDirect d r plan exits providers h n e =
    let run = solve_plan-Run d r plan e in
    let x = solving d r run.applied.1 in
    insert_ini_custom_rules-All d exits (TargetsNoDirect d) run.custom run.rewritten plan
      (custom_ini_rules-TargetsNoDirect d exits r run.custom providers run.rule_list)
      (subst (λ ss. All (TargetsNoDirect d) (plan_rules ss)) (sym run.sections)
        (rewrite_sections-TargetsNoDirect x (no_layout d r run.applied n run.layouts) h exits.reject
          run.applied.0 true))
      run.inserted

-- The rules of a plan that is solved for a specification without direct traffic and without service
-- groups of its own do not go to DIRECT or to the direct group, if the groups that stand in for it
-- are others. That includes the rules of the caller's providers.
pub solve_subconverter_plan-TargetsNoDirect :
    (p : Platform) (d : Data) (input : Value) (r : Resolved) (plan : List Section)
    → HasExits d
    → solve_subconverter_plan p d input ≡ ok (r, plan)
    → r.allow_direct ≡ some false
    → r.spec.service_groups ≡ none
    → All (TargetsNoDirect d) (plan_rules plan)
unfolding solve_subconverter_plan
solve_subconverter_plan-TargetsNoDirect p d input r plan exits e h n =
    let (r₁, resolved, e₁) = >>=-eq-ok (resolve_profile_spec p d (codes "ini") input) _ e in
    let (u, template, e₂) =
      >>=-eq-ok
        (throw_if (not (text_eq r₁.spec.base_profile (codes "ai-balanced")))
          Error.static_template_not_supported_by_solver)
        _ e₁ in
    let (plan₁, solved, e₃) = >>=-eq-ok (solve_plan d r₁) _ e₂ in
    let ends : ◌≡◌ {A = Result Error (Resolved × List Section)} (ok (r₁, plan₁)) (ok (r, plan)) =
      e₃ in
    let same_r : r₁ ≡ r = ground arith in
    let same_plan : plan₁ ≡ plan = ground arith in
    subst (λ l. All (TargetsNoDirect d) (plan_rules l)) same_plan
      (solve_plan-TargetsNoDirect d r₁ plan₁ exits
        (resolve_profile_spec-no_direct p d (codes "ini") input r₁ resolved
          (ap (λ (x : Resolved). x.allow_direct) same_r ∙ h))
        (ap (λ (x : Resolved). x.allow_direct) same_r ∙ h)
        (ap (λ (x : Resolved). x.spec.service_groups) same_r ∙ n) solved)
