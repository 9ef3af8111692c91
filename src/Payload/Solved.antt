-- ===== src/Payload/Solved.antt =====
-- The payloads of `resolveIniPayload` of worker/index.mjs whose plan is solved.
use rules.Base.{
  Bool, true, false, none, some, List, All, codes, text_eq, not, Result, ok, err, throw_if,
  >>=-eq-ok, ok-injective, if◌then◌else◌, ◌≡◌, refl, sym, ap, subst, ◌∙◌, arith,
}
use rules.Value.{Value}
use rules.Plan.{Section}
use rules.Catalog.{Data}
use rules.Region.Laws.{HasKeys}
use rules.Spec.Error.{Error}
use rules.Spec.Normalize.{ProfileSpec, Platform, normalize_profile_spec}
use rules.Spec.Saved.{saved}
use rules.Spec.Saved.Laws.{normalize_profile_spec-saved}
use rules.Resolve.{Resolved, resolve_spec, resolution, resolve_profile_spec}
use rules.Solve.CustomRules.{plan_rules}
use rules.Solve.Rewrite.Groups.{HasExits}
use rules.Solve.Rewrite.Rules.{TargetsNoDirect}
use rules.Solve.Subconverter.{summarize_resolved_profile, solve_plan, solve_subconverter_plan}
use rules.Solve.Subconverter.Direct.{
  solve_subconverter_plan-TargetsNoDirect, resolve_spec-resolution,
}
use rules.Render.{render_ini, render_ini_template}
use rules.Payload.{
  PayloadError, PayloadSummary, Payload, throws, is_static, static_payload, solved_payload,
  resolve_ini_payload, template_source,
}

throws-eq-ok {ℓ} :
    {E : Type 0} {A : Type ℓ} (f : E → PayloadError) (m : Result E A) {a : A}
    → throws f m ≡ ok a
    → m ≡ ok a
throws-eq-ok f (err x) e = cc
throws-eq-ok f (ok b) e = ap ok (ok-injective e)

-- The plan behind a payload.
pub record IsSolved (p : Platform) (d : Data) (x : Payload) : Type 0 where
  pub resolved : Resolved
  pub plan : List Section
  pub resolves : resolve_spec d.routable_region_order x.spec ≡ ok resolved
  pub solves : solve_subconverter_plan p d (saved x.spec) ≡ ok (resolved, plan)
  pub prints : render_ini d plan x.spec.language x.spec ≡ ok x.ini
  pub sums_up : x.summary ≡ PayloadSummary.of_profile (summarize_resolved_profile d resolved)

module _ (p : Platform) (d : Data) (keyed : HasKeys p.unicode d) where
  static_payload-spec :
      (spec : ProfileSpec) (x : Payload) → static_payload d spec ≡ ok x → x.spec ≡ spec
  unfolding static_payload
  static_payload-spec spec x e =
      let (source, found, e₁) = >>=-eq-ok (template_source d spec.base_profile) _ e in
      let (ini, printed, done) =
        >>=-eq-ok (throws PayloadError.not_printed (render_ini_template source spec.language d)) _
          e₁ in
      sym (ap (λ (y : Payload). y.spec) (ok-injective done))

  resolved_again :
      (spec : ProfileSpec)
      → normalize_profile_spec p d (codes "ini") (saved spec) ≡ ok spec
      → resolve_profile_spec p d (codes "ini") (saved spec)
        ≡ resolve_spec d.routable_region_order spec
  unfolding resolve_profile_spec
  resolved_again spec again = rw again refl

  solved_resolution :
      (v : Value) (r s : Resolved) (plan : List Section)
      → resolve_profile_spec p d (codes "ini") v ≡ ok r
      → solve_subconverter_plan p d v ≡ ok (s, plan)
      → r ≡ s
  unfolding solve_subconverter_plan
  solved_resolution v r s plan one e =
      let (r₁, resolved, e₁) = >>=-eq-ok (resolve_profile_spec p d (codes "ini") v) _ e in
      let (u, template, e₂) =
        >>=-eq-ok
          (throw_if (not (text_eq r₁.spec.base_profile (codes "ai-balanced")))
            Error.static_template_not_supported_by_solver)
          _ e₁ in
      let (plan₁, solved, e₃) = >>=-eq-ok (solve_plan d r₁) _ e₂ in
      ok-injective (sym one ∙ resolved)
      ∙ ap (λ (y : Resolved × List Section). y.0) (ok-injective e₃)

  solved_payload-IsSolved :
      (spec : ProfileSpec) (r : Resolved) (x : Payload)
      → normalize_profile_spec p d (codes "ini") (saved spec) ≡ ok spec
      → resolve_profile_spec p d (codes "ini") (saved spec) ≡ ok r
      → solved_payload p d spec r ≡ ok x
      → IsSolved p d x
  unfolding solved_payload
  solved_payload-IsSolved spec r x again resolved e =
      let (solution, solved, e₁) =
        >>=-eq-ok (throws PayloadError.refused (solve_subconverter_plan p d (saved spec))) _ e in
      let (ini, printed, done) =
        >>=-eq-ok (throws PayloadError.not_printed (render_ini d solution.1 spec.language spec)) _
          e₁ in
      let found =
        throws-eq-ok PayloadError.refused (solve_subconverter_plan p d (saved spec)) solved in
      let same : r ≡ solution.0 =
        solved_resolution (saved spec) r solution.0 solution.1 resolved found in
      subst (IsSolved p d) (ok-injective done) (record {
        resolved = r;
        plan = solution.1;
        resolves = sym (resolved_again spec again) ∙ resolved;
        solves = found ∙ ap (λ (y : Resolved). ok (y, solution.1)) (sym same);
        prints =
            throws-eq-ok PayloadError.not_printed (render_ini d solution.1 spec.language spec)
              printed;
        sums_up = refl;
      })

  branches :
      (b : Bool) (spec : ProfileSpec) (r : Resolved) (x : Payload)
      → normalize_profile_spec p d (codes "ini") (saved spec) ≡ ok spec
      → resolve_profile_spec p d (codes "ini") (saved spec) ≡ ok r
      → is_static d spec.base_profile ≡ b
      → (if b then static_payload d spec else solved_payload p d spec r) ≡ ok x
      → is_static d x.spec.base_profile ≡ false
      → IsSolved p d x
  branches false spec r x again resolved which e options =
      solved_payload-IsSolved spec r x again resolved e
  branches true spec r x again resolved which e options =
      let same = static_payload-spec spec x e in
      let clash : is_static d x.spec.base_profile ≡ true =
        ap (λ (q : ProfileSpec). is_static d q.base_profile) same ∙ which in
      absurd (ground arith)

  -- A payload for a base profile with profile options is the printed plan that is solved for the
  -- specification in it, with the summary of its resolution, in a catalog in which the alias key of
  -- every region's id is not empty.
  pub resolve_ini_payload-IsSolved :
      (input : Value) (x : Payload)
      → resolve_ini_payload p d input ≡ ok x
      → is_static d x.spec.base_profile ≡ false
      → IsSolved p d x
  unfolding resolve_ini_payload
  resolve_ini_payload-IsSolved input x e options =
      let (spec, accepted, e₁) =
        >>=-eq-ok (throws PayloadError.refused (normalize_profile_spec p d (codes "ini") input)) _
          e in
      let normal =
        throws-eq-ok PayloadError.refused (normalize_profile_spec p d (codes "ini") input)
          accepted in
      let again = normalize_profile_spec-saved p d (codes "ini") input spec keyed normal in
      let (r, found, e₂) =
        >>=-eq-ok
          (throws PayloadError.refused (resolve_profile_spec p d (codes "ini") (saved spec))) _
          e₁ in
      let resolved =
        throws-eq-ok PayloadError.refused (resolve_profile_spec p d (codes "ini") (saved spec))
          found in
      branches (is_static d spec.base_profile) spec r x again resolved refl e₂ options

  -- The text of a payload for a specification without direct traffic, without service groups of its
  -- own and for a base profile with profile options, is a printed plan none of whose rules goes to
  -- DIRECT or to the direct group, if the groups that stand in for it are others, in a catalog in
  -- which the alias key of every region's id is not empty.
  pub resolve_ini_payload-TargetsNoDirect :
      (input : Value) (x : Payload)
      → HasExits d
      → resolve_ini_payload p d input ≡ ok x
      → is_static d x.spec.base_profile ≡ false
      → x.spec.allow_direct ≡ some false
      → x.spec.service_groups ≡ none
      → (plan : List Section) × (render_ini d plan x.spec.language x.spec ≡ ok x.ini)
        × All (TargetsNoDirect d) (plan_rules plan)
  unfolding resolution
  resolve_ini_payload-TargetsNoDirect input x exits e options h n =
      let s = resolve_ini_payload-IsSolved input x e options in
      let same = resolve_spec-resolution d.routable_region_order x.spec s.resolved s.resolves in
      (
        s.plan,
        s.prints,
        solve_subconverter_plan-TargetsNoDirect p d (saved x.spec) s.resolved s.plan exits s.solves
            (ap (λ (y : Resolved). y.allow_direct) (sym same) ∙ h)
            (ap (λ (y : Resolved). y.spec.service_groups) (sym same) ∙ n),
      )
