-- ===== src/Solve/Subconverter/Groups.antt =====
-- The groups of a plan that `solveSubconverterPlan` of worker/solver.mjs returns.
use rules.Base.{
  Bool, true, false, Option, some, List, [], ◌∷◌, ◌++◌, map, Text, any, All, ok, >>=-eq-ok, ◌≡◌,
  refl, ap, sym, ◌∙◌, subst, arith, Bool-cases, inl, inr, ◌⊎◌, text_eq, codes,
}
use rules.Plan.{
  Rule, Group, Selector, Section, rule_section, cluster_section, group_section, selector_section,
}
use rules.Catalog.{Data}
use rules.Spec.GroupCatalog.{plan_group_names}
use rules.Resolve.{Resolved}
use rules.Solve.Names.{named_group, is_group_reference, plan_groups}
use rules.Solve.CustomRules.{custom_ini_rules, insert_ini_custom_rules}
use rules.Solve.CustomRules.Groups.{plan_groups-insert_ini_custom_rules}
use rules.Solve.Layout.{CustomLayout, apply_ini_service_groups}
use rules.Solve.Rewrite.{rewrite_sections}
use rules.Solve.Rewrite.Groups.{
  RejectsFirst, NotDirect, HasExits, All-rewrite_sections, rewrite_group-RejectsFirst, IsEmptied,
  rewrite_group-IsEmptied, selector_candidates-IsEmptied, selector_candidates-RejectsFirst,
  rewrite_group-NotDirect, selector_candidates-NotDirect,
}
use rules.Solve.Subconverter.{blocked_terms, solving, is_dangling, check_references, solve_plan}

-- The stages of a run that returns a plan.
pub record Run (d : Data) (r : Resolved) (plan : List Section) : Type 0 where
  pub applied : List Section × Option CustomLayout
  pub rewritten : List Section
  pub custom : List Rule
  pub layouts : apply_ini_service_groups d r (blocked_terms d r) d.plan ≡ ok applied
  pub sections : rewritten ≡ rewrite_sections (solving d r applied.1) true applied.0
  pub references : check_references rewritten ≡ ok tt
  pub rule_list : custom_ini_rules d r ≡ ok custom
  pub inserted : insert_ini_custom_rules d custom rewritten ≡ ok plan

pub solve_plan-Run :
    (d : Data) (r : Resolved) (plan : List Section) → solve_plan d r ≡ ok plan → Run d r plan
unfolding solve_plan
solve_plan-Run d r plan e =
    let (applied, layouts, e₁) =
      >>=-eq-ok (apply_ini_service_groups d r (blocked_terms d r) d.plan) _ e in
    let rewritten : List Section = rewrite_sections (solving d r applied.1) true applied.0 in
    let (checked, references, e₂) = >>=-eq-ok (check_references rewritten) _ e₁ in
    let (custom, rule_list, inserted) = >>=-eq-ok (custom_ini_rules d r) _ e₂ in
    record {
      applied = applied;
      rewritten = rewritten;
      custom = custom;
      layouts = layouts;
      sections = refl;
      references = references;
      rule_list = rule_list;
      inserted = inserted;
    }

abbrev pub group_names : List Section → List Text
group_names plan = map (λ (g : Group). g.name) (plan_groups plan)

map_append {ℓ κ} :
    {A : Type ℓ} {B : Type κ} (f : A → B) (xs ys : List A) → map f (xs ++ ys) ≡ map f xs ++ map f ys
map_append f [] ys = refl
map_append f (x ∷ xs) ys = ap (λ l. f x ∷ l) (map_append f xs ys)

selector_group_names :
    (xs : List Selector)
    → map (λ (g : Group). g.name) (map (λ (x : Selector). x.group) xs)
      ≡ map (λ (x : Selector). x.group.name) xs
selector_group_names [] = refl
selector_group_names (x ∷ xs) = ap (λ l. x.group.name ∷ l) (selector_group_names xs)

plan_group_names-plan_groups : (plan : List Section) → plan_group_names plan ≡ group_names plan
unfolding plan_group_names plan_groups
plan_group_names-plan_groups [] = refl
plan_group_names-plan_groups (rule_section _ _ _ ∷ ss) = plan_group_names-plan_groups ss
plan_group_names-plan_groups (cluster_section _ _ _ ∷ ss) = plan_group_names-plan_groups ss
plan_group_names-plan_groups (group_section _ _ gs ∷ ss) =
    rw (plan_group_names-plan_groups ss)
      (sym (map_append (λ (g : Group). g.name) gs (plan_groups ss)))
plan_group_names-plan_groups (selector_section _ _ xs ∷ ss) = rw (plan_group_names-plan_groups ss) (
    sym (
      map_append (λ (g : Group). g.name) (map (λ (x : Selector). x.group) xs) (plan_groups ss)
      ∙ ap (λ l. l ++ group_names ss) (selector_group_names xs)))

-- Each reference of the groups leads to a group of the given names.
abbrev pub AreDefined : List Text → List Group → Type 0
AreDefined names gs = All (λ (g : Group). All (λ c. is_dangling names c ≡ false) g.candidates) gs

All-none {ℓ} :
    {A : Type ℓ} (test : A → Bool) (xs : List A)
    → any test xs ≡ false
    → All (λ x. test x ≡ false) xs
unfolding any
All-none test [] h = tt
All-none test (x ∷ xs) h = (ground arith, All-none test xs (ground arith))

groups-AreDefined :
    (names : List Text) (gs : List Group)
    → any (λ (g : Group). any (is_dangling names) g.candidates) gs ≡ false
    → AreDefined names gs
unfolding any
groups-AreDefined names [] h = tt
groups-AreDefined names (g ∷ gs) h = (
  All-none (is_dangling names) g.candidates (ground arith),
  groups-AreDefined names gs (ground arith),
)

check_references-AreDefined :
    (plan : List Section)
    → check_references plan ≡ ok tt
    → AreDefined (group_names plan) (plan_groups plan)
unfolding check_references
check_references-AreDefined plan e =
    subst (λ names. AreDefined names (plan_groups plan)) (plan_group_names-plan_groups plan)
      (groups-AreDefined (plan_group_names plan) (plan_groups plan)
        (elim (Bool-cases (
          any (λ (g : Group). any (is_dangling (plan_group_names plan)) g.candidates)
            (plan_groups plan))) [ inl dangling ↦ absurd (ground arith) | inr closed ↦ closed ]))

module _ (d : Data) (r : Resolved) (plan : List Section) (e : solve_plan d r ≡ ok plan) where
  abbrev run : Run d r plan
  run = solve_plan-Run d r plan e

  pub same_groups : plan_groups plan ≡ plan_groups (run.rewritten)
  same_groups = plan_groups-insert_ini_custom_rules d run.custom run.rewritten plan run.inserted

  -- Every group reference of a solved plan leads to a group or a selector that the plan has.
  pub solve_plan-AreDefined : AreDefined (group_names plan) (plan_groups plan)
  solve_plan-AreDefined =
      subst (λ gs. AreDefined (map (λ (g : Group). g.name) gs) gs) (sym same_groups)
        (check_references-AreDefined run.rewritten run.references)

  -- In a plan that is solved to fail closed, the first candidate of every group and selector is the
  -- reject group.
  pub solve_plan-RejectsFirst : r.fail_closed ≡ some true → All (RejectsFirst d) (plan_groups plan)
  unfolding solving
  solve_plan-RejectsFirst h =
      let x = solving d r run.applied.1 in
      subst (All (RejectsFirst d)) (sym (same_groups ∙ ap plan_groups run.sections)) (
        All-rewrite_sections (RejectsFirst d) x (rewrite_group-RejectsFirst x h)
          (selector_candidates-RejectsFirst x h) run.applied.0 true)

  -- In a plan that is solved without direct traffic, no candidate of a group or a selector is a
  -- reference to DIRECT or the direct group, if the groups that stand in for it are others.
  pub solve_plan-NotDirect :
      HasExits d
      → r.allow_direct ≡ some false
      → All (λ (g : Group). All (NotDirect d) g.candidates) (plan_groups plan)
  unfolding solving
  solve_plan-NotDirect exits h =
      let x = solving d r run.applied.1 in
      subst (All (λ (g : Group). All (NotDirect d) g.candidates))
        (sym (same_groups ∙ ap plan_groups run.sections))
        (All-rewrite_sections (λ (g : Group). All (NotDirect d) g.candidates) x
          (rewrite_group-NotDirect x exits h) (selector_candidates-NotDirect x exits h)
          run.applied.0 true)

  -- In a plan that is solved without direct traffic, the direct group has references only.
  pub solve_plan-IsEmptied :
      HasExits d
      → r.allow_direct ≡ some false
      → All
          (λ (g : Group).
            (text_eq g.name (named_group d (codes "direct")) ≡ false)
            ⊎ All (λ c. is_group_reference c ≡ true) g.candidates)
          (plan_groups plan)
  unfolding solving
  solve_plan-IsEmptied exits h =
      let x = solving d r run.applied.1 in
      subst (All (IsEmptied x exits h)) (sym (same_groups ∙ ap plan_groups run.sections)) (
        All-rewrite_sections (IsEmptied x exits h) x (rewrite_group-IsEmptied x exits h)
          (selector_candidates-IsEmptied x exits h) run.applied.0 true)
