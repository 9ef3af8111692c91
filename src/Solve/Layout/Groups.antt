-- ===== src/Solve/Layout/Groups.antt =====
-- What `applyIniServiceGroups` of worker/solver.mjs does to the candidates of the plan's groups: those
-- that it adds are references to groups.
use rules.Base.{
  Bool, true, false, not, Option, List, [], ◌∷◌, ◌++◌, map, Text, codes, text_eq, includes, keep,
  null, All, All-append, All-keep, if◌then◌else◌, Result, ok, ◌>>=◌, throw_if, >>=-eq-ok, is_some,
  if-eq-ok, ok-injective, map_result, All-map_result, ◌≡◌, refl, sym, ap, subst, arith, Bool-cases,
  inl, inr, Option-cases,
}
use rules.Plan.{
  Rule, Candidate, Group, Selector, Section, rule_section, cluster_section, group_section,
  selector_section,
}
use rules.Catalog.{GroupEntry, Data}
use rules.Spec.Error.{Error}
use rules.Spec.Services.{Reference}
use rules.Spec.GroupCatalog.{GroupCatalog, service_group_catalog}
use rules.Spec.Groups.{ServiceGroup}
use rules.Spec.Normalize.{is_true}
use rules.Resolve.{Resolved}
use rules.Solve.Names.{reject_group, group_reference, plan_groups}
use rules.Solve.ServiceGroups.{
  routed_name, routed, service_group_candidates, region_additions, region_metadata,
  insert_before_group, insert_regional, add_scoped_ini_region_groups,
}
use rules.Solve.Layout.{
  CustomLayout, ref_targets, reference_among, map_rules, insert_denies, deny_unassigned,
  custom_selector, protect_group, apply_section, apply_layouts, apply_ini_service_groups,
  layout_by_id,
}

plan_groups-map_rules :
    (f : List Rule → List Rule) (ss : List Section) → plan_groups (map_rules f ss) ≡ plan_groups ss
unfolding plan_groups map_rules
plan_groups-map_rules f [] = refl
plan_groups-map_rules f (rule_section _ _ _ ∷ ss) = plan_groups-map_rules f ss
plan_groups-map_rules f (cluster_section _ _ _ ∷ ss) = plan_groups-map_rules f ss
plan_groups-map_rules f (group_section _ _ gs ∷ ss) = ap (λ l. gs ++ l) (plan_groups-map_rules f ss)
plan_groups-map_rules f (selector_section _ _ xs ∷ ss) =
    ap (λ l. map (λ (x : Selector). x.group) xs ++ l) (plan_groups-map_rules f ss)

-- A property of candidates that every reference to a group has.
module _ (R : Candidate → Type 0) (refs : (name : Text) → R (group_reference name)) where
  abbrev P : Group → Type 0
  P g = All R g.candidates

  abbrev OfPlan : List Section → Type 0
  OfPlan ss = All P (plan_groups ss)

  split : (gs hs : List Group) → All P (gs ++ hs) → All P gs × All P hs
  split [] hs a = (tt, a)
  split (g ∷ gs) hs a = let (here, later) = split gs hs a.1 in ((a.0, here), later)

  join_section : (s : Section) (ss : List Section) → OfPlan (s ∷ []) → OfPlan ss → OfPlan (s ∷ ss)
  unfolding plan_groups
  join_section (rule_section _ _ _) ss a b = b
  join_section (cluster_section _ _ _) ss a b = b
  join_section (group_section _ _ gs) ss a b = All-append P gs _ (split gs [] a).0 b
  join_section (selector_section _ _ xs) ss a b =
      All-append P (map (λ (x : Selector). x.group) xs) _
        (split (map (λ (x : Selector). x.group) xs) [] a).0 b

  split_section : (s : Section) (ss : List Section) → OfPlan (s ∷ ss) → OfPlan (s ∷ []) × OfPlan ss
  unfolding plan_groups
  split_section (rule_section _ _ _) ss a = (tt, a)
  split_section (cluster_section _ _ _) ss a = (tt, a)
  split_section (group_section _ _ gs) ss a =
      let (here, later) = split gs (plan_groups ss) a in (All-append P gs [] here tt, later)
  split_section (selector_section _ _ xs) ss a =
      let (here, later) = split (map (λ (x : Selector). x.group) xs) (plan_groups ss) a in
      (All-append P (map (λ (x : Selector). x.group) xs) [] here tt, later)

  -- The rest of a plan is changed.
  kept_section :
      (s : Section) (ss new : List Section) (m : Result Error (List Section))
      → OfPlan (s ∷ ss)
      → ((rest : List Section) → m ≡ ok rest → OfPlan rest)
      → (m >>= λ rest. ok (s ∷ rest)) ≡ ok new
      → OfPlan new
  kept_section s ss new m a h e =
      let (rest, ran, done) = >>=-eq-ok m (λ rest. ok (s ∷ rest)) e in
      subst OfPlan (ok-injective done) (join_section s rest (split_section s ss a).0 (h rest ran))

  OfPlan-insert_denies :
      (denies : List Rule) (ss new : List Section)
      → OfPlan ss
      → insert_denies denies ss ≡ ok new
      → OfPlan new
  unfolding insert_denies plan_groups
  OfPlan-insert_denies denies [] new a e = absurd (ground arith)
  OfPlan-insert_denies denies (rule_section role at rs ∷ ss) new a e =
      elim (Bool-cases (text_eq role (codes "legacy-before"))) [
        | inl before ↦
            let done : ◌≡◌ {A = Result Error (List Section)}
                (ok (rule_section role at (denies ++ rs) ∷ ss)) (ok new) =
              rw (before, insert_denies) at e in
            subst OfPlan (ok-injective done) (
              join_section (rule_section role at (denies ++ rs)) ss tt
                (split_section (rule_section role at rs) ss a).1)
        | inr later ↦
            kept_section (rule_section role at rs) ss new (insert_denies denies ss) a
              (λ rest.
                OfPlan-insert_denies denies ss rest
                  (split_section (rule_section role at rs) ss a).1)
              (rw (later, insert_denies) at e)
      ]
  OfPlan-insert_denies denies (cluster_section role at cs ∷ ss) new a e =
      kept_section (cluster_section role at cs) ss new (insert_denies denies ss) a
        (λ rest.
          OfPlan-insert_denies denies ss rest (split_section (cluster_section role at cs) ss a).1)
        e
  OfPlan-insert_denies denies (group_section role at gs ∷ ss) new a e =
      kept_section (group_section role at gs) ss new (insert_denies denies ss) a
        (λ rest.
          OfPlan-insert_denies denies ss rest (split_section (group_section role at gs) ss a).1)
        e
  OfPlan-insert_denies denies (selector_section role at xs ∷ ss) new a e =
      kept_section (selector_section role at xs) ss new (insert_denies denies ss) a
        (λ rest.
          OfPlan-insert_denies denies ss rest (split_section (selector_section role at xs) ss a).1)
        e

  OfPlan-deny_unassigned :
      (unassigned : List Reference) (reject : Text) (ss new : List Section)
      → OfPlan ss
      → deny_unassigned unassigned reject ss ≡ ok new
      → OfPlan new
  unfolding deny_unassigned
  OfPlan-deny_unassigned unassigned reject ss new a e =
      let retained = map_rules (keep (λ r. not (is_some (reference_among unassigned r)))) ss in
      let same : OfPlan retained = subst (All P) (sym (plan_groups-map_rules _ ss)) a in
      if-eq-ok OfPlan _ (ok retained) _ (λ done. subst OfPlan (ok-injective done) same)
        (OfPlan-insert_denies _ retained new same) e

  All-references : (names : List Text) → All R (map group_reference names)
  All-references [] = tt
  All-references (n ∷ ns) = (refs n, All-references ns)

  service_group_candidates-All :
      (d : Data) (source : List (Text × GroupEntry)) (guarded : Bool) (layout : ServiceGroup)
      (cs : List Candidate)
      → service_group_candidates d source guarded layout ≡ ok cs
      → All R cs
  unfolding service_group_candidates
  service_group_candidates-All d source guarded layout cs e =
      let (names, ran, done) = >>=-eq-ok (map_result routed_name (routed d source layout)) _ e in
      subst (All R) (ok-injective done) (All-references _)

  All-insert_before_group :
      (other : Text) (additions gs : List Group)
      → All P additions
      → All P gs
      → All P (insert_before_group other additions gs)
  unfolding insert_before_group
  All-insert_before_group other additions [] a b = a
  All-insert_before_group other additions (g ∷ gs) a b = elim (Bool-cases (text_eq g.name other)) [
    | inl here ↦ rw here (All-append P additions (g ∷ gs) a b)
    | inr later ↦ rw later (b.0, All-insert_before_group other additions gs a b.1)
  ]

  OfPlan-insert_regional :
      (other : Text) (additions : List Group) (ss : List Section)
      → All P additions
      → OfPlan ss
      → OfPlan (insert_regional other additions ss)
  unfolding insert_regional plan_groups
  OfPlan-insert_regional other additions [] a b = tt
  OfPlan-insert_regional other additions (rule_section _ _ _ ∷ ss) a b =
      OfPlan-insert_regional other additions ss a b
  OfPlan-insert_regional other additions (cluster_section _ _ _ ∷ ss) a b =
      OfPlan-insert_regional other additions ss a b
  OfPlan-insert_regional other additions (selector_section _ _ xs ∷ ss) a b =
      let groups : List Group = map (λ (x : Selector). x.group) xs in
      let (here, later) = split groups (plan_groups ss) b in
      All-append P groups _ here (OfPlan-insert_regional other additions ss a later)
  OfPlan-insert_regional other additions (group_section role at gs ∷ ss) a b =
      let (here, later) = split gs (plan_groups ss) b in
      elim (Bool-cases (text_eq role (codes "automatic-region-groups"))) [
        | inl regional ↦
            rw regional (All-append P _ _ (All-insert_before_group other additions gs a here) later)
        | inr else' ↦
            rw else' (All-append P gs _ here (OfPlan-insert_regional other additions ss a later))
      ]

  region_additions-All :
      (d : Data) (blocked : List Text) (regional : Bool) (known ids : List Text) (gs : List Group)
      → region_additions d blocked regional known ids ≡ ok gs
      → All P gs
  unfolding region_additions
  region_additions-All d blocked regional known [] gs e = subst (All P) (ok-injective e) tt
  region_additions-All d blocked regional known (id ∷ ids) gs e =
      let (metadata, found, e₁) = >>=-eq-ok (region_metadata d id) _ e in
      elim (Bool-cases (includes metadata.0 known)) [
        | inl old ↦
            region_additions-All d blocked regional known ids gs (rw (old, region_additions) at e₁)
        | inr new ↦
            let (u, checked, e₂) =
              >>=-eq-ok (throw_if (not regional) Error.invalid_profile_data) _
                (rw (new, region_additions) at e₁) in
            let (more, ran, done) =
              >>=-eq-ok (region_additions d blocked regional (metadata.0 ∷ known) ids) _ e₂ in
            subst (All P) (ok-injective done) (
              (refs _, tt),
              region_additions-All d blocked regional (metadata.0 ∷ known) ids more ran,
            )
      ]

  OfPlan-add_scoped :
      (d : Data) (blocked ids : List Text) (ss new : List Section)
      → OfPlan ss
      → add_scoped_ini_region_groups d blocked ids ss ≡ ok new
      → OfPlan new
  unfolding add_scoped_ini_region_groups
  OfPlan-add_scoped d blocked ids ss new a e =
      let (additions, ran, done) = >>=-eq-ok (region_additions d blocked _ _ _) _ e in
      let all_here = region_additions-All d blocked _ _ _ additions ran in
      subst OfPlan (ok-injective done) (elim (Bool-cases (null additions)) [
        | inl nothing ↦ rw nothing a
        | inr grown ↦ rw grown (OfPlan-insert_regional d.other_region_group additions ss all_here a)
      ])

  All-either : (b : Bool) (gs hs : List Group) → All P gs → All P hs → All P (if b then gs else hs)
  All-either true gs hs a b = a
  All-either false gs hs a b = b

  module _ (d : Data) (resolved : Resolved) (c : GroupCatalog) (layouts : List ServiceGroup)
      (targets : List (Reference × Text)) where
    custom_selectors-All :
        (gs : List ServiceGroup) (xs : List Selector)
        → map_result (custom_selector d resolved c layouts targets) gs ≡ ok xs
        → All P (map (λ (x : Selector). x.group) xs)
    unfolding map_result custom_selector
    custom_selectors-All [] xs e =
        subst (λ (l : List Selector). All P (map (λ (x : Selector). x.group) l)) (ok-injective e) tt
    custom_selectors-All (g ∷ gs) xs e =
        let (x, one, more) = >>=-eq-ok (custom_selector d resolved c layouts targets g) _ e in
        let (rest, ran, done) =
          >>=-eq-ok (map_result (custom_selector d resolved c layouts targets) gs) _ more in
        let (cs, chosen, made) =
          >>=-eq-ok (service_group_candidates d c.source (is_true resolved.fail_closed) g) _ one in
        let here : P x.group =
          subst (λ (y : Selector). P y.group) (ok-injective made)
            (service_group_candidates-All d c.source (is_true resolved.fail_closed) g cs chosen) in
        subst (λ (l : List Selector). All P (map (λ (y : Selector). y.group) l)) (ok-injective done)
          (here, custom_selectors-All gs rest ran)

    protect_group-All :
        (g h : Group) → P g → protect_group d resolved c layouts targets g ≡ ok h → P h
    unfolding protect_group
    protect_group-All g h a e = elim (Bool-cases (text_eq g.name c.protected_entry.name)) [
      | inr other ↦ subst P (ok-injective (rw (other, protect_group) at e)) a
      | inl protected ↦ elim (Option-cases (layout_by_id c.protected_entry.id layouts)) [
        | inl absent ↦ absurd (ground arith)
        | inr (layout, found) ↦
            let (cs, chosen, made) =
              >>=-eq-ok (service_group_candidates d c.source true layout) _
                (rw (found, protect_group) at (rw (protected, protect_group) at e)) in
            subst P (ok-injective made)
              (service_group_candidates-All d c.source true layout cs chosen)
      ]
    ]

    apply_section-All :
        (s new : Section)
        → OfPlan (s ∷ [])
        → apply_section d resolved c layouts targets s ≡ ok new
        → OfPlan (new ∷ [])
    unfolding apply_section plan_groups
    apply_section-All (rule_section role at rs) new a e =
        subst (λ s. OfPlan (s ∷ [])) (ok-injective e) tt
    apply_section-All (cluster_section role at cs) new a e =
        subst (λ s. OfPlan (s ∷ [])) (ok-injective e) tt
    apply_section-All (selector_section role at xs) new a e =
        if-eq-ok (λ s. OfPlan (s ∷ [])) (text_eq role (codes "service-selectors")) _
          (ok (selector_section role at xs))
          (λ made.
            let (ys, ran, done) = >>=-eq-ok (map_result _ _) _ made in
            subst (λ s. OfPlan (s ∷ [])) (ok-injective done)
              (All-append P (map (λ (x : Selector). x.group) ys) [] (custom_selectors-All _ ys ran)
                tt))
          (λ same. subst (λ s. OfPlan (s ∷ [])) (ok-injective same) a) e
    apply_section-All (group_section role at gs) new a e =
        let (hs, ran, done) = >>=-eq-ok (map_result _ _) _ e in
        let here : All P gs = (split gs [] a).0 in
        let others : List Group = keep (λ g. not (includes g.name c.source_names)) gs in
        let chosen : All P (if text_eq role (codes "account-group") then gs else others) =
          All-either (text_eq role (codes "account-group")) gs others here (All-keep P _ gs here) in
        subst (λ s. OfPlan (s ∷ [])) (ok-injective done)
          (All-append P hs [] (All-map_result P P _ _ hs protect_group-All chosen ran) tt)

    apply_sections-All :
        (ss new : List Section)
        → OfPlan ss
        → map_result (apply_section d resolved c layouts targets) ss ≡ ok new
        → OfPlan new
    unfolding map_result
    apply_sections-All [] new a e = subst OfPlan (ok-injective e) a
    apply_sections-All (s ∷ ss) new a e =
        let (here, later) = split_section s ss a in
        let (t, one, more) = >>=-eq-ok (apply_section d resolved c layouts targets s) _ e in
        let (rest, ran, done) =
          >>=-eq-ok (map_result (apply_section d resolved c layouts targets) ss) _ more in
        subst OfPlan (ok-injective done) (
          join_section t rest (apply_section-All s t here one)
            (apply_sections-All ss rest later ran))

  apply_layouts-All :
      (d : Data) (resolved : Resolved) (blocked : List Text) (plan : List Section)
      (layouts : List ServiceGroup) (applied : List Section × Option CustomLayout)
      → OfPlan plan
      → apply_layouts d resolved blocked plan layouts ≡ ok applied
      → OfPlan applied.0
  unfolding apply_layouts
  apply_layouts-All d resolved blocked plan layouts applied a e =
      let (c, found, e₁) = >>=-eq-ok (service_group_catalog d (codes "ini") _) _ e in
      let (m, targets, e₂) = >>=-eq-ok (ref_targets (reject_group d) layouts _ c.services) _ e₁ in
      let (denied, without, e₃) =
        >>=-eq-ok
          (if null m.unassigned
            then ok plan
            else deny_unassigned m.unassigned (reject_group d) plan)
          _ e₂ in
      let (grown, scoped, e₄) = >>=-eq-ok (add_scoped_ini_region_groups d blocked _ denied) _ e₃ in
      let (sections, ran, done) =
        >>=-eq-ok (map_result (apply_section d resolved c layouts m.targets) grown) _ e₄ in
      let kept : OfPlan denied =
        if-eq-ok OfPlan (null m.unassigned) (ok plan) _ (λ same. subst OfPlan (ok-injective same) a)
          (OfPlan-deny_unassigned m.unassigned (reject_group d) plan denied a) without in
      subst (λ (x : List Section × Option CustomLayout). OfPlan x.0) (ok-injective done)
        (apply_sections-All d resolved c layouts m.targets grown sections
          (OfPlan-add_scoped d blocked _ denied grown kept scoped) ran)

  -- What holds of references and of the plan's candidates holds of the plan with the layout.
  pub apply_ini_service_groups-All :
      (d : Data) (resolved : Resolved) (blocked : List Text) (plan : List Section)
      (applied : List Section × Option CustomLayout)
      → All (λ (g : Group). All R g.candidates) (plan_groups plan)
      → apply_ini_service_groups d resolved blocked plan ≡ ok applied
      → All (λ (g : Group). All R g.candidates) (plan_groups applied.0)
  unfolding apply_ini_service_groups
  apply_ini_service_groups-All d resolved blocked plan applied a e =
      elim (Option-cases resolved.spec.service_groups) [
        | inl absent ↦
            subst (λ (x : List Section × Option CustomLayout). OfPlan x.0)
              (ok-injective (rw (absent, apply_ini_service_groups) at e)) a
        | inr (layouts, present) ↦
            apply_layouts-All d resolved blocked plan layouts applied a
              (rw (present, apply_ini_service_groups) at e)
      ]
