-- ===== src/Solve/Layout/Unassigned.antt =====
-- The rules of services that a custom layout leaves without a group, in `applyIniServiceGroups` of
-- worker/solver.mjs.
use mathlib.Core.List.{Memᴰ}
use rules.Base.{
  Bool, true, false, Option, none, some, List, [], ◌∷◌, Text, codes, text_eq, null, is_some, get_or,
  ok, >>=-eq-ok, ok-injective, if◌then◌else◌, map_result, ◌≡◌, refl, sym, ap, subst, ◌∙◌, arith,
  Bool-cases, inl, inr, Option-cases,
}
use rules.Plan.{Section}
use rules.Catalog.{RuleRef, Service, Data}
use rules.Spec.Services.{Reference, rule_reference}
use rules.Spec.Services.Owners.{reference_eq_refl}
use rules.Spec.GroupCatalog.{GroupCatalog, service_group_catalog}
use rules.Spec.Groups.{ServiceGroup}
use rules.Resolve.{Resolved}
use rules.Solve.Names.{reject_group}
use rules.Solve.ServiceGroups.{add_scoped_ini_region_groups}
use rules.Solve.Layout.{
  CustomLayout, unassigned_refs, RefTargets, group_name_for, ref_includes, target_of_ref,
  mark_unassigned, add_ref_target, add_ref_targets, ref_targets, deny_unassigned, apply_section,
  apply_layouts, apply_ini_service_groups,
}

mark_unassigned-retargeted :
    (assigned : Bool) (ref : Reference) (m : RefTargets) (targets : List (Reference × Text))
    → (mark_unassigned assigned ref (record m { targets = targets })).unassigned
      ≡ (mark_unassigned assigned ref m).unassigned
mark_unassigned-retargeted true ref m targets = refl
mark_unassigned-retargeted false ref m targets = refl

-- The references that a round leaves without a group.
add_ref_target-unassigned :
    (target : Text) (assigned : Bool) (m new : RefTargets) (ref : Reference)
    → add_ref_target target assigned m ref ≡ ok new
    → new.unassigned ≡ (mark_unassigned assigned ref m).unassigned
unfolding add_ref_target
add_ref_target-unassigned target assigned m new ref e =
    elim (Option-cases (target_of_ref ref m.targets)) [
      | inl absent ↦
          sym (
            ap (λ (x : RefTargets). x.unassigned) (ok-injective (rw (absent, add_ref_target) at e)))
          ∙ mark_unassigned-retargeted assigned ref m _
      | inr (existing, present) ↦ elim (Bool-cases (text_eq existing target)) [
        | inl same ↦ sym (
            ap (λ (x : RefTargets). x.unassigned)
              (ok-injective (rw (same, add_ref_target) at (rw (present, add_ref_target) at e))))
        | inr differ ↦
            absurd
              (ground (arith, (rw (differ, add_ref_target) at (rw (present, add_ref_target) at e))))
      ]
    ]

mark_unassigned-keeps :
    (ref other : Reference) (assigned : Bool) (m : RefTargets)
    → ref_includes ref m.unassigned ≡ true
    → ref_includes ref (mark_unassigned assigned other m).unassigned ≡ true
unfolding ref_includes
mark_unassigned-keeps ref other true m h = h
mark_unassigned-keeps ref other false m h = ground arith

add_ref_targets-keeps :
    (ref : Reference) (target : Text) (assigned : Bool) (m new : RefTargets) (rs : List RuleRef)
    → ref_includes ref m.unassigned ≡ true
    → add_ref_targets target assigned m rs ≡ ok new
    → ref_includes ref new.unassigned ≡ true
unfolding add_ref_targets
add_ref_targets-keeps ref target assigned m new [] h e =
    subst (λ (x : RefTargets). ref_includes ref x.unassigned ≡ true) (ok-injective e) h
add_ref_targets-keeps ref target assigned m new (q ∷ rs) h e =
    elim (Option-cases (rule_reference q.ini_kind q.ini_value)) [
      | inl absent ↦
          add_ref_targets-keeps ref target assigned m new rs h (rw (absent, add_ref_targets) at e)
      | inr (other, present) ↦
          let (next, one, more) =
            >>=-eq-ok (add_ref_target target assigned m other) _
              (rw (present, add_ref_targets) at e) in
          add_ref_targets-keeps ref target assigned next new rs
            (rw (add_ref_target-unassigned target assigned m next other one)
              (mark_unassigned-keeps ref other assigned m h))
            more
    ]

add_ref_targets-unassigned :
    (ref : Reference) (target : Text) (m new : RefTargets) (q : RuleRef) (rs : List RuleRef)
    → Memᴰ q rs
    → rule_reference q.ini_kind q.ini_value ≡ some ref
    → add_ref_targets target false m rs ≡ ok new
    → ref_includes ref new.unassigned ≡ true
unfolding add_ref_targets ref_includes
add_ref_targets-unassigned ref target m new q [] mem found e = elim mem [ ]
add_ref_targets-unassigned ref target m new q (p ∷ rs) (Memᴰ.head here) found e =
    let present : rule_reference p.ini_kind p.ini_value ≡ some ref =
      subst (λ (z : RuleRef). rule_reference z.ini_kind z.ini_value ≡ some ref) here found in
    let (next, one, more) =
      >>=-eq-ok (add_ref_target target false m ref) _ (rw (present, add_ref_targets) at e) in
    add_ref_targets-keeps ref target false next new rs
      (rw (add_ref_target-unassigned target false m next ref one) (rw (reference_eq_refl ref) refl))
      more
add_ref_targets-unassigned ref target m new q (p ∷ rs) (Memᴰ.tail later) found e =
    elim (Option-cases (rule_reference p.ini_kind p.ini_value)) [
      | inl absent ↦
          add_ref_targets-unassigned ref target m new q rs later found
            (rw (absent, add_ref_targets) at e)
      | inr (other, present) ↦
          let (next, one, more) =
            >>=-eq-ok (add_ref_target target false m other) _
              (rw (present, add_ref_targets) at e) in
          add_ref_targets-unassigned ref target next new q rs later found more
    ]

ref_targets-keeps :
    (ref : Reference) (reject : Text) (layouts : List ServiceGroup) (m new : RefTargets)
    (ss : List Service)
    → ref_includes ref m.unassigned ≡ true
    → ref_targets reject layouts m ss ≡ ok new
    → ref_includes ref new.unassigned ≡ true
unfolding ref_targets
ref_targets-keeps ref reject layouts m new [] h e =
    subst (λ (x : RefTargets). ref_includes ref x.unassigned ≡ true) (ok-injective e) h
ref_targets-keeps ref reject layouts m new (s ∷ ss) h e =
    let (next, one, more) = >>=-eq-ok (add_ref_targets _ _ m s.rule_refs) _ e in
    ref_targets-keeps ref reject layouts next new ss
      (add_ref_targets-keeps ref _ _ m next s.rule_refs h one) more

ref_targets-unassigned :
    (ref : Reference) (reject : Text) (layouts : List ServiceGroup) (m new : RefTargets)
    (s : Service) (q : RuleRef) (ss : List Service)
    → Memᴰ s ss
    → group_name_for s.id layouts ≡ none
    → Memᴰ q s.rule_refs
    → rule_reference q.ini_kind q.ini_value ≡ some ref
    → ref_targets reject layouts m ss ≡ ok new
    → ref_includes ref new.unassigned ≡ true
unfolding ref_targets
ref_targets-unassigned ref reject layouts m new s q [] mem n rule found e = elim mem [ ]
ref_targets-unassigned ref reject layouts m new s q (p ∷ ss) (Memᴰ.tail later) n rule found e =
    let (next, one, more) = >>=-eq-ok (add_ref_targets _ _ m p.rule_refs) _ e in
    ref_targets-unassigned ref reject layouts next new s q ss later n rule found more
ref_targets-unassigned ref reject layouts m new s q (p ∷ ss) (Memᴰ.head here) n rule found e =
    let (next, one, more) =
      >>=-eq-ok
        (add_ref_targets (get_or (group_name_for p.id layouts) reject)
          (is_some (group_name_for p.id layouts)) m p.rule_refs)
        _ e in
    let without : group_name_for p.id layouts ≡ none =
      subst (λ (z : Service). group_name_for z.id layouts ≡ none) here n in
    let rule_here : Memᴰ q p.rule_refs = subst (λ (z : Service). Memᴰ q z.rule_refs) here rule in
    ref_targets-keeps ref reject layouts next new ss
      (add_ref_targets-unassigned ref reject m next q p.rule_refs rule_here found
        (rw without at one))
      more

-- The layout of a run has, among the rules without a group, those of each service that its groups
-- leave out.
pub unassigned_refs-service :
    (d : Data) (r : Resolved) (blocked : List Text) (plan sections : List Section)
    (layouts : List ServiceGroup) (layout : Option CustomLayout) (c : GroupCatalog)
    (ref : Reference) (s : Service) (q : RuleRef)
    → apply_ini_service_groups d r blocked plan ≡ ok (sections, layout)
    → r.spec.service_groups ≡ some layouts
    → service_group_catalog d (codes "ini") r.spec.base_profile ≡ ok c
    → Memᴰ s c.services
    → group_name_for s.id layouts ≡ none
    → Memᴰ q s.rule_refs
    → rule_reference q.ini_kind q.ini_value ≡ some ref
    → ref_includes ref (unassigned_refs layout) ≡ true
unfolding apply_ini_service_groups apply_layouts
unassigned_refs-service d r blocked plan sections layouts layout c ref s q e present known mem n
      rule found =
    let e₀ = rw (present, apply_ini_service_groups) at e in
    let (c', again, e₁) = >>=-eq-ok (service_group_catalog d (codes "ini") _) _ e₀ in
    let same : c ≡ c' = ok-injective (sym known ∙ again) in
    let (m, targets, e₂) = >>=-eq-ok (ref_targets (reject_group d) layouts _ c'.services) _ e₁ in
    let (denied, without, e₃) =
      >>=-eq-ok
        (if null m.unassigned then ok plan else deny_unassigned m.unassigned (reject_group d) plan)
        _ e₂ in
    let (grown, scoped, e₄) = >>=-eq-ok (add_scoped_ini_region_groups d blocked _ denied) _ e₃ in
    let (applied, ran, done) =
      >>=-eq-ok (map_result (apply_section d r c' layouts m.targets) grown) _ e₄ in
    subst
      (λ (x : List Section × Option CustomLayout). ref_includes ref (unassigned_refs x.1) ≡ true)
      (ok-injective done)
      (ref_targets-unassigned ref (reject_group d) layouts
        (record { targets = []; unassigned = [] }) m s q c'.services
        (subst (λ (x : GroupCatalog). Memᴰ s x.services) same mem) n rule found targets)
