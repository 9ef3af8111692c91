-- ===== src/Solve/Subconverter/Denied.antt =====
-- The rules of disabled services in the section of service rules that `solveSubconverterPlan` of
-- worker/solver.mjs rewrites.
use mathlib.Core.List.{Memᴰ}
use rules.Base.{
  ok, none, true, false, ◌&&◌, ◌||◌, Option, some, List, [], ◌∷◌, ◌++◌, map, Text, codes, text_eq,
  text_eq_iff, includes, any, keep, null, All, All-append, ◌≡◌, refl, subst, sym, arith, Bool-cases,
  inl, inr,
}
use rules.Plan.{Rule, Cluster, ClusterLayout, Section, cluster_section}
use rules.Catalog.{RuleRef, Service, Data}
use rules.Resolve.{Resolved}
use rules.Spec.Services.{Reference, reference_eq, rule_reference, ini_rule_owners}
use rules.Spec.Services.Owners.{owned, ini_rule_owners-owned}
use rules.Solve.Names.{reject_group, service_rule_reference}
use rules.Solve.CustomRules.{plan_rules}
use rules.Spec.GroupCatalog.{GroupCatalog, service_group_catalog}
use rules.Spec.Groups.{ServiceGroup}
use rules.Solve.Layout.{
  CustomLayout, unassigned_refs, group_name_for, ref_includes, reference_among,
  apply_ini_service_groups,
}
use rules.Solve.Layout.Unassigned.{unassigned_refs-service}
use rules.Solve.Rewrite.{is_disabled_rule, needs_deny_rules, rewrite_section, rewrite_sections}
use rules.Solve.Rewrite.Rules.{IsDenied, denied_clusters-IsDenied}
use rules.Solve.Subconverter.{blocked_terms, disabled_rule_refs, solving}

-- Rules with this reference are those of a service with INI output that is disabled, or of a service
-- that is in none of the caller's groups.
pub data IsOff (d : Data) (r : Resolved) (ref : Reference) : Type 0 where
  disabled :
      (s : Service) (q : RuleRef)
      → Memᴰ s d.services
      → includes (codes "ini") s.output_formats ≡ true
      → Memᴰ q s.rule_refs
      → rule_reference q.ini_kind q.ini_value ≡ some ref
      → includes s.id r.disabled_service_ids ≡ true
      → IsOff d r ref
  unassigned :
      (layouts : List ServiceGroup) (c : GroupCatalog) (s : Service) (q : RuleRef)
      → r.spec.service_groups ≡ some layouts
      → service_group_catalog d (codes "ini") r.spec.base_profile ≡ ok c
      → Memᴰ s c.services
      → All (λ (g : ServiceGroup). includes s.id g.service_ids ≡ false) layouts
      → Memᴰ q s.rule_refs
      → rule_reference q.ini_kind q.ini_value ≡ some ref
      → IsOff d r ref

group_name_for-none :
    (id : Text) (gs : List ServiceGroup)
    → All (λ (g : ServiceGroup). includes id g.service_ids ≡ false) gs
    → group_name_for id gs ≡ none
unfolding group_name_for
group_name_for-none id [] a = refl
group_name_for-none id (g ∷ gs) a = rw (group_name_for-none id gs a.1) (rw a.0 refl)

ref_includes-append :
    (ref : Reference) (xs ys : List Reference)
    → ref_includes ref (xs ++ ys) ≡ (ref_includes ref xs || ref_includes ref ys)
unfolding ref_includes
ref_includes-append ref [] ys = refl
ref_includes-append ref (x ∷ xs) ys = ground (arith, ref_includes-append ref xs ys)

any_both :
    (id : Text) (ids off : List Text)
    → includes id ids ≡ true
    → includes id off ≡ true
    → any (λ x. includes x off) ids ≡ true
unfolding any includes
any_both id [] off h k = cc
any_both id (x ∷ ids) off h k = elim (Bool-cases (text_eq x id)) [
  | inl same ↦
      let here : includes x off ≡ true =
        subst (λ z. includes z off ≡ true) (sym ((text_eq_iff x id).0 same)) k in
      ground (arith, here)
  | inr other ↦ ground (arith, any_both id ids off)
]

kept_owners :
    (ref : Reference) (id : Text) (off : List Text) (m : List (Reference × List Text))
    → owned ref id m ≡ true
    → includes id off ≡ true
    → ref_includes ref (
        map
          (λ (e : Reference × List Text). e.0)
          (keep (λ (e : Reference × List Text). any (λ x. includes x off) e.1) m))
      ≡ true
unfolding any keep ref_includes
kept_owners ref id off [] h k = cc
kept_owners ref id off ((key, ids) ∷ m) h k =
    elim (Bool-cases (reference_eq key ref && includes id ids)) [
      | inl here ↦
          let kept : any (λ x. includes x off) ids ≡ true = any_both id ids off (ground arith) k in
          rw kept (ground arith)
      | inr other ↦
          let later = kept_owners ref id off m (ground arith) k in
          elim (Bool-cases (any (λ x. includes x off) ids)) [
            | inl kept ↦ rw kept (ground (arith, later))
            | inr left ↦ rw left later
          ]
    ]

null-includes : (x : Text) (xs : List Text) → includes x xs ≡ true → null xs ≡ false
unfolding includes
null-includes x [] h = cc
null-includes x (y ∷ ys) h = refl

null-ref_includes :
    (ref : Reference) (refs : List Reference) → ref_includes ref refs ≡ true → null refs ≡ false
unfolding ref_includes
null-ref_includes ref [] h = cc
null-ref_includes ref (x ∷ xs) h = refl

reference_among-some :
    (refs : List Reference) (rule : Rule) (ref : Reference)
    → service_rule_reference rule ≡ some ref
    → ref_includes ref refs ≡ true
    → reference_among refs rule ≡ some ref
unfolding reference_among
reference_among-some refs rule ref e h = rw (e, reference_among) (rw h refl)

module _ (d : Data) (r : Resolved) (sections : List Section) (layout : Option CustomLayout)
    (ref : Reference)
    (applied : apply_ini_service_groups d r (blocked_terms d r) d.plan
      ≡ ok (sections, layout)) where
  IsOff-disabled_rule_refs : IsOff d r ref → ref_includes ref (disabled_rule_refs d r layout) ≡ true
  unfolding disabled_rule_refs
  IsOff-disabled_rule_refs (IsOff.disabled s q mem ini rule e off) = rw ref_includes-append (
      rw
        (kept_owners ref s.id r.disabled_service_ids (ini_rule_owners d)
          (ini_rule_owners-owned d ref s q mem ini rule e) off)
        refl)
  IsOff-disabled_rule_refs (IsOff.unassigned layouts c s q present known mem out rule e) =
      let there =
        unassigned_refs-service d r (blocked_terms d r) d.plan sections layouts layout c ref s q
          applied present known mem (group_name_for-none s.id layouts out) rule e in
      rw ref_includes-append (ground (arith, there))

  IsOff-needs_deny_rules : IsOff d r ref → needs_deny_rules (solving d r layout) ≡ true
  unfolding solving
  IsOff-needs_deny_rules (IsOff.disabled s q mem ini rule e off) =
      ground (arith, null-includes s.id r.disabled_service_ids off)
  IsOff-needs_deny_rules (IsOff.unassigned layouts c s q present known mem out rule e) =
      let there =
        unassigned_refs-service d r (blocked_terms d r) d.plan sections layouts layout c ref s q
          applied present known mem (group_name_for-none s.id layouts out) rule e in
      ground (arith, null-ref_includes ref (unassigned_refs layout) there)

  is_disabled_rule-IsOff :
      (rule : Rule)
      → IsOff d r ref
      → service_rule_reference rule ≡ some ref
      → is_disabled_rule (solving d r layout) rule ≡ true
  unfolding solving
  is_disabled_rule-IsOff rule off e =
      let found =
        reference_among-some (disabled_rule_refs d r layout) rule ref e
          (IsOff-disabled_rule_refs off) in
      rw (found, is_disabled_rule) refl

  All-member : (P : Rule → Type 0) (rs : List Rule) (rule : Rule) → All P rs → Memᴰ rule rs → P rule
  All-member P [] rule a mem = elim mem [ ]
  All-member P (x ∷ rs) rule a (Memᴰ.head here) = subst P (sym here) a.0
  All-member P (x ∷ rs) rule a (Memᴰ.tail later) = All-member P rs rule a.1 later

  service_rules-IsDenied :
      (at : ClusterLayout) (cs : List Cluster)
      → IsOff d r ref
      → All (IsDenied (solving d r layout)) (
          plan_rules (
            rewrite_sections
              (solving d r layout)
              true
              (cluster_section (codes "service-rule-clusters") at cs ∷ [])))
  unfolding rewrite_sections rewrite_section plan_rules text_eq
  service_rules-IsDenied at cs off = rw (IsOff-needs_deny_rules off) (
      All-append (IsDenied (solving d r layout)) _ []
        (denied_clusters-IsDenied (solving d r layout) cs) tt)

  -- After the rewriting of the section of service rules, with the layout that the plan was given, every
  -- rule in it has the reject group as its target whose reference is that of a rule of a disabled
  -- service with INI output, or of a service that is in none of the caller's groups.
  pub rewrite_sections-IsOff :
      (at : ClusterLayout) (cs : List Cluster) (rule : Rule)
      → IsOff d r ref
      → Memᴰ rule (
          plan_rules (
            rewrite_sections
              (solving d r layout)
              true
              (cluster_section (codes "service-rule-clusters") at cs ∷ [])))
      → service_rule_reference rule ≡ some ref
      → rule.target ≡ reject_group d
  unfolding solving
  rewrite_sections-IsOff at cs rule off mem e =
      elim (All-member (IsDenied (solving d r layout)) _ rule (service_rules-IsDenied at cs off)
        mem) [
          | inr denied ↦ denied
          | inl on ↦ absurd (ground (arith, is_disabled_rule-IsOff rule off e))
        ]
