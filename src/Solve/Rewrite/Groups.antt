-- ===== src/Solve/Rewrite/Groups.antt =====
-- What holds of every group of a plan that the loop of `solveSubconverterPlan` of worker/solver.mjs
-- has rewritten.
use rules.Base.{
  Bool, true, false, some, List, [], ◌∷◌, map, Text, codes, text_eq, includes, null, All,
  All-append, All-keep, ◌&&◌, ◌≡◌, refl, arith, Bool-cases, ◌⊎◌, inl, inr, Option-cases,
}
use rules.Plan.{
  Candidate, Group, Selector, Section, rule_section, cluster_section, group_section,
  selector_section,
}
use rules.Catalog.{Data}
use rules.Spec.Normalize.{is_true}
use rules.Solve.Names.{
  reject_group, named_group, group_reference, is_group_reference, direct_targets, plan_groups,
}
use rules.Solve.Rewrite.{
  Solving, only_reject, with_reject_first, redirect, without_direct, with_fallback, or_reject,
  selector_candidates, rewrite_selector, group_candidates, rewrite_group, selector_named,
  selectors_named, prefer_selectors, preferred_here, rewrite_section, rewrite_sections,
}

abbrev pub group_of : Selector → Group
group_of s = s.group

-- A property of the groups of the selectors.
module _ (P : Group → Type 0) where
  Selector-named :
      (name : Text) (ss : List Selector) (s : Selector)
      → All P (map group_of ss)
      → selector_named name ss ≡ some s
      → P s.group
  unfolding selector_named
  Selector-named name [] s a e = cc
  Selector-named name (q ∷ ss) s a e = elim (Option-cases (selector_named name ss)) [
    | inr (later, found) ↦ Selector-named name ss s a.1 (ground arith)
    | inl absent ↦ elim (Bool-cases (text_eq q.group.name name)) [
      | inl hit ↦ let same : q ≡ s = ground arith in rw (← same) a.0
      | inr miss ↦ absurd (ground arith)
    ]
  ]

  All-selectors_named :
      (names : List Text) (ss : List Selector)
      → All P (map group_of ss)
      → All P (map group_of (selectors_named names ss))
  unfolding selectors_named
  All-selectors_named [] ss a = tt
  All-selectors_named (n ∷ names) ss a = elim (Option-cases (selector_named n ss)) [
    | inl absent ↦ rw (absent, All, selectors_named) (All-selectors_named names ss a)
    | inr (s, found) ↦
        rw (found, All, selectors_named)
          (Selector-named n ss s a found, All-selectors_named names ss a)
  ]

  module _ (x : Solving) where
    pub All-prefer_selectors :
        (ss : List Selector)
        → All P (map group_of ss)
        → All P (map group_of (prefer_selectors x ss))
    unfolding prefer_selectors
    All-prefer_selectors ss a = elim (Bool-cases (null (preferred_here x ss))) [
      | inl nothing ↦ rw nothing a
      | inr some_here ↦ rw some_here (All-selectors_named _ ss a)
    ]

    All-rewrite_selector :
        ((g : Group) → P (record g { candidates = selector_candidates x g }))
        → (ss : List Selector) → All P (map group_of (map (rewrite_selector x) ss))
    All-rewrite_selector p [] = tt
    All-rewrite_selector p (s ∷ ss) = (p s.group, All-rewrite_selector p ss)

    All-rewrite_group :
        ((g : Group) → P (rewrite_group x g)) → (gs : List Group) → All P (map (rewrite_group x) gs)
    All-rewrite_group p [] = tt
    All-rewrite_group p (g ∷ gs) = (p g, All-rewrite_group p gs)

    -- What holds of every rewritten group and of every rewritten selector's group holds of all the
    -- groups of the rewritten plan.
    pub All-rewrite_sections :
        ((g : Group) → P (rewrite_group x g))
        → ((g : Group) → P (record g { candidates = selector_candidates x g }))
        → (ss : List Section) (first : Bool) → All P (plan_groups (rewrite_sections x first ss))
    unfolding rewrite_sections rewrite_section plan_groups
    All-rewrite_sections p q [] first = tt
    All-rewrite_sections p q (rule_section role layout rs ∷ ss) first =
        All-rewrite_sections p q ss _
    All-rewrite_sections p q (cluster_section role layout cs ∷ ss) first =
        All-rewrite_sections p q ss _
    All-rewrite_sections p q (group_section role layout gs ∷ ss) first =
        All-append P _ _ (All-rewrite_group p _) (All-rewrite_sections p q ss _)
    All-rewrite_sections p q (selector_section role layout xs ∷ ss) first =
        All-append P _ _
          (All-prefer_selectors (map (rewrite_selector x) xs) (All-rewrite_selector q xs))
          (All-rewrite_sections p q ss _)

-- The first candidate refers to the reject group.
abbrev pub RejectsFirst : Data → Group → Type 0
RejectsFirst d g =
    (rest : List Candidate) × (g.candidates ≡ group_reference (reject_group d) ∷ rest)

-- A candidate that is no reference to DIRECT or the direct group.
abbrev pub NotDirect : Data → Candidate → Type 0
NotDirect d c = (is_group_reference c && includes c.value (direct_targets d)) ≡ false

-- The groups that stand in for direct traffic are not the direct group.
pub record HasExits (d : Data) : Type 0 where
  pub reject : includes (reject_group d) (direct_targets d) ≡ false
  pub auto : includes (named_group d (codes "auto")) (direct_targets d) ≡ false
  pub plain_reject : includes (named_group d (codes "reject")) (direct_targets d) ≡ false
  pub manual : includes (named_group d (codes "manual")) (direct_targets d) ≡ false

module _ (x : Solving) where
  with_reject_first_closed :
      (cs : List Candidate)
      → x.resolved.fail_closed ≡ some true
      → (rest : List Candidate) × (with_reject_first x cs
          ≡ group_reference (reject_group x.catalog) ∷ rest)
  unfolding with_reject_first
  with_reject_first_closed cs h = rw h (_, refl)

  pub rewrite_group-RejectsFirst :
      x.resolved.fail_closed ≡ some true → (g : Group) → RejectsFirst x.catalog (rewrite_group x g)
  unfolding rewrite_group group_candidates
  rewrite_group-RejectsFirst h g = with_reject_first_closed _ h

  pub selector_candidates-RejectsFirst :
      x.resolved.fail_closed ≡ some true
      → (g : Group) → RejectsFirst x.catalog (record g { candidates = selector_candidates x g })
  unfolding selector_candidates
  selector_candidates-RejectsFirst h g = elim (Bool-cases (includes g.name x.disabled_groups)) [
    | inl disabled ↦ rw disabled ([], refl)
    | inr enabled ↦ rw enabled (with_reject_first_closed _ h)
  ]

  module _ (exits : HasExits x.catalog) (h : x.resolved.allow_direct ≡ some false) where
    All-redirect : (cs : List Candidate) → All (NotDirect x.catalog) (map (redirect x) cs)
    All-redirect [] = tt
    All-redirect (c ∷ cs) = (
      elim (Bool-cases (is_group_reference c && includes c.value (direct_targets x.catalog))) [
        | inl is_direct ↦ rw is_direct (rw exits.reject (ground arith))
        | inr other ↦ rw other other
      ],
      All-redirect cs,
    )

    only_reject-NotDirect : All (NotDirect x.catalog) (only_reject x)
    only_reject-NotDirect = (rw exits.reject (ground arith), tt)

    without_direct-NotDirect :
        (name : Text) (cs : List Candidate) → All (NotDirect x.catalog) (without_direct x name cs)
    unfolding without_direct
    without_direct-NotDirect name cs =
        rw h (elim (Bool-cases (text_eq name (named_group x.catalog (codes "direct")))) [
          | inl is_direct ↦ rw is_direct only_reject-NotDirect
          | inr other ↦ rw other (All-redirect cs)
        ])

    with_fallback-NotDirect :
        (name : Text) (cs : List Candidate)
        → All (NotDirect x.catalog) cs
        → All (NotDirect x.catalog) (with_fallback x name cs)
    unfolding with_fallback
    with_fallback-NotDirect name cs a = elim (Option-cases x.resolved.fail_closed) [
      | inl unset ↦ rw (unset, All, with_fallback) a
      | inr (closed, set) ↦
          elim (Bool-cases (text_eq name (named_group x.catalog (codes "fallback")))) [
            | inr other ↦ rw (set, All, with_fallback) (rw other a)
            | inl fallback ↦ elim (Bool-cases closed) [
              | inl on ↦ rw (set, All, with_fallback) (rw fallback (rw on only_reject-NotDirect))
              | inr off ↦
                  rw (set, All, with_fallback)
                    (rw fallback (rw off (rw exits.auto (ground arith), tt)))
            ]
          ]
    ]

    or_reject-NotDirect :
        (cs : List Candidate)
        → All (NotDirect x.catalog) cs
        → All (NotDirect x.catalog) (or_reject x cs)
    unfolding or_reject
    or_reject-NotDirect [] a = only_reject-NotDirect
    or_reject-NotDirect (c ∷ cs) a = a

    with_reject_first-NotDirect :
        (cs : List Candidate)
        → All (NotDirect x.catalog) cs
        → All (NotDirect x.catalog) (with_reject_first x cs)
    unfolding with_reject_first
    with_reject_first-NotDirect cs a = elim (Bool-cases (is_true x.resolved.fail_closed)) [
      | inl closed ↦ rw closed (only_reject-NotDirect.0, All-keep (NotDirect x.catalog) _ cs a)
      | inr open' ↦ rw open' a
    ]

    pub rewrite_group-NotDirect :
        (g : Group) → All (NotDirect x.catalog) (rewrite_group x g).candidates
    unfolding rewrite_group group_candidates
    rewrite_group-NotDirect g = with_reject_first-NotDirect _ (
        or_reject-NotDirect _
          (with_fallback-NotDirect g.name _ (without_direct-NotDirect g.name _)))

    pub selector_candidates-NotDirect :
        (g : Group) → All (NotDirect x.catalog) (selector_candidates x g)
    unfolding selector_candidates
    selector_candidates-NotDirect g = elim (Bool-cases (includes g.name x.disabled_groups)) [
      | inl disabled ↦ rw disabled only_reject-NotDirect
      | inr enabled ↦ rw enabled (with_reject_first-NotDirect _ (without_direct-NotDirect g.name _))
    ]

    -- The candidates are references, or the group is another than the direct group.
    abbrev pub IsEmptied : Group → Type 0
    IsEmptied g =
        (text_eq g.name (named_group x.catalog (codes "direct")) ≡ false)
        ⊎ All (λ c. is_group_reference c ≡ true) g.candidates

    only_reject-references : All (λ c. is_group_reference c ≡ true) (only_reject x)
    unfolding text_eq
    only_reject-references = (refl, tt)

    with_reject_first-references :
        (cs : List Candidate)
        → All (λ c. is_group_reference c ≡ true) cs
        → All (λ c. is_group_reference c ≡ true) (with_reject_first x cs)
    unfolding with_reject_first
    with_reject_first-references cs a = elim (Bool-cases (is_true x.resolved.fail_closed)) [
      | inl closed ↦
          rw closed (only_reject-references.0, All-keep (λ c. is_group_reference c ≡ true) _ cs a)
      | inr open' ↦ rw open' a
    ]

    with_fallback-references :
        (name : Text) (cs : List Candidate)
        → All (λ c. is_group_reference c ≡ true) cs
        → All (λ c. is_group_reference c ≡ true) (with_fallback x name cs)
    unfolding with_fallback text_eq
    with_fallback-references name cs a = elim (Option-cases x.resolved.fail_closed) [
      | inl unset ↦ rw (unset, All, with_fallback) a
      | inr (closed, set) ↦
          elim (Bool-cases (text_eq name (named_group x.catalog (codes "fallback")))) [
            | inr other ↦ rw (set, All, with_fallback) (rw other a)
            | inl fallback ↦ rw (set, All, with_fallback) (rw fallback (refl, tt))
          ]
    ]

    or_reject-references :
        (cs : List Candidate)
        → All (λ c. is_group_reference c ≡ true) cs
        → All (λ c. is_group_reference c ≡ true) (or_reject x cs)
    unfolding or_reject
    or_reject-references [] a = only_reject-references
    or_reject-references (c ∷ cs) a = a

    without_direct_emptied :
        (name : Text) (cs : List Candidate)
        → text_eq name (named_group x.catalog (codes "direct")) ≡ true
        → All (λ c. is_group_reference c ≡ true) (without_direct x name cs)
    unfolding without_direct
    without_direct_emptied name cs is_direct = rw h (rw is_direct only_reject-references)

    pub rewrite_group-IsEmptied : (g : Group) → IsEmptied (rewrite_group x g)
    unfolding rewrite_group group_candidates
    rewrite_group-IsEmptied g =
        elim (Bool-cases (text_eq g.name (named_group x.catalog (codes "direct")))) [
          | inr other ↦ inl other
          | inl is_direct ↦ inr (
              with_reject_first-references _ (
                or_reject-references _
                  (with_fallback-references g.name _ (without_direct_emptied g.name _ is_direct))))
        ]

    pub selector_candidates-IsEmptied :
        (g : Group) → IsEmptied (record g { candidates = selector_candidates x g })
    unfolding selector_candidates
    selector_candidates-IsEmptied g =
        elim (Bool-cases (text_eq g.name (named_group x.catalog (codes "direct")))) [
          | inr other ↦ inl other
          | inl is_direct ↦ inr (elim (Bool-cases (includes g.name x.disabled_groups)) [
            | inl disabled ↦ rw disabled only_reject-references
            | inr enabled ↦
                rw enabled
                  (with_reject_first-references _ (without_direct_emptied g.name _ is_direct))
          ])
        ]
