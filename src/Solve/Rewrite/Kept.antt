-- ===== src/Solve/Rewrite/Kept.antt =====
-- What the loop of `solveSubconverterPlan` of worker/solver.mjs does to candidates: those that are no
-- references to groups come from the plan, unchanged.
use rules.Base.{
  Bool, true, false, ◌&&◌, List, [], ◌∷◌, ◌++◌, map, Text, codes, text_eq, includes, All,
  All-append, All-keep, if◌then◌else◌, Bool-cases, inl, inr, Option-cases,
}
use rules.Plan.{
  Candidate, Group, Selector, Section, rule_section, cluster_section, group_section,
  selector_section,
}
use rules.Spec.Normalize.{is_true, is_false}
use rules.Solve.Names.{
  named_group, group_reference, is_group_reference, direct_targets, plan_groups,
}
use rules.Solve.Candidates.{is_region_group, rank_of, fill, kept_candidates, reorder_candidates}
use rules.Solve.Candidates.Order.{All-sort_by}
use rules.Solve.Rewrite.{
  Solving, there, reordered, with_reject_first, redirect, without_direct, with_fallback, or_reject,
  is_custom, is_protected, selector_candidates, rewrite_selector, group_candidates, rewrite_group,
  rewrite_section, rewrite_sections,
}
use rules.Solve.Rewrite.Groups.{group_of, All-prefer_selectors}

-- A property of candidates that every reference to a group has.
module _ (R : Candidate → Type 0) (refs : (name : Text) → R (group_reference name)) where
  abbrev pub AllCandidates : List Group → Type 0
  AllCandidates gs = All (λ (g : Group). All R g.candidates) gs

  All-there-fill :
      (test : Candidate → Bool) (cs ds : List Candidate)
      → All R cs
      → All R ds
      → All R (there (fill test cs ds))
  unfolding there fill
  All-there-fill test [] ds a b = tt
  All-there-fill test (c ∷ cs) [] a b = elim (Bool-cases (test c)) [
    | inl hit ↦ rw hit (All-there-fill test cs [] a.1 b)
    | inr miss ↦ rw miss (a.0, All-there-fill test cs [] a.1 b)
  ]
  All-there-fill test (c ∷ cs) (d ∷ ds) a b = elim (Bool-cases (test c)) [
    | inl hit ↦ rw hit (b.0, All-there-fill test cs ds a.1 b.1)
    | inr miss ↦ rw miss (a.0, All-there-fill test cs (d ∷ ds) a.1 b)
  ]

  All-if : (b : Bool) (cs ds : List Candidate) → All R cs → All R ds → All R (if b then cs else ds)
  All-if true cs ds p q = p
  All-if false cs ds p q = q

  pub All-split :
      (gs hs : List Group) → AllCandidates (gs ++ hs) → AllCandidates gs × AllCandidates hs
  All-split [] hs a = (tt, a)
  All-split (g ∷ gs) hs a = let (here, later) = All-split gs hs a.1 in ((a.0, here), later)

  module _ (x : Solving) where
    All-reordered : (cs : List Candidate) → All R cs → All R (reordered x cs)
    unfolding reordered reorder_candidates kept_candidates
    All-reordered cs a =
        let filtered : List Candidate = kept_candidates x.removed_groups cs in
        let kept : All R filtered = All-keep R _ cs a in
        All-there-fill (is_region_group x.ordering_groups) filtered _ kept (
          All-sort_by (rank_of x.ordering_groups x.resolved.active_region_ids) R _
            (All-keep R _ filtered kept))

    All-redirect : (cs : List Candidate) → All R cs → All R (map (redirect x) cs)
    All-redirect [] a = tt
    All-redirect (c ∷ cs) a = (
      elim (Bool-cases (is_group_reference c && includes c.value (direct_targets x.catalog))) [
        | inl is_direct ↦ rw is_direct (refs _)
        | inr other ↦ rw other a.0
      ],
      All-redirect cs a.1,
    )

    All-without_direct :
        (name : Text) (cs : List Candidate) → All R cs → All R (without_direct x name cs)
    unfolding without_direct
    All-without_direct name cs a =
        All-if (is_false x.resolved.allow_direct) _ cs
          (All-if (text_eq name (named_group x.catalog (codes "direct"))) _ _ (refs _, tt)
            (All-redirect cs a))
          a

    All-with_fallback :
        (name : Text) (cs : List Candidate) → All R cs → All R (with_fallback x name cs)
    unfolding with_fallback
    All-with_fallback name cs a = elim (Option-cases x.resolved.fail_closed) [
      | inl unset ↦ rw (unset, All, with_fallback) a
      | inr (closed, set) ↦
          elim (Bool-cases (text_eq name (named_group x.catalog (codes "fallback")))) [
            | inr other ↦ rw (set, All, with_fallback) (rw other a)
            | inl fallback ↦ rw (set, All, with_fallback) (rw fallback (refs _, tt))
          ]
    ]

    All-or_reject : (cs : List Candidate) → All R cs → All R (or_reject x cs)
    unfolding or_reject
    All-or_reject [] a = (refs _, tt)
    All-or_reject (c ∷ cs) a = a

    All-with_reject_first : (cs : List Candidate) → All R cs → All R (with_reject_first x cs)
    unfolding with_reject_first
    All-with_reject_first cs a = elim (Bool-cases (is_true x.resolved.fail_closed)) [
      | inl closed ↦ rw closed (refs _, All-keep R _ cs a)
      | inr open' ↦ rw open' a
    ]

    All-group_candidates : (g : Group) → All R g.candidates → All R (group_candidates x g)
    unfolding group_candidates
    All-group_candidates g a = All-with_reject_first _ (
        All-or_reject _ (
          All-with_fallback g.name _ (
            All-without_direct g.name _ (
              All-if (includes g.name x.disabled_groups) _ _ (refs _, tt)
                (All-if (is_protected x x.layout g.name) _ _ a (All-reordered g.candidates a))))))

    All-selector_candidates : (g : Group) → All R g.candidates → All R (selector_candidates x g)
    unfolding selector_candidates
    All-selector_candidates g a =
        All-if (includes g.name x.disabled_groups) _ _ (refs _, tt)
          (All-with_reject_first _ (
            All-without_direct g.name _
              (All-if (is_custom x x.layout g.name) _ _ a (All-reordered g.candidates a))))

    All-rewritten_groups :
        (gs : List Group) → AllCandidates gs → AllCandidates (map (rewrite_group x) gs)
    unfolding rewrite_group
    All-rewritten_groups [] a = tt
    All-rewritten_groups (g ∷ gs) a = (All-group_candidates g a.0, All-rewritten_groups gs a.1)

    All-rewritten_selectors :
        (ss : List Selector)
        → AllCandidates (map group_of ss)
        → AllCandidates (map group_of (map (rewrite_selector x) ss))
    All-rewritten_selectors [] a = tt
    All-rewritten_selectors (s ∷ ss) a =
        (All-selector_candidates s.group a.0, All-rewritten_selectors ss a.1)

    -- What holds of references and of the plan's candidates holds of the rewritten plan's.
    pub AllCandidates-rewrite_sections :
        (ss : List Section) (first : Bool)
        → AllCandidates (plan_groups ss)
        → AllCandidates (plan_groups (rewrite_sections x first ss))
    unfolding rewrite_sections rewrite_section plan_groups
    AllCandidates-rewrite_sections [] first a = tt
    AllCandidates-rewrite_sections (rule_section role layout rs ∷ ss) first a =
        AllCandidates-rewrite_sections ss _ a
    AllCandidates-rewrite_sections (cluster_section role layout cs ∷ ss) first a =
        AllCandidates-rewrite_sections ss _ a
    AllCandidates-rewrite_sections (group_section role layout gs ∷ ss) first a =
        let (here, later) = All-split gs (plan_groups ss) a in
        All-append (λ (g : Group). All R g.candidates) _ _
          (All-rewritten_groups _ (All-keep (λ (g : Group). All R g.candidates) _ gs here))
          (AllCandidates-rewrite_sections ss _ later)
    AllCandidates-rewrite_sections (selector_section role layout xs ∷ ss) first a =
        let (here, later) = All-split (map group_of xs) (plan_groups ss) a in
        All-append (λ (g : Group). All R g.candidates) _ _
          (All-prefer_selectors (λ (g : Group). All R g.candidates) x (map (rewrite_selector x) xs)
            (All-rewritten_selectors xs here))
          (AllCandidates-rewrite_sections ss _ later)
