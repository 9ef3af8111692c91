-- ===== src/Render/Direct.antt =====
-- How the candidates of a solved plan are printed by worker/render.mjs where direct traffic is off.
use mathlib.Core.List.{append-nil, Memᴰ}
use rules.Base.{
  Bool, true, false, some, List, [], ◌∷◌, ◌++◌, map, Text, codes, text_eq, includes, flat, All, ok,
  ◌≡◌, refl, sym, ap, subst, ◌∙◌, arith, Bool-cases, ◌⊎◌, inl, inr,
}
use rules.Plan.{Candidate, Group, Section}
use rules.Catalog.{Data}
use rules.Resolve.{Resolved}
use rules.Solve.Names.{
  named_group, group_reference, is_group_reference, direct_targets, plan_groups,
}
use rules.Solve.Layout.Groups.{apply_ini_service_groups-All}
use rules.Solve.Rewrite.Groups.{NotDirect, HasExits}
use rules.Solve.Rewrite.Kept.{AllCandidates-rewrite_sections}
use rules.Solve.Subconverter.{blocked_terms, solving, solve_plan}
use rules.Solve.Subconverter.Groups.{
  solve_plan-Run, solve_plan-NotDirect, solve_plan-IsEmptied, same_groups,
}
use rules.Render.{render_candidate}

-- The choices of DIRECT and of the direct group, as they are printed.
abbrev pub direct_choices : Data → List Text
direct_choices d = map (λ t. flat (codes "[]" ∷ t ∷ [])) (direct_targets d)

abbrev pub prints_direct : Data → Candidate → Bool
prints_direct d c = includes (render_candidate c) (direct_choices d)

abbrev pub candidates_of_groups : List Group → List Candidate
candidates_of_groups [] = []
candidates_of_groups (g ∷ gs) = g.candidates ++ candidates_of_groups gs

-- The candidates of the groups and selectors of the catalog's plan.
abbrev pub catalog_candidates : Data → List Candidate
catalog_candidates d = candidates_of_groups (plan_groups d.plan)

-- No candidate of the group is printed as a direct choice, but for texts of the catalog's plan, which
-- are no references, in a group that is not the direct group.
abbrev pub LosesDirect : Data → Group → Type 0
LosesDirect d g =
    All
      (λ c.
        (prints_direct d c ≡ false)
        ⊎ ((is_group_reference c ≡ false)
            × (text_eq g.name (named_group d (codes "direct")) ≡ false)
            × Memᴰ c (catalog_candidates d)))
      g.candidates

-- A reference is printed as a direct choice exactly if it is one.
reference-prints_direct :
    (d : Data) (c : Candidate)
    → is_group_reference c ≡ true
    → prints_direct d c ≡ includes c.value (direct_targets d)
unfolding render_candidate flat includes text_eq
reference-prints_direct d c h =
    rw h (rw (append-nil c.value) (rw (append-nil (named_group d (codes "direct"))) refl))

-- A candidate is a reference, or it is in a list.
abbrev IsKept : List Candidate → Candidate → Type 0
IsKept cs c = (is_group_reference c ≡ true) ⊎ Memᴰ c cs

Memᴰ-left : (c : Candidate) (xs ys : List Candidate) → Memᴰ c xs → Memᴰ c (xs ++ ys)
Memᴰ-left c [] ys m = elim m [ ]
Memᴰ-left c (x ∷ xs) ys (Memᴰ.head e) = Memᴰ.head e
Memᴰ-left c (x ∷ xs) ys (Memᴰ.tail m) = Memᴰ.tail (Memᴰ-left c xs ys m)

Memᴰ-right : (c : Candidate) (xs ys : List Candidate) → Memᴰ c ys → Memᴰ c (xs ++ ys)
Memᴰ-right c [] ys m = m
Memᴰ-right c (x ∷ xs) ys m = Memᴰ.tail (Memᴰ-right c xs ys m)

-- Each candidate of a list that is part of another is in that one.
candidates-IsKept :
    (cs whole : List Candidate)
    → ((c : Candidate) → Memᴰ c cs → Memᴰ c whole)
    → All (IsKept whole) cs
candidates-IsKept [] whole sub = tt
candidates-IsKept (c ∷ cs) whole sub =
    (inr (sub c (Memᴰ.head refl)), candidates-IsKept cs whole (λ x m. sub x (Memᴰ.tail m)))

groups-IsKept :
    (gs : List Group) (whole : List Candidate)
    → ((c : Candidate) → Memᴰ c (candidates_of_groups gs) → Memᴰ c whole)
    → All (λ (g : Group). All (IsKept whole) g.candidates) gs
groups-IsKept [] whole sub = tt
groups-IsKept (g ∷ gs) whole sub = (
  candidates-IsKept g.candidates whole
      (λ c m. sub c (Memᴰ-left c g.candidates (candidates_of_groups gs) m)),
  groups-IsKept gs whole (λ c m. sub c (Memᴰ-right c g.candidates (candidates_of_groups gs) m)),
)

reference-IsKept : (cs : List Candidate) (name : Text) → IsKept cs (group_reference name)
unfolding text_eq
reference-IsKept cs name = inl refl

-- A candidate of a group that is not the direct group, kept and no reference to a direct group.
kept-LosesDirect :
    (d : Data) (name : Text) (cs : List Candidate)
    → text_eq name (named_group d (codes "direct")) ≡ false
    → All (IsKept (catalog_candidates d)) cs
    → All (NotDirect d) cs
    → All
        (λ c.
          (prints_direct d c ≡ false)
          ⊎ ((is_group_reference c ≡ false)
              × (text_eq name (named_group d (codes "direct")) ≡ false)
              × Memᴰ c (catalog_candidates d)))
        cs
kept-LosesDirect d name [] other kept n = tt
kept-LosesDirect d name (c ∷ cs) other kept n = (
  elim (Bool-cases (is_group_reference c)) [
    | inl reference ↦ inl (ground (arith, reference-prints_direct d c reference, n.0))
    | inr text ↦ elim kept.0 [
      | inl reference ↦ absurd (ground arith)
      | inr mem ↦ inr (text, other, mem)
    ]
  ],
  kept-LosesDirect d name cs other kept.1 n.1,
)

-- References that lead to no direct group.
references-LosesDirect :
    (d : Data) (name : Text) (cs : List Candidate)
    → All (λ c. is_group_reference c ≡ true) cs
    → All (NotDirect d) cs
    → All
        (λ c.
          (prints_direct d c ≡ false)
          ⊎ ((is_group_reference c ≡ false)
              × (text_eq name (named_group d (codes "direct")) ≡ false)
              × Memᴰ c (catalog_candidates d)))
        cs
references-LosesDirect d name [] a n = tt
references-LosesDirect d name (c ∷ cs) a n = (
  inl (ground (arith, reference-prints_direct d c a.0, n.0)),
  references-LosesDirect d name cs a.1 n.1,
)

All-LosesDirect :
    (d : Data) (gs : List Group)
    → All
        (λ (g : Group).
          (text_eq g.name (named_group d (codes "direct")) ≡ false)
          ⊎ All (λ c. is_group_reference c ≡ true) g.candidates)
        gs
    → All (λ (g : Group). All (IsKept (catalog_candidates d)) g.candidates) gs
    → All (λ (g : Group). All (NotDirect d) g.candidates) gs
    → All (LosesDirect d) gs
All-LosesDirect d [] e a b = tt
All-LosesDirect d (g ∷ gs) e a b = (
  elim e.0 [
    | inl other ↦ kept-LosesDirect d g.name g.candidates other a.0 b.0
    | inr references ↦ references-LosesDirect d g.name g.candidates references b.0
  ],
  All-LosesDirect d gs e.1 a.1 b.1,
)

-- Each candidate of a solved plan is a reference or a candidate of the catalog's plan.
solve_plan-IsKept :
    (d : Data) (r : Resolved) (plan : List Section)
    → solve_plan d r ≡ ok plan
    → All (λ (g : Group). All (IsKept (catalog_candidates d)) g.candidates) (plan_groups plan)
solve_plan-IsKept d r plan e =
    let run = solve_plan-Run d r plan e in
    let whole : List Candidate = catalog_candidates d in
    subst (All (λ (g : Group). All (IsKept whole) g.candidates))
      (sym (same_groups d r plan e ∙ ap plan_groups run.sections))
      (AllCandidates-rewrite_sections (IsKept whole) (reference-IsKept whole)
        (solving d r run.applied.1) run.applied.0 true
        (apply_ini_service_groups-All (IsKept whole) (reference-IsKept whole) d r
          (blocked_terms d r) d.plan run.applied
          (groups-IsKept (plan_groups d.plan) whole (λ c m. m)) run.layouts))

-- In a plan that is solved without direct traffic, a candidate of a group or a selector that is printed
-- as a choice of DIRECT or of the direct group is no reference to a group, is a candidate of the
-- catalog's plan, and is not in the direct group, if the groups that stand in for direct traffic are
-- others.
pub solve_plan-LosesDirect :
    (d : Data) (r : Resolved) (plan : List Section)
    → solve_plan d r ≡ ok plan
    → HasExits d
    → r.allow_direct ≡ some false
    → All (LosesDirect d) (plan_groups plan)
solve_plan-LosesDirect d r plan e exits h =
    All-LosesDirect d (plan_groups plan) (solve_plan-IsEmptied d r plan e exits h)
      (solve_plan-IsKept d r plan e) (solve_plan-NotDirect d r plan e exits h)
