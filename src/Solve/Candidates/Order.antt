-- ===== src/Solve/Candidates/Order.antt =====
-- What `reorderCandidates` of worker/solver.mjs does to the order of the candidates.
use rules.Base.{
  insert_by, sort_by, ℕ, suc, ◌≤◌, Bool, true, Option, none, some, List, [], ◌∷◌, map, Text, leb,
  ◌==◌, if◌then◌else◌, keep, length, All, ◌≡◌, refl, ◌∙◌, arith, Bool-cases, inl, inr,
}
use rules.Plan.{Candidate}
use rules.Solve.Candidates.{
  is_region_group, rank_of, ranks_le, fill, kept_candidates, reorder_candidates,
}

keep_step :
    (p : Candidate → Bool) (c : Candidate) (xs ys : List Candidate)
    → keep p xs ≡ keep p ys
    → keep p (c ∷ xs) ≡ keep p (c ∷ ys)
unfolding keep
keep_step p c xs ys same = rw same refl

module _ (rank : Candidate → ℕ) where
  -- In ascending order of the ranks.
  abbrev pub IsSorted : List Candidate → Type 0
  IsSorted [] = Unit
  IsSorted (c ∷ cs) = All (λ d. rank c ≤ rank d) cs × IsSorted cs

  All-insert_by :
      (P : Candidate → Type 0) (c : Candidate) (ds : List Candidate)
      → P c
      → All P ds
      → All P (insert_by (ranks_le rank) c ds)
  unfolding insert_by
  All-insert_by P c [] p ps = (p, tt)
  All-insert_by P c (d ∷ ds) p ps = elim (Bool-cases (leb (rank c) (rank d))) [
    | inl first ↦ rw first (p, ps)
    | inr later ↦ rw later (ps.0, All-insert_by P c ds p ps.1)
  ]

  pub All-sort_by :
      (P : Candidate → Type 0) (cs : List Candidate) → All P cs → All P (sort_by (ranks_le rank) cs)
  unfolding sort_by
  All-sort_by P [] ps = tt
  All-sort_by P (c ∷ cs) ps =
      All-insert_by P c (sort_by (ranks_le rank) cs) ps.0 (All-sort_by P cs ps.1)

  All-le :
      (a b : ℕ) (ds : List Candidate) → a ≤ b → All (λ d. b ≤ rank d) ds → All (λ d. a ≤ rank d) ds
  All-le a b [] h ps = tt
  All-le a b (d ∷ ds) h ps = (omega arith, All-le a b ds h ps.1)

  insert_by-IsSorted :
      (c : Candidate) (ds : List Candidate)
      → IsSorted ds
      → IsSorted (insert_by (ranks_le rank) c ds)
  unfolding insert_by
  insert_by-IsSorted c [] s = (tt, tt)
  insert_by-IsSorted c (d ∷ ds) s = elim (Bool-cases (leb (rank c) (rank d))) [
    | inl first ↦
        let le : rank c ≤ rank d = ground arith in
        rw first ((le, All-le (rank c) (rank d) ds le s.0), s)
    | inr later ↦
        rw later (
          All-insert_by (λ x. rank d ≤ rank x) c ds (ground arith) s.0,
          insert_by-IsSorted c ds s.1,
        )
  ]

  sort_by-IsSorted : (cs : List Candidate) → IsSorted (sort_by (ranks_le rank) cs)
  unfolding sort_by
  sort_by-IsSorted [] = tt
  sort_by-IsSorted (c ∷ cs) =
      insert_by-IsSorted c (sort_by (ranks_le rank) cs) (sort_by-IsSorted cs)

  keep-insert_by :
      (k : ℕ) (c : Candidate) (ds : List Candidate)
      → keep (λ x. rank x == k) (insert_by (ranks_le rank) c ds) ≡ keep (λ x. rank x == k) (c ∷ ds)
  unfolding insert_by keep
  keep-insert_by k c [] = refl
  keep-insert_by k c (d ∷ ds) = ground (arith, keep-insert_by k c ds)

  keep-sort_by :
      (k : ℕ) (cs : List Candidate)
      → keep (λ x. rank x == k) (sort_by (ranks_le rank) cs) ≡ keep (λ x. rank x == k) cs
  unfolding sort_by
  keep-sort_by k [] = refl
  keep-sort_by k (c ∷ cs) =
      keep-insert_by k c (sort_by (ranks_le rank) cs)
      ∙ keep_step (λ x. rank x == k) c (sort_by (ranks_le rank) cs) cs (keep-sort_by k cs)

  length-insert_by :
      (c : Candidate) (ds : List Candidate)
      → length (insert_by (ranks_le rank) c ds) ≡ suc (length ds)
  unfolding insert_by
  length-insert_by c [] = refl
  length-insert_by c (d ∷ ds) = ground (arith, length-insert_by c ds)

  length-sort_by : (cs : List Candidate) → length (sort_by (ranks_le rank) cs) ≡ length cs
  unfolding sort_by
  length-sort_by [] = refl
  length-sort_by (c ∷ cs) =
      omega (arith, length-insert_by c (sort_by (ranks_le rank) cs), length-sort_by cs)

-- A list in which the elements that a test selects are blanked out.
abbrev pub blank : (Candidate → Bool) → Candidate → Option Candidate
blank test c = if test c then none else some c

module _ (test : Candidate → Bool) where
  All-keep : (cs : List Candidate) → All (λ c. test c ≡ true) (keep test cs)
  unfolding keep
  All-keep [] = tt
  All-keep (c ∷ cs) = elim (Bool-cases (test c)) [
    | inl hit ↦ rw hit (hit, All-keep cs)
    | inr miss ↦ rw miss (All-keep cs)
  ]

  -- As many sorted elements as the test selects fill their places, and nothing else changes.
  fill-places :
      (cs sorted : List Candidate)
      → length sorted ≡ length (keep test cs)
      → All (λ c. test c ≡ true) sorted
      → (out : List Candidate) × (fill test cs sorted ≡ map some out)
        × (keep test out ≡ sorted)
        × (map (blank test) out ≡ map (blank test) cs)
  unfolding fill keep
  fill-places [] [] same ps = ([], refl, refl, refl)
  fill-places [] (d ∷ ds) same ps = absurd (omega arith)
  fill-places (c ∷ cs) [] same ps = elim (Bool-cases (test c)) [
    | inl hit ↦ absurd (ground arith)
    | inr miss ↦
        let (out, filled, kept, blanked) = fill-places cs [] (ground arith) tt in
        (c ∷ out, rw (miss, filled) refl, rw (miss, kept) refl, rw (miss, blanked) refl)
  ]
  fill-places (c ∷ cs) (d ∷ ds) same ps = elim (Bool-cases (test c)) [
    | inl hit ↦
        let (out, filled, kept, blanked) = fill-places cs ds (ground arith) ps.1 in
        (d ∷ out, rw (hit, filled) refl, rw (ps.0, kept) refl, rw (hit, ps.0, blanked) refl)
    | inr miss ↦
        let (out, filled, kept, blanked) = fill-places cs (d ∷ ds) (ground arith) ps in
        (c ∷ out, rw (miss, filled) refl, rw (miss, kept) refl, rw (miss, blanked) refl)
  ]

-- The reordered candidates `out` of the candidates that are not removed: what is no region group
-- keeps its place, the region groups are in ascending order of rank, and those of one rank are the
-- same and in the same order as before.
pub record IsReordered (group_to_region : List (Text × Text)) (active : List Text)
    (filtered out : List Candidate) : Type 0 where
  pub others_stay :
      map (blank (is_region_group group_to_region)) out
      ≡ map (blank (is_region_group group_to_region)) filtered
  pub sorted :
      IsSorted (rank_of group_to_region active) (keep (is_region_group group_to_region) out)
  pub stable :
      (k : ℕ)
      → keep
          (λ c. rank_of group_to_region active c == k)
          (keep (is_region_group group_to_region) out)
        ≡ keep
            (λ c. rank_of group_to_region active c == k)
            (keep (is_region_group group_to_region) filtered)

-- Reordering gives no `undefined`: its entries are candidates, the removed groups are left out, what
-- is no region group keeps its place, and the region groups are sorted stably by their region's rank.
pub reorder_candidates-IsReordered :
    (candidates : List Candidate) (group_to_region : List (Text × Text))
    (active removed : List Text)
    → (out : List Candidate) × (reorder_candidates candidates group_to_region active removed
        ≡ map some out)
      × IsReordered group_to_region active (kept_candidates removed candidates) out
unfolding reorder_candidates
reorder_candidates-IsReordered candidates group_to_region active removed =
    let test = is_region_group group_to_region in
    let rank = rank_of group_to_region active in
    let filtered = kept_candidates removed candidates in
    let chosen = keep test filtered in
    let (out, filled, kept, blanked) =
      fill-places test filtered (sort_by (ranks_le rank) chosen) (length-sort_by rank chosen)
        (All-sort_by rank (λ c. test c ≡ true) chosen (All-keep test filtered)) in
    (
      out,
      filled,
      record {
        others_stay = blanked;
        sorted = rw kept (sort_by-IsSorted rank chosen);
        stable = λ k. rw kept (keep-sort_by rank k chosen);
      },
    )
