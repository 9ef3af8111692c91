-- ===== src/Solve/Candidates.antt =====
-- `reorderCandidates` of worker/solver.mjs: the region groups among the candidates of a proxy group
-- are put in the order of the active regions.
pub mod Order
use rules.Base.{
  sort_by, ℕ, suc, Bool, true, false, not, ◌&&◌, Option, none, some, List, [], ◌∷◌, Text, codes,
  text_eq, includes, is_empty, leb, if◌then◌else◌, keep, get_or,
}
use rules.Plan.{Candidate}
use rules.Region.{lookup}

-- The names that an object inherits from `Object.prototype`, all with a truthy value that is no text.
abbrev pub inherited_names : List Text
inherited_names =
    codes "constructor"
    ∷ codes "__defineGetter__"
    ∷ codes "__defineSetter__"
    ∷ codes "hasOwnProperty"
    ∷ codes "__lookupGetter__"
    ∷ codes "__lookupSetter__"
    ∷ codes "isPrototypeOf"
    ∷ codes "propertyIsEnumerable"
    ∷ codes "toString"
    ∷ codes "valueOf"
    ∷ codes "__proto__"
    ∷ codes "toLocaleString"
    ∷ []

-- `candidate.kind === "group-ref" && groupToRegion[candidate.value]`; the object is a list of its own
-- entries, and a name without one may be inherited.
unfoldable pub is_region_group : List (Text × Text) → Candidate → Bool
is_region_group group_to_region c =
    text_eq c.kind (codes "group-ref") && (elim (lookup c.value group_to_region) [
      | some region ↦ not (is_empty region)
      | none ↦ includes c.value inherited_names
    ])

-- The map from regions to indices: of a region that stands twice, the last index.
unfoldable pub rank_from : ℕ → List Text → Text → Option ℕ
rank_from index [] region = none
rank_from index (r ∷ rs) region = elim (rank_from (suc index) rs region) [
  | some later ↦ some later
  | none ↦ if text_eq r region then some index else none
]

-- `rank.get(groupToRegion[candidate.value]) ?? 10000`; an inherited value is no key of `rank`
unfoldable pub rank_of : List (Text × Text) → List Text → Candidate → ℕ
rank_of group_to_region active c = elim (lookup c.value group_to_region) [
  | some region ↦ get_or (rank_from 0 active region) 10000
  | none ↦ 10000
]

-- The sign of the difference of ranks.
abbrev pub ranks_le : (Candidate → ℕ) → Candidate → Candidate → Bool
ranks_le rank c d = leb (rank c) (rank d)

-- The last `map`, with `regionCandidates` from its `index` on; `none` is an `undefined` that stands
-- where `regionCandidates` has no entry left.
unfoldable pub fill {ℓ} : {A : Type ℓ} → (A → Bool) → List A → List A → List (Option A)
fill test [] sorted = []
fill test (c ∷ cs) [] = let rest = fill test cs [] in if test c then none ∷ rest else some c ∷ rest
fill test (c ∷ cs) (d ∷ ds) =
    let after = fill test cs ds in
    let before = fill test cs (d ∷ ds) in if test c then some d ∷ after else some c ∷ before

-- `filtered`
unfoldable pub kept_candidates : List Text → List Candidate → List Candidate
kept_candidates removed candidates =
    keep (λ c. not (text_eq c.kind (codes "group-ref") && includes c.value removed)) candidates

unfoldable pub reorder_candidates :
    List Candidate → List (Text × Text) → List Text → List Text → List (Option Candidate)
reorder_candidates candidates group_to_region active removed =
    let filtered = kept_candidates removed candidates in
    let test = is_region_group group_to_region in
    fill test filtered (sort_by (ranks_le (rank_of group_to_region active)) (keep test filtered))
