-- ===== src/Solve/ServiceGroups.antt =====
-- `serviceGroupCandidates`, `addScopedIniRegionGroups` and `applyIniServiceGroups` of
-- worker/solver.mjs: a custom layout of service groups is put into the plan.
use rules.Base.{
  ℕ, zero, suc, Bool, true, false, not, Option, none, some, List, [], ◌∷◌, ◌++◌, map, Text, codes,
  text_eq, includes, is_empty, if◌then◌else◌, keep, any, null, dedupe, leb, sort_by, Result, ok,
  err, ◌>>=◌, ◌>>◌, throw_if, map_result,
}
use rules.Plan.{Candidate, Group, Section, group_section}
use rules.Catalog.{Region, GroupEntry, Data}
use rules.Spec.Error.{Error}
use rules.Spec.GroupCatalog.{source_of, plan_group_names, service_route_group_name}
use rules.Spec.Groups.{ServiceGroup}
use rules.Solve.Names.{reject_group, named_group, group_reference}
use rules.Solve.Filters.{negative_filter}

-- The group that a route of a layout leads to; `none` is `undefined`.
unfoldable pub route_target : Data → List (Text × GroupEntry) → List Text → Text → Option Text
route_target d source [] route = service_route_group_name d route
route_target d source (id ∷ ids) route =
    if text_eq route (codes "default")
    then elim (source_of id source) [ none ↦ none | some e ↦ e.default_route_group ]
    else service_route_group_name d route

-- `typeof name !== "string" || !name`, else the name
unfoldable pub routed_name : Option Text → Result Error Text
routed_name none = err Error.invalid_profile_data
routed_name (some name) = if is_empty name then err Error.invalid_profile_data else ok name

-- `[reject, ...names.filter((name) => name !== reject)]`
unfoldable pub reject_first : Text → List Text → List Text
reject_first reject names = reject ∷ keep (λ n. not (text_eq n reject)) names

-- `routed`
abbrev pub routed : Data → List (Text × GroupEntry) → ServiceGroup → List (Option Text)
routed d source layout =
    if null layout.routes
    then some (reject_group d) ∷ []
    else map (route_target d source layout.service_ids) layout.routes

-- `serviceGroupCandidates`; `guarded` is `protectedGroup || failClosed === true`.
unfoldable pub service_group_candidates :
    Data → List (Text × GroupEntry) → Bool → ServiceGroup → Result Error (List Candidate)
service_group_candidates d source guarded layout = do
  names ← map_result routed_name (routed d source layout)
  let unique : List Text = dedupe names
  ok (map group_reference (if guarded then reject_first (reject_group d) unique else unique))

-- The index of a region in `data.regions` plus one, and 0 for `findIndex` of -1.
unfoldable pub region_index : List Region → Text → ℕ
region_index [] id = 0
region_index (r ∷ rs) id = elim (text_eq r.id id) [
  | true ↦ 1
  | false ↦ elim (region_index rs id) [ zero ↦ 0 | suc n ↦ suc (suc n) ]
]

unfoldable pub find_region : Text → List Region → Option Region
find_region id [] = none
find_region id (r ∷ rs) = if text_eq r.id id then some r else find_region id rs

abbrev is_regional : Section → Bool
is_regional (group_section role layout gs) = text_eq role (codes "automatic-region-groups")
is_regional _ = false

-- The group that is added for a region.
abbrev region_group_of : Data → List Text → Text → Text → Group
region_group_of d blocked name pattern = record {
  type = none;
  name = name;
  kind = some (codes "select");
  candidates = group_reference (named_group d (codes "reject")) ∷ [];
  filter_pattern = negative_filter (some pattern) blocked;
  health_check_url = none;
  interval = none;
  tolerance = none;
}

-- A region's group and pattern, if its metadata has both.
unfoldable pub region_metadata : Data → Text → Result Error (Text × Text)
region_metadata d id = elim (find_region id d.regions) [
  | none ↦ err Error.invalid_profile_data
  | some r ↦ elim r.group [
    | none ↦ err Error.invalid_profile_data
    | some name ↦ elim r.filter_pattern [
      | none ↦ err Error.invalid_profile_data
      | some pattern ↦ ok (name, pattern)
    ]
  ]
]

-- The loop of `addScopedIniRegionGroups`: `known` is the set of group names.
unfoldable pub region_additions :
    Data → List Text → Bool → List Text → List Text → Result Error (List Group)
region_additions d blocked regional known [] = ok []
region_additions d blocked regional known (id ∷ ids) = do
  metadata ← region_metadata d id
  elim (includes metadata.0 known) [
    | true ↦ region_additions d blocked regional known ids
    | false ↦ do
      throw_if (not regional) Error.invalid_profile_data
      more ← region_additions d blocked regional (metadata.0 ∷ known) ids
      ok (region_group_of d blocked metadata.0 metadata.1 ∷ more)
  ]

-- `groups.splice(otherIndex, 0, ...additions)`, at the end if there is no such group
unfoldable pub insert_before_group : Text → List Group → List Group → List Group
insert_before_group other additions [] = additions
insert_before_group other additions (g ∷ gs) =
    let rest = insert_before_group other additions gs in
    if text_eq g.name other then additions ++ (g ∷ gs) else g ∷ rest

-- The additions go into the first regional section.
unfoldable pub insert_regional : Text → List Group → List Section → List Section
insert_regional other additions [] = []
insert_regional other additions (group_section role layout gs ∷ ss) =
    let rest = insert_regional other additions ss in
    if text_eq role (codes "automatic-region-groups")
    then group_section role layout (insert_before_group other additions gs) ∷ ss
    else group_section role layout gs ∷ rest
insert_regional other additions (s ∷ ss) = s ∷ insert_regional other additions ss

-- `orderedRegionIds`
abbrev ordered_regions : Data → List Text → List Text
ordered_regions d ids =
    sort_by (λ a b. leb (region_index d.regions a) (region_index d.regions b)) (dedupe ids)

unfoldable pub add_scoped_ini_region_groups :
    Data → List Text → List Text → List Section → Result Error (List Section)
add_scoped_ini_region_groups d blocked ids plan = do
  additions ←
      region_additions d blocked (any is_regional plan) (plan_group_names plan)
        (ordered_regions d ids)
  ok (if null additions then plan else insert_regional d.other_region_group additions plan)
