-- ===== src/Options/Agreement.antt =====
-- worker/profile_options.mjs agrees with worker/solver.mjs: what a YAML profile and an INI plan get
-- for the same specification.
use rules.Base.{
  Bool, false, not, ◌&&◌, Option, none, some, List, [], ◌∷◌, ◌++◌, map, Text, codes, text_eq,
  includes, is_empty, null, dedupe, All, All-keep, get_or, is_some, keep, sort_by, insert_by,
  if◌then◌else◌, Result, ok, err, ◌>>=◌, map_result, Bool-cases, inl, inr, ◌≡◌, refl, ap, ◌∙◌,
}
use mathlib.Core.Path.{fun_ext}
use rules.Plan.{Candidate}
use rules.Catalog.{GroupEntry, Data}
use rules.Spec.Error.{Error}
use rules.Spec.Groups.{ServiceGroup}
use rules.Region.{lookup}
use rules.Solve.Names.{reject_group, group_reference}
use rules.Solve.Filters.{body_of, with_lookahead, negative_filter, positive_filter}
use rules.Solve.Candidates.{
  inherited_names, is_region_group, rank_of, ranks_le, fill, kept_candidates, reorder_candidates,
}
use rules.Solve.ServiceGroups.{
  route_target, routed_name, reject_first, routed, service_group_candidates,
}
use rules.Spec.Saved.{option_map}
use rules.Options.{
  normalized_pattern, pattern_end, yaml_negative_filter, yaml_positive_filter, is_region_choice,
  choice_rank, reorder_choices, route_choice, checked_choice, service_group_route_choices,
}

-- The end that the INI solver gives a pattern.
pattern_end-agrees :
    (existing : Option Text)
    → is_empty (normalized_pattern existing) ≡ is_empty (get_or existing [])
    → pattern_end (normalized_pattern existing) ≡ (elim existing [
      | none ↦ codes ".*$"
      | some pattern ↦
          if is_empty pattern then codes ".*$" else codes "(?:" ++ (body_of pattern ++ codes ")$")
    ])
unfolding pattern_end normalized_pattern body_of
pattern_end-agrees none h = rw h refl
pattern_end-agrees (some pattern) h = rw h refl

-- Both modules narrow a filter to the same pattern, unless the filter is a pattern that is empty
-- without its flag and its anchors.
pub filters_agree :
    (existing : Option Text) (terms : List Text)
    → is_empty (normalized_pattern existing) ≡ is_empty (get_or existing [])
    → (yaml_negative_filter existing terms ≡ negative_filter existing terms)
      × (yaml_positive_filter existing terms ≡ positive_filter existing terms)
unfolding yaml_negative_filter yaml_positive_filter negative_filter positive_filter with_lookahead
filters_agree existing [] h = (refl, refl)
filters_agree existing (t ∷ ts) h =
    (rw (pattern_end-agrees existing h) refl, rw (pattern_end-agrees existing h) refl)

module _ {ℓ κ} {A : Type ℓ} {B : Type κ} (f : A → B) where
  keep-map : (p : B → Bool) (xs : List A) → keep p (map f xs) ≡ map f (keep (λ x. p (f x)) xs)
  unfolding keep
  keep-map p [] = refl
  keep-map p (x ∷ xs) = elim (Bool-cases (p (f x))) [
    | inl hit ↦ rw hit (ap (λ l. f x ∷ l) (keep-map p xs))
    | inr miss ↦ rw miss (keep-map p xs)
  ]

  insert_by-map :
      (le : B → B → Bool) (x : A) (ys : List A)
      → insert_by le (f x) (map f ys) ≡ map f (insert_by (λ a b. le (f a) (f b)) x ys)
  unfolding insert_by
  insert_by-map le x [] = refl
  insert_by-map le x (y ∷ ys) = elim (Bool-cases (le (f x) (f y))) [
    | inl hit ↦ rw hit refl
    | inr miss ↦ rw miss (ap (λ l. f y ∷ l) (insert_by-map le x ys))
  ]

  sort_by-map :
      (le : B → B → Bool) (xs : List A)
      → sort_by le (map f xs) ≡ map f (sort_by (λ a b. le (f a) (f b)) xs)
  unfolding sort_by
  sort_by-map le [] = refl
  sort_by-map le (x ∷ xs) =
      ap (insert_by le (f x)) (sort_by-map le xs)
      ∙ insert_by-map le x (sort_by (λ a b. le (f a) (f b)) xs)

  fill-map :
      (p : B → Bool) (xs ys : List A)
      → fill p (map f xs) (map f ys) ≡ map (option_map f) (fill (λ x. p (f x)) xs ys)
  unfolding fill
  fill-map p [] ys = refl
  fill-map p (x ∷ xs) [] = elim (Bool-cases (p (f x))) [
    | inl hit ↦ rw hit (ap (λ l. none ∷ l) (fill-map p xs []))
    | inr miss ↦ rw miss (ap (λ l. some (f x) ∷ l) (fill-map p xs []))
  ]
  fill-map p (x ∷ xs) (y ∷ ys) = elim (Bool-cases (p (f x))) [
    | inl hit ↦ rw hit (ap (λ l. some (f y) ∷ l) (fill-map p xs ys))
    | inr miss ↦ rw miss (ap (λ l. some (f x) ∷ l) (fill-map p xs (y ∷ ys)))
  ]

  sorted_fill-map :
      (test : B → Bool) (le : B → B → Bool) (xs : List A)
      → fill test (map f xs) (sort_by le (keep test (map f xs)))
        ≡ map (option_map f) (
            fill (λ x. test (f x)) xs (sort_by (λ a b. le (f a) (f b)) (keep (λ x. test (f x)) xs)))
  sorted_fill-map test le xs =
      ap (λ l. fill test (map f xs) (sort_by le l)) (keep-map test xs)
      ∙ (ap (fill test (map f xs)) (sort_by-map le (keep (λ x. test (f x)) xs))
          ∙ fill-map test xs (sort_by (λ a b. le (f a) (f b)) (keep (λ x. test (f x)) xs)))

-- No group stands for a region without a name.
abbrev pub HasRegions : List (Text × Text) → Type 0
HasRegions m = All (λ (e : Text × Text). is_empty e.1 ≡ false) m

-- No name is one that every object inherits.
abbrev pub HasNoInherited : List Text → Type 0
HasNoInherited names = All (λ n. includes n inherited_names ≡ false) names

-- The tests of the two modules on a name whose entry is looked up.
entry_tests-agree :
    (m : List (Text × Text)) (x : Text)
    → HasRegions m
    → includes x inherited_names ≡ false
    → (elim (lookup x m) [
      | some region ↦ not (is_empty region)
      | none ↦ includes x inherited_names
    ])
      ≡ is_some (lookup x m)
unfolding lookup
entry_tests-agree [] x h own = own
entry_tests-agree ((k, v) ∷ m) x h own = elim (Bool-cases (text_eq k x)) [
  | inl hit ↦ rw (hit, lookup) (rw h.0 refl)
  | inr miss ↦ rw (miss, lookup) (entry_tests-agree m x h.1 own)
]

region_tests-agree :
    (m : List (Text × Text)) (names : List Text)
    → HasRegions m
    → HasNoInherited names
    → All (λ x. is_region_group m (group_reference x) ≡ is_region_choice m x) names
unfolding is_region_group text_eq
region_tests-agree m [] h own = tt
region_tests-agree m (x ∷ xs) h own =
    (entry_tests-agree m x h own.0, region_tests-agree m xs h own.1)

-- Tests that agree on a list select the same of it.
module _ (p q : Text → Bool) where
  keep-same : (xs : List Text) → All (λ x. p x ≡ q x) xs → keep p xs ≡ keep q xs
  unfolding keep
  keep-same [] same = refl
  keep-same (x ∷ xs) same = rw same.0 (rw (keep-same xs same.1) refl)

  fill-same : (xs ys : List Text) → All (λ x. p x ≡ q x) xs → fill p xs ys ≡ fill q xs ys
  unfolding fill
  fill-same [] ys same = refl
  fill-same (x ∷ xs) [] same = rw same.0 (rw (fill-same xs [] same.1) refl)
  fill-same (x ∷ xs) (y ∷ ys) same =
      rw same.0 (rw (fill-same xs ys same.1) (rw (fill-same xs (y ∷ ys) same.1) refl))

-- Both modules put the groups of regions in the same order: candidates that are all references to
-- groups are reordered like their names, if no group stands for a region without a name, and no name
-- is one that every object inherits.
pub reorder_agrees :
    (names : List Text) (m : List (Text × Text)) (active removed : List Text)
    → HasRegions m
    → HasNoInherited names
    → reorder_candidates (map group_reference names) m active removed
      ≡ map (option_map group_reference) (reorder_choices names m active removed)
unfolding reorder_candidates reorder_choices kept_candidates rank_of choice_rank text_eq
reorder_agrees names m active removed h own =
    let kept : List Text = keep (λ c. not (includes c removed)) names in
    let le : Candidate → Candidate → Bool = ranks_le (rank_of m active) in
    let test : Candidate → Bool = is_region_group m in
    let p : Text → Bool = λ x. test (group_reference x) in
    let q : Text → Bool = is_region_choice m in
    let sorted : List Text → List Text =
      sort_by (λ a b. le (group_reference a) (group_reference b)) in
    let same : All (λ x. p x ≡ q x) kept =
      region_tests-agree m kept h
        (All-keep (λ n. includes n inherited_names ≡ false) _ names own) in
    ap (λ l. fill test l (sort_by le (keep test l)))
      (keep-map group_reference
        (λ c. not (text_eq c.kind (codes "group-ref") && includes c.value removed)) names)
    ∙ (sorted_fill-map group_reference test le kept
        ∙ ap (map (option_map group_reference)) (
            fill-same p q kept (sorted (keep p kept)) same
            ∙ ap (λ l. fill q kept (sorted l)) (keep-same p q kept same)))

route_choice-agrees :
    (d : Data) (source : List (Text × GroupEntry)) (ids : List Text) (route : Text)
    → route_choice d source ids route ≡ route_target d source ids route
unfolding route_choice route_target
route_choice-agrees d source [] route = elim (Bool-cases (text_eq route (codes "default"))) [
  | inl default ↦ rw default refl
  | inr other ↦ rw other refl
]
route_choice-agrees d source (id ∷ ids) route = refl

checked_choice-agrees : (o : Option Text) → checked_choice o ≡ routed_name o
unfolding checked_choice routed_name
checked_choice-agrees none = refl
checked_choice-agrees (some t) = refl

abbrev guarded_choices : Data → Bool → List Text → List Text
guarded_choices d guarded choices =
    if guarded
    then reject_group d ∷ keep (λ choice. not (text_eq choice (reject_group d))) (dedupe choices)
    else dedupe choices

choices_of :
    (d : Data) (guarded : Bool) (m : Result Error (List Text))
    → ((m >>= λ choices. ok (guarded_choices d guarded choices)) >>= λ names.
        ok (map group_reference names))
      ≡ (m >>= λ names. ok (map group_reference (guarded_choices d guarded names)))
choices_of d guarded (err e) = refl
choices_of d guarded (ok names) = refl

-- A custom service group has the same choices in a YAML profile, as names, as it has in an INI plan,
-- as references, and is refused by both modules or by neither.
pub service_group_choices_agree :
    (d : Data) (source : List (Text × GroupEntry)) (guarded : Bool) (layout : ServiceGroup)
    → (service_group_route_choices d source guarded layout >>= λ names.
        ok (map group_reference names))
      ≡ service_group_candidates d source guarded layout
unfolding service_group_route_choices service_group_candidates reject_first
service_group_choices_agree d source guarded layout =
    let same_choices : map_result checked_choice (
          if null layout.routes
          then some (reject_group d) ∷ []
          else map (route_choice d source layout.service_ids) layout.routes)
        ≡ map_result routed_name (routed d source layout) =
      ap
        (λ (f : Text → Option Text).
          map_result checked_choice
            (if null layout.routes then some (reject_group d) ∷ [] else map f layout.routes))
        (fun_ext (route_choice-agrees d source layout.service_ids))
      ∙ ap (λ (f : Option Text → Result Error Text). map_result f (routed d source layout))
          (fun_ext checked_choice-agrees) in
    ap
      (λ (m : Result Error (List Text)).
        (m >>= λ choices. ok (guarded_choices d guarded choices)) >>= λ names.
        ok (map group_reference names))
      same_choices
    ∙ choices_of d guarded (map_result routed_name (routed d source layout))
