-- ===== src/Spec/GroupCatalog.antt =====
-- The service group catalog of worker/solver.mjs: `serviceGroupLimits`, `metadataServiceGroups`,
-- `serviceGroupCatalog`, `serviceRouteGroupName` and `reservedServiceGroupNames`.
use rules.Base.{
  ℕ, Bool, true, false, not, ◌&&◌, ◌||◌, Option, none, some, List, [], ◌∷◌, ◌++◌, map, Text,
  text_eq, codes, is_empty, trim, includes, dedupe, leb, ◌==◌, if◌then◌else◌, Result, ok, err,
  ◌>>=◌, ◌>>◌, keep, any, all, null, throw_if, length,
}
use rules.Plan.{Section, rule_section, cluster_section, group_section, selector_section}
use rules.Catalog.{Region, Service, GroupEntry, GroupLimits, Data}
use rules.Spec.Error.{Error}
use rules.Spec.Services.{known_services}

unfoldable pub service_group_limits : Data → Result Error GroupLimits
service_group_limits d = elim d.service_group_limits [
  | none ↦ err Error.invalid_profile_data
  | some limits ↦
      if leb 1 limits.max_groups
        && leb 1 limits.max_name_length
        && leb 1 limits.max_id_length
        && leb 1 limits.max_routes_per_group
      then ok limits
      else err Error.invalid_profile_data
]

-- `metadataServiceGroups`, of the list
unfoldable pub metadata_service_groups : List GroupEntry → Text → Text → List GroupEntry
metadata_service_groups entries format base =
    keep (λ e. text_eq e.output_format format && text_eq e.base_profile base) entries

abbrev is_alnum : ℕ → Bool
is_alnum c = (leb b'a' c && leb c b'z') || (leb b'0' c && leb c b'9')

-- `/^[a-z0-9][a-z0-9-]*$/`
unfoldable pub is_slug : Text → Bool
is_slug [] = false
is_slug (c ∷ s) = is_alnum c && all (λ x. is_alnum x || x == b'-') s

abbrev pub service_ids_of : List Service → List Text
service_ids_of = map (λ s. s.id)

abbrev pub region_ids : Data → List Text
region_ids d = map (λ (r : Region). r.id) d.regions

unfoldable pub label_of : Text → List (Text × Text) → Option Text
label_of key [] = none
label_of key ((k, v) ∷ m) = if text_eq k key then some v else label_of key m

abbrev pub labels : Data → List (Text × Text)
labels d = elim d.route_labels [ none ↦ [] | some m ↦ m ]

abbrev pub region_group : Text → List Region → Option Text
region_group route [] = none
region_group route (r ∷ rs) = if text_eq r.id route then r.group else region_group route rs

-- `serviceRouteGroupName`
unfoldable pub service_route_group_name : Data → Text → Option Text
service_route_group_name d route = elim (label_of route (labels d)) [
  | none ↦ region_group route d.regions
  | some label ↦ if is_empty label then region_group route d.regions else some label
]

-- The names that the INI plan defines: those of its groups and of its selectors' groups.
unfoldable pub plan_group_names : List Section → List Text
plan_group_names [] = []
plan_group_names (rule_section _ _ _ ∷ ss) = plan_group_names ss
plan_group_names (cluster_section _ _ _ ∷ ss) = plan_group_names ss
plan_group_names (group_section _ _ gs ∷ ss) = map (λ g. g.name) gs ++ plan_group_names ss
plan_group_names (selector_section _ _ xs ∷ ss) = map (λ x. x.group.name) xs ++ plan_group_names ss

unfoldable pub defined_group_names : Data → Text → Text → List Text
defined_group_names d format base =
    if text_eq format (codes "ini")
    then plan_group_names d.plan
    else d.output_group_names format base

-- What the loop of `serviceGroupCatalog` has collected: which entry holds a service, the protected
-- entries, the entries' names.
pub record Collected : Type 0 where
  pub source : List (Text × GroupEntry)
  pub protected_entries : List GroupEntry
  pub source_names : List Text

-- `serviceSource.get(id)`
unfoldable pub source_of : Text → List (Text × GroupEntry) → Option GroupEntry
source_of id [] = none
source_of id ((k, e) ∷ m) = if text_eq k id then some e else source_of id m

abbrev pub has_source : Text → List (Text × GroupEntry) → Bool
has_source id m = elim (source_of id m) [ none ↦ false | some e ↦ true ]

-- The loop over `entry.serviceIds`.
unfoldable pub add_members :
    List Text
    → GroupEntry
    → List Text
    → List Text
    → List (Text × GroupEntry)
    → Result Error (List (Text × GroupEntry))
add_members known entry members [] source = ok source
add_members known entry members (id ∷ ids) source =
    let more = add_members known entry (id ∷ members) ids ((id, entry) ∷ source) in
    if not (includes id known) || includes id members || has_source id source
    then err Error.invalid_profile_data
    else more

-- The test of an entry's route choices.
unfoldable pub has_bad_routes : Data → List Text → GroupEntry → Bool
has_bad_routes d defined entry =
    not (length (dedupe entry.allowed_routes) == length entry.allowed_routes)
    || not (includes (codes "reject") entry.allowed_routes)
    || any
        (λ route.
          not (includes route (map (λ l. l.0) (labels d))) && not (includes route (region_ids d)))
        entry.allowed_routes
    || any (λ route. not (includes route entry.allowed_routes)) entry.default_routes
    || any (λ route. elim (service_route_group_name d route) [ none ↦ true | some g ↦ false ])
        entry.allowed_routes
    || (includes (codes "default") entry.allowed_routes && (elim entry.default_route_group [
      | none ↦ true
      | some g ↦ is_empty g || not (includes g defined)
    ]))

-- One round of the loop over the catalog's entries.
unfoldable pub collect_entry :
    Data → List Text → List Text → Collected → GroupEntry → Result Error Collected
collect_entry d known defined c entry = do
  throw_if (not (is_slug entry.id) || is_empty (trim entry.name) || null entry.service_ids)
      Error.invalid_profile_data
  throw_if (includes entry.name c.source_names) Error.invalid_profile_data
  source ← add_members known entry [] entry.service_ids c.source
  throw_if (has_bad_routes d defined entry) Error.invalid_profile_data
  ok (record {
    source = source;
    protected_entries =
        if entry.protected then c.protected_entries ++ entry ∷ [] else c.protected_entries;
    source_names = c.source_names ++ entry.name ∷ [];
  })

unfoldable pub collect_entries :
    Data → List Text → List Text → Collected → List GroupEntry → Result Error Collected
collect_entries d known defined c [] = ok c
collect_entries d known defined c (e ∷ es) = do
  c' ← collect_entry d known defined c e
  collect_entries d known defined c' es

pub record GroupCatalog : Type 0 where
  pub entries : List GroupEntry
  pub services : List Service
  pub source : List (Text × GroupEntry)
  pub protected_entry : GroupEntry
  pub source_names : List Text

abbrev pub is_text : Option Text → Text → Bool
is_text none t = false
is_text (some s) t = text_eq s t

-- `protectedEntries.length !== 1`
unfoldable pub only_entry : List GroupEntry → Result Error GroupEntry
only_entry (e ∷ []) = ok e
only_entry _ = err Error.invalid_profile_data

abbrev pub protected_id : Data → Option Text
protected_id d = elim d.account_protection [ none ↦ none | some p ↦ p.service_id ]

abbrev pub protected_name : Data → Option Text
protected_name d = elim d.account_protection [ none ↦ none | some p ↦ p.protected_group ]

-- The protected entry is the account protection's, with its one service.
unfoldable pub mismatches_protection : Data → GroupEntry → Bool
mismatches_protection d e =
    not (is_text (protected_id d) e.id)
    || not (is_text (protected_name d) e.name)
    || not (length e.service_ids == 1)
    || not (all (λ id. is_text (protected_id d) id) e.service_ids)

abbrev services_for : Data → Text → List Service
services_for d format = keep (λ s. includes format s.output_formats) d.services

unfoldable pub service_group_catalog : Data → Text → Text → Result Error GroupCatalog
service_group_catalog d format base = elim d.service_groups [
  | none ↦ err Error.invalid_profile_data
  | some all_entries ↦
      let entries = metadata_service_groups all_entries format base in
      let known = known_services format d.services in
      do
        throw_if (null entries) Error.invalid_profile_data
        throw_if (elim d.route_labels [ none ↦ true | some m ↦ any (λ l. is_empty l.1) m ])
            Error.invalid_profile_data
        c ←
            collect_entries d known (defined_group_names d format base)
              (record { source = []; protected_entries = []; source_names = [] }) entries
        entry ← only_entry c.protected_entries
        throw_if (not (length c.source == length (dedupe known))) Error.invalid_profile_data
        throw_if (mismatches_protection d entry) Error.invalid_profile_data
        ok (record {
          entries = entries;
          services = services_for d format;
          source = c.source;
          protected_entry = entry;
          source_names = c.source_names;
        })
]

-- `add` of `reservedServiceGroupNames`
abbrev reservable : List Text → List Text → List Text
reservable source_names names = keep (λ n. not (is_empty n) && not (includes n source_names)) names

abbrev pub present : List (Option Text) → List Text
present [] = []
present (none ∷ os) = present os
present (some t ∷ os) = t ∷ present os

unfoldable pub reserved_service_group_names : Data → Text → Text → List Text → List Text
reserved_service_group_names d format base source_names =
    keep (λ n. not (includes n source_names)) d.reserved_group_names
    ++ reservable source_names
        (map (λ g. g.1) (keep (λ g. not (includes g.0 (service_ids_of d.services))) d.groups))
    ++ reservable source_names (present (map (λ (r : Region). r.group) d.regions))
    ++ reservable source_names (d.output_group_names format base)
