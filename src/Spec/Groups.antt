-- ===== src/Spec/Groups.antt =====
-- `normalizeServiceGroups` of worker/solver.mjs: the custom layout of service groups. Each stage of
-- its callback is a function here, in the order of the source.
pub mod Laws
pub mod Layout
use rules.Base.{
  ℕ, Bool, true, false, not, ◌&&◌, ◌||◌, Option, none, some, List, [], ◌∷◌, ◌++◌, map, Text,
  text_eq, codes, is_empty, trim, includes, dedupe, leb, ltb, ◌==◌, if◌then◌else◌, Result, ok, err,
  ◌>>=◌, ◌>>◌, keep, any, all, null, throw_if, length, flat, is_some,
}
use rules.Value.{Value, str, arr, obj, items, Fields, keys, get}
use rules.Catalog.{RuleRef, Service, GroupEntry, GroupLimits, Data}
use rules.Spec.Error.{Error}
use rules.Spec.WellFormed.{is_well_formed_unicode}
use rules.Spec.Providers.{is_control}
use rules.Spec.Services.{Reference, add_owner, rule_reference}
use rules.Spec.GroupCatalog.{
  service_group_limits, is_slug, region_ids, source_of, has_source, GroupCatalog, is_text,
  protected_id, service_group_catalog, reserved_service_group_names,
}

pub record ServiceGroup : Type 0 where
  pub id : Text
  pub name : Text
  pub service_ids : List Text
  pub routes : List Text

-- What a layout is checked against.
pub record Rules : Type 0 where
  pub catalog : GroupCatalog
  pub limits : GroupLimits
  pub reserved : List Text
  pub protected_service : Option Text
  pub known_regions : List Text
  pub disabled_regions : List Text
  pub only_regions : List Text
  pub direct_disabled : Bool

-- The sets that the rounds of the loop share.
pub record Taken : Type 0 where
  pub ids : List Text
  pub names : List Text
  pub services : List Text

-- The class of `SERVICE_GROUP_NAME_UNSAFE_RE`.
unfoldable pub is_unsafe_in_name : ℕ → Bool
is_unsafe_in_name c =
    c == b','
    || c == b'`'
    || c == b'['
    || c == b']'
    || c == b'\\'
    || is_control c
    || c == 0x2028
    || c == 0x2029

-- `SERVICE_GROUP_ROUTE_RE`
unfoldable pub is_route_token : Text → Bool
is_route_token [] = false
is_route_token (c ∷ s) =
    (leb b'a' c && leb c b'z')
    && all (λ x. (leb b'a' x && leb x b'z') || (leb b'0' x && leb x b'9') || x == b'-') s

abbrev group_keys : List Text
group_keys = codes "id" ∷ codes "name" ∷ codes "serviceIds" ∷ codes "routes" ∷ []

unfoldable pub checked_id : GroupLimits → Taken → Value → Result Error Text
checked_id limits taken (str id) = do
  throw_if (not (text_eq id (trim id)) || ltb limits.max_id_length (length id) || not (is_slug id))
      Error.invalid_service_group_id
  throw_if (includes id taken.ids) Error.duplicate_service_group_id
  ok id
checked_id limits taken _ = err Error.invalid_service_group_id

unfoldable pub checked_name : Rules → Taken → Value → Result Error Text
checked_name r taken (str name) = do
  throw_if
      (is_empty (trim name)
        || not (text_eq name (trim name))
        || ltb r.limits.max_name_length (length name)
        || not (is_well_formed_unicode name)
        || any is_unsafe_in_name name)
      Error.invalid_service_group_name
  throw_if (includes name r.reserved) Error.reserved_service_group_name
  throw_if (includes name taken.names) Error.duplicate_service_group_name
  ok name
checked_name r taken _ = err Error.invalid_service_group_name

-- The loop over `serviceIds`: `assigned` is the set over all groups, `members` that of this one.
unfoldable pub checked_members :
    List (Text × GroupEntry) → List Text → List Text → List Value → Result Error (List Text)
checked_members source members assigned [] = ok []
checked_members source members assigned (str id ∷ vs) = do
  throw_if (not (has_source id source)) Error.unknown_service
  throw_if (includes id members || includes id assigned) Error.duplicate_service_group_member
  rest ← checked_members source (id ∷ members) (id ∷ assigned) vs
  ok (id ∷ rest)
checked_members source members assigned (_ ∷ vs) = err Error.unknown_service

unfoldable pub checked_service_ids : Rules → Taken → Value → Result Error (List Text)
checked_service_ids r taken (arr vs) = checked_members r.catalog.source [] taken.services (items vs)
checked_service_ids r taken _ = err Error.invalid_service_group_members

-- The loop over `routes` with its set.
unfoldable pub checked_tokens : List Text → List Value → Result Error (List Text)
checked_tokens seen [] = ok []
checked_tokens seen (str route ∷ vs) = do
  throw_if (not (is_route_token route)) Error.invalid_service_group_route
  throw_if (includes route seen) Error.duplicate_service_group_route
  rest ← checked_tokens (route ∷ seen) vs
  ok (route ∷ rest)
checked_tokens seen (_ ∷ vs) = err Error.invalid_service_group_route

unfoldable pub checked_routes : GroupLimits → Value → Result Error (List Text)
checked_routes limits (arr vs) = do
  throw_if (ltb limits.max_routes_per_group (length (items vs))) Error.too_many_service_group_routes
  checked_tokens [] (items vs)
checked_routes limits _ = err Error.invalid_service_group_routes

-- The protected service keeps its group, and no other group takes that group's id or name.
unfoldable pub breaks_protection : Rules → ServiceGroup → Bool
breaks_protection r g =
    if any (λ s. is_text r.protected_service s) g.service_ids
    then not (text_eq g.id r.catalog.protected_entry.id)
      || not (text_eq g.name r.catalog.protected_entry.name)
      || not (length g.service_ids == 1)
      || not (all (λ s. is_text r.protected_service s) g.service_ids)
    else text_eq g.id r.catalog.protected_entry.id || text_eq g.name r.catalog.protected_entry.name

abbrev entries_of : List (Text × GroupEntry) → List Text → List GroupEntry
entries_of source [] = []
entries_of source (id ∷ ids) = elim (source_of id source) [
  | none ↦ entries_of source ids
  | some e ↦ e ∷ entries_of source ids
]

-- `allowedRoutes`: of no member any route of the catalog, else what all members' entries allow.
unfoldable pub allowed_routes : Rules → List Text → List Text
allowed_routes r members = elim (entries_of r.catalog.source members) [
  | [] ↦ dedupe (flat (map (λ e. e.allowed_routes) r.catalog.entries))
  | first ∷ others ↦
      keep (λ route. all (λ e. includes route e.allowed_routes) (first ∷ others))
        first.allowed_routes
]

abbrev same_target : Option Text → GroupEntry → Bool
same_target none e = false
same_target (some t) e = is_text e.default_route_group t

-- The members' default route groups are one text, and not an empty one.
unfoldable pub shares_default : List GroupEntry → Bool
shares_default [] = true
shares_default (first ∷ others) =
    elim first.default_route_group [ none ↦ false | some t ↦ not (is_empty t) ]
    && all (λ e. same_target first.default_route_group e) others

-- The conflict of one route with the global options.
unfoldable pub conflicts : Rules → Text → Bool
conflicts r route =
    (text_eq route (codes "direct") && r.direct_disabled)
    || (text_eq route (codes "other") && not (null r.only_regions))
    || (includes route r.known_regions
        && (includes route r.disabled_regions
            || (not (null r.only_regions) && not (includes route r.only_regions))))

unfoldable pub checked_choices : Rules → ServiceGroup → Result Error (Unit {0})
checked_choices r g = do
  throw_if (breaks_protection r g) Error.protected_service_group
  throw_if (any (λ route. not (includes route (allowed_routes r g.service_ids))) g.routes)
      Error.unsupported_service_group_route
  throw_if
      (includes (codes "default") g.routes
        && not (shares_default (entries_of r.catalog.source g.service_ids)))
      Error.incompatible_service_group_route
  throw_if (any (conflicts r) g.routes) Error.conflicting_service_group_route

-- The callback of the loop over `input.serviceGroups`.
unfoldable pub checked_group : Rules → Taken → Value → Result Error ServiceGroup
checked_group r taken (obj raw) = do
  throw_if (not (all (λ key. includes key group_keys) (keys raw))) Error.unknown_service_group_field
  id ← checked_id r.limits taken (get (codes "id") raw)
  name ← checked_name r taken (get (codes "name") raw)
  service_ids ← checked_service_ids r taken (get (codes "serviceIds") raw)
  routes ← checked_routes r.limits (get (codes "routes") raw)
  let g : ServiceGroup = record { id = id; name = name; service_ids = service_ids; routes = routes }
  checked_choices r g
  ok g
checked_group r taken _ = err Error.invalid_service_group

abbrev pub take_group : Taken → ServiceGroup → Taken
take_group taken g = record {
  ids = g.id ∷ taken.ids;
  names = g.name ∷ taken.names;
  services = g.service_ids ++ taken.services;
}

unfoldable pub checked_groups : Rules → Taken → List Value → Result Error (List ServiceGroup)
checked_groups r taken [] = ok []
checked_groups r taken (v ∷ vs) = do
  g ← checked_group r taken v
  rest ← checked_groups r (take_group taken g) vs
  ok (g ∷ rest)

-- `groupForService.get(id) ?? null`
unfoldable pub group_for_service : Text → List ServiceGroup → Option Text
group_for_service id [] = none
group_for_service id (g ∷ gs) =
    if includes id g.service_ids then some g.id else group_for_service id gs

unfoldable pub same_group : Option Text → Option Text → Bool
same_group none none = true
same_group (some a) (some b) = text_eq a b
same_group _ _ = false

abbrev format_reference : Text → RuleRef → Option Reference
format_reference format ref =
    if text_eq format (codes "ini")
    then rule_reference ref.ini_kind ref.ini_value
    else rule_reference ref.yaml_kind ref.yaml_value

unfoldable pub ref_owners_of :
    Text → Text → List RuleRef → List (Reference × List Text) → List (Reference × List Text)
ref_owners_of format id [] m = m
ref_owners_of format id (r ∷ rs) m = elim (format_reference format r) [
  | none ↦ ref_owners_of format id rs m
  | some ref ↦ ref_owners_of format id rs (add_owner ref id m)
]

unfoldable pub ref_owners :
    Text → List Service → List (Reference × List Text) → List (Reference × List Text)
ref_owners format [] m = m
ref_owners format (s ∷ ss) m = ref_owners format ss (ref_owners_of format s.id s.rule_refs m)

-- `assignments.size > 1`
unfoldable pub splits_rule : List ServiceGroup → List Text → Bool
splits_rule groups [] = false
splits_rule groups (id ∷ ids) =
    any (λ other. not (same_group (group_for_service other groups) (group_for_service id groups)))
      ids

-- The checks of `input.serviceGroups` as a whole, and the loop over it.
unfoldable pub checked_layout : Rules → Value → Result Error (List ServiceGroup)
checked_layout r (arr vs) =
    if ltb r.limits.max_groups (length (items vs))
    then err Error.too_many_service_groups
    else checked_groups r (record { ids = []; names = []; services = [] }) (items vs)
checked_layout r _ = err Error.invalid_service_groups

abbrev pub layout_rules :
    Data → Text → Text → List Text → List Text → Bool → GroupCatalog → GroupLimits → Rules
layout_rules d format base disabled only direct_disabled catalog limits = record {
  catalog = catalog;
  limits = limits;
  reserved = reserved_service_group_names d format base catalog.source_names;
  protected_service = protected_id d;
  known_regions = region_ids d;
  disabled_regions = disabled;
  only_regions = only;
  direct_disabled = direct_disabled;
}

-- The checks of the layout that the loop gives.
unfoldable pub checked_whole : Text → Rules → List ServiceGroup → Result Error (List ServiceGroup)
checked_whole format r groups = do
  throw_if (not (any (λ g. text_eq g.id r.catalog.protected_entry.id) groups))
      Error.protected_service_group
  throw_if (any (λ entry. splits_rule groups entry.1) (ref_owners format r.catalog.services []))
      Error.incompatible_service_rule_owners
  ok groups

unfoldable pub normalize_service_groups :
    Data → Text → Text → List Text → List Text → Bool → Value → Result Error (List ServiceGroup)
normalize_service_groups d format base disabled only direct_disabled value = do
  catalog ← service_group_catalog d format base
  limits ← service_group_limits d
  let r : Rules = layout_rules d format base disabled only direct_disabled catalog limits
  groups ← checked_layout r value
  checked_whole format r groups
