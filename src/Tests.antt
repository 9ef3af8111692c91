-- ===== src/Tests.antt =====
-- A small catalog and its inputs, for the tests and the instances of the theorems.
mod Specs
mod Profiles
mod Plans
mod Solving
mod Rendering
mod Editing
mod Payloads
use mathlib.Core.List.{Memᴰ}
use rules.Base.{
  ℕ, Bool, true, false, Option, none, some, List, [], ◌∷◌, Text, codes, text_eq, includes, is_space,
  trim_start, trim_end, trim, dedupe_from, dedupe, any, all, keep, find, flat, map_result, Result,
  ◌≡◌, refl, is_empty,
}
use rules.Value.{Value, str, bool, arr, obj, nil, cons, end, field, get, has_own, to_string}
use rules.Catalog.{
  Region, RuleRef, Service, GroupEntry, GroupLimits, Template, AccountProtection, LocalizedCopy,
  AdblockProvider, Data,
}
use rules.Region.{
  Unicode, lookup, assign, found_region, normalize_alias, add_alias, add_aliases, add_regions,
  build_region_alias_map, canonicalize_region, canonicalize_many,
}
use rules.Region.Laws.{HasKeys}
use rules.Spec.WellFormed.{is_well_formed_unicode}
use rules.Spec.Services.{
  known_services, canonicalize_service, canonicalize_services, reference_eq, rule_reference,
  add_owner, add_owners, ini_rule_owners_from, ini_rule_owners, mixes,
  validate_service_rule_ownership,
}
use rules.Spec.Providers
use rules.Spec.Providers.{
  Url, Provider, is_unsafe_in_url, after_scheme, authority_part, authority, is_bad_url_text,
  is_bad_url, behavior_of, target_of, checked_url, normalize_provider,
  normalize_custom_rule_providers,
}
use rules.Spec.GroupCatalog.{
  service_group_limits, metadata_service_groups, is_slug, label_of, service_route_group_name,
  plan_group_names, defined_group_names, source_of, add_members, has_bad_routes, collect_entry,
  collect_entries, only_entry, mismatches_protection, service_group_catalog,
  reserved_service_group_names,
}
use rules.Spec.Groups.{
  ServiceGroup, is_unsafe_in_name, is_route_token, checked_id, checked_name, checked_members,
  checked_service_ids, checked_tokens, checked_routes, breaks_protection, allowed_routes,
  shares_default, conflicts, checked_choices, checked_group, checked_groups, group_for_service,
  same_group, ref_owners_of, ref_owners, splits_rule, checked_layout, checked_whole,
  normalize_service_groups,
}
use rules.Spec.Normalize.{
  ProfileSpec, Platform, template_for, optional_bool, optional_language, has_options,
  optional_providers, optional_groups, checked_options, finish_spec, normalize_fields,
  with_template, normalize_profile_spec,
}
use rules.Resolve.{Resolved, active_regions, resolution, resolve_spec, resolve_profile_spec}

-- All that the tests of the solver compute with.
solver : Unit {0}
unfolding text_eq includes is_space trim_start trim_end trim dedupe_from dedupe any all keep find
    flat map_result get has_own to_string lookup assign found_region normalize_alias add_alias
    add_aliases add_regions build_region_alias_map canonicalize_region canonicalize_many
    is_well_formed_unicode known_services canonicalize_service canonicalize_services reference_eq
    rule_reference add_owner add_owners ini_rule_owners_from ini_rule_owners mixes
    validate_service_rule_ownership is_unsafe_in_url after_scheme authority_part authority
    is_bad_url_text is_bad_url behavior_of target_of checked_url normalize_provider
    normalize_custom_rule_providers service_group_limits metadata_service_groups is_slug label_of
    service_route_group_name plan_group_names defined_group_names source_of add_members
    has_bad_routes collect_entry collect_entries only_entry mismatches_protection
    service_group_catalog reserved_service_group_names is_unsafe_in_name is_route_token checked_id
    checked_name checked_members checked_service_ids checked_tokens checked_routes breaks_protection
    allowed_routes shares_default conflicts checked_choices checked_group checked_groups
    group_for_service same_group ref_owners_of ref_owners splits_rule checked_layout checked_whole
    normalize_service_groups template_for optional_bool optional_language has_options
    optional_providers optional_groups checked_options finish_spec normalize_fields with_template
    normalize_profile_spec active_regions resolution resolve_spec resolve_profile_spec
solver = tt

abbrev plain : Unicode
plain = record { lower = λ t. t; nfkc = λ t. t; keep_letters_and_numbers = λ t. t }

-- A URL parser for the one provider of the tests.
abbrev parse_sample : Text → Option Url
parse_sample t = some (record {
  protocol = codes "https:";
  hostname = codes "x.dev";
  username = [];
  password = [];
  hash = [];
})

abbrev platform : Platform
platform = record { unicode = plain; parse_url = parse_sample }

abbrev us : Region
us = record {
  id = codes "us";
  name = codes "USA";
  country_codes = codes "US" ∷ [];
  aliases = [];
  group = some (codes "US nodes");
  filter_pattern = some (codes "US");
  terms = some (codes "US");
}

abbrev jp : Region
jp = record us {
  id = codes "jp";
  name = codes "Japan";
  country_codes = codes "JP" ∷ [];
  group = some (codes "JP nodes");
}

abbrev claude : Service
claude = record {
  id = codes "claude";
  group = none;
  output_formats = codes "ini" ∷ [];
  rule_refs = [];
}

abbrev chat : Service
chat = record claude { id = codes "chat" }

abbrev guard_entry : GroupEntry
guard_entry = record {
  output_format = codes "ini";
  base_profile = codes "ai-balanced";
  id = codes "claude";
  name = codes "Guard";
  service_ids = codes "claude" ∷ [];
  default_routes = codes "reject" ∷ [];
  allowed_routes = codes "reject" ∷ codes "us" ∷ [];
  default_route_group = none;
  protected = true;
}

abbrev chat_entry : GroupEntry
chat_entry = record guard_entry {
  id = codes "chat";
  name = codes "Chat";
  service_ids = codes "chat" ∷ [];
  protected = false;
}

abbrev english : LocalizedCopy
english = record {
  header = codes "; Rules" ∷ [];
  footer = codes "; End" ∷ [];
  sections = [];
  adblock_note = some (codes "; Adblock");
  rules_note = none;
}

abbrev catalog : Data
catalog = record {
  regions = us ∷ jp ∷ [];
  routable_region_order = codes "us" ∷ codes "jp" ∷ [];
  services = claude ∷ chat ∷ [];
  service_groups = some (guard_entry ∷ chat_entry ∷ []);
  reserved_group_names = codes "DIRECT" ∷ [];
  route_labels = some ((codes "reject", codes "Reject") ∷ []);
  service_group_limits = some (record {
    max_groups = 4;
    max_name_length = 20;
    max_id_length = 20;
    max_routes_per_group = 5;
  });
  templates = none;
  template_name = λ id. [];
  ini_templates = [];
  base_profiles = codes "ai-balanced" ∷ [];
  account_protection = some (record {
    service_id = some (codes "claude");
    protected_group = some (codes "Guard");
    reject_group = none;
  });
  localized = (codes "en", english) ∷ [];
  preamble = codes "[custom]" ∷ [];
  suffix = codes "; end" ∷ codes "enable=true" ∷ [];
  groups =
      (codes "reject", codes "Reject")
      ∷ (codes "direct", codes "Direct")
      ∷ (codes "auto", codes "Auto")
      ∷ (codes "manual", codes "Manual")
      ∷ (codes "fallback", codes "Fallback")
      ∷ [];
  output_group_names = λ format base. [];
  plan = [];
  region_groups = (codes "US nodes", codes "us") ∷ (codes "JP nodes", codes "jp") ∷ [];
  stable_region_groups = [];
  other_region_group = codes "Other";
  ini_interval = some 3600;
  adblock_provider = some (record { behavior = codes "domain"; url = codes "https://a.dev/r" });
}

-- The key of a region's id is the id here.
pub catalog-HasKeys : HasKeys plain catalog
unfolding normalize_alias to_string trim trim_start trim_end is_space
catalog-HasKeys r (Memᴰ.head e) = rw e refl
catalog-HasKeys r (Memᴰ.tail (Memᴰ.head e)) = rw e refl
catalog-HasKeys r (Memᴰ.tail (Memᴰ.tail m)) = elim m [ ]

abbrev guard_value : Value
guard_value = obj (
    field (codes "id") (str (codes "claude")) (
      field (codes "name") (str (codes "Guard")) (
        field (codes "serviceIds") (arr (cons (str (codes "claude")) nil)) (
          field (codes "routes") (arr (cons (str (codes "us")) (cons (str (codes "reject")) nil)))
            end))))

abbrev guard_group : ServiceGroup
guard_group = record {
  id = codes "claude";
  name = codes "Guard";
  service_ids = codes "claude" ∷ [];
  routes = codes "us" ∷ codes "reject" ∷ [];
}

abbrev provider_input : Value
provider_input = obj (
    field (codes "url") (str (codes "https://x.dev/r")) (
      field (codes "behavior") (str (codes "domain"))
        (field (codes "target") (str (codes "proxy")) end)))

-- An input with a repeated region under two names, a service, a layout and a provider.
abbrev sample_input : Value
sample_input = obj (
    field (codes "disabledNodeRegions")
      (arr (cons (str (codes " Japan ")) (cons (str (codes "JP")) nil)))
      (field (codes "preferredNodeRegions") (arr (cons (str (codes "USA")) nil)) (
        field (codes "disabledServices") (arr (cons (str (codes " chat")) nil)) (
          field (codes "failClosed") (bool true) (
            field (codes "serviceGroups") (arr (cons guard_value nil))
              (field (codes "customRuleProviders") (arr (cons provider_input nil)) end))))))

abbrev sample_provider : Provider
sample_provider = record {
  url = codes "https://x.dev/r";
  behavior = Providers.domain;
  target = Providers.proxy;
}

abbrev sample_spec : ProfileSpec
sample_spec = record {
  base_profile = codes "ai-balanced";
  disabled_node_regions = codes "jp" ∷ [];
  only_node_regions = [];
  preferred_node_regions = codes "us" ∷ [];
  disabled_services = some (codes "chat" ∷ []);
  preferred_services = none;
  allow_direct = none;
  fail_closed = some true;
  language = none;
  service_groups = some (guard_group ∷ []);
  adblock = none;
  custom_rule_providers = some (sample_provider ∷ []);
}

normalize_sample :
    normalize_profile_spec platform catalog (codes "ini") sample_input ≡ Result.ok sample_spec
unfolding solver
normalize_sample = refl
