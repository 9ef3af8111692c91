-- ===== src/Tests/Specs.antt =====
-- Instances of the theorems on specifications, in the small catalog.
use mathlib.Core.List.{Memᴰ}
use rules.Tests.{
  solver, plain, parse_sample, platform, jp, catalog, catalog-HasKeys, guard_value, guard_group,
  provider_input, sample_provider, sample_input, sample_spec, normalize_sample,
}
use rules.Catalog.{Region, GroupLimits}
use rules.Base.{
  length, All, ◌≤◌, true, false, none, some, List, [], ◌∷◌, Text, codes, includes, is_empty,
  if◌then◌else◌, not, ◌&&◌, ok, ◌≡◌, ◌↔◌, ◌⊎◌, refl, Distinct,
}
use rules.Value.{str, arr, cons, nil}
use rules.Region.{normalize_alias, build_region_alias_map, canonicalize_region}
use rules.Region.Laws.{Names, canonicalize_region_sound, canonicalize_region_complete}
use rules.Spec.WellFormed.{is_well_formed_unicode}
use rules.Spec.WellFormed.Laws.{WellFormed, EndsHigh, is_well_formed_unicode_iff}
use rules.Spec.Providers.{max_providers, normalize_custom_rule_providers}
use rules.Spec.Providers.Laws.{IsSafe, normalize_custom_rule_providers-IsSafe}
use rules.Spec.GroupCatalog.{GroupCatalog, service_group_catalog, service_group_limits}
use rules.Spec.Groups.{layout_rules, normalize_service_groups}
use rules.Spec.Groups.Layout.{IsLayout, normalize_service_groups-IsLayout}
use rules.Spec.Normalize.{ProfileSpec, normalize_profile_spec}
use rules.Spec.Saved.{saved}
use rules.Spec.Saved.Laws.{normalize_profile_spec-saved}
use rules.Resolve.{Resolved, resolve_spec}
use rules.Resolve.Regions.{
  Passes, IsOrdered, resolve_spec-ok_iff, includes-active_region_ids, resolve_spec-IsOrdered,
}

normalize_profile_spec-saved_example :
    normalize_profile_spec platform catalog (codes "ini") (saved sample_spec) ≡ ok sample_spec
normalize_profile_spec-saved_example =
    normalize_profile_spec-saved platform catalog (codes "ini") sample_input sample_spec
      catalog-HasKeys normalize_sample

japan : canonicalize_region plain catalog (str (codes " Japan ")) ≡ ok (codes "jp")
unfolding solver
japan = refl

canonicalize_region_sound_example :
    (r : Region) × Memᴰ r catalog.regions
    × (r.id ≡ codes "jp")
    × Names plain r (normalize_alias plain (str (codes " Japan ")))
canonicalize_region_sound_example =
    canonicalize_region_sound plain catalog (str (codes " Japan ")) (codes "jp") japan

abbrev aliases : List (Text × Text)
aliases =
    (codes "us", codes "us")
    ∷ (codes "USA", codes "us")
    ∷ (codes "US", codes "us")
    ∷ (codes "jp", codes "jp")
    ∷ (codes "Japan", codes "jp")
    ∷ (codes "JP", codes "jp")
    ∷ []

aliases_built : build_region_alias_map plain catalog ≡ ok aliases
unfolding solver
aliases_built = refl

japan_named : Names plain jp (normalize_alias plain (str (codes "Japan ")))
unfolding solver
japan_named = record { value = codes "Japan"; listed = refl; same_key = refl }

japan_key : is_empty (normalize_alias plain (str (codes "Japan "))) ≡ false
unfolding solver
japan_key = refl

canonicalize_region_complete_example :
    canonicalize_region plain catalog (str (codes "Japan ")) ≡ ok (codes "jp")
canonicalize_region_complete_example =
    canonicalize_region_complete plain catalog aliases jp (str (codes "Japan ")) aliases_built
      (Memᴰ.tail (Memᴰ.head refl)) japan_named japan_key refl

guards_listed :
    normalize_service_groups catalog
      (codes "ini")
      (codes "ai-balanced")
      (codes "jp" ∷ [])
      []
      false
      (arr (cons guard_value nil))
    ≡ ok (guard_group ∷ [])
unfolding solver
guards_listed = refl

normalize_service_groups-IsLayout_example :
    (c : GroupCatalog) × (limits : GroupLimits) × (service_group_catalog catalog
        (codes "ini")
        (codes "ai-balanced")
      ≡ ok c)
    × (service_group_limits catalog ≡ ok limits)
    × (length (guard_group ∷ []) ≤ limits.max_groups)
    × IsLayout
        (layout_rules catalog
          (codes "ini")
          (codes "ai-balanced")
          (codes "jp" ∷ [])
          []
          false
          c
          limits)
        (record { ids = []; names = []; services = [] })
        (guard_group ∷ [])
normalize_service_groups-IsLayout_example =
    normalize_service_groups-IsLayout catalog (codes "ini") (codes "ai-balanced") (codes "jp" ∷ [])
      [] false (arr (cons guard_value nil)) (guard_group ∷ []) guards_listed

providers_read :
    normalize_custom_rule_providers parse_sample (arr (cons provider_input nil))
    ≡ ok (sample_provider ∷ [])
unfolding solver
providers_read = refl

normalize_custom_rule_providers-IsSafe_example :
    (length (sample_provider ∷ []) ≤ max_providers)
    × All (IsSafe parse_sample) (sample_provider ∷ [])
normalize_custom_rule_providers-IsSafe_example =
    normalize_custom_rule_providers-IsSafe parse_sample (arr (cons provider_input nil))
      (sample_provider ∷ []) providers_read

-- "a" and a lone high surrogate
is_well_formed_unicode_iff_example :
    (is_well_formed_unicode (97 ∷ 0xd83d ∷ []) ≡ true)
    ↔ (WellFormed (97 ∷ 0xd83d ∷ []) ⊎ EndsHigh (97 ∷ 0xd83d ∷ []))
is_well_formed_unicode_iff_example = is_well_formed_unicode_iff (97 ∷ 0xd83d ∷ [])

abbrev routable : List Text
routable = codes "us" ∷ codes "jp" ∷ codes "sg" ∷ []

abbrev preferring : ProfileSpec
preferring = record sample_spec { preferred_node_regions = codes "sg" ∷ [] }

abbrev resolved : Resolved
resolved = record {
  spec = preferring;
  disabled_region_ids = codes "jp" ∷ [];
  active_region_ids = codes "sg" ∷ codes "us" ∷ [];
  preferred_region_ids = codes "sg" ∷ [];
  disabled_service_ids = codes "chat" ∷ [];
  preferred_service_ids = [];
  allow_direct = none;
  fail_closed = some true;
  adblock = false;
  custom_rule_providers = sample_provider ∷ [];
  language = none;
  include_other_region = true;
}

resolved_here : resolve_spec routable preferring ≡ ok resolved
unfolding solver
resolved_here = refl

resolve_spec-ok_iff_example :
    ((r : Resolved) × (resolve_spec routable preferring ≡ ok r)) ↔ Passes routable preferring
resolve_spec-ok_iff_example = resolve_spec-ok_iff routable preferring

includes-active_region_ids_example : includes (codes "us") (codes "sg" ∷ codes "us" ∷ []) ≡ (
    includes (codes "us") routable
    && (if true then not (includes (codes "us") (codes "jp" ∷ [])) else false))
includes-active_region_ids_example =
    includes-active_region_ids routable preferring resolved (codes "us") resolved_here

routable-Distinct : Distinct routable
unfolding solver
routable-Distinct = (refl, (refl, (refl, tt)))

preferred-Distinct : Distinct preferring.preferred_node_regions
unfolding solver
preferred-Distinct = (refl, tt)

resolve_spec-IsOrdered_example : IsOrdered routable preferring resolved
resolve_spec-IsOrdered_example =
    resolve_spec-IsOrdered routable preferring resolved routable-Distinct preferred-Distinct
      resolved_here
