-- ===== src/Resolve.antt =====
-- `resolveProfileSpec` of worker/solver.mjs: the regions and services that a specification keeps.
pub mod Regions
use rules.Base.{
  ℕ, Bool, true, false, not, ◌&&◌, ◌||◌, Option, none, some, List, [], ◌∷◌, ◌++◌, Text, includes,
  if◌then◌else◌, Result, ok, err, ◌>>=◌, ◌>>◌, keep, any, null, throw_if, get_or,
}
use rules.Value.{Value}
use rules.Catalog.{Data}
use rules.Spec.Error.{Error}
use rules.Spec.Providers.{Provider}
use rules.Spec.Normalize.{ProfileSpec, Platform, is_true, provider_list, normalize_profile_spec}

pub record Resolved : Type 0 where
  pub spec : ProfileSpec
  pub disabled_region_ids : List Text
  pub active_region_ids : List Text
  pub preferred_region_ids : List Text
  pub disabled_service_ids : List Text
  pub preferred_service_ids : List Text
  pub allow_direct : Option Bool
  pub fail_closed : Option Bool
  pub adblock : Bool
  pub custom_rule_providers : List Provider
  pub language : Option Value
  pub include_other_region : Bool

-- `active`: the routable regions that the constraints leave.
unfoldable pub active_regions : List Text → ProfileSpec → List Text
active_regions routable s =
    if not (null s.only_node_regions)
    then keep (λ region. includes region s.only_node_regions) routable
    else keep (λ region. not (includes region s.disabled_node_regions)) routable

-- The object that `resolveProfileSpec` returns.
unfoldable pub resolution : List Text → ProfileSpec → Resolved
resolution routable s = record {
  spec = s;
  disabled_region_ids = s.disabled_node_regions;
  active_region_ids =
      s.preferred_node_regions
      ++ keep (λ region. not (includes region s.preferred_node_regions))
          (active_regions routable s);
  preferred_region_ids = s.preferred_node_regions;
  disabled_service_ids = get_or s.disabled_services [];
  preferred_service_ids = get_or s.preferred_services [];
  allow_direct = s.allow_direct;
  fail_closed = s.fail_closed;
  adblock = is_true s.adblock;
  custom_rule_providers = provider_list s.custom_rule_providers;
  language = s.language;
  include_other_region = null s.only_node_regions;
}

-- The part of `resolveProfileSpec` below the call of `normalizeProfileSpec`.
unfoldable pub resolve_spec : List Text → ProfileSpec → Result Error Resolved
resolve_spec routable s =
    let active = active_regions routable s in
    let disabled_services = get_or s.disabled_services [] in
    do
      throw_if (any (λ region. not (includes region routable)) s.only_node_regions)
          Error.non_routable_only_region
      throw_if (any (λ region. includes region s.disabled_node_regions) s.only_node_regions)
          Error.conflicting_region_constraints
      throw_if (null active) Error.no_active_region
      throw_if (any (λ region. not (includes region active)) s.preferred_node_regions)
          Error.inactive_preferred_region
      throw_if
          (any (λ service. includes service disabled_services) (get_or s.preferred_services []))
          Error.inactive_preferred_service
      ok (resolution routable s)

unfoldable pub resolve_profile_spec : Platform → Data → Text → Value → Result Error Resolved
resolve_profile_spec p d format input = do
  s ← normalize_profile_spec p d format input
  resolve_spec d.routable_region_order s
