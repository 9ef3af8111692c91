-- ===== src/Catalog.antt =====
-- The canonical profile data (worker/generated/runtime-data.mjs) that the solver's functions take
-- as `data`. Its fields are typed here: where the source tests a field's JavaScript type, a value
-- of the record always passes. A field that may be missing is an `Option`.
use rules.Base.{ℕ, Bool, Option, List, Text}
use rules.Plan.{Section}

pub record Region : Type 0 where
  pub id : Text
  pub name : Text
  pub country_codes : List Text
  pub aliases : List Text
  pub group : Option Text
  pub filter_pattern : Option Text
  pub terms : Option Text

pub record RuleRef : Type 0 where
  pub ini_kind : Option Text
  pub ini_value : Option Text
  pub yaml_kind : Option Text
  pub yaml_value : Option Text

pub record Service : Type 0 where
  pub id : Text
  pub group : Option Text
  pub output_formats : List Text
  pub rule_refs : List RuleRef

-- An entry of `serviceGroups`: the default layout and the route choices of some services.
pub record GroupEntry : Type 0 where
  pub output_format : Text
  pub base_profile : Text
  pub id : Text
  pub name : Text
  pub service_ids : List Text
  pub default_routes : List Text
  pub allowed_routes : List Text
  pub default_route_group : Option Text
  pub protected : Bool

pub record GroupLimits : Type 0 where
  pub max_groups : ℕ
  pub max_name_length : ℕ
  pub max_id_length : ℕ
  pub max_routes_per_group : ℕ

pub record Template : Type 0 where
  pub id : Text
  pub output_format : Text
  pub supports_profile_options : Bool

pub record AccountProtection : Type 0 where
  pub service_id : Option Text
  pub protected_group : Option Text
  pub reject_group : Option Text

-- The texts of `render.localized` for one language. `sections` has a title for a section's role.
pub record LocalizedCopy : Type 0 where
  pub header : List Text
  pub footer : List Text
  pub sections : List (Text × Text)
  -- `optionalProviderNotes`
  pub adblock_note : Option Text
  pub rules_note : Option Text

pub record AdblockProvider : Type 0 where
  pub behavior : Text
  pub url : Text

pub record Data : Type 0 where
  pub regions : List Region
  pub routable_region_order : List Text
  pub services : List Service
  pub service_groups : Option (List GroupEntry)
  pub reserved_group_names : List Text
  -- the entries of `serviceGroupRouteLabels`
  pub route_labels : Option (List (Text × Text))
  pub service_group_limits : Option GroupLimits
  pub templates : Option (List Template)
  -- the name of a registered INI template, by its id, and the entries of `iniTemplates`
  pub template_name : Text → Text
  pub ini_templates : List (Text × Text)
  -- the ids of `baseProfiles`
  pub base_profiles : List Text
  pub account_protection : Option AccountProtection
  -- the entries of `render.localized`
  pub localized : List (Text × LocalizedCopy)
  -- `render.preamble` and `render.suffix`
  pub preamble : List Text
  pub suffix : List Text
  -- the entries of `groups`
  pub groups : List (Text × Text)
  -- the names in `outputProfiles[format][base]["proxy-groups"]`
  pub output_group_names : Text → Text → List Text
  -- `plan.sections`
  pub plan : List Section
  -- the entries of `regionGroups` and of `stableRegionGroups`: a group, and its region
  pub region_groups : List (Text × Text)
  pub stable_region_groups : List (Text × Text)
  pub other_region_group : Text
  -- `ruleProviderIntervals.ini`
  pub ini_interval : Option ℕ
  pub adblock_provider : Option AdblockProvider
