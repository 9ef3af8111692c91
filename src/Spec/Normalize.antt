-- ===== src/Spec/Normalize.antt =====
-- `templateFor` and `normalizeProfileSpec` of worker/solver.mjs: an input object is checked field by
-- field and brought into canonical form.
pub mod Stages
use rules.Base.{
  map, Bool, true, false, not, ◌&&◌, ◌||◌, Option, none, some, List, [], ◌∷◌, Text, text_eq, codes,
  includes, ◌==◌, if◌then◌else◌, Result, ok, err, ◌>>=◌, ◌>>◌, any, all, find, null, throw_if,
  is_some,
}
use rules.Value.{
  Value, undefined, bool, num, str, arr, obj, nil, Fields, keys, get, has_own, or_default,
  to_string,
}
use rules.Catalog.{Template, Data}
use rules.Region.{Unicode, canonicalize_many}
use rules.Spec.Error.{Error}
use rules.Spec.Services.{canonicalize_services, validate_service_rule_ownership}
use rules.Spec.Providers.{Url, direct, Target, Provider, normalize_custom_rule_providers}
use rules.Spec.Groups.{ServiceGroup, normalize_service_groups}

-- The canonical specification. An `Option` is a field that may be missing; `schemaVersion` is 1.
-- An own field that holds `undefined` is a missing one here.
pub record ProfileSpec : Type 0 where
  pub base_profile : Text
  pub disabled_node_regions : List Text
  pub only_node_regions : List Text
  pub preferred_node_regions : List Text
  pub disabled_services : Option (List Text)
  pub preferred_services : Option (List Text)
  pub allow_direct : Option Bool
  pub fail_closed : Option Bool
  pub language : Option Value
  pub service_groups : Option (List ServiceGroup)
  pub adblock : Option Bool
  pub custom_rule_providers : Option (List Provider)

-- The platform functions that the checks call.
pub record Platform : Type 0 where
  pub unicode : Unicode
  -- `new URL(text)`; `none` where it throws
  pub parse_url : Text → Option Url

abbrev pub allowed_keys : List Text
allowed_keys =
    codes "schemaVersion"
    ∷ codes "baseProfile"
    ∷ codes "disabledNodeRegions"
    ∷ codes "onlyNodeRegions"
    ∷ codes "preferredNodeRegions"
    ∷ codes "disabledServices"
    ∷ codes "preferredServices"
    ∷ codes "allowDirect"
    ∷ codes "failClosed"
    ∷ codes "language"
    ∷ codes "serviceGroups"
    ∷ codes "adblock"
    ∷ codes "customRuleProviders"
    ∷ []

-- `templateFor`, with the id that it was found by; an id that is no text fits no template.
unfoldable pub template_for : Data → Text → Value → Option Template
template_for d format (str base) = elim d.templates [
  | some templates ↦ find (λ t. text_eq t.output_format format && text_eq t.id base) templates
  | none ↦
      if text_eq format (codes "ini") && includes base d.base_profiles
      then some (record { id = base; output_format = codes "ini"; supports_profile_options = true })
      else none
]
template_for d format _ = none

-- `schemaVersion !== undefined && schemaVersion !== 1`
abbrev pub bad_version : Value → Bool
bad_version undefined = false
bad_version (num n) = not (n == 1)
bad_version _ = true

-- `value !== undefined && typeof value !== "boolean"`, else the optional Boolean
unfoldable pub optional_bool : Value → Result Error (Option Bool)
optional_bool undefined = ok none
optional_bool (bool b) = ok (some b)
optional_bool _ = err Error.invalid_boolean_option

-- `language !== undefined && !Object.hasOwn(localized, language)`
unfoldable pub optional_language : Data → Value → Result Error (Option Value)
optional_language d undefined = ok none
optional_language d v =
    if includes (to_string v) (map (λ l. l.0) d.localized)
    then ok (some v)
    else err Error.invalid_language

abbrev pub is_false : Option Bool → Bool
is_false none = false
is_false (some b) = not b

abbrev pub is_true : Option Bool → Bool
is_true none = false
is_true (some b) = b

abbrev pub is_direct : Target → Bool
is_direct direct = true
is_direct _ = false

abbrev pub provider_list : Option (List Provider) → List Provider
provider_list none = []
provider_list (some ps) = ps

abbrev pub own {ℓ} : {A : Type ℓ} → Bool → A → Option A
own true a = some a
own false a = none

-- `hasUnsupportedOptions`
unfoldable pub has_options : Text → Bool → ProfileSpec → List Text → List Text → Bool
has_options format has_groups s disabled preferred =
    not (null s.disabled_node_regions)
    || not (null s.only_node_regions)
    || not (null s.preferred_node_regions)
    || not (null disabled)
    || not (null preferred)
    || is_some s.allow_direct
    || is_some s.fail_closed
    || has_groups
    || (text_eq format (codes "ini")
        && (is_true s.adblock || not (null (provider_list s.custom_rule_providers))))

module _ (p : Platform) (d : Data) (format : Text) where
  unfoldable pub optional_providers : Value → Result Error (Option (List Provider))
  optional_providers undefined = ok none
  optional_providers v = do ps ← normalize_custom_rule_providers p.parse_url v; ok (some ps)

  unfoldable pub optional_groups :
      Bool → Text → List Text → List Text → Bool → Value → Result Error (Option (List ServiceGroup))
  optional_groups false base disabled only direct_disabled v = ok none
  optional_groups true base disabled only direct_disabled v = do
    gs ← normalize_service_groups d format base disabled only direct_disabled v
    ok (some gs)

  -- The options other than the regions and the service groups.
  pub record Options : Type 0 where
    pub disabled_services : List Text
    pub preferred_services : List Text
    pub custom_rule_providers : Option (List Provider)
    pub allow_direct : Option Bool
    pub fail_closed : Option Bool
    pub adblock : Option Bool
    pub language : Option Value

  unfoldable pub checked_options : Fields → Result Error Options
  checked_options input = do
    disabled ←
        canonicalize_services d format (or_default (get (codes "disabledServices") input) (arr nil))
    preferred ←
        canonicalize_services d format
          (or_default (get (codes "preferredServices") input) (arr nil))
    providers ← optional_providers (get (codes "customRuleProviders") input)
    throw_if (any (λ s. includes s preferred) disabled) Error.conflicting_service_options
    if text_eq format (codes "ini") then validate_service_rule_ownership disabled d else ok tt
    allow_direct ← optional_bool (get (codes "allowDirect") input)
    fail_closed ← optional_bool (get (codes "failClosed") input)
    adblock ← optional_bool (get (codes "adblock") input)
    throw_if (is_false allow_direct && any (λ q. is_direct q.target) (provider_list providers))
        Error.conflicting_custom_rule_target
    language ← optional_language d (get (codes "language") input)
    ok (record {
      disabled_services = disabled;
      preferred_services = preferred;
      custom_rule_providers = providers;
      allow_direct = allow_direct;
      fail_closed = fail_closed;
      adblock = adblock;
      language = language;
    })

  abbrev pub spec_without_groups :
      Fields → Text → List Text → List Text → List Text → Options → ProfileSpec
  spec_without_groups input base disabled only preferred o = record {
    base_profile = base;
    disabled_node_regions = disabled;
    only_node_regions = only;
    preferred_node_regions = preferred;
    disabled_services = own (has_own (codes "disabledServices") input) o.disabled_services;
    preferred_services = own (has_own (codes "preferredServices") input) o.preferred_services;
    allow_direct = o.allow_direct;
    fail_closed = o.fail_closed;
    language = o.language;
    service_groups = none;
    adblock = o.adblock;
    custom_rule_providers = o.custom_rule_providers;
  }

  -- The end of `normalizeProfileSpec`: whether the template takes options, and the service groups.
  unfoldable pub finish_spec :
      Fields → Template → List Text → List Text → List Text → Options → Result Error ProfileSpec
  finish_spec input template disabled only preferred o = do
    throw_if
        (not template.supports_profile_options
          && has_options format (has_own (codes "serviceGroups") input)
              (spec_without_groups input template.id disabled only preferred o) o.disabled_services
              o.preferred_services)
        Error.unsupported_profile_options
    groups ←
        optional_groups (has_own (codes "serviceGroups") input) template.id disabled only
          (is_false o.allow_direct) (get (codes "serviceGroups") input)
    ok (record (spec_without_groups input template.id disabled only preferred o) {
      service_groups = groups;
    })

  -- The part of `normalizeProfileSpec` below the lookup of the template.
  unfoldable pub normalize_fields : Fields → Template → Result Error ProfileSpec
  normalize_fields input template = do
    disabled ←
        canonicalize_many p.unicode d
          (or_default (get (codes "disabledNodeRegions") input) (arr nil))
    only ←
        canonicalize_many p.unicode d (or_default (get (codes "onlyNodeRegions") input) (arr nil))
    preferred ←
        canonicalize_many p.unicode d
          (or_default (get (codes "preferredNodeRegions") input) (arr nil))
    o ← checked_options input
    finish_spec input template disabled only preferred o

  -- `if (!template) throw`
  unfoldable pub with_template : Fields → Option Template → Result Error ProfileSpec
  with_template input none = err Error.unknown_base_profile
  with_template input (some template) = normalize_fields input template

  unfoldable pub normalize_profile_spec : Value → Result Error ProfileSpec
  normalize_profile_spec (obj input) = do
    throw_if (not (all (λ key. includes key allowed_keys) (keys input))) Error.unknown_profile_field
    throw_if (bad_version (get (codes "schemaVersion") input)) Error.invalid_profile_spec
    throw_if (not (text_eq format (codes "ini") || text_eq format (codes "yaml")))
        Error.unknown_output_format
    with_template input (
        template_for d format
          (or_default (get (codes "baseProfile") input) (str (codes "ai-balanced"))))
  normalize_profile_spec _ = err Error.invalid_profile_spec
