-- ===== src/Editor/Draft.antt =====
-- `copyEditorDraft` of public/editor-state.mjs and `copyServiceGroups` of
-- public/service-group-editor.js: a draft is checked and copied field by field.
pub mod Laws
use rules.Base.{
  Bool, true, false, not, ◌&&◌, Option, none, some, List, [], ◌∷◌, ◌++◌, map, Text, codes, text_eq,
  includes, all, if◌then◌else◌,
}
use rules.Value.{
  Value, undefined, bool, str, arr, obj, items, Items, from_items, Fields, get, keys, to_string,
}
use rules.Region.Laws.{strings}
use rules.Spec.Groups.{ServiceGroup}
use rules.Spec.Groups.Laws.{layout_value}
use rules.Spec.Saved.{from_options, option_map}

pub record DraftProvider : Type 0 where
  pub url : Text
  pub behavior : Text
  pub target : Text

pub record Draft : Type 0 where
  pub base_profile : Text
  pub region_mode : Text
  pub language : Value
  pub selected_regions : List Text
  pub preferred_node_regions : List Text
  pub disabled_services : List Text
  pub preferred_services : List Text
  pub allow_direct : Option Bool
  pub fail_closed : Option Bool
  pub adblock : Option Bool
  pub custom_rule_providers : Option (List DraftProvider)
  pub service_groups : Option (List ServiceGroup)

infixl 5 ◌>?◌
-- The next step, if this one gives a value.
abbrev pub ◌>?◌ {ℓ κ} : {A : Type ℓ} {B : Type κ} → Option A → (A → Option B) → Option B
none >? next = none
some a >? next = next a

-- A guard.
abbrev pub when {ℓ} : {B : Type ℓ} → Bool → Option B → Option B
when true o = o
when false o = none

-- `values.map(f)` for a callback that refuses some values.
unfoldable pub map_option {ℓ κ} :
    {A : Type ℓ} {B : Type κ} → (A → Option B) → List A → Option (List B)
map_option f [] = some []
map_option f (x ∷ xs) = f x >? λ y. map_option f xs >? λ ys. some (y ∷ ys)

abbrev pub text_of : Value → Option Text
text_of (str t) = some t
text_of _ = none

-- An array of strings.
unfoldable pub texts_of : Value → Option (List Text)
texts_of (arr vs) = map_option text_of (items vs)
texts_of _ = none

-- A boolean, or `undefined`.
unfoldable pub flag_of : Value → Option (Option Bool)
flag_of undefined = some none
flag_of (bool b) = some (some b)
flag_of _ = none

unfoldable pub copy_provider : Value → Option DraftProvider
copy_provider (obj fs) =
    when (all (λ k. includes k (codes "url" ∷ codes "behavior" ∷ codes "target" ∷ [])) (keys fs)) (
      text_of (get (codes "url") fs) >? λ url. text_of (get (codes "behavior") fs) >? λ behavior.
      text_of (get (codes "target") fs) >? λ target.
      some (record { url = url; behavior = behavior; target = target }))
copy_provider _ = none

unfoldable pub copy_providers : Value → Option (Option (List DraftProvider))
copy_providers undefined = some none
copy_providers (arr vs) = map_option copy_provider (items vs) >? λ qs. some (some qs)
copy_providers _ = none

unfoldable pub copy_service_group : Value → Option ServiceGroup
copy_service_group (obj fs) = text_of (get (codes "id") fs) >? λ id.
    text_of (get (codes "name") fs) >? λ name.
    texts_of (get (codes "serviceIds") fs) >? λ service_ids.
    texts_of (get (codes "routes") fs) >? λ routes.
    some (record { id = id; name = name; service_ids = service_ids; routes = routes })
copy_service_group _ = none

-- `copyServiceGroups`
unfoldable pub copy_service_groups : Value → Option (List ServiceGroup)
copy_service_groups (arr vs) = map_option copy_service_group (items vs)
copy_service_groups _ = none

-- `copyServiceGroups` of a value that may be missing
unfoldable pub copy_groups : Value → Option (Option (List ServiceGroup))
copy_groups undefined = some none
copy_groups v = copy_service_groups v >? λ gs. some (some gs)

-- `DRAFT_FIELDS`
abbrev pub draft_keys : List Text
draft_keys =
    codes "baseProfile"
    ∷ codes "regionMode"
    ∷ codes "selectedRegions"
    ∷ codes "preferredNodeRegions"
    ∷ codes "disabledServices"
    ∷ codes "preferredServices"
    ∷ codes "serviceGroups"
    ∷ codes "allowDirect"
    ∷ codes "failClosed"
    ∷ codes "adblock"
    ∷ codes "customRuleProviders"
    ∷ codes "language"
    ∷ []

-- The keys of `LANGUAGES`.
abbrev pub languages : List Text
languages = codes "en" ∷ codes "zh-Hant" ∷ codes "zh-Hans" ∷ []

-- The fields of an object that is copied; `none` is `null`.
unfoldable pub copy_fields : Fields → Option Draft
copy_fields fs = text_of (get (codes "baseProfile") fs) >? λ base.
    text_of (get (codes "regionMode") fs) >? λ mode.
    texts_of (get (codes "selectedRegions") fs) >? λ selected.
    texts_of (get (codes "preferredNodeRegions") fs) >? λ preferred_regions.
    texts_of (get (codes "disabledServices") fs) >? λ disabled.
    texts_of (get (codes "preferredServices") fs) >? λ preferred.
    flag_of (get (codes "allowDirect") fs) >? λ allow_direct.
    flag_of (get (codes "failClosed") fs) >? λ fail_closed.
    flag_of (get (codes "adblock") fs) >? λ adblock.
    copy_providers (get (codes "customRuleProviders") fs) >? λ providers.
    copy_groups (get (codes "serviceGroups") fs) >? λ groups.
    when
      (includes mode (codes "exclude" ∷ codes "only" ∷ [])
        && includes (to_string (get (codes "language") fs)) languages)
      (some (record {
        base_profile = base;
        region_mode = mode;
        language = get (codes "language") fs;
        selected_regions = selected;
        preferred_node_regions = preferred_regions;
        disabled_services = disabled;
        preferred_services = preferred;
        allow_direct = allow_direct;
        fail_closed = fail_closed;
        adblock = adblock;
        custom_rule_providers = providers;
        service_groups = groups;
      }))

-- `copyEditorDraft`
unfoldable pub copy_editor_draft : Value → Option Draft
copy_editor_draft (obj fs) = when (all (λ k. includes k draft_keys) (keys fs)) (copy_fields fs)
copy_editor_draft _ = none

abbrev pub draft_provider_value : DraftProvider → Value
draft_provider_value q = obj (
    Fields.field (codes "url") (str q.url) (
      Fields.field (codes "behavior") (str q.behavior)
        (Fields.field (codes "target") (str q.target) Fields.end)))

abbrev pub draft_providers_value : List DraftProvider → Value
draft_providers_value qs = arr (from_items (map draft_provider_value qs))

-- The object that a draft is, its fields in the order in which they are set.
unfoldable pub draft_fields : Draft → List (Text × Option Value)
draft_fields d =
    (codes "baseProfile", some (str d.base_profile))
    ∷ (codes "regionMode", some (str d.region_mode))
    ∷ (codes "language", some d.language)
    ∷ (codes "selectedRegions", some (strings d.selected_regions))
    ∷ (codes "preferredNodeRegions", some (strings d.preferred_node_regions))
    ∷ (codes "disabledServices", some (strings d.disabled_services))
    ∷ (codes "preferredServices", some (strings d.preferred_services))
    ∷ (codes "allowDirect", option_map bool d.allow_direct)
    ∷ (codes "failClosed", option_map bool d.fail_closed)
    ∷ (codes "adblock", option_map bool d.adblock)
    ∷ (codes "customRuleProviders", option_map draft_providers_value d.custom_rule_providers)
    ∷ (codes "serviceGroups", option_map layout_value d.service_groups)
    ∷ []

unfoldable pub draft_value : Draft → Value
draft_value d = obj (from_options (draft_fields d))
