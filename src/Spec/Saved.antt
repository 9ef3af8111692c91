-- ===== src/Spec/Saved.antt =====
-- The object that a canonical specification is saved as, and loaded from: what `JSON.parse` makes of
-- the `spec_json` that worker/store.mjs writes with `JSON.stringify` for a specification.
pub mod Reading
pub mod Options
pub mod Laws
use rules.Base.{Bool, Option, none, some, List, [], ◌∷◌, map, Text, codes}
use rules.Value.{Value, bool, num, str, obj, arr, from_items, Fields, end, field}
use rules.Region.Laws.{strings}
use rules.Spec.Providers.{Provider}
use rules.Spec.Providers.Laws.{provider_value}
use rules.Spec.Groups.{ServiceGroup}
use rules.Spec.Groups.Laws.{layout_value}
use rules.Spec.Normalize.{ProfileSpec}

-- The object with the listed fields; a field without a value is left out.
unfoldable pub from_options : List (Text × Option Value) → Fields
from_options [] = end
from_options ((k, none) ∷ l) = from_options l
from_options ((k, some v) ∷ l) = field k v (from_options l)

abbrev pub option_map {ℓ κ} : {A : Type ℓ} {B : Type κ} → (A → B) → Option A → Option B
option_map f none = none
option_map f (some a) = some (f a)

abbrev pub providers_value : List Provider → Value
providers_value qs = arr (from_items (map provider_value qs))

-- The fields in the order in which `normalizeProfileSpec` sets them.
unfoldable pub saved_fields : ProfileSpec → List (Text × Option Value)
saved_fields s =
    (codes "schemaVersion", some (num 1))
    ∷ (codes "baseProfile", some (str s.base_profile))
    ∷ (codes "disabledNodeRegions", some (strings s.disabled_node_regions))
    ∷ (codes "onlyNodeRegions", some (strings s.only_node_regions))
    ∷ (codes "preferredNodeRegions", some (strings s.preferred_node_regions))
    ∷ (codes "disabledServices", option_map strings s.disabled_services)
    ∷ (codes "preferredServices", option_map strings s.preferred_services)
    ∷ (codes "allowDirect", option_map bool s.allow_direct)
    ∷ (codes "failClosed", option_map bool s.fail_closed)
    ∷ (codes "language", s.language)
    ∷ (codes "serviceGroups", option_map layout_value s.service_groups)
    ∷ (codes "adblock", option_map bool s.adblock)
    ∷ (codes "customRuleProviders", option_map providers_value s.custom_rule_providers)
    ∷ []

unfoldable pub saved : ProfileSpec → Value
saved s = obj (from_options (saved_fields s))
