-- ===== src/Spec/Providers.antt =====
-- `normalizeCustomRuleProviders` of worker/solver.mjs: the rule providers that a caller adds.
pub mod Laws
use rules.Base.{
  ℕ, Bool, true, false, not, ◌&&◌, ◌||◌, Option, none, some, List, [], ◌∷◌, ◌++◌, map, Text,
  text_eq, codes, is_empty, is_space, trim, includes, leb, ltb, ◌==◌, if◌then◌else◌, Result, ok,
  err, ◌>>=◌, ◌>>◌, map_result, any, all, throw_if, length,
}
use rules.Value.{Value, str, arr, obj, items, Fields, keys, get}
use rules.Spec.Error.{Error}
use rules.Spec.WellFormed.{is_well_formed_unicode}

-- The parts of a parsed URL that the program reads.
pub record Url : Type 0 where
  pub protocol : Text
  pub hostname : Text
  pub username : Text
  pub password : Text
  pub hash : Text

pub data Behavior : Type 0 where
  classical domain : Behavior

pub data Target : Type 0 where
  reject direct proxy : Target

pub record Provider : Type 0 where
  pub url : Text
  pub behavior : Behavior
  pub target : Target

abbrev pub max_providers : ℕ
max_providers = 10

abbrev pub max_url_length : ℕ
max_url_length = 2048

-- `\p{Cc}`
abbrev pub is_control : ℕ → Bool
is_control c = leb c 31 || (leb 127 c && leb c 159)

-- The class of `CUSTOM_RULE_PROVIDER_UNSAFE_URL_RE`.
unfoldable pub is_unsafe_in_url : ℕ → Bool
is_unsafe_in_url c =
    c == b',' || c == b'`' || c == b'\\' || is_space c || is_control c || c == 0x2028 || c == 0x2029

-- `/^https:\/\/([^/?#]*)/iu`: letters in any case, and `s` also as the long s that folds to it
abbrev scheme : List (List ℕ)
scheme =
    (b'h' ∷ b'H' ∷ [])
    ∷ (b't' ∷ b'T' ∷ [])
    ∷ (b't' ∷ b'T' ∷ [])
    ∷ (b'p' ∷ b'P' ∷ [])
    ∷ (b's' ∷ b'S' ∷ 0x17f ∷ [])
    ∷ (b':' ∷ [])
    ∷ (b'/' ∷ [])
    ∷ (b'/' ∷ [])
    ∷ []

unfoldable pub after_scheme : List (List ℕ) → Text → Option Text
after_scheme [] s = some s
after_scheme (p ∷ ps) [] = none
after_scheme (p ∷ ps) (c ∷ s) = if any (λ x. x == c) p then after_scheme ps s else none

unfoldable pub authority_part : Text → Text
authority_part [] = []
authority_part (c ∷ s) =
    let rest = authority_part s in if c == b'/' || c == b'?' || c == b'#' then [] else c ∷ rest

unfoldable pub authority : Text → Option Text
authority url = elim (after_scheme scheme url) [ none ↦ none | some s ↦ some (authority_part s) ]

-- `typeof authority !== "string" || authority.includes("@")`
abbrev pub has_no_or_bad_authority : Option Text → Bool
has_no_or_bad_authority none = true
has_no_or_bad_authority (some a) = any (λ c. c == b'@') a

-- The first test of a URL text. The constraint is that of the character tests, before parsing.
unfoldable pub is_bad_url_text : Text → Bool
is_bad_url_text url =
    is_empty url
    || ltb max_url_length (length url)
    || not (text_eq url (trim url))
    || not (is_well_formed_unicode url)
    || any is_unsafe_in_url url
    || any (λ c. c == b'#') url

unfoldable pub is_bad_url : Text → Url → Bool
is_bad_url url parsed =
    not (text_eq parsed.protocol (codes "https:"))
    || is_empty parsed.hostname
    || not (is_empty parsed.username)
    || not (is_empty parsed.password)
    || not (is_empty parsed.hash)
    || has_no_or_bad_authority (authority url)

abbrev pub provider_keys : List Text
provider_keys = codes "url" ∷ codes "behavior" ∷ codes "target" ∷ []

unfoldable pub behavior_of : Value → Result Error Behavior
behavior_of (str s) =
    if text_eq s (codes "classical")
    then ok classical
    else if text_eq s (codes "domain")
    then ok domain
    else err Error.invalid_custom_rule_provider
behavior_of _ = err Error.invalid_custom_rule_provider

unfoldable pub target_of : Value → Result Error Target
target_of (str s) =
    if text_eq s (codes "reject")
    then ok reject
    else if text_eq s (codes "direct")
    then ok direct
    else if text_eq s (codes "proxy")
    then ok proxy
    else err Error.invalid_custom_rule_provider
target_of _ = err Error.invalid_custom_rule_provider

-- `new URL(url)` is the platform's: `none` where it throws.
module _ (parse_url : Text → Option Url) where
  unfoldable pub checked_url : Value → Result Error Text
  checked_url (str url) =
      if is_bad_url_text url
      then err Error.invalid_custom_rule_provider_url
      else elim (parse_url url) [
        | none ↦ err Error.invalid_custom_rule_provider_url
        | some parsed ↦
            if is_bad_url url parsed then err Error.invalid_custom_rule_provider_url else ok url
      ]
  checked_url _ = err Error.invalid_custom_rule_provider_url

  -- The callback of `normalizeCustomRuleProviders`.
  unfoldable pub normalize_provider : Value → Result Error Provider
  normalize_provider (obj provider) = do
    throw_if (not (all (λ key. includes key provider_keys) (keys provider)))
        Error.unknown_custom_rule_provider_field
    url ← checked_url (get (codes "url") provider)
    behavior ← behavior_of (get (codes "behavior") provider)
    target ← target_of (get (codes "target") provider)
    ok (record { url = url; behavior = behavior; target = target })
  normalize_provider _ = err Error.invalid_custom_rule_provider

  unfoldable pub normalize_custom_rule_providers : Value → Result Error (List Provider)
  normalize_custom_rule_providers (arr values) = do
    throw_if (ltb max_providers (length (items values))) Error.too_many_custom_rule_providers
    map_result normalize_provider (items values)
  normalize_custom_rule_providers _ = err Error.invalid_custom_rule_providers
