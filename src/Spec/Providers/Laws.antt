-- ===== src/Spec/Providers/Laws.antt =====
-- The rule providers that `normalizeCustomRuleProviders` of worker/solver.mjs lets through.
use rules.Base.{
  [], ◌∷◌, All, >>=-eq-ok, true, false, Option, some, List, map, Text, text_eq, codes, is_empty,
  trim, includes, ltb, length, any, all, ok, map_result, length-map_result, map_result_again, ◌≡◌,
  ◌≤◌, refl, sym, text_eq_iff, Option-cases, arith, Bool-cases, inl, inr,
}
use rules.Value.{Value, str, arr, obj, field, end, items, from_items, get}
use rules.Region.Laws.{items-from_items}
use rules.Spec.Providers.{
  Url, Behavior, classical, domain, Target, reject, direct, proxy, Provider, max_providers,
  max_url_length, is_unsafe_in_url, is_bad_url_text, is_bad_url, behavior_of, target_of,
  checked_url, normalize_provider, normalize_custom_rule_providers,
}

abbrev pub behavior_text : Behavior → Text
behavior_text classical = codes "classical"
behavior_text domain = codes "domain"

abbrev pub target_text : Target → Text
target_text reject = codes "reject"
target_text direct = codes "direct"
target_text proxy = codes "proxy"

-- The object that stands for a provider.
abbrev pub provider_value : Provider → Value
provider_value q = obj (
    field (codes "url") (str q.url) (
      field (codes "behavior") (str (behavior_text q.behavior))
        (field (codes "target") (str (target_text q.target)) end)))

module _ (parse_url : Text → Option Url) where
  checked_url_again :
      (v : Value) (url : Text)
      → checked_url parse_url v ≡ ok url
      → checked_url parse_url (str url) ≡ ok url
  unfolding checked_url
  checked_url_again (str t) url e = elim (Bool-cases (is_bad_url_text t)) [
    | inl bad ↦ absurd (ground arith)
    | inr good ↦ ground arith
  ]
  checked_url_again _ url e = cc

  -- The URL of an accepted provider was accepted as a text.
  normalize_provider-url :
      (v : Value) (q : Provider)
      → normalize_provider parse_url v ≡ ok q
      → (w : Value) × (checked_url parse_url w ≡ ok q.url)
  unfolding normalize_provider
  normalize_provider-url (obj fs) q e = (get (codes "url") fs, ground arith)
  normalize_provider-url _ q e = cc

  behavior_of-text : (b : Behavior) → behavior_of (str (behavior_text b)) ≡ ok b
  unfolding behavior_of text_eq
  behavior_of-text classical = refl
  behavior_of-text domain = refl

  target_of-text : (t : Target) → target_of (str (target_text t)) ≡ ok t
  unfolding target_of text_eq
  target_of-text reject = refl
  target_of-text direct = refl
  target_of-text proxy = refl

  -- An accepted provider is accepted again, as itself.
  normalize_provider_again :
      (v : Value) (q : Provider)
      → normalize_provider parse_url v ≡ ok q
      → normalize_provider parse_url (provider_value q) ≡ ok q
  unfolding normalize_provider get text_eq all includes
  normalize_provider_again v q e =
      let (w, checked) = normalize_provider-url v q e in
      rw (checked_url_again w q.url checked)
        (rw (behavior_of-text q.behavior) (rw (target_of-text q.target) refl))

  pub normalize_custom_rule_providers_idempotent :
      (value : Value) (qs : List Provider)
      → normalize_custom_rule_providers parse_url value ≡ ok qs
      → normalize_custom_rule_providers parse_url (arr (from_items (map provider_value qs))) ≡ ok qs
  unfolding normalize_custom_rule_providers
  normalize_custom_rule_providers_idempotent (arr vs) qs e =
      elim (Bool-cases (ltb max_providers (length (items vs)))) [
        | inl many ↦ absurd (ground arith)
        | inr few ↦
            let ran : map_result (normalize_provider parse_url) (items vs) ≡ ok qs = rw few at e in
            let again : map_result (normalize_provider parse_url) (map provider_value qs) ≡ ok qs =
              map_result_again (normalize_provider parse_url) provider_value (items vs) qs
                normalize_provider_again ran in
            let same : length (map provider_value qs) ≡ length (items vs) = omega (
              arith,
              length-map_result (normalize_provider parse_url) (items vs) qs ran,
              length-map_result (normalize_provider parse_url) (map provider_value qs) qs again,
            ) in
            rw (items-from_items (map provider_value qs)) (rw same (rw few again))
      ]
  normalize_custom_rule_providers_idempotent _ qs e = cc

  -- What is certain of each accepted provider.
  pub record IsSafe (q : Provider) : Type 0 where
    pub parsed : Url
    pub parses : parse_url q.url ≡ some parsed
    pub https : parsed.protocol ≡ codes "https:"
    pub has_host : is_empty parsed.hostname ≡ false
    pub no_username : is_empty parsed.username ≡ true
    pub no_password : is_empty parsed.password ≡ true
    pub no_fragment : is_empty parsed.hash ≡ true
    pub bounded : length q.url ≤ max_url_length
    pub trimmed : trim q.url ≡ q.url
    pub one_line : any is_unsafe_in_url q.url ≡ false

  checked_url-ok :
      (v : Value) (url : Text)
      → checked_url parse_url v ≡ ok url
      → (parsed : Url) × (parse_url url ≡ some parsed)
        × (is_bad_url_text url ≡ false)
        × (is_bad_url url parsed ≡ false)
  unfolding checked_url
  checked_url-ok (str t) url e = elim (Bool-cases (is_bad_url_text t)) [
    | inl bad ↦ absurd (ground arith)
    | inr good ↦ elim (Option-cases (parse_url t)) [
      | inl throws ↦ absurd (ground arith)
      | inr (parsed, parses) ↦ elim (Bool-cases (is_bad_url t parsed)) [
        | inl bad ↦ absurd (ground arith)
        | inr fine ↦
            let same : t ≡ url = ground arith in
            (parsed, rw (← same) parses, rw (← same) good, rw (← same) fine)
      ]
    ]
  ]
  checked_url-ok _ url e = cc

  -- Each accepted provider has a trimmed URL of bounded length, with no character that ends a line
  -- or a field of the output, that parses as HTTPS with a host, no credentials and no fragment.
  pub normalize_provider-IsSafe :
      (v : Value) (q : Provider) → normalize_provider parse_url v ≡ ok q → IsSafe q
  unfolding is_bad_url_text is_bad_url
  normalize_provider-IsSafe v q e =
      let (w, checked) = normalize_provider-url v q e in
      let (parsed, parses, good, fine) = checked_url-ok w q.url checked in
      record {
        parsed = parsed;
        parses = parses;
        https = (text_eq_iff parsed.protocol (codes "https:")).0 (ground arith);
        has_host = ground arith;
        no_username = ground arith;
        no_password = ground arith;
        no_fragment = ground arith;
        bounded = ground arith;
        trimmed = sym ((text_eq_iff q.url (trim q.url)).0 (ground arith));
        one_line = ground arith;
      }

  All-IsSafe :
      (vs : List Value) (qs : List Provider)
      → map_result (normalize_provider parse_url) vs ≡ ok qs
      → All IsSafe qs
  unfolding map_result
  All-IsSafe [] qs e = let same : [] ≡ qs = ground arith in rw (← same) tt
  All-IsSafe (v ∷ vs) qs e =
      let (q, one, more) = >>=-eq-ok (normalize_provider parse_url v) _ e in
      let (rest, ran, same) =
        >>=-eq-ok (map_result (normalize_provider parse_url) vs) (λ rest. ok (q ∷ rest)) more in
      let equal : q ∷ rest ≡ qs = ground arith in
      rw (← equal) (normalize_provider-IsSafe v q one, All-IsSafe vs rest ran)

  -- An accepted list of rule providers has at most ten, and each has a trimmed URL of bounded
  -- length, with no character that ends a line or a field of the output, that parses as HTTPS with a
  -- host, no credentials and no fragment.
  pub normalize_custom_rule_providers-IsSafe :
      (value : Value) (qs : List Provider)
      → normalize_custom_rule_providers parse_url value ≡ ok qs
      → (length qs ≤ max_providers) × All IsSafe qs
  unfolding normalize_custom_rule_providers
  normalize_custom_rule_providers-IsSafe (arr vs) qs e =
      elim (Bool-cases (ltb max_providers (length (items vs)))) [
        | inl many ↦ absurd (ground arith)
        | inr few ↦
            let ran : map_result (normalize_provider parse_url) (items vs) ≡ ok qs = rw few at e in
            (
              ground (arith, length-map_result (normalize_provider parse_url) (items vs) qs ran),
              All-IsSafe (items vs) qs ran,
            )
      ]
  normalize_custom_rule_providers-IsSafe _ qs e = cc
