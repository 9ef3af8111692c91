-- ===== src/Spec/Normalize/Stages.antt =====
-- The stages of `normalizeProfileSpec` of worker/solver.mjs behind an accepted object.
use rules.Base.{
  false, not, ◌&&◌, Option, some, List, Text, codes, text_eq, includes, any, ok, bind₄-eq-ok, ◌≡◌,
  refl, arith, Option-cases, Result-cases, inl, inr, if◌then◌else◌, subst,
}
use rules.Value.{Value, Fields, get, has_own, str, arr, obj, nil, or_default}
use rules.Catalog.{Template, Data}
use rules.Region.{canonicalize_many}
use rules.Spec.Services.{canonicalize_services, validate_service_rule_ownership}
use rules.Spec.Groups.{ServiceGroup}
use rules.Spec.Normalize.{
  ProfileSpec, Platform, template_for, optional_bool, optional_language, is_false, has_options,
  optional_providers, optional_groups, Options, checked_options, spec_without_groups, finish_spec,
  normalize_fields, with_template, normalize_profile_spec, is_direct, provider_list,
}

module _ (p : Platform) (d : Data) (format : Text) where
  -- What `checked_options` has checked, read off an accepted input.
  pub record Checked (input : Fields) (o : Options p d format) : Type 0 where
    pub disabled :
        canonicalize_services d format (or_default (get (codes "disabledServices") input) (arr nil))
        ≡ ok o.disabled_services
    pub preferred :
        canonicalize_services d format
          (or_default (get (codes "preferredServices") input) (arr nil))
        ≡ ok o.preferred_services
    pub providers :
        optional_providers p d format (get (codes "customRuleProviders") input)
        ≡ ok o.custom_rule_providers
    pub apart : any (λ s. includes s o.preferred_services) o.disabled_services ≡ false
    pub owners :
        (if text_eq format (codes "ini")
          then validate_service_rule_ownership o.disabled_services d
          else ok tt)
        ≡ ok tt
    pub allow_direct : optional_bool (get (codes "allowDirect") input) ≡ ok o.allow_direct
    pub fail_closed : optional_bool (get (codes "failClosed") input) ≡ ok o.fail_closed
    pub adblock : optional_bool (get (codes "adblock") input) ≡ ok o.adblock
    pub no_direct :
        (is_false o.allow_direct
          && any (λ q. is_direct q.target) (provider_list o.custom_rule_providers))
        ≡ false
    pub language : optional_language d (get (codes "language") input) ≡ ok o.language

  pub checked_options-Checked :
      (input : Fields) (o : Options p d format)
      → checked_options p d format input ≡ ok o
      → Checked input o
  unfolding checked_options
  checked_options-Checked input o e = record {
    disabled = ground arith;
    preferred = ground arith;
    providers = ground arith;
    apart = ground arith;
    owners = ground arith;
    allow_direct = ground arith;
    fail_closed = ground arith;
    adblock = ground arith;
    no_direct = ground arith;
    language = ground arith;
  }

  pub Checked-checked_options :
      (input : Fields) (o : Options p d format)
      → Checked input o
      → checked_options p d format input ≡ ok o
  unfolding checked_options
  Checked-checked_options input o c = rw c.disabled (
      rw c.preferred (
        rw c.providers (
          rw c.apart (
            rw c.owners (
              rw c.allow_direct
                (rw c.fail_closed (rw c.adblock (rw c.no_direct (rw c.language refl)))))))))

  module _ (input : Fields) (base : Text) (disabled only preferred : List Text)
      (o : Options p d format) (groups : Option (List ServiceGroup)) where
    -- The specification that an accepted input gives.
    abbrev pub result : ProfileSpec
    result = record (spec_without_groups p d format input base disabled only preferred o) {
      service_groups = groups;
    }

    -- What `normalizeProfileSpec` has checked below the lookup of the template.
    pub record Normalized (template : Template) (fs : Fields) : Type 0 where
      pub base_id : template.id ≡ base
      pub disabled_ok :
          canonicalize_many p.unicode d
            (or_default (get (codes "disabledNodeRegions") fs) (arr nil))
          ≡ ok disabled
      pub only_ok :
          canonicalize_many p.unicode d (or_default (get (codes "onlyNodeRegions") fs) (arr nil))
          ≡ ok only
      pub preferred_ok :
          canonicalize_many p.unicode d
            (or_default (get (codes "preferredNodeRegions") fs) (arr nil))
          ≡ ok preferred
      pub options : Checked fs o
      pub supported :
          (not template.supports_profile_options
            && has_options format
                (has_own (codes "serviceGroups") fs)
                (spec_without_groups p d format fs base disabled only preferred o)
                o.disabled_services
                o.preferred_services)
          ≡ false
      pub groups_ok :
          optional_groups p d format
            (has_own (codes "serviceGroups") fs)
            base
            disabled
            only
            (is_false o.allow_direct)
            (get (codes "serviceGroups") fs)
          ≡ ok groups

    pub Normalized-normalize_fields :
        (template : Template) (fs : Fields)
        → Normalized template fs
        → normalize_fields p d format fs template
          ≡ ok (record (spec_without_groups p d format fs base disabled only preferred o) {
            service_groups = groups;
          })
    unfolding normalize_fields finish_spec
    Normalized-normalize_fields template fs n = rw n.base_id (
        rw n.disabled_ok (
          rw n.only_ok (
            rw n.preferred_ok (
              rw (Checked-checked_options fs o n.options) (rw n.supported (rw n.groups_ok refl))))))

  -- The stages behind an accepted object.
  pub record Accepted (template : Template) (input : Fields) (s : ProfileSpec) : Type 0 where
    pub disabled : List Text
    pub only : List Text
    pub preferred : List Text
    pub o : Options p d format
    pub groups : Option (List ServiceGroup)
    pub same : result input template.id disabled only preferred o groups ≡ s
    pub stages : Normalized input template.id disabled only preferred o groups template input

  finish_spec-ok :
      (input : Fields) (template : Template) (disabled only preferred : List Text)
      (o : Options p d format) (s : ProfileSpec)
      → finish_spec p d format input template disabled only preferred o ≡ ok s
      → (groups : Option (List ServiceGroup)) × (result input template.id disabled only preferred o
            groups
          ≡ s)
        × ((not template.supports_profile_options
              && has_options format
                  (has_own (codes "serviceGroups") input)
                  (spec_without_groups p d format input template.id disabled only preferred o)
                  o.disabled_services
                  o.preferred_services)
            ≡ false)
        × (optional_groups p d format
              (has_own (codes "serviceGroups") input)
              template.id
              disabled
              only
              (is_false o.allow_direct)
              (get (codes "serviceGroups") input)
            ≡ ok groups)
  unfolding finish_spec
  finish_spec-ok input template disabled only preferred o s e =
      elim (Result-cases (
        optional_groups p d format (has_own (codes "serviceGroups") input) template.id disabled only
          (is_false o.allow_direct) (get (codes "serviceGroups") input))) [
            | inl (groups, ran) ↦ (groups, ground arith, ground arith, ran)
            | inr (code, failed) ↦ absurd (ground arith)
          ]

  pub normalize_fields-Accepted :
      (template : Template) (input : Fields) (s : ProfileSpec)
      → normalize_fields p d format input template ≡ ok s
      → Accepted template input s
  unfolding normalize_fields
  normalize_fields-Accepted template input s e =
      let (disabled, only, preferred, o, r₁, r₂, r₃, r₄, end') =
        bind₄-eq-ok
          (canonicalize_many p.unicode d
            (or_default (get (codes "disabledNodeRegions") input) (arr nil)))
          (canonicalize_many p.unicode d
            (or_default (get (codes "onlyNodeRegions") input) (arr nil)))
          (canonicalize_many p.unicode d
            (or_default (get (codes "preferredNodeRegions") input) (arr nil)))
          (checked_options p d format input) (finish_spec p d format input template) {s = s} e in
      let (groups, same, fine, ran) =
        finish_spec-ok input template disabled only preferred o s end' in
      record {
        disabled = disabled;
        only = only;
        preferred = preferred;
        o = o;
        groups = groups;
        same = same;
        stages = record {
          base_id = refl;
          disabled_ok = r₁;
          only_ok = r₂;
          preferred_ok = r₃;
          options = checked_options-Checked input o r₄;
          supported = fine;
          groups_ok = ran;
        };
      }

  -- Every accepted value is an object, and has passed the stages for some template.
  pub normalize_profile_spec-Accepted :
      (value : Value) (s : ProfileSpec)
      → normalize_profile_spec p d format value ≡ ok s
      → (template : Template) × (input : Fields) × Accepted template input s
  unfolding normalize_profile_spec with_template
  normalize_profile_spec-Accepted (obj input) s e =
      let base : Value = or_default (get (codes "baseProfile") input) (str (codes "ai-balanced")) in
      elim (Option-cases (template_for d format base)) [
        | inl missing ↦ absurd (ground arith)
        | inr (t, found) ↦ (t, input, normalize_fields-Accepted t input s (ground arith))
      ]
  normalize_profile_spec-Accepted _ s e = cc

  -- A specification without direct traffic has no rule provider that goes direct.
  pub normalize_profile_spec-no_direct :
      (value : Value) (s : ProfileSpec)
      → normalize_profile_spec p d format value ≡ ok s
      → s.allow_direct ≡ some false
      → any (λ q. is_direct q.target) (provider_list s.custom_rule_providers) ≡ false
  normalize_profile_spec-no_direct value s e h =
      let (template, input, a) = normalize_profile_spec-Accepted value s e in
      let fact : (is_false a.o.allow_direct
            && any (λ q. is_direct q.target) (provider_list a.o.custom_rule_providers))
          ≡ false =
        a.stages.options.no_direct in
      let moved : (is_false s.allow_direct
            && any (λ q. is_direct q.target) (provider_list s.custom_rule_providers))
          ≡ false =
        subst
          (λ (x : ProfileSpec).
            (is_false x.allow_direct
              && any (λ q. is_direct q.target) (provider_list x.custom_rule_providers))
            ≡ false)
          a.same fact in
      rw h at moved
