-- ===== src/Spec/Saved/Laws.antt =====
-- A specification that was normalized, saved and loaded is normalized to itself.
use rules.Base.{
  Bool, true, false, ◌||◌, ◌&&◌, Option, none, some, List, Text, codes, text_eq, includes, all,
  is_some, ok, ◌≡◌, refl, arith, Option-cases, inl, inr, subst, ap, find, find-true, text_eq_iff,
  ◌∙◌,
}
use rules.Value.{Value, Fields, get, has_own, keys, str, obj, or_default}
use rules.Catalog.{Template, Data}
use rules.Region.Laws.{strings, HasKeys, canonicalize_many_idempotent}
use rules.Spec.Groups.{ServiceGroup}
use rules.Spec.Normalize.{
  ProfileSpec, Platform, allowed_keys, template_for, is_false, Options, spec_without_groups,
  normalize_fields, with_template, normalize_profile_spec, own,
}
use rules.Spec.Normalize.Stages.{
  Checked, result, Normalized, Normalized-normalize_fields, normalize_fields-Accepted,
}
use rules.Spec.Saved.{from_options, option_map, saved_fields, saved}
use rules.Spec.Saved.Options.{
  services_again, providers_again, bool_again, language_again, groups_again, groups_flag,
}
use rules.Spec.Saved.Reading.{
  or_undefined, first_of_two, field_of, get-from_options, has_own-from_options,
  all-keys-from_options,
}

-- The saved fields that were optional in the input.
abbrev image : ProfileSpec → Fields
image s = from_options (saved_fields s)

get-image :
    (key : Text) (s : ProfileSpec)
    → get key (image s) ≡ or_undefined (field_of key (saved_fields s))
get-image key s = get-from_options key (saved_fields s)

image-keys : (s : ProfileSpec) → all (λ key. includes key allowed_keys) (keys (image s)) ≡ true
unfolding saved_fields all includes text_eq
image-keys s = all-keys-from_options (λ key. includes key allowed_keys) (saved_fields s) refl

get-disabled :
    (s : ProfileSpec)
    → get (codes "disabledNodeRegions") (image s) ≡ strings s.disabled_node_regions
unfolding saved_fields field_of text_eq
get-disabled s = get-image (codes "disabledNodeRegions") s

module _ (p : Platform) (d : Data) (format : Text) where
  module _ (input : Fields) (base : Text) (disabled only preferred : List Text)
      (o : Options p d format) (groups : Option (List ServiceGroup)) where
    Checked-image :
        Checked p d format input o
        → Checked p d format
            (image (result p d format input base disabled only preferred o groups))
            o
    unfolding saved_fields field_of text_eq
    Checked-image c = record {
      disabled =
          rw
            (get-image (codes "disabledServices")
              (result p d format input base disabled only preferred o groups))
            (services_again p d format (codes "disabledServices") input o.disabled_services
              c.disabled);
      preferred =
          rw
            (get-image (codes "preferredServices")
              (result p d format input base disabled only preferred o groups))
            (services_again p d format (codes "preferredServices") input o.preferred_services
              c.preferred);
      providers =
          rw
            (get-image (codes "customRuleProviders")
              (result p d format input base disabled only preferred o groups))
            (providers_again p d format (get (codes "customRuleProviders") input)
              o.custom_rule_providers c.providers);
      apart = c.apart;
      owners = c.owners;
      allow_direct =
          rw
            (get-image (codes "allowDirect")
              (result p d format input base disabled only preferred o groups))
            (bool_again p d format (get (codes "allowDirect") input) o.allow_direct c.allow_direct);
      fail_closed =
          rw
            (get-image (codes "failClosed")
              (result p d format input base disabled only preferred o groups))
            (bool_again p d format (get (codes "failClosed") input) o.fail_closed c.fail_closed);
      adblock =
          rw
            (get-image (codes "adblock")
              (result p d format input base disabled only preferred o groups))
            (bool_again p d format (get (codes "adblock") input) o.adblock c.adblock);
      no_direct = c.no_direct;
      language =
          rw
            (get-image (codes "language")
              (result p d format input base disabled only preferred o groups))
            (language_again p d format (get (codes "language") input) o.language c.language);
    }

    -- The same fields are own fields of the input and of the saved object.
    own-again :
        (b : Bool) (ids : List Text)
        → own (is_some (first_of_two (option_map strings (own b ids)) none)) ids ≡ own b ids
    own-again true ids = refl
    own-again false ids = refl

    spec_again :
        spec_without_groups p d format
          (image (result p d format input base disabled only preferred o groups))
          base
          disabled
          only
          preferred
          o
        ≡ spec_without_groups p d format input base disabled only preferred o
    unfolding saved_fields field_of text_eq
    spec_again =
        rw
          (has_own-from_options (codes "disabledServices")
            (saved_fields (result p d format input base disabled only preferred o groups)))
          (rw
            (has_own-from_options (codes "preferredServices")
              (saved_fields (result p d format input base disabled only preferred o groups)))
            (rw (own-again (has_own (codes "disabledServices") input) o.disabled_services) (
              rw (own-again (has_own (codes "preferredServices") input) o.preferred_services)
                refl)))

    Normalized-image :
        (template : Template)
        → HasKeys p.unicode d
        → Normalized p d format input base disabled only preferred o groups template input
        → Normalized p d format input base disabled only preferred o groups template
            (image (result p d format input base disabled only preferred o groups))
    unfolding saved_fields field_of text_eq
    Normalized-image template keyed n = record {
      base_id = n.base_id;
      disabled_ok =
          rw
            (get-image (codes "disabledNodeRegions")
              (result p d format input base disabled only preferred o groups))
            (canonicalize_many_idempotent p.unicode d _ disabled keyed n.disabled_ok);
      only_ok =
          rw
            (get-image (codes "onlyNodeRegions")
              (result p d format input base disabled only preferred o groups))
            (canonicalize_many_idempotent p.unicode d _ only keyed n.only_ok);
      preferred_ok =
          rw
            (get-image (codes "preferredNodeRegions")
              (result p d format input base disabled only preferred o groups))
            (canonicalize_many_idempotent p.unicode d _ preferred keyed n.preferred_ok);
      options = Checked-image n.options;
      supported = rw spec_again (
          rw
            (has_own-from_options (codes "serviceGroups")
              (saved_fields (result p d format input base disabled only preferred o groups)))
            (rw
              (groups_flag p d format base disabled only (is_false o.allow_direct)
                (has_own (codes "serviceGroups") input) (get (codes "serviceGroups") input) groups
                n.groups_ok)
              n.supported));
      groups_ok =
          rw
            (has_own-from_options (codes "serviceGroups")
              (saved_fields (result p d format input base disabled only preferred o groups)))
            (rw
              (get-image (codes "serviceGroups")
                (result p d format input base disabled only preferred o groups))
              (groups_again p d format base disabled only (is_false o.allow_direct)
                (has_own (codes "serviceGroups") input) (get (codes "serviceGroups") input) groups
                n.groups_ok));
    }

-- A template is found by its id.
template_for-id :
    (d : Data) (format : Text) (v : Value) (t : Template)
    → template_for d format v ≡ some t
    → v ≡ str t.id
unfolding template_for
template_for-id d format (str base) t e = elim (Option-cases d.templates) [
  | inl missing ↦ ground arith
  | inr (templates, present) ↦
      let found : find (λ (x : Template). text_eq x.output_format format && text_eq x.id base)
            templates
          ≡ some t =
        rw present at e in
      let hit =
        find-true (λ (x : Template). text_eq x.output_format format && text_eq x.id base) templates
          found in
      ground (arith, text_eq_iff t.id base)
]
template_for-id d format _ t e = cc

module _ (p : Platform) (d : Data) (format : Text) where
  with_template-saved :
      (input : Fields) (v : Value) (s : ProfileSpec)
      → HasKeys p.unicode d
      → with_template p d format input (template_for d format v) ≡ ok s
      → with_template p d format (image s) (template_for d format (str s.base_profile)) ≡ ok s
  unfolding with_template
  with_template-saved input v s keyed e = elim (Option-cases (template_for d format v)) [
    | inl missing ↦ absurd (ground arith)
    | inr (t, found) ↦
        let a = normalize_fields-Accepted p d format t input s (rw found at e) in
        let n =
          Normalized-image p d format input t.id a.disabled a.only a.preferred a.o a.groups t keyed
            a.stages in
        let res : ProfileSpec =
          result p d format input t.id a.disabled a.only a.preferred a.o a.groups in
        let again : normalize_fields p d format (image res) t ≡ ok res =
          Normalized-normalize_fields p d format input t.id a.disabled a.only a.preferred a.o
            a.groups t (image res) n
          ∙ ap (λ (x : ProfileSpec). ok (record x { service_groups = a.groups }))
              (spec_again p d format input t.id a.disabled a.only a.preferred a.o a.groups) in
        let own_id : template_for d format (str t.id) ≡ some t =
          subst (λ x. template_for d format x ≡ some t) (template_for-id d format v t found)
            found in
        subst
          (λ (x : ProfileSpec).
            with_template p d format (image x) (template_for d format (str x.base_profile)) ≡ ok x)
          a.same (rw own_id again)
  ]

  get-version : (s : ProfileSpec) → get (codes "schemaVersion") (image s) ≡ Value.num 1
  unfolding saved_fields field_of text_eq
  get-version s = get-image (codes "schemaVersion") s

  get-base : (s : ProfileSpec) → get (codes "baseProfile") (image s) ≡ str s.base_profile
  unfolding saved_fields field_of text_eq
  get-base s = get-image (codes "baseProfile") s

  -- A specification that is accepted, saved and loaded is accepted again and stays what it is, in a
  -- catalog in which the alias key of every region's id is not empty.
  pub normalize_profile_spec-saved :
      (value : Value) (s : ProfileSpec)
      → HasKeys p.unicode d
      → normalize_profile_spec p d format value ≡ ok s
      → normalize_profile_spec p d format (saved s) ≡ ok s
  unfolding normalize_profile_spec saved
  normalize_profile_spec-saved (obj input) s keyed e =
      let base : Value = or_default (get (codes "baseProfile") input) (str (codes "ai-balanced")) in
      let known : (text_eq format (codes "ini") || text_eq format (codes "yaml")) ≡ true =
        ground arith in
      let found : with_template p d format input (template_for d format base) ≡ ok s =
        ground arith in
      rw (image-keys s) (
        rw (get-version s)
          (rw known (rw (get-base s) (with_template-saved input base s keyed found))))
  normalize_profile_spec-saved _ s keyed e = cc
