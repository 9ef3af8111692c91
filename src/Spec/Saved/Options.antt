-- ===== src/Spec/Saved/Options.antt =====
-- Each option of a specification, read again from the saved object.
use rules.Base.{
  Bool, true, false, Option, none, some, List, Text, is_some, ok, >>=-eq-ok, ◌≡◌, refl, arith,
  Bool-cases, inl, inr, subst,
}
use rules.Value.{Value, Fields, get, has_own, arr, nil, or_default, bool, undefined}
use rules.Catalog.{Data}
use rules.Region.Laws.{strings}
use rules.Spec.Services.{canonicalize_services}
use rules.Spec.Services.Laws.{canonicalize_services_idempotent}
use rules.Spec.Providers.{Provider, normalize_custom_rule_providers}
use rules.Spec.Providers.Laws.{normalize_custom_rule_providers_idempotent}
use rules.Spec.Groups.{ServiceGroup, normalize_service_groups}
use rules.Spec.Groups.Laws.{layout_value, normalize_service_groups_idempotent}
use rules.Spec.Normalize.{
  Platform, optional_bool, optional_language, optional_providers, optional_groups, own,
}
use rules.Spec.Saved.{option_map, providers_value}
use rules.Spec.Saved.Reading.{or_undefined, first_of_two}

first_of_two-none : (o : Option Value) → first_of_two o none ≡ o
first_of_two-none none = refl
first_of_two-none (some v) = refl

get-absent : (key : Text) (fs : Fields) → has_own key fs ≡ false → get key fs ≡ undefined
unfolding has_own get
get-absent key Fields.end h = refl
get-absent key (Fields.field k v fs) h = ground (arith, get-absent key fs)

module _ (p : Platform) (d : Data) (format : Text) where
  -- Each option of the input, read again from the saved object.
  pub services_again :
      (key : Text) (input : Fields) (ids : List Text)
      → canonicalize_services d format (or_default (get key input) (arr nil)) ≡ ok ids
      → canonicalize_services d format (
          or_default
            (or_undefined (first_of_two (option_map strings (own (has_own key input) ids)) none))
            (arr nil))
        ≡ ok ids
  services_again key input ids e = elim (Bool-cases (has_own key input)) [
    | inl present ↦
        rw present
          (canonicalize_services_idempotent d format (or_default (get key input) (arr nil)) ids e)
    | inr absent ↦ rw absent (rw (get-absent key input absent) at e)
  ]

  pub providers_again :
      (v : Value) (o : Option (List Provider))
      → optional_providers p d format v ≡ ok o
      → optional_providers p d format
          (or_undefined (first_of_two (option_map providers_value o) none))
        ≡ ok o
  unfolding optional_providers
  providers_again v none e = refl
  providers_again undefined (some qs) e = cc
  providers_again v (some qs) e =
      let (ps, ran, same) =
        >>=-eq-ok (normalize_custom_rule_providers p.parse_url v) (λ ps. ok (some ps)) e in
      let equal : ps ≡ qs = ground arith in
      rw (normalize_custom_rule_providers_idempotent p.parse_url v qs (rw (← equal) ran)) refl

  pub bool_again :
      (v : Value) (o : Option Bool)
      → optional_bool v ≡ ok o
      → optional_bool (or_undefined (first_of_two (option_map bool o) none)) ≡ ok o
  unfolding optional_bool
  bool_again v none e = refl
  bool_again v (some b) e = refl

  pub language_again :
      (v : Value) (o : Option Value)
      → optional_language d v ≡ ok o
      → optional_language d (or_undefined (first_of_two o none)) ≡ ok o
  unfolding optional_language
  language_again v none e = refl
  language_again undefined (some w) e = cc
  language_again v (some w) e =
      let same : v ≡ w = ground arith in subst (λ x. optional_language d x ≡ ok (some w)) same e

  pub groups_again :
      (base : Text) (disabled only : List Text) (direct_disabled : Bool) (b : Bool) (v : Value)
      (o : Option (List ServiceGroup))
      → optional_groups p d format b base disabled only direct_disabled v ≡ ok o
      → optional_groups p d format
          (is_some (first_of_two (option_map layout_value o) none))
          base
          disabled
          only
          direct_disabled
          (or_undefined (first_of_two (option_map layout_value o) none))
        ≡ ok o
  unfolding optional_groups
  groups_again base disabled only direct_disabled b v none e = refl
  groups_again base disabled only direct_disabled false v (some gs) e = cc
  groups_again base disabled only direct_disabled true v (some gs) e =
      let (raw, ran, same) =
        >>=-eq-ok (normalize_service_groups d format base disabled only direct_disabled v)
          (λ gs. ok (some gs)) e in
      let equal : raw ≡ gs = ground arith in
      rw
        (normalize_service_groups_idempotent d format base disabled only direct_disabled v gs
          (rw (← equal) ran))
        refl

  pub groups_flag :
      (base : Text) (disabled only : List Text) (direct_disabled : Bool) (b : Bool) (v : Value)
      (o : Option (List ServiceGroup))
      → optional_groups p d format b base disabled only direct_disabled v ≡ ok o
      → is_some (first_of_two (option_map layout_value o) none) ≡ b
  unfolding optional_groups
  groups_flag base disabled only direct_disabled false v none e = refl
  groups_flag base disabled only direct_disabled true v none e =
      let (raw, ran, same) =
        >>=-eq-ok (normalize_service_groups d format base disabled only direct_disabled v)
          (λ gs. ok (some gs)) e in
      absurd (ground arith)
  groups_flag base disabled only direct_disabled false v (some gs) e = cc
  groups_flag base disabled only direct_disabled true v (some gs) e = refl
