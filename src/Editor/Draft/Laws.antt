-- ===== src/Editor/Draft/Laws.antt =====
-- `copyEditorDraft` of public/editor-state.mjs leaves its own copies alone.
use rules.Base.{
  Bool, true, false, ◌&&◌, Option, none, some, List, [], ◌∷◌, map, Text, codes, text_eq, includes,
  all, ◌≡◌, refl, subst,
}
use mathlib.Core.Option.{some-injective}
use rules.Value.{Value, bool, str, obj, items, from_items, get, keys, to_string}
use rules.Region.Laws.{strings}
use rules.Spec.Groups.{ServiceGroup}
use rules.Spec.Groups.Laws.{group_value, layout_value}
use rules.Spec.Saved.{from_options, option_map}
use rules.Spec.Saved.Reading.{
  or_undefined, first_of_two, field_of, get-from_options, all-keys-from_options,
}
use rules.Editor.Draft.{
  DraftProvider, Draft, ◌>?◌, when, map_option, text_of, texts_of, flag_of, copy_provider,
  copy_providers, copy_service_group, copy_service_groups, copy_groups, draft_keys, languages,
  copy_fields, copy_editor_draft, draft_provider_value, draft_providers_value, draft_fields,
  draft_value,
}

-- The mode and the language of a draft are known ones.
abbrev pub IsDraft : Draft → Type 0
IsDraft d =
    (includes d.region_mode (codes "exclude" ∷ codes "only" ∷ [])
      && includes (to_string d.language) languages)
    ≡ true

map_option-map {ℓ} :
    {A : Type ℓ} (f : Value → Option A) (g : A → Value) (xs : List A)
    → ((x : A) → f (g x) ≡ some x)
    → map_option f (items (from_items (map g xs))) ≡ some xs
unfolding map_option
map_option-map f g [] h = refl
map_option-map f g (x ∷ xs) h = rw (h x) (rw (map_option-map f g xs h) refl)

texts_of-strings : (ts : List Text) → texts_of (strings ts) ≡ some ts
unfolding texts_of
texts_of-strings ts = map_option-map text_of str ts (λ t. refl)

flag_of-flag :
    (o : Option Bool) → flag_of (or_undefined (first_of_two (option_map bool o) none)) ≡ some o
unfolding flag_of
flag_of-flag none = refl
flag_of-flag (some b) = refl

copy_provider-value : (q : DraftProvider) → copy_provider (draft_provider_value q) ≡ some q
unfolding copy_provider get text_eq all includes
copy_provider-value q = refl

copy_providers-value :
    (o : Option (List DraftProvider))
    → copy_providers (or_undefined (first_of_two (option_map draft_providers_value o) none))
      ≡ some o
unfolding copy_providers
copy_providers-value none = refl
copy_providers-value (some qs) =
    rw (map_option-map copy_provider draft_provider_value qs copy_provider-value) refl

copy_service_group-value : (g : ServiceGroup) → copy_service_group (group_value g) ≡ some g
unfolding copy_service_group get text_eq
copy_service_group-value g =
    rw (texts_of-strings g.service_ids) (rw (texts_of-strings g.routes) refl)

copy_groups-value :
    (o : Option (List ServiceGroup))
    → copy_groups (or_undefined (first_of_two (option_map layout_value o) none)) ≡ some o
unfolding copy_groups copy_service_groups
copy_groups-value none = refl
copy_groups-value (some gs) =
    rw (map_option-map copy_service_group group_value gs copy_service_group-value) refl

draft_keys_known :
    (d : Draft) → all (λ k. includes k draft_keys) (keys (from_options (draft_fields d))) ≡ true
unfolding draft_fields all includes text_eq
draft_keys_known d = all-keys-from_options (λ k. includes k draft_keys) (draft_fields d) refl

-- A field of the object that a draft is.
read :
    (d : Draft) (key : Text)
    → get key (from_options (draft_fields d)) ≡ or_undefined (field_of key (draft_fields d))
read d key = get-from_options key (draft_fields d)

copied_options :
    (d : Draft)
    → IsDraft d
    → (flag_of (get (codes "allowDirect") (from_options (draft_fields d))) >? λ allow_direct.
        flag_of (get (codes "failClosed") (from_options (draft_fields d))) >? λ fail_closed.
        flag_of (get (codes "adblock") (from_options (draft_fields d))) >? λ adblock.
        copy_providers (get (codes "customRuleProviders") (from_options (draft_fields d)))
        >? λ providers.
            copy_groups (get (codes "serviceGroups") (from_options (draft_fields d))) >? λ groups.
            when
              (includes d.region_mode (codes "exclude" ∷ codes "only" ∷ [])
                && includes
                    (to_string (get (codes "language") (from_options (draft_fields d))))
                    languages)
              (some (record d {
                language = get (codes "language") (from_options (draft_fields d));
                allow_direct = allow_direct;
                fail_closed = fail_closed;
                adblock = adblock;
                custom_rule_providers = providers;
                service_groups = groups;
              })))
      ≡ some d
unfolding draft_fields field_of text_eq
copied_options d known = rw (read d (codes "allowDirect")) (
    rw (flag_of-flag d.allow_direct) (
      rw (read d (codes "failClosed")) (
        rw (flag_of-flag d.fail_closed) (
          rw (read d (codes "adblock")) (
            rw (flag_of-flag d.adblock) (
              rw (read d (codes "customRuleProviders")) (
                rw (copy_providers-value d.custom_rule_providers) (
                  rw (read d (codes "serviceGroups")) (
                    rw (copy_groups-value d.service_groups)
                      (rw (read d (codes "language")) (rw known refl)))))))))))

-- The object that a draft is, is copied as that draft, if its mode and its language are known ones.
pub copy_editor_draft-draft_value :
    (d : Draft) → IsDraft d → copy_editor_draft (draft_value d) ≡ some d
unfolding copy_editor_draft draft_value copy_fields draft_fields field_of text_eq
copy_editor_draft-draft_value d known = rw (draft_keys_known d) (
    rw (read d (codes "baseProfile")) (
      rw (read d (codes "regionMode")) (
        rw (read d (codes "selectedRegions")) (
          rw (texts_of-strings d.selected_regions) (
            rw (read d (codes "preferredNodeRegions")) (
              rw (texts_of-strings d.preferred_node_regions) (
                rw (read d (codes "disabledServices")) (
                  rw (texts_of-strings d.disabled_services) (
                    rw (read d (codes "preferredServices"))
                      (rw (texts_of-strings d.preferred_services) (copied_options d known)))))))))))

>?-eq-some {ℓ κ} :
    {A : Type ℓ} {B : Type κ} (o : Option A) (next : A → Option B) {b : B}
    → (o >? next) ≡ some b
    → (a : A) × (next a ≡ some b)
>?-eq-some none next e = cc
>?-eq-some (some a) next e = (a, e)

when-eq-some {ℓ} :
    {B : Type ℓ} (c : Bool) (o : Option B) {b : B} → when c o ≡ some b → (c ≡ true) × (o ≡ some b)
when-eq-some true o e = (refl, e)
when-eq-some false o e = cc

-- Copies are drafts with a known mode and a known language.
pub copy_editor_draft-IsDraft : (v : Value) (d : Draft) → copy_editor_draft v ≡ some d → IsDraft d
unfolding copy_editor_draft copy_fields
copy_editor_draft-IsDraft (obj fs) d e =
    let (known, copied) =
      when-eq-some (all (λ k. includes k draft_keys) (keys fs)) (copy_fields fs) e in
    let (base, e₁) = >?-eq-some (text_of (get (codes "baseProfile") fs)) _ copied in
    let (mode, e₂) = >?-eq-some (text_of (get (codes "regionMode") fs)) _ e₁ in
    let (selected, e₃) = >?-eq-some (texts_of (get (codes "selectedRegions") fs)) _ e₂ in
    let (regions, e₄) = >?-eq-some (texts_of (get (codes "preferredNodeRegions") fs)) _ e₃ in
    let (disabled, e₅) = >?-eq-some (texts_of (get (codes "disabledServices") fs)) _ e₄ in
    let (preferred, e₆) = >?-eq-some (texts_of (get (codes "preferredServices") fs)) _ e₅ in
    let (allow_direct, e₇) = >?-eq-some (flag_of (get (codes "allowDirect") fs)) _ e₆ in
    let (fail_closed, e₈) = >?-eq-some (flag_of (get (codes "failClosed") fs)) _ e₇ in
    let (adblock, e₉) = >?-eq-some (flag_of (get (codes "adblock") fs)) _ e₈ in
    let (providers, e₁₀) =
      >?-eq-some (copy_providers (get (codes "customRuleProviders") fs)) _ e₉ in
    let (groups, e₁₁) = >?-eq-some (copy_groups (get (codes "serviceGroups") fs)) _ e₁₀ in
    let (fine, same) =
      when-eq-some
        (includes mode (codes "exclude" ∷ codes "only" ∷ [])
          && includes (to_string (get (codes "language") fs)) languages)
        _ e₁₁ in
    subst IsDraft (some-injective _ d same) fine
copy_editor_draft-IsDraft _ d e = cc

-- A value that is copied gives a draft whose object is copied again, as the same draft.
pub copy_editor_draft_idempotent :
    (v : Value) (d : Draft)
    → copy_editor_draft v ≡ some d
    → copy_editor_draft (draft_value d) ≡ some d
copy_editor_draft_idempotent v d e =
    copy_editor_draft-draft_value d (copy_editor_draft-IsDraft v d e)
