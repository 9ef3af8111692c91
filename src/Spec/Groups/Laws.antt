-- ===== src/Spec/Groups/Laws.antt =====
-- An accepted layout of service groups is accepted again, as itself (`normalizeServiceGroups` of
-- worker/solver.mjs).
use rules.Base.{
  Bool, List, [], ◌∷◌, map, Text, text_eq, codes, suc, includes, ltb, length, all, ok, >>=-eq-ok,
  ◌≡◌, refl, arith, Bool-cases, inl, inr, ap, subst, Result-cases,
}
use rules.Value.{Value, str, arr, obj, field, end, items, from_items, get}
use rules.Catalog.{GroupEntry, GroupLimits, Data}
use rules.Region.Laws.{strings, items-from_items}
use rules.Spec.Groups.{
  ServiceGroup, Rules, Taken, checked_id, checked_name, checked_members, checked_service_ids,
  checked_tokens, checked_routes, checked_choices, checked_group, take_group, checked_groups,
  checked_layout, checked_whole, layout_rules, normalize_service_groups,
}
use rules.Spec.GroupCatalog.{service_group_catalog, service_group_limits}

-- The object that stands for a group of a layout.
abbrev pub group_value : ServiceGroup → Value
group_value g = obj (
    field (codes "id") (str g.id) (
      field (codes "name") (str g.name) (
        field (codes "serviceIds") (strings g.service_ids)
          (field (codes "routes") (strings g.routes) end))))

module _ (limits : GroupLimits) (taken : Taken) where
  checked_id_again :
      (v : Value) (id : Text)
      → checked_id limits taken v ≡ ok id
      → checked_id limits taken (str id) ≡ ok id
  unfolding checked_id
  checked_id_again (str t) id e =
      let same : t ≡ id = ground arith in
      subst (λ x. checked_id limits taken (str x) ≡ ok id) same e
  checked_id_again _ id e = cc

module _ (r : Rules) (taken : Taken) where
  checked_name_again :
      (v : Value) (name : Text)
      → checked_name r taken v ≡ ok name
      → checked_name r taken (str name) ≡ ok name
  unfolding checked_name
  checked_name_again (str t) name e =
      let same : t ≡ name = ground arith in
      subst (λ x. checked_name r taken (str x) ≡ ok name) same e
  checked_name_again _ name e = cc

checked_members_again :
    (source : List (Text × GroupEntry)) (members assigned : List Text) (vs : List Value)
    (ids : List Text)
    → checked_members source members assigned vs ≡ ok ids
    → checked_members source members assigned (map str ids) ≡ ok ids
unfolding checked_members
checked_members_again source members assigned [] ids e = ground arith
checked_members_again source members assigned (str t ∷ vs) ids e =
    elim (Result-cases (checked_members source (t ∷ members) (t ∷ assigned) vs)) [
      | inl (rest, ran) ↦
          let same : t ∷ rest ≡ ids = ground arith in
          rw (← same)
            (ground (arith, checked_members_again source (t ∷ members) (t ∷ assigned) vs rest ran))
      | inr (code, failed) ↦ absurd (ground arith)
    ]
checked_members_again source members assigned (_ ∷ vs) ids e = cc

checked_tokens_again :
    (seen : List Text) (vs : List Value) (routes : List Text)
    → checked_tokens seen vs ≡ ok routes
    → checked_tokens seen (map str routes) ≡ ok routes
unfolding checked_tokens
checked_tokens_again seen [] routes e = ground arith
checked_tokens_again seen (str t ∷ vs) routes e =
    elim (Result-cases (checked_tokens (t ∷ seen) vs)) [
      | inl (rest, ran) ↦
          let same : t ∷ rest ≡ routes = ground arith in
          rw (← same) (ground (arith, checked_tokens_again (t ∷ seen) vs rest ran))
      | inr (code, failed) ↦ absurd (ground arith)
    ]
checked_tokens_again seen (_ ∷ vs) routes e = cc

length-checked_tokens :
    (seen : List Text) (vs : List Value) (routes : List Text)
    → checked_tokens seen vs ≡ ok routes
    → length (map {B = Value} str routes) ≡ length vs
unfolding checked_tokens
length-checked_tokens seen [] routes e = ground arith
length-checked_tokens seen (str t ∷ vs) routes e =
    elim (Result-cases (checked_tokens (t ∷ seen) vs)) [
      | inl (rest, ran) ↦
          let same : t ∷ rest ≡ routes = ground arith in
          rw (← same) (ap suc (length-checked_tokens (t ∷ seen) vs rest ran))
      | inr (code, failed) ↦ absurd (ground arith)
    ]
length-checked_tokens seen (_ ∷ vs) routes e = cc

checked_routes_again :
    (limits : GroupLimits) (v : Value) (routes : List Text)
    → checked_routes limits v ≡ ok routes
    → checked_routes limits (strings routes) ≡ ok routes
unfolding checked_routes
checked_routes_again limits (arr vs) routes e =
    elim (Bool-cases (ltb limits.max_routes_per_group (length (items vs)))) [
      | inl many ↦ absurd (ground arith)
      | inr few ↦
          let ran : checked_tokens [] (items vs) ≡ ok routes = rw few at e in
          rw (items-from_items (map str routes)) (
            rw (length-checked_tokens [] (items vs) routes ran)
              (rw few (checked_tokens_again [] (items vs) routes ran)))
    ]
checked_routes_again limits _ routes e = cc

module _ (r : Rules) (taken : Taken) where
  checked_service_ids_again :
      (v : Value) (ids : List Text)
      → checked_service_ids r taken v ≡ ok ids
      → checked_service_ids r taken (strings ids) ≡ ok ids
  unfolding checked_service_ids
  checked_service_ids_again (arr vs) ids e =
      rw (items-from_items (map str ids))
        (checked_members_again r.catalog.source [] taken.services (items vs) ids e)
  checked_service_ids_again _ ids e = cc

  -- What the stages of the callback have given for an accepted group.
  pub record Stages (g : ServiceGroup) : Type 0 where
    pub id_value : Value
    pub id : checked_id r.limits taken id_value ≡ ok g.id
    pub name_value : Value
    pub name : checked_name r taken name_value ≡ ok g.name
    pub ids_value : Value
    pub service_ids : checked_service_ids r taken ids_value ≡ ok g.service_ids
    pub routes_value : Value
    pub routes : checked_routes r.limits routes_value ≡ ok g.routes
    pub choices : checked_choices r g ≡ ok tt

  pub checked_group-Stages :
      (v : Value) (g : ServiceGroup) → checked_group r taken v ≡ ok g → Stages g
  unfolding checked_group
  checked_group-Stages (obj fs) g e = record {
    id_value = get (codes "id") fs;
    id = ground arith;
    name_value = get (codes "name") fs;
    name = ground arith;
    ids_value = get (codes "serviceIds") fs;
    service_ids = ground arith;
    routes_value = get (codes "routes") fs;
    routes = ground arith;
    choices = ground arith;
  }
  checked_group-Stages _ g e = absurd (ground arith)

  checked_group_again :
      (v : Value) (g : ServiceGroup)
      → checked_group r taken v ≡ ok g
      → checked_group r taken (group_value g) ≡ ok g
  unfolding checked_group get text_eq all includes
  checked_group_again v g e =
      let s = checked_group-Stages v g e in
      rw (checked_id_again r.limits taken s.id_value g.id s.id) (
        rw (checked_name_again r taken s.name_value g.name s.name) (
          rw (checked_service_ids_again s.ids_value g.service_ids s.service_ids) (
            rw (checked_routes_again r.limits s.routes_value g.routes s.routes)
              (rw s.choices refl))))

pub checked_groups_again :
    (r : Rules) (taken : Taken) (vs : List Value) (gs : List ServiceGroup)
    → checked_groups r taken vs ≡ ok gs
    → checked_groups r taken (map group_value gs) ≡ ok gs
unfolding checked_groups
checked_groups_again r taken [] gs e = ground arith
checked_groups_again r taken (v ∷ vs) gs e =
    let (g, one, more) = >>=-eq-ok (checked_group r taken v) _ e in
    let (rest, ran, same) =
      >>=-eq-ok (checked_groups r (take_group taken g) vs) (λ rest. ok (g ∷ rest)) more in
    let equal : g ∷ rest ≡ gs = ground arith in
    rw (← equal) (
      rw (checked_group_again r taken v g one)
        (rw (checked_groups_again r (take_group taken g) vs rest ran) refl))

pub length-checked_groups :
    (r : Rules) (taken : Taken) (vs : List Value) (gs : List ServiceGroup)
    → checked_groups r taken vs ≡ ok gs
    → length (map {B = Value} group_value gs) ≡ length vs
unfolding checked_groups
length-checked_groups r taken [] gs e = ground arith
length-checked_groups r taken (v ∷ vs) gs e =
    let (g, one, more) = >>=-eq-ok (checked_group r taken v) _ e in
    let (rest, ran, same) =
      >>=-eq-ok (checked_groups r (take_group taken g) vs) (λ rest. ok (g ∷ rest)) more in
    let equal : g ∷ rest ≡ gs = ground arith in
    rw (← equal) (ap suc (length-checked_groups r (take_group taken g) vs rest ran))

-- The array that stands for a layout.
abbrev pub layout_value : List ServiceGroup → Value
layout_value gs = arr (from_items (map group_value gs))

checked_layout_again :
    (r : Rules) (value : Value) (gs : List ServiceGroup)
    → checked_layout r value ≡ ok gs
    → checked_layout r (layout_value gs) ≡ ok gs
unfolding checked_layout
checked_layout_again r (arr vs) gs e =
    elim (Bool-cases (ltb r.limits.max_groups (length (items vs)))) [
      | inl many ↦ absurd (ground arith)
      | inr few ↦
          let start : Taken = record { ids = []; names = []; services = [] } in
          let ran : checked_groups r start (items vs) ≡ ok gs = rw few at e in
          rw (items-from_items (map group_value gs)) (
            rw (length-checked_groups r start (items vs) gs ran)
              (rw few (checked_groups_again r start (items vs) gs ran)))
    ]
checked_layout_again r _ gs e = cc

pub checked_whole-same :
    (format : Text) (r : Rules) (groups gs : List ServiceGroup)
    → checked_whole format r groups ≡ ok gs
    → groups ≡ gs
unfolding checked_whole
checked_whole-same format r groups gs e = ground arith

-- An accepted layout, written as an array of objects, is accepted again as itself.
pub normalize_service_groups_idempotent :
    (d : Data) (format base : Text) (disabled only : List Text) (direct_disabled : Bool)
    (value : Value) (gs : List ServiceGroup)
    → normalize_service_groups d format base disabled only direct_disabled value ≡ ok gs
    → normalize_service_groups d format base disabled only direct_disabled (layout_value gs) ≡ ok gs
unfolding normalize_service_groups
normalize_service_groups_idempotent d format base disabled only direct_disabled value gs e =
    let (catalog, listed, e₁) = >>=-eq-ok (service_group_catalog d format base) _ e in
    let (limits, limited, e₂) = >>=-eq-ok (service_group_limits d) _ e₁ in
    let r : Rules = layout_rules d format base disabled only direct_disabled catalog limits in
    let (groups, ran, whole) =
      >>=-eq-ok (checked_layout r value) (λ groups. checked_whole format r groups) e₂ in
    let same = checked_whole-same format r groups gs whole in
    let again : checked_layout r (layout_value gs) ≡ ok gs =
      checked_layout_again r value gs (subst (λ x. checked_layout r value ≡ ok x) same ran) in
    rw listed (rw limited (rw again (subst (λ x. checked_whole format r x ≡ ok gs) same whole)))
