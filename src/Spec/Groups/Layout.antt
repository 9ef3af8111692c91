-- ===== src/Spec/Groups/Layout.antt =====
-- What holds of every accepted layout of service groups (`normalizeServiceGroups` of
-- worker/solver.mjs).
use rules.Base.{
  length-map, All, ltb, length, ◌≤◌, Bool, true, false, not, List, [], ◌∷◌, ◌++◌, map, flat, Text,
  text_eq, includes, any, ok, >>=-eq-ok, ◌≡◌, arith, Bool-cases, inl, inr, subst, Result-cases,
  Distinct, includes-append, append-Distinct, text_eq_iff, text_eq_refl, any-false,
}
use rules.Value.{Value, str, arr, items}
use rules.Catalog.{Data, GroupEntry, GroupLimits}
use rules.Spec.GroupCatalog.{has_source, GroupCatalog, service_group_catalog, service_group_limits}
use rules.Spec.Groups.{
  ServiceGroup, Rules, Taken, checked_id, checked_name, checked_members, checked_service_ids,
  checked_choices, checked_group, take_group, checked_groups, allowed_routes, conflicts,
  breaks_protection, checked_layout, checked_whole, layout_rules, normalize_service_groups,
}
use rules.Spec.Groups.Laws.{
  group_value, checked_group-Stages, length-checked_groups, checked_whole-same,
}

checked_id-fresh :
    (limits : GroupLimits) (taken : Taken) (v : Value) (id : Text)
    → checked_id limits taken v ≡ ok id
    → includes id taken.ids ≡ false
unfolding checked_id
checked_id-fresh limits taken (str t) id e = ground arith
checked_id-fresh limits taken _ id e = cc

checked_name-fresh :
    (r : Rules) (taken : Taken) (v : Value) (name : Text)
    → checked_name r taken v ≡ ok name
    → (includes name taken.names ≡ false) × (includes name r.reserved ≡ false)
unfolding checked_name
checked_name-fresh r taken (str t) name e = (ground arith, ground arith)
checked_name-fresh r taken _ name e = cc

-- The members of a group: none twice, none of another group, each one in the catalog.
record Members (source : List (Text × GroupEntry)) (members assigned ids : List Text) : Type 0 where
  distinct : Distinct ids
  unassigned : (x : Text) → includes x ids ≡ true → includes x assigned ≡ false
  known : (x : Text) → includes x ids ≡ true → has_source x source ≡ true

Members-cons :
    (source : List (Text × GroupEntry)) (members assigned ids : List Text) (t : Text)
    → has_source t source ≡ true
    → includes t assigned ≡ false
    → Members source (t ∷ members) (t ∷ assigned) ids
    → Members source members assigned (t ∷ ids)
unfolding includes
Members-cons source members assigned ids t found free m = record {
  distinct = (
    elim (Bool-cases (includes t ids)) [
      | inl present ↦ absurd (ground (arith, m.unassigned t present, text_eq_refl t))
      | inr absent ↦ absent
    ],
    m.distinct,
  );
  unassigned = λ x h. elim (Bool-cases (text_eq t x)) [
    | inl same ↦ subst (λ y. includes y assigned ≡ false) ((text_eq_iff t x).0 same) free
    | inr other ↦ ground (arith, m.unassigned x (ground arith))
  ];
  known = λ x h. elim (Bool-cases (text_eq t x)) [
    | inl same ↦ subst (λ y. has_source y source ≡ true) ((text_eq_iff t x).0 same) found
    | inr other ↦ m.known x (ground arith)
  ];
}

Members-nil :
    (source : List (Text × GroupEntry)) (members assigned : List Text)
    → Members source members assigned []
unfolding includes
Members-nil source members assigned = record {
  distinct = tt;
  unassigned = λ x h. cc;
  known = λ x h. cc;
}

checked_members-Members :
    (source : List (Text × GroupEntry)) (members assigned : List Text) (vs : List Value)
    (ids : List Text)
    → checked_members source members assigned vs ≡ ok ids
    → Members source members assigned ids
unfolding checked_members
checked_members-Members source members assigned [] ids e =
    let same : [] ≡ ids = ground arith in rw (← same) (Members-nil source members assigned)
checked_members-Members source members assigned (str t ∷ vs) ids e =
    elim (Result-cases (checked_members source (t ∷ members) (t ∷ assigned) vs)) [
      | inl (rest, ran) ↦
          let same : t ∷ rest ≡ ids = ground arith in
          rw (← same) (
            Members-cons source members assigned rest t (ground arith) (ground arith)
              (checked_members-Members source (t ∷ members) (t ∷ assigned) vs rest ran))
      | inr (code, failed) ↦ absurd (ground arith)
    ]
checked_members-Members source members assigned (_ ∷ vs) ids e = cc

checked_service_ids-Members :
    (r : Rules) (taken : Taken) (v : Value) (ids : List Text)
    → checked_service_ids r taken v ≡ ok ids
    → Members r.catalog.source [] taken.services ids
unfolding checked_service_ids
checked_service_ids-Members r taken (arr vs) ids e =
    checked_members-Members r.catalog.source [] taken.services (items vs) ids e
checked_service_ids-Members r taken _ ids e = cc

-- What the rules say of one group by itself.
pub record Follows (r : Rules) (g : ServiceGroup) : Type 0 where
  -- the protected service is in the protected group alone, and only that group has its id or name
  pub protection : breaks_protection r g ≡ false
  pub unreserved : includes g.name r.reserved ≡ false
  -- each route is one that every member's catalog entry allows
  pub allowed :
      (x : Text) → includes x g.routes ≡ true → includes x (allowed_routes r g.service_ids) ≡ true
  -- no route contradicts the global options
  pub consistent : (x : Text) → includes x g.routes ≡ true → conflicts r x ≡ false

checked_group-Follows :
    (r : Rules) (taken : Taken) (v : Value) (g : ServiceGroup)
    → checked_group r taken v ≡ ok g
    → Follows r g
unfolding checked_choices
checked_group-Follows r taken v g e =
    let s = checked_group-Stages r taken v g e in
    let c = s.choices in
    let outside : any (λ route. not (includes route (allowed_routes r g.service_ids))) g.routes
        ≡ false =
      ground arith in
    let clash : any (conflicts r) g.routes ≡ false = ground arith in
    record {
      protection = ground arith;
      unreserved = (checked_name-fresh r taken s.name_value g.name s.name).1;
      allowed = λ x m. ground (
        arith,
        any-false (λ route. not (includes route (allowed_routes r g.service_ids))) g.routes x
            outside m,
      );
      consistent = λ x m. any-false (conflicts r) g.routes x clash m;
    }

-- The ids, the names and the services of a layout.
abbrev pub group_ids : List ServiceGroup → List Text
group_ids = map (λ (g : ServiceGroup). g.id)

abbrev pub group_names : List ServiceGroup → List Text
group_names = map (λ (g : ServiceGroup). g.name)

abbrev pub assigned : List ServiceGroup → List Text
assigned gs = flat (map (λ (g : ServiceGroup). g.service_ids) gs)

-- A list without repetitions that has nothing in common with another.
pub record IsNew (xs old : List Text) : Type 0 where
  pub distinct : Distinct xs
  pub fresh : (x : Text) → includes x xs ≡ true → includes x old ≡ false

IsNew-nil : (old : List Text) → IsNew [] old
unfolding includes
IsNew-nil old = record { distinct = tt; fresh = λ x h. cc }

IsNew-cons :
    (y : Text) (ys old : List Text)
    → includes y old ≡ false
    → IsNew ys (y ∷ old)
    → IsNew (y ∷ ys) old
unfolding includes
IsNew-cons y ys old free n = record {
  distinct = (
    elim (Bool-cases (includes y ys)) [
      | inl present ↦ absurd (ground (arith, n.fresh y present, text_eq_refl y))
      | inr absent ↦ absent
    ],
    n.distinct,
  );
  fresh = λ x h. elim (Bool-cases (text_eq y x)) [
    | inl same ↦ subst (λ z. includes z old ≡ false) ((text_eq_iff y x).0 same) free
    | inr other ↦ ground (arith, n.fresh x (ground arith))
  ];
}

IsNew-append :
    (xs ys old : List Text)
    → Distinct xs
    → ((x : Text) → includes x xs ≡ true → includes x old ≡ false)
    → IsNew ys (xs ++ old)
    → IsNew (xs ++ ys) old
IsNew-append xs ys old d f n = record {
  distinct = append-Distinct xs ys d n.distinct (λ x m. elim (Bool-cases (includes x ys)) [
    | inl present ↦ absurd (ground (arith, n.fresh x present, includes-append x xs old))
    | inr absent ↦ absent
  ]);
  fresh = λ x h. elim (Bool-cases (includes x xs)) [
    | inl first ↦ f x first
    | inr later ↦ ground (
      arith,
      includes-append x xs ys,
      includes-append x xs old,
      n.fresh x (ground (arith, includes-append x xs ys)),
    )
  ];
}

pub record IsLayout (r : Rules) (taken : Taken) (gs : List ServiceGroup) : Type 0 where
  pub ids : IsNew (group_ids gs) taken.ids
  pub names : IsNew (group_names gs) taken.names
  pub services : IsNew (assigned gs) taken.services
  pub known : (x : Text) → includes x (assigned gs) ≡ true → has_source x r.catalog.source ≡ true
  pub follows : All (Follows r) gs

IsLayout-nil : (r : Rules) (taken : Taken) → IsLayout r taken []
unfolding flat includes
IsLayout-nil r taken = record {
  ids = IsNew-nil taken.ids;
  names = IsNew-nil taken.names;
  services = IsNew-nil taken.services;
  known = λ x h. cc;
  follows = tt;
}

IsLayout-cons :
    (r : Rules) (taken : Taken) (v : Value) (g : ServiceGroup) (gs : List ServiceGroup)
    → checked_group r taken v ≡ ok g
    → IsLayout r (take_group taken g) gs
    → IsLayout r taken (g ∷ gs)
unfolding flat
IsLayout-cons r taken v g gs e rest =
    let s = checked_group-Stages r taken v g e in
    let m = checked_service_ids-Members r taken s.ids_value g.service_ids s.service_ids in
    record {
      ids =
          IsNew-cons g.id (group_ids gs) taken.ids
            (checked_id-fresh r.limits taken s.id_value g.id s.id) rest.ids;
      names =
          IsNew-cons g.name (group_names gs) taken.names
            (checked_name-fresh r taken s.name_value g.name s.name).0 rest.names;
      services =
          IsNew-append g.service_ids (assigned gs) taken.services m.distinct m.unassigned
            rest.services;
      known = λ x h. elim (Bool-cases (includes x g.service_ids)) [
        | inl own ↦ m.known x own
        | inr later ↦ rest.known x (ground (arith, includes-append x g.service_ids (assigned gs)))
      ];
      follows = (checked_group-Follows r taken v g e, rest.follows);
    }

-- In every layout that the loop accepts, no id, no name and no service stands twice, also not one
-- that was taken before; every service is in the catalog; and every group follows the rules.
pub checked_groups-IsLayout :
    (r : Rules) (taken : Taken) (vs : List Value) (gs : List ServiceGroup)
    → checked_groups r taken vs ≡ ok gs
    → IsLayout r taken gs
unfolding checked_groups
checked_groups-IsLayout r taken [] gs e =
    let same : [] ≡ gs = ground arith in rw (← same) (IsLayout-nil r taken)
checked_groups-IsLayout r taken (v ∷ vs) gs e =
    let (g, one, more) = >>=-eq-ok (checked_group r taken v) _ e in
    let (rest, ran, same) =
      >>=-eq-ok (checked_groups r (take_group taken g) vs) (λ rest. ok (g ∷ rest)) more in
    let equal : g ∷ rest ≡ gs = ground arith in
    rw (← equal) (
      IsLayout-cons r taken v g rest one
        (checked_groups-IsLayout r (take_group taken g) vs rest ran))

checked_layout-IsLayout :
    (r : Rules) (value : Value) (gs : List ServiceGroup)
    → checked_layout r value ≡ ok gs
    → (length gs ≤ r.limits.max_groups)
      × IsLayout r (record { ids = []; names = []; services = [] }) gs
unfolding checked_layout
checked_layout-IsLayout r (arr vs) gs e =
    elim (Bool-cases (ltb r.limits.max_groups (length (items vs)))) [
      | inl many ↦ absurd (ground arith)
      | inr few ↦
          let ran = rw few at e in
          (
            ground (
              arith,
              length-checked_groups r (record { ids = []; names = []; services = [] }) (items vs) gs
                  ran,
              length-map group_value gs,
            ),
            checked_groups-IsLayout r _ (items vs) gs ran,
          )
    ]
checked_layout-IsLayout r _ gs e = cc

-- A layout of service groups is accepted only for a catalog of groups and limits that are valid: it
-- has no more groups than the limit, and no id, no name and no service stands in it twice; every
-- service is in the catalog; and every group follows the rules that the options give.
pub normalize_service_groups-IsLayout :
    (d : Data) (format base : Text) (disabled only : List Text) (direct_disabled : Bool)
    (value : Value) (gs : List ServiceGroup)
    → normalize_service_groups d format base disabled only direct_disabled value ≡ ok gs
    → (catalog : GroupCatalog) × (limits : GroupLimits) × (service_group_catalog d format base
        ≡ ok catalog)
      × (service_group_limits d ≡ ok limits)
      × (length gs ≤ limits.max_groups)
      × IsLayout
          (layout_rules d format base disabled only direct_disabled catalog limits)
          (record { ids = []; names = []; services = [] })
          gs
unfolding normalize_service_groups checked_layout
normalize_service_groups-IsLayout d format base disabled only direct_disabled value gs e =
    let (catalog, listed, e₁) = >>=-eq-ok (service_group_catalog d format base) _ e in
    let (limits, limited, e₂) = >>=-eq-ok (service_group_limits d) _ e₁ in
    let r : Rules = layout_rules d format base disabled only direct_disabled catalog limits in
    let (groups, ran, whole) =
      >>=-eq-ok (checked_layout r value) (λ groups. checked_whole format r groups) e₂ in
    let same = checked_whole-same format r groups gs whole in
    let (few, layout) =
      checked_layout-IsLayout r value gs (subst (λ x. checked_layout r value ≡ ok x) same ran) in
    (catalog, limits, listed, limited, few, layout)
