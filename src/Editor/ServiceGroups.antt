-- ===== src/Editor/ServiceGroups.antt =====
-- `effectiveServiceGroups` of public/service-group-editor.js: the service groups that the editor
-- shows, with the routes that the other options leave.
use rules.Base.{
  Bool, true, false, not, ◌&&◌, ◌||◌, Option, some, get_or, List, [], ◌∷◌, map, Text, codes,
  text_eq, text_eq_refl, includes, includes-keep, any, keep, null, All, All-keep, if◌then◌else◌,
  ◌≡◌, refl, arith, Bool-cases, inl, inr, subst, sym, text_eq_iff,
}
use rules.Value.{Value}
use rules.Spec.Groups.{ServiceGroup}
use rules.Spec.Normalize.{is_true, is_false}
use rules.Editor.Draft.{copy_service_groups}

-- An entry of `groups`.
pub record Policy : Type 0 where
  pub id : Text
  pub name : Text
  pub service_ids : List Text
  pub default_routes : List Text
  pub protected : Bool

-- The other arguments.
pub record Choices : Type 0 where
  pub groups : List Policy
  pub regions : List Text
  pub allow_direct : Option Bool
  pub fail_closed : Option Bool
  pub disabled_regions : List Text
  pub only_regions : List Text

abbrev pub default_group : Policy → ServiceGroup
default_group p = record {
  id = p.id;
  name = p.name;
  service_ids = p.service_ids;
  routes = p.default_routes;
}

module _ (c : Choices) where
  -- `globallyAllowed`
  unfoldable pub is_globally_allowed : Text → Bool
  is_globally_allowed route =
      if text_eq route (codes "direct")
      then not (is_false c.allow_direct)
      else if text_eq route (codes "other")
      then null c.only_regions
      else not (includes route c.regions)
        || (not (includes route c.disabled_regions)
            && (null c.only_regions || includes route c.only_regions))

  -- `protectedGroup`
  unfoldable pub is_protected_group : ServiceGroup → Bool
  is_protected_group item =
      any
        (λ (p : Policy).
          p.protected
          && (text_eq p.id item.id || any (λ id. includes id p.service_ids) item.service_ids))
        c.groups

  unfoldable pub effective_group : ServiceGroup → ServiceGroup
  effective_group item =
      let routes : List Text = keep is_globally_allowed item.routes in
      record item {
        routes =
            if is_protected_group item || is_true c.fail_closed
            then codes "reject" ∷ keep (λ route. not (text_eq route (codes "reject"))) routes
            else routes;
      }

  unfoldable pub effective_service_groups : Value → List ServiceGroup
  effective_service_groups value =
      map effective_group (get_or (copy_service_groups value) (map default_group c.groups))

  -- What the other options ask of a route: it does not go direct where that is not allowed, it does not
  -- stand for the other regions where some are required, and a region is not disabled, and is one of
  -- those that are required.
  abbrev pub IsAllowed : Text → Type 0
  IsAllowed route =
      ((text_eq route (codes "direct") && is_false c.allow_direct) ≡ false)
      × ((text_eq route (codes "other") && not (null c.only_regions)) ≡ false)
      × ((includes route c.regions && includes route c.disabled_regions) ≡ false)
      × ((includes route c.regions
            && (not (null c.only_regions) && not (includes route c.only_regions)))
          ≡ false)

  -- No region is called like a route of another kind.
  abbrev pub HasOwnNames : Type 0
  HasOwnNames =
      (includes (codes "reject") c.regions ≡ false)
      × (includes (codes "direct") c.regions ≡ false)
      × (includes (codes "other") c.regions ≡ false)

  no_region :
      (route name : Text)
      → includes name c.regions ≡ false
      → text_eq route name ≡ true
      → includes route c.regions ≡ false
  no_region route name h same =
      subst (λ x. includes x c.regions ≡ false) (sym ((text_eq_iff route name).0 same)) h

  not_both :
      (route : Text) → text_eq route (codes "direct") ≡ true → text_eq route (codes "other") ≡ false
  unfolding text_eq
  not_both route direct =
      subst (λ x. text_eq x (codes "other") ≡ false)
        (sym ((text_eq_iff route (codes "direct")).0 direct)) refl

  is_globally_allowed-IsAllowed :
      (route : Text) → HasOwnNames → is_globally_allowed route ≡ true → IsAllowed route
  unfolding is_globally_allowed
  is_globally_allowed-IsAllowed route (r, d, o) h =
      let no_direct = no_region route (codes "direct") d in
      let no_other = no_region route (codes "other") o in
      (
        ground (arith, no_direct),
        ground (arith, no_direct, no_other, not_both route),
        ground (arith, no_direct, no_other),
        ground (arith, no_direct, no_other),
      )

  reject-is_globally_allowed :
      includes (codes "reject") c.regions ≡ false → is_globally_allowed (codes "reject") ≡ true
  unfolding is_globally_allowed text_eq
  reject-is_globally_allowed h = rw h refl

  All-kept : (p : Text → Bool) (ts : List Text) → All (λ t. p t ≡ true) (keep p ts)
  unfolding keep
  All-kept p [] = tt
  All-kept p (t ∷ ts) = elim (Bool-cases (p t)) [
    | inl hit ↦ rw hit (hit, All-kept p ts)
    | inr miss ↦ rw miss (All-kept p ts)
  ]

  effective_group-routes :
      (item : ServiceGroup)
      → HasOwnNames
      → All (λ route. is_globally_allowed route ≡ true) (effective_group item).routes
  unfolding effective_group
  effective_group-routes item h =
      elim (Bool-cases (is_protected_group item || is_true c.fail_closed)) [
        | inl guarded ↦ rw guarded (
          reject-is_globally_allowed h.0,
          All-keep (λ route. is_globally_allowed route ≡ true) _ _
              (All-kept is_globally_allowed item.routes),
        )
        | inr open' ↦ rw open' (All-kept is_globally_allowed item.routes)
      ]

  -- The first route is the reject route, and it stands there only.
  abbrev pub IsGuarded : ServiceGroup → Type 0
  IsGuarded item =
      (rest : List Text) × (item.routes ≡ codes "reject" ∷ rest)
      × (includes (codes "reject") rest ≡ false)

  without_reject :
      (ts : List Text)
      → includes (codes "reject") (keep (λ route. not (text_eq route (codes "reject"))) ts) ≡ false
  without_reject ts = rw includes-keep (rw (text_eq_refl (codes "reject")) (ground arith))

  effective_group-IsGuarded :
      (item : ServiceGroup) → c.fail_closed ≡ some true → IsGuarded (effective_group item)
  unfolding effective_group
  effective_group-IsGuarded item h = elim (Bool-cases (is_protected_group item)) [
    | inl guarded ↦ rw guarded (_, refl, without_reject _)
    | inr plain ↦ rw plain (rw h (_, refl, without_reject _))
  ]

  All-map {ℓ} :
      {A : Type ℓ} (P : ServiceGroup → Type 0) (f : A → ServiceGroup) (xs : List A)
      → ((x : A) → P (f x))
      → All P (map f xs)
  All-map P f [] h = tt
  All-map P f (x ∷ xs) h = (h x, All-map P f xs h)

  All-implies :
      (P Q : Text → Type 0) (ts : List Text) → ((t : Text) → P t → Q t) → All P ts → All Q ts
  All-implies P Q [] f a = tt
  All-implies P Q (t ∷ ts) f a = (f t a.0, All-implies P Q ts f a.1)

  -- No route of the groups that the editor shows goes direct where that is not allowed, stands for
  -- the other regions where some are required, is a disabled region, or is a region that is not
  -- among those that are required, if no region is called "reject", "direct" or "other".
  pub effective_service_groups-routes :
      (value : Value)
      → HasOwnNames
      → All (λ (item : ServiceGroup). All IsAllowed item.routes) (effective_service_groups value)
  unfolding effective_service_groups
  effective_service_groups-routes value h = All-map _ effective_group _ (λ item.
      All-implies (λ route. is_globally_allowed route ≡ true) IsAllowed
        (effective_group item).routes (λ route. is_globally_allowed-IsAllowed route h)
        (effective_group-routes item h))

  -- Where the profile is to fail closed, every group that the editor shows has the reject route first,
  -- and only there.
  pub effective_service_groups-IsGuarded :
      (value : Value) → c.fail_closed ≡ some true → All IsGuarded (effective_service_groups value)
  unfolding effective_service_groups
  effective_service_groups-IsGuarded value h =
      All-map IsGuarded effective_group _ (λ item. effective_group-IsGuarded item h)
