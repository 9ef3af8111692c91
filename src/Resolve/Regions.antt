-- ===== src/Resolve/Regions.antt =====
-- The regions that `resolveProfileSpec` of worker/solver.mjs keeps active, and their order.
use rules.Base.{
  Bool, true, false, not, ◌&&◌, List, [], ◌++◌, Text, includes, if◌then◌else◌, ok, keep, any, null,
  get_or, ◌≡◌, refl, arith, Distinct, includes-append, includes-keep, any-false, any_of_all_false,
  keep_congr, keep-keep, keep-Distinct, append-Distinct, Bool-cases, inl, inr, ◌↔◌,
}
use rules.Spec.Normalize.{ProfileSpec}
use rules.Resolve.{Resolved, active_regions, resolution, resolve_spec}

-- What the guards have established of a specification that is resolved.
pub record Passes (routable : List Text) (s : ProfileSpec) : Type 0 where
  pub routable_only :
      (x : Text) → includes x s.only_node_regions ≡ true → includes x routable ≡ true
  pub no_conflict :
      (x : Text)
      → includes x s.only_node_regions ≡ true
      → includes x s.disabled_node_regions ≡ false
  pub some_active : null (active_regions routable s) ≡ false
  pub preferred_active :
      (x : Text)
      → includes x s.preferred_node_regions ≡ true
      → includes x (active_regions routable s) ≡ true
  pub preferred_enabled :
      (x : Text)
      → includes x (get_or s.preferred_services []) ≡ true
      → includes x (get_or s.disabled_services []) ≡ false

abbrev Guards : List Text → ProfileSpec → Type 0
Guards routable s =
    (any (λ region. not (includes region routable)) s.only_node_regions ≡ false)
    × (any (λ region. includes region s.disabled_node_regions) s.only_node_regions ≡ false)
    × (null (active_regions routable s) ≡ false)
    × (any (λ region. not (includes region (active_regions routable s))) s.preferred_node_regions
        ≡ false)
    × (any (λ x. includes x (get_or s.disabled_services [])) (get_or s.preferred_services [])
        ≡ false)

resolve_spec-Guards :
    (routable : List Text) (s : ProfileSpec) (r : Resolved)
    → resolve_spec routable s ≡ ok r
    → Guards routable s
unfolding resolve_spec resolution
resolve_spec-Guards routable s r e =
    (ground arith, ground arith, ground arith, ground arith, ground arith)

Passes-Guards : (routable : List Text) (s : ProfileSpec) → Guards routable s → Passes routable s
Passes-Guards routable s g = record {
  routable_only = λ x m.
      ground
        (arith, any-false (λ region. not (includes region routable)) s.only_node_regions x g.0 m);
  no_conflict = λ x m.
      any-false (λ region. includes region s.disabled_node_regions) s.only_node_regions x g.1 m;
  some_active = g.2;
  preferred_active = λ x m. ground (
    arith,
    any-false (λ region. not (includes region (active_regions routable s))) s.preferred_node_regions
        x g.3 m,
  );
  preferred_enabled = λ x m.
      any-false (λ y. includes y (get_or s.disabled_services [])) (get_or s.preferred_services []) x
        g.4 m;
}

Guards-Passes : (routable : List Text) (s : ProfileSpec) → Passes routable s → Guards routable s
Guards-Passes routable s p = (
  any_of_all_false _ s.only_node_regions (λ x m. rw (p.routable_only x m)),
  any_of_all_false _ s.only_node_regions p.no_conflict,
  p.some_active,
  any_of_all_false _ s.preferred_node_regions (λ x m. rw (p.preferred_active x m)),
  any_of_all_false _ (get_or s.preferred_services []) p.preferred_enabled,
)

-- A specification is resolved exactly when its required regions are routable and not disabled, some
-- region stays active, and what it prefers stays active and enabled.
pub resolve_spec-ok_iff :
    (routable : List Text) (s : ProfileSpec)
    → ((r : Resolved) × (resolve_spec routable s ≡ ok r)) ↔ Passes routable s
unfolding resolve_spec resolution
resolve_spec-ok_iff routable s = (
  λ found. Passes-Guards routable s (resolve_spec-Guards routable s found.0 found.1),
  λ p.
      let g = Guards-Passes routable s p in
      (resolution routable s, rw (g.0, g.1, g.2, g.3, g.4) refl),
)

includes-active_regions :
    (routable : List Text) (s : ProfileSpec) (x : Text)
    → includes x (active_regions routable s) ≡ (
        includes x routable
        && (if null s.only_node_regions
            then not (includes x s.disabled_node_regions)
            else includes x s.only_node_regions))
unfolding active_regions
includes-active_regions routable s x = elim (Bool-cases (null s.only_node_regions)) [
  | inl e ↦ rw e (includes-keep (λ y. not (includes y s.disabled_node_regions)) x routable)
  | inr e ↦ rw e (includes-keep (λ y. includes y s.only_node_regions) x routable)
]

resolve_spec-active_region_ids :
    (routable : List Text) (s : ProfileSpec) (r : Resolved)
    → resolve_spec routable s ≡ ok r
    → r.active_region_ids
      ≡ s.preferred_node_regions
        ++ keep (λ x. not (includes x s.preferred_node_regions)) (active_regions routable s)
unfolding resolve_spec resolution
resolve_spec-active_region_ids routable s r e = ground arith

-- The active regions of a resolved specification are the routable regions that are not disabled,
-- or, where some are required, the routable regions among those.
pub includes-active_region_ids :
    (routable : List Text) (s : ProfileSpec) (r : Resolved) (x : Text)
    → resolve_spec routable s ≡ ok r
    → includes x r.active_region_ids ≡ (
        includes x routable
        && (if null s.only_node_regions
            then not (includes x s.disabled_node_regions)
            else includes x s.only_node_regions))
includes-active_region_ids routable s r x e =
    let p = Passes-Guards routable s (resolve_spec-Guards routable s r e) in
    rw (resolve_spec-active_region_ids routable s r e) (
      rw (← includes-active_regions routable s x) (
        ground (
          arith,
          includes-append x s.preferred_node_regions
              (keep (λ y. not (includes y s.preferred_node_regions)) (active_regions routable s)),
          includes-keep (λ y. not (includes y s.preferred_node_regions)) x
              (active_regions routable s),
          p.preferred_active x,
        )))

active_regions-Distinct :
    (routable : List Text) (s : ProfileSpec)
    → Distinct routable
    → Distinct (active_regions routable s)
unfolding active_regions
active_regions-Distinct routable s d = elim (Bool-cases (null s.only_node_regions)) [
  | inl e ↦ rw e (keep-Distinct _ routable d)
  | inr e ↦ rw e (keep-Distinct _ routable d)
]

-- The test by which a routable region is kept.
abbrev stays : ProfileSpec → Text → Bool
stays s x =
    if null s.only_node_regions
    then not (includes x s.disabled_node_regions)
    else includes x s.only_node_regions

active_regions-keep :
    (routable : List Text) (s : ProfileSpec) → active_regions routable s ≡ keep (stays s) routable
unfolding active_regions
active_regions-keep routable s = elim (Bool-cases (null s.only_node_regions)) [
  | inl e ↦ rw e (keep_congr _ (stays s) routable (λ x m. rw e refl))
  | inr e ↦ rw e (keep_congr _ (stays s) routable (λ x m. rw e refl))
]

-- No disabled region is active, no region is active twice, and the list of active regions begins
-- with the preferred ones in the caller's order and goes on with the others in the catalog's order.
pub record IsOrdered (routable : List Text) (s : ProfileSpec) (r : Resolved) : Type 0 where
  pub none_disabled :
      (x : Text)
      → includes x r.active_region_ids ≡ true
      → includes x s.disabled_node_regions ≡ false
  pub distinct : Distinct r.active_region_ids
  pub rest : List Text
  pub preferred_first : r.active_region_ids ≡ s.preferred_node_regions ++ rest
  pub in_catalog_order :
      rest
      ≡ keep
          (λ x. includes x r.active_region_ids && not (includes x s.preferred_node_regions))
          routable

rest-keep :
    (routable : List Text) (s : ProfileSpec) (r : Resolved)
    → resolve_spec routable s ≡ ok r
    → keep (λ x. not (includes x s.preferred_node_regions)) (active_regions routable s)
      ≡ keep
          (λ x. includes x r.active_region_ids && not (includes x s.preferred_node_regions))
          routable
rest-keep routable s r e = rw (active_regions-keep routable s) (
    rw keep-keep (
      keep_congr _ _ routable
        (λ x m. rw (includes-active_region_ids routable s r x e) (rw m refl))))

-- The active regions of a resolved specification, where the catalog's routable regions and the
-- preferred regions have no repetitions: none is disabled, none stands twice, the preferred ones
-- come first in the caller's order, and the others follow in the catalog's order.
pub resolve_spec-IsOrdered :
    (routable : List Text) (s : ProfileSpec) (r : Resolved)
    → Distinct routable
    → Distinct s.preferred_node_regions
    → resolve_spec routable s ≡ ok r
    → IsOrdered routable s r
resolve_spec-IsOrdered routable s r dr dp e =
    let p = Passes-Guards routable s (resolve_spec-Guards routable s r e) in
    let others =
      keep (λ x. not (includes x s.preferred_node_regions)) (active_regions routable s) in
    record {
      none_disabled =
          λ x m. ground (arith, includes-active_region_ids routable s r x e, p.no_conflict x);
      distinct = rw (resolve_spec-active_region_ids routable s r e) (
          append-Distinct s.preferred_node_regions others dp
            (keep-Distinct _ _ (active_regions-Distinct routable s dr))
            (λ x m. rw includes-keep (ground arith)));
      rest = others;
      preferred_first = resolve_spec-active_region_ids routable s r e;
      in_catalog_order = rest-keep routable s r e;
    }
