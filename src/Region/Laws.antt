-- ===== src/Region/Laws.antt =====
-- What the alias map of worker/solver.mjs holds, and which region a name is resolved to.
use mathlib.Core.List.{Memᴰ}
use rules.Base.{
  true, false, Option, none, some, List, [], ◌∷◌, Text, text_eq, text_eq_iff, text_eq_refl,
  is_empty, includes, if◌then◌else◌, ok, >>=-eq-ok, ◌≡◌, refl, ◌⊎◌, inl, inr, arith, Bool-cases,
  map, dedupe, Distinct, dedupe-Distinct, dedupe_of_Distinct, includes-dedupe, map_result,
  map_result-source, map_result_fixed,
}
use rules.Value.{Value, items, from_items}
use rules.Catalog.{Region, Data}
use rules.Region.{
  Unicode, lookup, assign, normalize_alias, add_alias, add_aliases, add_regions, alias_values,
  build_region_alias_map, found_region, canonicalize_region, canonicalize_many,
}

lookup-assign :
    (k j v : Text) (m : List (Text × Text))
    → lookup j (assign k v m) ≡ (if text_eq k j then some v else lookup j m)
unfolding lookup assign
lookup-assign k j v [] = refl
lookup-assign k j v ((i, w) ∷ m) =
    ground (arith, text_eq_iff k j, text_eq_iff i k, text_eq_iff i j, lookup-assign k j v m)

module _ (u : Unicode) where
  abbrev pub alias_key : Text → Text
  alias_key value = normalize_alias u (Value.str value)

  -- A text that the catalog lists for a region and whose key is `key`.
  pub record Names (r : Region) (key : Text) : Type 0 where
    pub value : Text
    pub listed : includes value (alias_values u r) ≡ true
    pub same_key : alias_key value ≡ key

  -- One added alias: an entry with a region id stays, and the alias gets its own.
  add_alias-keeps :
      (id value j i : Text) (m m' : List (Text × Text))
      → add_alias u id m value ≡ ok m'
      → lookup j m ≡ some i
      → is_empty i ≡ false
      → lookup j m' ≡ some i
  unfolding add_alias
  add_alias-keeps id value j i m m' e h n = ground (
    arith,
    lookup-assign (alias_key value) j id m,
    text_eq_iff (alias_key value) j,
    text_eq_iff i id,
  )

  add_alias-puts :
      (id value : Text) (m m' : List (Text × Text))
      → add_alias u id m value ≡ ok m'
      → is_empty (alias_key value) ≡ false
      → lookup (alias_key value) m' ≡ some id
  unfolding add_alias
  add_alias-puts id value m m' e n = ground (
    arith,
    lookup-assign (alias_key value) (alias_key value) id m,
    text_eq_refl (alias_key value),
  )

  add_alias-origin :
      (id value j i : Text) (m m' : List (Text × Text))
      → add_alias u id m value ≡ ok m'
      → lookup j m' ≡ some i
      → (lookup j m ≡ some i) ⊎ ((alias_key value ≡ j) × (id ≡ i))
  unfolding add_alias
  add_alias-origin id value j i m m' e h =
      ground (arith, lookup-assign (alias_key value) j id m, text_eq_iff (alias_key value) j)

  -- The same of all aliases of one region, and of all regions.
  add_aliases-keeps :
      (id j i : Text) (m m' : List (Text × Text)) (values : List Text)
      → add_aliases u id m values ≡ ok m'
      → lookup j m ≡ some i
      → is_empty i ≡ false
      → lookup j m' ≡ some i
  unfolding add_aliases
  add_aliases-keeps id j i m m' [] e h n = ground arith
  add_aliases-keeps id j i m m' (v ∷ vs) e h n =
      let (k, added, rest) = >>=-eq-ok (add_alias u id m v) _ e in
      add_aliases-keeps id j i k m' vs rest (add_alias-keeps id v j i m k added h n) n

  add_aliases-puts :
      (id value : Text) (m m' : List (Text × Text)) (values : List Text)
      → add_aliases u id m values ≡ ok m'
      → includes value values ≡ true
      → is_empty (alias_key value) ≡ false
      → is_empty id ≡ false
      → lookup (alias_key value) m' ≡ some id
  unfolding add_aliases includes
  add_aliases-puts id value m m' [] e h n p = cc
  add_aliases-puts id value m m' (v ∷ vs) e h n p =
      let (k, added, rest) = >>=-eq-ok (add_alias u id m v) _ e in
      elim (Bool-cases (text_eq v value)) [
        | inl same ↦
            let v≡value = (text_eq_iff v value).0 same in
            add_aliases-keeps id (alias_key value) id k m' vs rest
              (rw (← v≡value) (add_alias-puts id v m k added (rw v≡value n))) p
        | inr other ↦ add_aliases-puts id value k m' vs rest (ground arith) n p
      ]

  add_aliases-origin :
      (id j i : Text) (m m' : List (Text × Text)) (values : List Text)
      → add_aliases u id m values ≡ ok m'
      → lookup j m' ≡ some i
      → (lookup j m ≡ some i)
        ⊎ ((value : Text) × (includes value values ≡ true) × (alias_key value ≡ j) × (id ≡ i))
  unfolding add_aliases includes
  add_aliases-origin id j i m m' [] e h = inl (ground arith)
  add_aliases-origin id j i m m' (v ∷ vs) e h =
      let (k, added, rest) = >>=-eq-ok (add_alias u id m v) _ e in
      elim (add_aliases-origin id j i k m' vs rest h) [
        | inl before ↦ elim (add_alias-origin id v j i m k added before) [
          | inl old ↦ inl old
          | inr (key, same) ↦ inr (v, ground (arith, text_eq_refl v), key, same)
        ]
        | inr (value, listed, key, same) ↦ inr (value, ground arith, key, same)
      ]

  add_regions-keeps :
      (j i : Text) (m m' : List (Text × Text)) (rs : List Region)
      → add_regions u m rs ≡ ok m'
      → lookup j m ≡ some i
      → is_empty i ≡ false
      → lookup j m' ≡ some i
  unfolding add_regions
  add_regions-keeps j i m m' [] e h n = ground arith
  add_regions-keeps j i m m' (r ∷ rs) e h n =
      let (k, added, rest) = >>=-eq-ok (add_aliases u r.id m (alias_values u r)) _ e in
      add_regions-keeps j i k m' rs rest
        (add_aliases-keeps r.id j i m k (alias_values u r) added h n) n

  add_regions-puts :
      (key : Text) (m m' : List (Text × Text)) (r : Region) (rs : List Region)
      → add_regions u m rs ≡ ok m'
      → Memᴰ r rs
      → Names r key
      → is_empty key ≡ false
      → is_empty r.id ≡ false
      → lookup key m' ≡ some r.id
  unfolding add_regions
  add_regions-puts key m m' r [] e listed named n p = elim listed [ ]
  add_regions-puts key m m' r (q ∷ rs) e (Memᴰ.head here) named n p =
      let (k, added, rest) = >>=-eq-ok (add_aliases u q.id m (alias_values u q)) _ e in
      add_regions-keeps key r.id k m' rs rest
        (rw (← named.same_key) (
          add_aliases-puts r.id named.value m k (alias_values u r) (rw here added) named.listed
            (rw named.same_key n) p))
        p
  add_regions-puts key m m' r (q ∷ rs) e (Memᴰ.tail later) named n p =
      let (k, added, rest) = >>=-eq-ok (add_aliases u q.id m (alias_values u q)) _ e in
      add_regions-puts key k m' r rs rest later named n p

  add_regions-origin :
      (j i : Text) (m m' : List (Text × Text)) (rs : List Region)
      → add_regions u m rs ≡ ok m'
      → lookup j m' ≡ some i
      → (lookup j m ≡ some i) ⊎ ((r : Region) × Memᴰ r rs × (r.id ≡ i) × Names r j)
  unfolding add_regions
  add_regions-origin j i m m' [] e h = inl (ground arith)
  add_regions-origin j i m m' (r ∷ rs) e h =
      let (k, added, rest) = >>=-eq-ok (add_aliases u r.id m (alias_values u r)) _ e in
      elim (add_regions-origin j i k m' rs rest h) [
        | inl before ↦ elim (add_aliases-origin r.id j i m k (alias_values u r) added before) [
          | inl old ↦ inl old
          | inr (value, listed, key, same) ↦
              inr
                (r, Memᴰ.head refl, same, record { value = value; listed = listed; same_key = key })
        ]
        | inr (q, later, same, named) ↦ inr (q, Memᴰ.tail later, same, named)
      ]

  own_id : (r : Region) → includes r.id (alias_values u r) ≡ true
  unfolding includes
  own_id r = rw text_eq_refl

  found_region-ok :
      (o : Option Text) (id : Text) → found_region o ≡ ok id → (o ≡ some id) × (is_empty id ≡ false)
  unfolding found_region
  found_region-ok none id e = cc
  found_region-ok (some i) id e = ground arith

  canonicalize_region-ok :
      (d : Data) (value : Value) (id : Text)
      → canonicalize_region u d value ≡ ok id
      → (m : List (Text × Text)) × (build_region_alias_map u d ≡ ok m)
        × (lookup (normalize_alias u value) m ≡ some id)
        × (is_empty id ≡ false)
        × (is_empty (normalize_alias u value) ≡ false)
  unfolding canonicalize_region
  canonicalize_region-ok d value id e = elim (Bool-cases (is_empty (normalize_alias u value))) [
    | inl empty ↦ absurd (ground arith)
    | inr full ↦
        let (m, built, found) =
          >>=-eq-ok (build_region_alias_map u d)
            (λ m. found_region (lookup (normalize_alias u value) m)) {b = id} (ground arith) in
        let (hit, real) = found_region-ok (lookup (normalize_alias u value) m) id found in
        (m, built, hit, real, full)
  ]

  -- A region value is resolved to `id` only if `id` is the id of a catalog region one of whose
  -- listed names has the value's key.
  pub canonicalize_region_sound :
      (d : Data) (value : Value) (id : Text)
      → canonicalize_region u d value ≡ ok id
      → (r : Region) × Memᴰ r d.regions × (r.id ≡ id) × Names r (normalize_alias u value)
  unfolding build_region_alias_map lookup
  canonicalize_region_sound d value id e =
      let (m, built, hit, real, full) = canonicalize_region-ok d value id e in
      elim (add_regions-origin (normalize_alias u value) id [] m d.regions built hit) [
        | inl none_yet ↦ cc
        | inr origin ↦ origin
      ]

  -- Where the alias map can be built, each listed name of a region whose id is not empty, in every
  -- spelling with the same non-empty key, is resolved to the region's id.
  pub canonicalize_region_complete :
      (d : Data) (m : List (Text × Text)) (r : Region) (value : Value)
      → build_region_alias_map u d ≡ ok m
      → Memᴰ r d.regions
      → Names r (normalize_alias u value)
      → is_empty (normalize_alias u value) ≡ false
      → is_empty r.id ≡ false
      → canonicalize_region u d value ≡ ok r.id
  unfolding canonicalize_region build_region_alias_map found_region
  canonicalize_region_complete d m r value built listed named full real = rw full (
      rw built (
        rw
          (add_regions-puts (normalize_alias u value) [] m r d.regions built listed named full real)
          (rw real)))

  -- A canonical id is its own canonical id, if its key is not empty.
  pub canonicalize_region_idempotent :
      (d : Data) (value : Value) (id : Text)
      → canonicalize_region u d value ≡ ok id
      → is_empty (alias_key id) ≡ false
      → canonicalize_region u d (Value.str id) ≡ ok id
  canonicalize_region_idempotent d value id e n =
      let (m, built, hit, real, full) = canonicalize_region-ok d value id e in
      let (r, listed, same, named) = canonicalize_region_sound d value id e in
      rw (← same) (
        canonicalize_region_complete d m r (Value.str r.id) built listed
          (record { value = r.id; listed = own_id r; same_key = refl }) (rw same n) (rw same real))

abbrev pub strings : List Text → Value
strings ids = Value.arr (from_items (map Value.str ids))

pub items-from_items : (vs : List Value) → items (from_items vs) ≡ vs
items-from_items [] = refl
items-from_items (v ∷ vs) = rw (items-from_items vs)

-- The key of every region's id is not empty.
abbrev pub HasKeys : Unicode → Data → Type 0
HasKeys u d = (r : Region) → Memᴰ r d.regions → is_empty (alias_key u r.id) ≡ false

pub canonicalize_many-Distinct :
    (u : Unicode) (d : Data) (value : Value) (ids : List Text)
    → canonicalize_many u d value ≡ ok ids
    → Distinct ids
unfolding canonicalize_many
canonicalize_many-Distinct u d (Value.arr vs) ids e =
    let (raw, ran, same) =
      >>=-eq-ok (map_result (canonicalize_region u d) (items vs)) (λ x. ok (dedupe x)) e in
    let equal : dedupe raw ≡ ids = ground arith in rw (← equal) (dedupe-Distinct raw)
canonicalize_many-Distinct u d _ ids e = cc

-- A canonical list of regions is its own canonical list.
pub canonicalize_many_idempotent :
    (u : Unicode) (d : Data) (value : Value) (ids : List Text)
    → HasKeys u d
    → canonicalize_many u d value ≡ ok ids
    → canonicalize_many u d (strings ids) ≡ ok ids
unfolding canonicalize_many
canonicalize_many_idempotent u d (Value.arr vs) ids keyed e =
    let (raw, ran, same) =
      >>=-eq-ok (map_result (canonicalize_region u d) (items vs)) (λ x. ok (dedupe x)) e in
    let equal : dedupe raw ≡ ids = ground arith in
    let again : map_result (canonicalize_region u d) (map Value.str ids) ≡ ok ids =
      map_result_fixed (canonicalize_region u d) Value.str ids (λ id m.
        let (v, found) =
          map_result-source (canonicalize_region u d) (items vs) raw id ran
            (ground (arith, includes-dedupe id raw)) in
        let (r, listed, own, named) = canonicalize_region_sound u d v id found in
        canonicalize_region_idempotent u d v id found (rw (← own) (keyed r listed))) in
    rw (items-from_items (map Value.str ids))
      (rw again (rw (dedupe_of_Distinct ids (rw (← equal) (dedupe-Distinct raw))) refl))
canonicalize_many_idempotent u d _ ids keyed e = cc
