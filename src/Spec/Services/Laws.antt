-- ===== src/Spec/Services/Laws.antt =====
-- The service ids that `canonicalizeServices` of worker/solver.mjs lets through.
use rules.Base.{
  true, false, List, map, Text, is_empty, trim, trim_idem, dedupe, includes, dedupe-Distinct,
  dedupe_of_Distinct, includes-dedupe, ok, >>=-eq-ok, map_result, map_result-source,
  map_result_fixed, ◌≡◌, refl, arith, Bool-cases, inl, inr,
}
use rules.Value.{Value, items}
use rules.Catalog.{Data}
use rules.Region.Laws.{strings, items-from_items}
use rules.Spec.Services.{known_services, canonicalize_service, canonicalize_services}

-- An id is a known one without white space at its ends.
pub canonicalize_service-ok :
    (known : List Text) (v : Value) (id : Text)
    → canonicalize_service known v ≡ ok id
    → (trim id ≡ id) × (is_empty id ≡ false) × (includes id known ≡ true)
unfolding canonicalize_service
canonicalize_service-ok known (Value.str t) id e = elim (Bool-cases (is_empty (trim t))) [
  | inl empty ↦ absurd (ground arith)
  | inr full ↦ elim (Bool-cases (includes (trim t) known)) [
    | inl found ↦
        let same : trim t ≡ id = ground arith in
        (rw (← same) (trim_idem t), rw (← same) full, rw (← same) found)
    | inr missing ↦ absurd (ground arith)
  ]
]
canonicalize_service-ok known _ id e = cc

canonicalize_service_again :
    (known : List Text) (v : Value) (id : Text)
    → canonicalize_service known v ≡ ok id
    → canonicalize_service known (Value.str id) ≡ ok id
unfolding canonicalize_service
canonicalize_service_again known v id e =
    let (trimmed, full, found) = canonicalize_service-ok known v id e in
    rw trimmed (rw full (rw found refl))

-- A canonical list of services is its own canonical list.
pub canonicalize_services_idempotent :
    (d : Data) (format : Text) (value : Value) (ids : List Text)
    → canonicalize_services d format value ≡ ok ids
    → canonicalize_services d format (strings ids) ≡ ok ids
unfolding canonicalize_services
canonicalize_services_idempotent d format (Value.arr vs) ids e =
    let f = canonicalize_service (known_services format d.services) in
    let (raw, ran, same) = >>=-eq-ok (map_result f (items vs)) (λ x. ok (dedupe x)) e in
    let equal : dedupe raw ≡ ids = ground arith in
    let again : map_result f (map Value.str ids) ≡ ok ids =
      map_result_fixed f Value.str ids (λ id m.
        let (v, found) =
          map_result-source f (items vs) raw id ran (ground (arith, includes-dedupe id raw)) in
        canonicalize_service_again (known_services format d.services) v id found) in
    rw (items-from_items (map Value.str ids))
      (rw again (rw (dedupe_of_Distinct ids (rw (← equal) (dedupe-Distinct raw))) refl))
canonicalize_services_idempotent d format _ ids e = cc
