-- ===== src/Spec/Services/Owners.antt =====
-- `serviceIniRuleOwners` of worker/solver.mjs: each rule of a service with INI output has that
-- service among its owners.
use mathlib.Core.List.{Memᴰ}
use rules.Base.{
  Bool, true, ◌&&◌, some, List, [], ◌∷◌, ◌++◌, Text, codes, text_eq_refl, includes, includes-append,
  any, if◌then◌else◌, ◌≡◌, refl, subst, arith, Bool-cases, inl, inr, Option-cases,
}
use rules.Catalog.{RuleRef, Service, Data}
use rules.Spec.Services.{
  Reference, reference_eq, rule_reference, add_owner, add_owners, ini_rule_owners_from,
  ini_rule_owners,
}

-- An entry says that a service owns a rule.
abbrev pub owned : Reference → Text → List (Reference × List Text) → Bool
owned ref id m = any (λ (e : Reference × List Text). reference_eq e.0 ref && includes id e.1) m

pub reference_eq_refl : (ref : Reference) → reference_eq ref ref ≡ true
unfolding reference_eq
reference_eq_refl ref = rw (text_eq_refl ref.0) (rw (text_eq_refl ref.1) refl)

includes-with_id :
    (id new : Text) (ids : List Text)
    → includes id ids ≡ true
    → includes id (if includes new ids then ids else ids ++ new ∷ []) ≡ true
includes-with_id id new ids h = elim (Bool-cases (includes new ids)) [
  | inl old ↦ rw old h
  | inr fresh ↦ rw fresh (rw includes-append (rw h refl))
]

new-with_id :
    (new : Text) (ids : List Text)
    → includes new (if includes new ids then ids else ids ++ new ∷ []) ≡ true
unfolding includes
new-with_id new ids = elim (Bool-cases (includes new ids)) [
  | inl old ↦ rw old old
  | inr fresh ↦ rw fresh (rw includes-append (ground (arith, text_eq_refl new)))
]

add_owner-owned :
    (ref : Reference) (id : Text) (m : List (Reference × List Text))
    → owned ref id (add_owner ref id m) ≡ true
unfolding add_owner any includes
add_owner-owned ref id [] = rw (reference_eq_refl ref) (rw (text_eq_refl id) refl)
add_owner-owned ref id ((r, ids) ∷ m) = elim (Bool-cases (reference_eq r ref)) [
  | inl same ↦ rw same (rw (new-with_id id ids) (rw same refl))
  | inr other ↦ rw other (rw (add_owner-owned ref id m) (ground arith))
]

add_owner-keeps :
    (ref new : Reference) (id other : Text) (m : List (Reference × List Text))
    → owned ref id m ≡ true
    → owned ref id (add_owner new other m) ≡ true
unfolding add_owner any
add_owner-keeps ref new id other [] h = cc
add_owner-keeps ref new id other ((r, ids) ∷ m) h = elim (Bool-cases (reference_eq r new)) [
  | inl same ↦ rw same (ground (arith, includes-with_id id other ids))
  | inr differ ↦ rw differ (ground (arith, add_owner-keeps ref new id other m))
]

add_owners-keeps :
    (ref : Reference) (id other : Text) (rs : List RuleRef) (m : List (Reference × List Text))
    → owned ref id m ≡ true
    → owned ref id (add_owners other rs m) ≡ true
unfolding add_owners
add_owners-keeps ref id other [] m h = h
add_owners-keeps ref id other (q ∷ rs) m h =
    elim (Option-cases (rule_reference q.ini_kind q.ini_value)) [
      | inl absent ↦ rw (absent, add_owners) (add_owners-keeps ref id other rs m h)
      | inr (new, present) ↦
          rw (present, add_owners)
            (add_owners-keeps ref id other rs (add_owner new other m)
              (add_owner-keeps ref new id other m h))
    ]

add_owners-owned :
    (ref : Reference) (id : Text) (q : RuleRef) (rs : List RuleRef)
    (m : List (Reference × List Text))
    → Memᴰ q rs
    → rule_reference q.ini_kind q.ini_value ≡ some ref
    → owned ref id (add_owners id rs m) ≡ true
unfolding add_owners
add_owners-owned ref id q [] m mem e = elim mem [ ]
add_owners-owned ref id q (p ∷ rs) m (Memᴰ.head here) e =
    let found : rule_reference p.ini_kind p.ini_value ≡ some ref =
      subst (λ (z : RuleRef). rule_reference z.ini_kind z.ini_value ≡ some ref) here e in
    rw (found, add_owners)
      (add_owners-keeps ref id id rs (add_owner ref id m) (add_owner-owned ref id m))
add_owners-owned ref id q (p ∷ rs) m (Memᴰ.tail later) e =
    elim (Option-cases (rule_reference p.ini_kind p.ini_value)) [
      | inl absent ↦ rw (absent, add_owners) (add_owners-owned ref id q rs m later e)
      | inr (new, present) ↦
          rw (present, add_owners) (add_owners-owned ref id q rs (add_owner new id m) later e)
    ]

ini_rule_owners_from-keeps :
    (ref : Reference) (id : Text) (ss : List Service) (m : List (Reference × List Text))
    → owned ref id m ≡ true
    → owned ref id (ini_rule_owners_from ss m) ≡ true
unfolding ini_rule_owners_from
ini_rule_owners_from-keeps ref id [] m h = h
ini_rule_owners_from-keeps ref id (s ∷ ss) m h =
    ini_rule_owners_from-keeps ref id ss
      (if includes (codes "ini") s.output_formats then add_owners s.id s.rule_refs m else m)
      (elim (Bool-cases (includes (codes "ini") s.output_formats)) [
        | inl ini ↦ rw ini (add_owners-keeps ref id s.id s.rule_refs m h)
        | inr other ↦ rw other h
      ])

ini_rule_owners_from-owned :
    (ref : Reference) (s : Service) (q : RuleRef) (ss : List Service)
    (m : List (Reference × List Text))
    → Memᴰ s ss
    → includes (codes "ini") s.output_formats ≡ true
    → Memᴰ q s.rule_refs
    → rule_reference q.ini_kind q.ini_value ≡ some ref
    → owned ref s.id (ini_rule_owners_from ss m) ≡ true
unfolding ini_rule_owners_from
ini_rule_owners_from-owned ref s q [] m mem ini rule e = elim mem [ ]
ini_rule_owners_from-owned ref s q (p ∷ ss) m (Memᴰ.head here) ini rule e =
    let added : owned ref s.id
          (if includes (codes "ini") s.output_formats then add_owners s.id s.rule_refs m else m)
        ≡ true =
      rw ini (add_owners-owned ref s.id q s.rule_refs m rule e) in
    ini_rule_owners_from-keeps ref s.id ss _ (
      subst
        (λ (z : Service).
          owned ref s.id
            (if includes (codes "ini") z.output_formats then add_owners z.id z.rule_refs m else m)
          ≡ true)
        here added)
ini_rule_owners_from-owned ref s q (p ∷ ss) m (Memᴰ.tail later) ini rule e =
    ini_rule_owners_from-owned ref s q ss _ later ini rule e

-- A service with INI output owns each of its rules that has a reference.
pub ini_rule_owners-owned :
    (d : Data) (ref : Reference) (s : Service) (q : RuleRef)
    → Memᴰ s d.services
    → includes (codes "ini") s.output_formats ≡ true
    → Memᴰ q s.rule_refs
    → rule_reference q.ini_kind q.ini_value ≡ some ref
    → owned ref s.id (ini_rule_owners d) ≡ true
unfolding ini_rule_owners
ini_rule_owners-owned d ref s q = ini_rule_owners_from-owned ref s q d.services []
