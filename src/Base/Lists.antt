-- ===== src/Base/Lists.antt =====
-- Lists of texts used as sets: membership, filters by a test, first occurrences.
use Prim.Native.Nat.{ℕ, suc}
use mathlib.Core.Path.{◌≡◌, refl, ap, subst}
use mathlib.Core.Logic.{inl, inr}
use mathlib.Core.Bool.{Bool, true, false, not, ◌&&◌, ◌||◌}
use mathlib.Core.Option.{Option, none, some, some-injective}
use mathlib.Core.List.{map, List, [], ◌∷◌, ◌++◌}
use native.Mathlib.Omega.{arith}
use rules.Base.Tests.{Bool-cases, if◌then◌else◌}
use rules.Base.Strings.{Text, text_eq, text_eq_iff, text_eq_refl, includes}

module _ {ℓ} {A : Type ℓ} where
  abbrev pub length : List A → ℕ
  length [] = 0
  length (x ∷ xs) = suc (length xs)

  -- `!array.length`
  abbrev pub null : List A → Bool
  null [] = true
  null (x ∷ xs) = false

  -- `array.some(p)`, `array.every(p)`, `array.filter(p)`, `array.find(p)`
  unfoldable pub any : (A → Bool) → List A → Bool
  any p [] = false
  any p (x ∷ xs) = p x || any p xs

  unfoldable pub all : (A → Bool) → List A → Bool
  all p [] = true
  all p (x ∷ xs) = p x && all p xs

  unfoldable pub keep : (A → Bool) → List A → List A
  keep p [] = []
  keep p (x ∷ xs) = let rest = keep p xs in if p x then x ∷ rest else rest

  unfoldable pub find : (A → Bool) → List A → Option A
  find p [] = none
  find p (x ∷ xs) = if p x then some x else find p xs

-- `[...new Set(values)]`, and the loop of `dedupe`: `seen` is the set, its newest element first
unfoldable pub dedupe_from : List Text → List Text → List Text
dedupe_from seen [] = []
dedupe_from seen (v ∷ vs) = elim (includes v seen) [
  | true ↦ dedupe_from seen vs
  | false ↦ v ∷ dedupe_from (v ∷ seen) vs
]

-- No text stands twice.
abbrev pub Distinct : List Text → Type 0
Distinct [] = Unit
Distinct (x ∷ xs) = (includes x xs ≡ false) × Distinct xs

pub includes-append :
    (x : Text) (xs ys : List Text) → includes x (xs ++ ys) ≡ (includes x xs || includes x ys)
unfolding includes
includes-append x [] ys = refl
includes-append x (y ∷ xs) ys = ground (arith, includes-append x xs ys)

-- A test that agrees on equal texts holds of what is kept.
pub includes-keep :
    (p : Text → Bool) (x : Text) (xs : List Text) → includes x (keep p xs) ≡ (includes x xs && p x)
unfolding includes keep
includes-keep p x [] = refl
includes-keep p x (y ∷ ys) = elim (Bool-cases (text_eq y x)) [
  | inl e ↦ let same = (text_eq_iff y x).0 e in ground (arith, includes-keep p x ys)
  | inr e ↦ ground (arith, includes-keep p x ys)
]

pub includes-dedupe_from :
    (x : Text) (seen vs : List Text)
    → includes x (dedupe_from seen vs) ≡ (includes x vs && not (includes x seen))
unfolding includes dedupe_from
includes-dedupe_from x seen [] = refl
includes-dedupe_from x seen (v ∷ vs) =
    ground
      (arith, text_eq_iff v x, includes-dedupe_from x seen vs, includes-dedupe_from x (v ∷ seen) vs)

pub dedupe_from-Distinct : (seen vs : List Text) → Distinct (dedupe_from seen vs)
unfolding dedupe_from includes
dedupe_from-Distinct seen [] = tt
dedupe_from-Distinct seen (v ∷ vs) =
    elim (includes v seen)
      as (λ b.
        Distinct (elim b [ true ↦ dedupe_from seen vs | false ↦ v ∷ dedupe_from (v ∷ seen) vs ])) [
          | true ↦ dedupe_from-Distinct seen vs
          | false ↦ (
            ground (arith, includes-dedupe_from v (v ∷ seen) vs, text_eq_refl v),
            dedupe_from-Distinct (v ∷ seen) vs,
          )
        ]

-- A text without repetitions is its own list of first occurrences.
dedupe_from_of_Distinct :
    (seen vs : List Text)
    → Distinct vs
    → ((x : Text) → includes x vs ≡ true → includes x seen ≡ false)
    → dedupe_from seen vs ≡ vs
unfolding dedupe_from includes
dedupe_from_of_Distinct seen [] d h = refl
dedupe_from_of_Distinct seen (v ∷ vs) d h =
    let fresh : includes v seen ≡ false = h v (ground (arith, text_eq_refl v)) in
    rw (fresh, dedupe_from)
      (ap (◌∷◌ v)
        (dedupe_from_of_Distinct (v ∷ seen) vs d.1 (λ x m. ground (arith, h x, text_eq_iff v x))))

unfoldable pub dedupe : List Text → List Text
unfolding dedupe_from
dedupe values = dedupe_from [] values

pub dedupe_of_Distinct : (vs : List Text) → Distinct vs → dedupe vs ≡ vs
unfolding dedupe includes
dedupe_of_Distinct vs d = dedupe_from_of_Distinct [] vs d (λ x m. refl)

pub dedupe-Distinct : (vs : List Text) → Distinct (dedupe vs)
unfolding dedupe
dedupe-Distinct vs = dedupe_from-Distinct [] vs

pub includes-dedupe : (x : Text) (vs : List Text) → includes x (dedupe vs) ≡ includes x vs
unfolding dedupe includes
includes-dedupe x vs = ground (arith, includes-dedupe_from x [] vs)

pub keep-Distinct : (p : Text → Bool) (xs : List Text) → Distinct xs → Distinct (keep p xs)
unfolding keep
keep-Distinct p [] d = tt
keep-Distinct p (x ∷ xs) d = elim (Bool-cases (p x)) [
  | inl e ↦ rw e (ground (arith, includes-keep p x xs), keep-Distinct p xs d.1)
  | inr e ↦ rw e (keep-Distinct p xs d.1)
]

-- Two lists without repetitions and with no text in common.
pub append-Distinct :
    (xs ys : List Text)
    → Distinct xs
    → Distinct ys
    → ((x : Text) → includes x xs ≡ true → includes x ys ≡ false)
    → Distinct (xs ++ ys)
unfolding includes
append-Distinct [] ys dx dy h = dy
append-Distinct (x ∷ xs) ys dx dy h = (
  ground (arith, includes-append x xs ys, h x, text_eq_refl x),
  append-Distinct xs ys dx.1 dy (λ z m. h z (ground arith)),
)

module _ {ℓ} {A : Type ℓ} where
  -- `arrays.flat()`
  unfoldable pub flat : List (List A) → List A
  flat [] = []
  flat (xs ∷ rest) = xs ++ flat rest

pub any-false :
    (p : Text → Bool) (xs : List Text) (x : Text)
    → any p xs ≡ false
    → includes x xs ≡ true
    → p x ≡ false
unfolding any includes
any-false p [] x h m = cc
any-false p (y ∷ ys) x h m = elim (Bool-cases (text_eq y x)) [
  | inl e ↦ let same = (text_eq_iff y x).0 e in rw (← same) (ground arith)
  | inr e ↦ any-false p ys x (ground arith) (ground arith)
]

pub any-true :
    (p : Text → Bool) (xs : List Text)
    → any p xs ≡ true
    → (x : Text) × (includes x xs ≡ true) × (p x ≡ true)
unfolding any includes
any-true p [] h = cc
any-true p (y ∷ ys) h = elim (Bool-cases (p y)) [
  | inl e ↦ (y, ground (arith, text_eq_refl y), e)
  | inr e ↦ let (x, m, q) = any-true p ys (ground arith) in (x, ground arith, q)
]

pub any_of_all_false :
    (p : Text → Bool) (xs : List Text)
    → ((x : Text) → includes x xs ≡ true → p x ≡ false)
    → any p xs ≡ false
unfolding any includes
any_of_all_false p [] h = refl
any_of_all_false p (y ∷ ys) h =
    rw (h y (ground (arith, text_eq_refl y))) (any_of_all_false p ys (λ x m. h x (ground arith)))

pub keep_congr :
    (p q : Text → Bool) (xs : List Text)
    → ((x : Text) → includes x xs ≡ true → p x ≡ q x)
    → keep p xs ≡ keep q xs
unfolding keep includes
keep_congr p q [] h = refl
keep_congr p q (x ∷ xs) h =
    ground
      (arith, h x (ground (arith, text_eq_refl x)), keep_congr p q xs (λ y m. h y (ground arith)))

pub keep-keep :
    (p q : Text → Bool) (xs : List Text) → keep p (keep q xs) ≡ keep (λ x. q x && p x) xs
unfolding keep
keep-keep p q [] = refl
keep-keep p q (x ∷ xs) = elim (Bool-cases (q x)) [
  | inl e ↦ rw e (rw (keep-keep p q xs) refl)
  | inr e ↦ rw e (keep-keep p q xs)
]

-- What `find` gives passes the test.
pub find-true {ℓ} :
    {A : Type ℓ} (p : A → Bool) (xs : List A) {a : A} → find p xs ≡ some a → p a ≡ true
unfolding find
find-true p [] h = cc
find-true p (x ∷ xs) {a} h = elim (Bool-cases (p x)) [
  | inl e ↦
      let same : some x ≡ some a = rw e at h in subst (λ y. p y ≡ true) (some-injective x a same) e
  | inr e ↦ find-true p xs (rw e at h)
]

abbrev pub All {ℓ κ} : {A : Type ℓ} → (A → Type κ) → List A → Type κ
All P [] = Unit
All P (x ∷ xs) = P x × All P xs

pub length-map {ℓ κ} :
    {A : Type ℓ} {B : Type κ} (f : A → B) (xs : List A) → length (map f xs) ≡ length xs
length-map f [] = refl
length-map f (x ∷ xs) = ap suc (length-map f xs)

module _ {ℓ κ} {A : Type ℓ} (P : A → Type κ) where
  pub All-append : (xs ys : List A) → All P xs → All P ys → All P (xs ++ ys)
  All-append [] ys p q = q
  All-append (x ∷ xs) ys p q = (p.0, All-append xs ys p.1 q)

  pub All-keep : (test : A → Bool) (xs : List A) → All P xs → All P (keep test xs)
  unfolding keep
  All-keep test [] p = tt
  All-keep test (x ∷ xs) p = elim (Bool-cases (test x)) [
    | inl hit ↦ rw hit (p.0, All-keep test xs p.1)
    | inr miss ↦ rw miss (All-keep test xs p.1)
  ]
