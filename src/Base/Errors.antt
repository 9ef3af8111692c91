-- ===== src/Base/Errors.antt =====
-- Results of code that throws: the thrown error's `code` stands for the error.
use mathlib.Core.Path.{◌≡◌, refl, subst}
use mathlib.Core.Bool.{Bool, true, false}
use mathlib.Core.List.{List, [], ◌∷◌, map}
use mathlib.Core.Logic.{◌⊎◌, inl, inr}
use native.Mathlib.Omega.{arith}
use rules.Base.Tests.{Bool-cases, if◌then◌else◌}
use rules.Base.Strings.{Text, text_eq, text_eq_iff, text_eq_refl, includes}
use rules.Base.Lists.{length, All}

pub data Result {ℓ} (E : Type 0) (A : Type ℓ) : Type ℓ where
  err : E → Result E A
  ok : A → Result E A

infixl 5 ◌>>=◌ ◌>>◌
abbrev pub ◌>>=◌ {ℓ κ} :
    {A : Type ℓ} {B : Type κ} {E : Type 0} → Result E A → (A → Result E B) → Result E B
err thrown >>= next = err thrown
ok given >>= next = next given

abbrev pub ◌>>◌ {ℓ} : {E : Type 0} {B : Type ℓ} → Result E (Unit {0}) → Result E B → Result E B
m >> k = m >>= λ _. k

-- `if (bad) throw e;`
abbrev pub throw_if : {E : Type 0} → Bool → E → Result E (Unit {0})
throw_if true e = err e
throw_if false e = ok tt

-- `xs.map(f)` for a callback that may throw: the first error stops it.
unfoldable pub map_result {ℓ κ} :
    {E : Type 0} {A : Type ℓ} {B : Type κ} → (A → Result E B) → List A → Result E (List B)
map_result f [] = ok []
map_result f (x ∷ xs) = do y ← f x; ys ← map_result f xs; ok (y ∷ ys)

module _ {ℓ κ} {E : Type 0} {A : Type ℓ} {B : Type κ} where
  -- A run of two steps that ends well: what the first one gives, and that the second ends well.
  pub >>=-eq-ok :
      (m : Result E A) (next : A → Result E B) {b : B}
      → (m >>= next) ≡ ok b
      → (given : A) × (m ≡ ok given) × (next given ≡ ok b)
  >>=-eq-ok (err thrown) next h = cc
  >>=-eq-ok (ok given) next h = (given, refl, h)

module _ {ℓ κ} {E : Type 0} {A : Type ℓ} {B : Type κ} (f : A → Result E B) where
  pub length-map_result :
      (xs : List A) (ys : List B) → map_result f xs ≡ ok ys → length ys ≡ length xs
  unfolding map_result
  length-map_result [] ys e = ground arith
  length-map_result (x ∷ xs) ys e =
      let (y, one, more) = >>=-eq-ok (f x) _ e in
      let (zs, rest, done) = >>=-eq-ok (map_result f xs) (λ zs. ok (y ∷ zs)) more in
      ground (arith, length-map_result xs zs rest)

  -- If each result of a run is its own result again, so is the list.
  pub map_result_again :
      (g : B → A) (xs : List A) (ys : List B)
      → ((x : A) (y : B) → f x ≡ ok y → f (g y) ≡ ok y)
      → map_result f xs ≡ ok ys
      → map_result f (map g ys) ≡ ok ys
  unfolding map_result
  map_result_again g [] ys h e = ground arith
  map_result_again g (x ∷ xs) ys h e =
      let (y, one, more) = >>=-eq-ok (f x) _ e in
      let (zs, rest, done) = >>=-eq-ok (map_result f xs) (λ zs. ok (y ∷ zs)) more in
      ground (arith, h x y one, map_result_again g xs zs h rest)

-- A text in the result comes from some element.
pub map_result-source {ℓ} :
    {E : Type 0} {A : Type ℓ} (f : A → Result E Text) (xs : List A) (ys : List Text) (y : Text)
    → map_result f xs ≡ ok ys
    → includes y ys ≡ true
    → (x : A) × (f x ≡ ok y)
unfolding map_result includes
map_result-source f [] ys y e m = absurd (ground arith)
map_result-source f (x ∷ xs) ys y e m =
    let (z, one, more) = >>=-eq-ok (f x) _ e in
    let (zs, rest, done) = >>=-eq-ok (map_result f xs) (λ zs. ok (z ∷ zs)) more in
    elim (Bool-cases (text_eq z y)) [
      | inl same ↦ (x, rw (← (text_eq_iff z y).0 same) one)
      | inr other ↦ map_result-source f xs zs y rest (ground arith)
    ]

-- A map whose function returns each text of the list returns the list.
pub map_result_fixed {ℓ} :
    {E : Type 0} {A : Type ℓ} (f : A → Result E Text) (g : Text → A) (ys : List Text)
    → ((y : Text) → includes y ys ≡ true → f (g y) ≡ ok y)
    → map_result f (map g ys) ≡ ok ys
unfolding map_result includes
map_result_fixed f g [] h = refl
map_result_fixed f g (y ∷ ys) h =
    rw (h y (ground (arith, text_eq_refl y)))
      (rw (map_result_fixed f g ys (λ z m. h z (ground arith))) refl)

pub Result-cases {ℓ} :
    {E : Type 0} {A : Type ℓ} (m : Result E A) → ((a : A) × (m ≡ ok a)) ⊎ ((e : E) × (m ≡ err e))
Result-cases (ok a) = inl (a, refl)
Result-cases (err e) = inr (e, refl)

-- Inversion of four binds.
pub bind₄-eq-ok {ℓ₁ ℓ₂ ℓ₃ ℓ₄ κ} :
    {E : Type 0} {A : Type ℓ₁} {B : Type ℓ₂} {C : Type ℓ₃} {D : Type ℓ₄} {S : Type κ}
    (m₁ : Result E A) (m₂ : Result E B) (m₃ : Result E C) (m₄ : Result E D)
    (k : A → B → C → D → Result E S) {s : S}
    → (m₁ >>= λ a. m₂ >>= λ b. m₃ >>= λ c. m₄ >>= λ d. k a b c d) ≡ ok s
    → (a : A) × (b : B) × (c : C) × (d : D) × (m₁ ≡ ok a)
      × (m₂ ≡ ok b)
      × (m₃ ≡ ok c)
      × (m₄ ≡ ok d)
      × (k a b c d ≡ ok s)
bind₄-eq-ok (ok a) (ok b) (ok c) (ok d) k h = (a, b, c, d, refl, refl, refl, refl, h)
bind₄-eq-ok (ok a) (ok b) (ok c) (err e) k h = cc
bind₄-eq-ok (ok a) (ok b) (err e) m₄ k h = cc
bind₄-eq-ok (ok a) (err e) m₃ m₄ k h = cc
bind₄-eq-ok (err e) m₂ m₃ m₄ k h = cc

-- What holds of the value of an accepted first branch and of the accepted values of the second holds
-- of the accepted value.
pub if-eq-ok {ℓ κ} :
    {E : Type 0} {A : Type ℓ} (P : A → Type κ) (b : Bool) (m rest : Result E A) {a : A}
    → (m ≡ ok a → P a)
    → (rest ≡ ok a → P a)
    → (if b then m else rest) ≡ ok a
    → P a
if-eq-ok P true m rest p q e = p e
if-eq-ok P false m rest p q e = q e

pub ok-injective {ℓ} :
    {E : Type 0} {A : Type ℓ} {a b : A} → ◌≡◌ {A = Result E A} (ok a) (ok b) → a ≡ b
ok-injective e = cc

pub err-eq-ok {ℓ κ} :
    {E : Type 0} {A : Type ℓ} {P : Type κ} {x : E} {a : A} → ◌≡◌ {A = Result E A} (err x) (ok a) → P
err-eq-ok e = cc

pub All-map_result {ℓ κ} :
    {E : Type 0} {A : Type ℓ} {B : Type κ} (P : A → Type 0) (Q : B → Type 0) (f : A → Result E B)
    (xs : List A) (ys : List B)
    → ((x : A) (y : B) → P x → f x ≡ ok y → Q y)
    → All P xs
    → map_result f xs ≡ ok ys
    → All Q ys
unfolding map_result
All-map_result P Q f [] ys h a e = subst (All Q) (ok-injective e) tt
All-map_result P Q f (x ∷ xs) ys h a e =
    let (y, one, more) = >>=-eq-ok (f x) _ e in
    let (zs, rest, done) = >>=-eq-ok (map_result f xs) (λ zs. ok (y ∷ zs)) more in
    subst (All Q) (ok-injective done) (h x y a.0 one, All-map_result P Q f xs zs h a.1 rest)
