-- ===== src/Base/Splitting.antt =====
-- Splitting a text at a character, and joining texts with it.
use Prim.Native.Nat.{ℕ}
use mathlib.Core.Path.{◌≡◌, refl, ap}
use mathlib.Core.Logic.{inl, inr}
use mathlib.Core.Bool.{Bool, true, false}
use mathlib.Core.List.{List, [], ◌∷◌, ◌++◌}
use native.Mathlib.Omega.{arith}
use rules.Base.Tests.{◌==◌, if◌then◌else◌, Bool-cases}
use rules.Base.Strings.{Text, join}
use rules.Base.Lists.{any, flat, All}

abbrev pub in_front : ℕ → List Text → List Text
in_front x [] = (x ∷ []) ∷ []
in_front x (l ∷ ls) = (x ∷ l) ∷ ls

-- `text.split(c)`, for one character
unfoldable pub split : ℕ → Text → List Text
split c [] = [] ∷ []
split c (x ∷ t) = let rest = split c t in if x == c then [] ∷ rest else in_front x rest

abbrev pub HasNo : ℕ → Text → Type 0
HasNo c t = any (λ x. x == c) t ≡ false

pub any_weaken :
    (p q : ℕ → Bool) (t : Text)
    → ((c : ℕ) → q c ≡ true → p c ≡ true)
    → any p t ≡ false
    → any q t ≡ false
unfolding any
any_weaken p q [] h a = refl
any_weaken p q (c ∷ t) h a = ground (arith, h c, any_weaken p q t h (ground arith))

module _ (c : ℕ) where
  pub HasNo-append : (s t : Text) → HasNo c s → HasNo c t → HasNo c (s ++ t)
  unfolding any
  HasNo-append [] t a b = b
  HasNo-append (x ∷ s) t a b = ground (arith, HasNo-append s t)

  pub HasNo-flat : (pieces : List Text) → All (HasNo c) pieces → HasNo c (flat pieces)
  unfolding flat any
  HasNo-flat [] a = refl
  HasNo-flat (p ∷ pieces) a = HasNo-append p (flat pieces) a.0 (HasNo-flat pieces a.1)

  pub HasNo-join :
      (separator : Text) (ts : List Text)
      → HasNo c separator
      → All (HasNo c) ts
      → HasNo c (join separator ts)
  unfolding join any
  HasNo-join separator [] s a = refl
  HasNo-join separator (t ∷ []) s a = a.0
  HasNo-join separator (t ∷ u ∷ ts) s a =
      HasNo-append t _ a.0 (HasNo-append separator _ s (HasNo-join separator (u ∷ ts) s a.1))

  split-HasNo : (t : Text) → HasNo c t → split c t ≡ t ∷ []
  unfolding split any
  split-HasNo [] a = refl
  split-HasNo (x ∷ t) a = elim (Bool-cases (x == c)) [
    | inl hit ↦ absurd (ground arith)
    | inr miss ↦ rw (miss, split) (rw (split-HasNo t (ground arith)) refl)
  ]

  split-front : (t u : Text) → HasNo c t → split c (t ++ (c ∷ u)) ≡ t ∷ split c u
  unfolding split any
  split-front [] u a = elim (Bool-cases (c == c)) [
    | inl same ↦ rw (same, split) refl
    | inr other ↦ absurd (ground arith)
  ]
  split-front (x ∷ t) u a = elim (Bool-cases (x == c)) [
    | inl hit ↦ absurd (ground arith)
    | inr miss ↦ rw (miss, split) (rw (split-front t u (ground arith)) refl)
  ]

  -- Joined texts without the character are what their join is split into.
  pub split-join :
      (t : Text) (ts : List Text)
      → All (HasNo c) (t ∷ ts)
      → split c (join (c ∷ []) (t ∷ ts)) ≡ t ∷ ts
  unfolding join
  split-join t [] a = split-HasNo t a.0
  split-join t (u ∷ ts) a =
      rw (split-front t (join (c ∷ []) (u ∷ ts)) a.0) (ap (λ l. t ∷ l) (split-join u ts a.1))
