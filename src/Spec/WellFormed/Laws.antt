-- ===== src/Spec/WellFormed/Laws.antt =====
-- Which texts `isWellFormedUnicode` of worker/solver.mjs accepts.
use rules.Base.{ℕ, true, false, [], ◌∷◌, Text, ◌≡◌, refl, arith, Bool-cases, inl, inr, ◌⊎◌, ◌↔◌}
use rules.Spec.WellFormed.{is_high, is_low, is_well_formed_unicode}

-- Well-formed UTF-16: each surrogate stands in a pair, the high one first.
pub data WellFormed : Text → Type 0 where
  done : WellFormed []
  unit :
      {c : ℕ} {s : Text} → is_high c ≡ false → is_low c ≡ false → WellFormed s → WellFormed (c ∷ s)
  pair :
      {h l : ℕ} {s : Text}
      → is_high h ≡ true
      → is_low l ≡ true
      → WellFormed s
      → WellFormed (h ∷ l ∷ s)

-- A text that ends in a lone high surrogate and is well formed up to it.
pub data EndsHigh : Text → Type 0 where
  lone : {h : ℕ} → is_high h ≡ true → EndsHigh (h ∷ [])
  after_unit :
      {c : ℕ} {s : Text} → is_high c ≡ false → is_low c ≡ false → EndsHigh s → EndsHigh (c ∷ s)
  after_pair :
      {h l : ℕ} {s : Text} → is_high h ≡ true → is_low l ≡ true → EndsHigh s → EndsHigh (h ∷ l ∷ s)

high-not-low : (c : ℕ) → is_high c ≡ true → is_low c ≡ false
high-not-low c h = ground arith

accepts : (s : Text) → is_well_formed_unicode s ≡ true → WellFormed s ⊎ EndsHigh s
unfolding is_well_formed_unicode
accepts [] e = inl done
accepts (c ∷ []) e = elim (Bool-cases (is_high c)) [
  | inl high ↦ inr (lone high)
  | inr other ↦ inl (unit other (ground arith) done)
]
accepts (c ∷ d ∷ s) e = elim (Bool-cases (is_high c)) [
  | inl high ↦ elim (Bool-cases (is_low d)) [
    | inl low ↦ elim (accepts s (ground arith)) [
      | inl w ↦ inl (pair high low w)
      | inr w ↦ inr (after_pair high low w)
    ]
    | inr other ↦ absurd (ground arith)
  ]
  | inr other ↦ elim (Bool-cases (is_low c)) [
    | inl low ↦ absurd (ground arith)
    | inr plain ↦ elim (accepts (d ∷ s) (ground arith)) [
      | inl w ↦ inl (unit other plain w)
      | inr w ↦ inr (after_unit other plain w)
    ]
  ]
]

unit_step :
    (c : ℕ) (s : Text)
    → is_high c ≡ false
    → is_low c ≡ false
    → is_well_formed_unicode s ≡ true
    → is_well_formed_unicode (c ∷ s) ≡ true
unfolding is_well_formed_unicode
unit_step c [] h l e = rw (h, l) refl
unit_step c (d ∷ s) h l e = rw (h, l) e

pair_step :
    (c d : ℕ) (s : Text)
    → is_high c ≡ true
    → is_low d ≡ true
    → is_well_formed_unicode s ≡ true
    → is_well_formed_unicode (c ∷ d ∷ s) ≡ true
unfolding is_well_formed_unicode
pair_step c d s h l e = rw (h, l) e

accepts_WellFormed : {s : Text} → WellFormed s → is_well_formed_unicode s ≡ true
accepts_WellFormed done = unfold is_well_formed_unicode in refl
accepts_WellFormed (unit {c} {s} h l w) = unit_step c s h l (accepts_WellFormed w)
accepts_WellFormed (pair {h} {l} {s} p q w) = pair_step h l s p q (accepts_WellFormed w)

accepts_EndsHigh : {s : Text} → EndsHigh s → is_well_formed_unicode s ≡ true
accepts_EndsHigh (lone h) = unfold is_well_formed_unicode in rw h refl
accepts_EndsHigh (after_unit {c} {s} h l w) = unit_step c s h l (accepts_EndsHigh w)
accepts_EndsHigh (after_pair {h} {l} {s} p q w) = pair_step h l s p q (accepts_EndsHigh w)

-- The walk accepts exactly the well-formed texts and, besides, those that are well formed up to a
-- lone high surrogate at their end.
pub is_well_formed_unicode_iff :
    (s : Text) → (is_well_formed_unicode s ≡ true) ↔ (WellFormed s ⊎ EndsHigh s)
is_well_formed_unicode_iff s =
    (accepts s, λ either. elim either [ inl w ↦ accepts_WellFormed w | inr w ↦ accepts_EndsHigh w ])
