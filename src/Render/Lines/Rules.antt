-- ===== src/Render/Lines/Rules.antt =====
-- The lines of the rules that `renderRule` of worker/render.mjs prints.
use Prim.Native.Nat.{◌/◌}
use rules.Base.{
  ℕ, zero, suc, inl, inr, Bool, true, ◌||◌, Option, none, some, List, [], ◌∷◌, Text, codes, text_eq,
  join, HasNo, HasNo-append, HasNo-flat, HasNo-join, ltb, any, All, Result, ok, Bool-cases,
  if◌then◌else◌, ◌≡◌, refl, arith, subst, if-eq-ok, ok-injective, err-eq-ok, arith,
}
use rules.Value.{decimal, decimal_fuel}
use rules.Plan.{Rule}
use rules.Render.{
  RenderError, shown, shown_number, remote_line, geoip_suffix, geosite_line, geoip_line, final_line,
  render_rule,
}

-- A code unit other than a digit.
abbrev pub IsNoDigit : ℕ → Type 0
IsNoDigit c = (ltb c 48 || ltb 57 c) ≡ true

module _ (c : ℕ) (other : IsNoDigit c) where
  decimal_fuel-HasNo : (f n : ℕ) → HasNo c (decimal_fuel f n)
  unfolding decimal_fuel any
  decimal_fuel-HasNo zero n = refl
  decimal_fuel-HasNo (suc f) n = elim (Bool-cases (ltb n 10)) [
    | inl small ↦ rw (small, decimal_fuel) (ground arith)
    | inr large ↦
        rw (large, decimal_fuel)
          (HasNo-append c (decimal_fuel f (n / 10)) _ (decimal_fuel-HasNo f (n / 10))
            (ground arith))
  ]

  pub decimal-HasNo : (n : ℕ) → HasNo c (decimal n)
  unfolding decimal
  decimal-HasNo n = decimal_fuel-HasNo (suc n) n

abbrev pub OneLine : Text → Type 0
OneLine t = HasNo 10 t

pub shown_number-OneLine : (n : Option ℕ) → OneLine (shown_number n)
unfolding shown_number any
shown_number-OneLine none = refl
shown_number-OneLine (some n) = decimal-HasNo 10 refl n

-- What the line of a rule is made of has no line break.
pub record IsLine (r : Rule) : Type 0 where
  pub target : OneLine r.target
  pub url : OneLine (shown r.url)
  pub value : OneLine (shown r.value)
  pub options : All OneLine r.options

-- A line of the first branch, and the lines of the others.
pub branch :
    (b : Bool) (t : Text) {rest : Result RenderError Text} {line : Text}
    → OneLine t
    → (rest ≡ ok line → OneLine line)
    → (if b then ok t else rest) ≡ ok line
    → OneLine line
branch b t {rest} p q = if-eq-ok OneLine b (ok t) rest (λ e. subst OneLine (ok-injective e) p) q

geoip_suffix-OneLine : (os : List Text) → All OneLine os → OneLine (geoip_suffix os)
unfolding any
geoip_suffix-OneLine [] a = refl
geoip_suffix-OneLine (o ∷ os) a =
    HasNo-flat 10 (codes "," ∷ join (codes ",") (o ∷ os) ∷ [])
      (refl, (HasNo-join 10 (codes ",") (o ∷ os) refl a, tt))

module _ (r : Rule) (clean : IsLine r) where
  remote_line-OneLine : (kind : Text) → OneLine kind → OneLine (remote_line kind r)
  unfolding any
  remote_line-OneLine kind k =
      HasNo-flat 10 _
        (refl, (clean.target, (k, (clean.url, (refl, (shown_number-OneLine r.interval, tt))))))

  pub render_rule-OneLine : (line : Text) → render_rule r ≡ ok line → OneLine line
  unfolding render_rule any
  render_rule-OneLine line e =
      branch (text_eq r.kind (codes "remote-classical")) (remote_line (codes ",clash-classic:") r)
        (remote_line-OneLine (codes ",clash-classic:") refl)
        (branch (text_eq r.kind (codes "remote-domain")) (remote_line (codes ",clash-domain:") r)
          (remote_line-OneLine (codes ",clash-domain:") refl)
          (branch (text_eq r.kind (codes "geosite")) (geosite_line r)
            (HasNo-flat 10 _ (refl, (clean.target, (refl, (clean.value, tt)))))
            (branch (text_eq r.kind (codes "geoip")) (geoip_line r)
              (HasNo-flat 10 _ (
                refl,
                (
                  clean.target,
                  (refl, (clean.value, (geoip_suffix-OneLine r.options clean.options, tt))),
                ),
              ))
              (branch (text_eq r.kind (codes "final")) (final_line r)
                (HasNo-flat 10 _ (refl, (clean.target, (refl, tt)))) err-eq-ok))))
        e
