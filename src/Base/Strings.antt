-- ===== src/Base/Strings.antt =====
-- A string of the program is its list of UTF-16 code units, so that lengths, surrogates and
-- comparisons are those of the source.
use Prim.Native.Nat.{ℕ}
use Prim.Native.Char.{code}
use Prim.Native.String.{String}
use mathlib.Core.Path.{◌≡◌, refl}
use mathlib.Core.Logic.{◌↔◌, inl, inr}
use mathlib.Core.Bool.{Bool, true, false, ◌&&◌, ◌||◌}
use mathlib.Core.List.{List, [], ◌∷◌, ◌++◌}
use native.Mathlib.Omega.{arith}
use rules.Base.Tests.{ltb, ◌==◌, ==_iff, leb, if◌then◌else◌, Bool-cases}

abbrev pub Text : Type 0
Text = List ℕ

-- A literal of the source; those that are written here are ASCII, one unit a character.
abbrev pub codes : String → Text
codes String.[] = []
codes (String.◌∷◌ c s) = code c ∷ codes s

-- `a === b` on strings
unfoldable pub text_eq : Text → Text → Bool
text_eq [] [] = true
text_eq (x ∷ xs) (y ∷ ys) = (x == y) && text_eq xs ys
text_eq _ _ = false

text_eq_sound : (a b : Text) → text_eq a b ≡ true → a ≡ b
unfolding text_eq
text_eq_sound [] [] h = refl
text_eq_sound (x ∷ xs) (y ∷ ys) h = ground (arith, text_eq_sound xs ys, ==_iff x y)
text_eq_sound [] (y ∷ ys) h = ground arith
text_eq_sound (x ∷ xs) [] h = ground arith

pub text_eq_refl : (a : Text) → text_eq a a ≡ true
unfolding text_eq
text_eq_refl [] = refl
text_eq_refl (x ∷ xs) = ground (arith, text_eq_refl xs)

pub text_eq_iff : (a b : Text) → (text_eq a b ≡ true) ↔ (a ≡ b)
text_eq_iff a b = (text_eq_sound a b, λ e. ground (arith, text_eq_refl a))

-- `array.includes(x)`, and `set.has(x)` for a set made of the array
unfoldable pub includes : Text → List Text → Bool
includes x [] = false
includes x (y ∷ ys) = text_eq y x || includes x ys

-- `!s`
abbrev pub is_empty : Text → Bool
is_empty [] = true
is_empty (_ ∷ _) = false

-- The code units that `String.prototype.trim` removes: white space and line terminators.
unfoldable pub is_space : ℕ → Bool
is_space c =
    (leb 9 c && leb c 13)
    || c == 32
    || c == 160
    || c == 5760
    || (leb 8192 c && leb c 8202)
    || (leb 8232 c && leb c 8233)
    || c == 8239
    || c == 8287
    || c == 12288
    || c == 65279

-- `s.trimStart()`
unfoldable pub trim_start : Text → Text
unfolding is_space
trim_start [] = []
trim_start (c ∷ s) = if is_space c then trim_start s else c ∷ s

trim_end_cons : ℕ → Text → Text
unfolding is_space
trim_end_cons c [] = if is_space c then [] else c ∷ []
trim_end_cons c (d ∷ s) = c ∷ d ∷ s

-- `s.trimEnd()`
unfoldable pub trim_end : Text → Text
unfolding trim_end_cons
trim_end [] = []
trim_end (c ∷ s) = trim_end_cons c (trim_end s)

-- `s.trim()`
unfoldable pub trim : Text → Text
unfolding trim_start trim_end
trim s = trim_end (trim_start s)

trim_end_cons-trim_end :
    (c : ℕ) (t : Text) → trim_end t ≡ t → trim_end (trim_end_cons c t) ≡ trim_end_cons c t
unfolding trim_end trim_end_cons
trim_end_cons-trim_end c [] h = ground arith
trim_end_cons-trim_end c (d ∷ t) h = rw h refl

trim_end_idem : (s : Text) → trim_end (trim_end s) ≡ trim_end s
unfolding trim_end
trim_end_idem [] = refl
trim_end_idem (c ∷ s) = trim_end_cons-trim_end c (trim_end s) (trim_end_idem s)

trim_start-trim_end_cons :
    (c : ℕ) (t : Text) → is_space c ≡ false → trim_start (trim_end_cons c t) ≡ trim_end_cons c t
unfolding trim_start trim_end_cons
trim_start-trim_end_cons c [] h = ground arith
trim_start-trim_end_cons c (d ∷ t) h = rw h refl

trim_start-trim : (s : Text) → trim_start (trim_end (trim_start s)) ≡ trim_end (trim_start s)
unfolding trim_start trim_end
trim_start-trim [] = refl
trim_start-trim (c ∷ s) = elim (Bool-cases (is_space c)) [
  | inl e ↦ rw e (trim_start-trim s)
  | inr e ↦ rw e (trim_start-trim_end_cons c (trim_end s) e)
]

-- A trimmed text is left alone.
pub trim_idem : (s : Text) → trim (trim s) ≡ trim s
unfolding trim
trim_idem s = rw (trim_start-trim s) (trim_end_idem (trim_start s))

-- `values.join(separator)`
unfoldable pub join : Text → List Text → Text
join separator [] = []
join separator (t ∷ []) = t
join separator (t ∷ u ∷ ts) = t ++ (separator ++ join separator (u ∷ ts))

-- `text.startsWith(prefix)`
unfoldable pub starts_with : Text → Text → Bool
starts_with [] t = true
starts_with (p ∷ ps) [] = false
starts_with (p ∷ ps) (c ∷ t) = p == c && starts_with ps t

unfoldable pub drop_chars : Text → Text → Text
drop_chars [] t = t
drop_chars (p ∷ ps) [] = []
drop_chars (p ∷ ps) (c ∷ t) = drop_chars ps t

-- `if (text.startsWith(prefix)) text = text.slice(prefix.length)`
unfoldable pub strip_prefix : Text → Text → Text
strip_prefix prefix t = if starts_with prefix t then drop_chars prefix t else t

-- `if (text.endsWith(c)) text = text.slice(0, -1)`, for one character
unfoldable pub strip_last : ℕ → Text → Text
strip_last c [] = []
strip_last c (d ∷ []) = if d == c then [] else d ∷ []
strip_last c (d ∷ e ∷ t) = d ∷ strip_last c (e ∷ t)

-- The order of texts by their code units.
unfoldable pub text_leb : Text → Text → Bool
text_leb [] t = true
text_leb (c ∷ s) [] = false
text_leb (c ∷ s) (d ∷ t) = let rest = text_leb s t in if c == d then rest else ltb c d
