-- ===== src/Spec/WellFormed.antt =====
-- `isWellFormedUnicode` of worker/solver.mjs: the walk over the UTF-16 code units of a text.
pub mod Laws
use rules.Base.{ℕ, Bool, true, false, ◌&&◌, List, [], ◌∷◌, Text, leb, if◌then◌else◌, not}

abbrev pub is_high : ℕ → Bool
is_high unit = leb 0xd800 unit && leb unit 0xdbff

abbrev pub is_low : ℕ → Bool
is_low unit = leb 0xdc00 unit && leb unit 0xdfff

-- The loop from an index on. `charCodeAt` past the end is NaN, which is neither less nor greater
-- than a bound, so a last high surrogate passes.
unfoldable pub is_well_formed_unicode : Text → Bool
is_well_formed_unicode [] = true
is_well_formed_unicode (unit ∷ []) = if is_high unit then true else not (is_low unit)
is_well_formed_unicode (unit ∷ next ∷ rest) =
    let after_pair = is_well_formed_unicode rest in
    let after_unit = is_well_formed_unicode (next ∷ rest) in
    if is_high unit
    then (if is_low next then after_pair else false)
    else if is_low unit
    then false
    else after_unit
