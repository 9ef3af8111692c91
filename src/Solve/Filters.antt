-- ===== src/Solve/Filters.antt =====
-- `negativeFilter` and `positiveFilter` of worker/solver.mjs: the node filter of a proxy group, a
-- pattern, is narrowed by terms that must not or must occur.
use rules.Base.{
  Option, none, some, List, [], ◌∷◌, ◌++◌, map, Text, codes, is_empty, join, strip_prefix,
  strip_last, if◌then◌else◌,
}

-- `terms.map((term) => `(?:${term})`).join("|")`
unfoldable pub alternatives : List Text → Text
alternatives terms = join (codes "|") (map (λ term. codes "(?:" ++ (term ++ codes ")")) terms)

-- `body`: a pattern without its flag and its anchors
unfoldable pub body_of : Text → Text
body_of pattern = strip_last b'$' (strip_prefix (codes "^") (strip_prefix (codes "(?i)") pattern))

-- The pattern with one more lookahead, which begins with `look`.
unfoldable pub with_lookahead : Text → Option Text → List Text → Text
with_lookahead look existing terms =
    codes "(?i)^"
    ++ (look
        ++ (alternatives terms
            ++ (codes "))" ++ elim existing [
              | none ↦ codes ".*$"
              | some pattern ↦
                  if is_empty pattern
                  then codes ".*$"
                  else codes "(?:" ++ (body_of pattern ++ codes ")$")
            ])))

unfoldable pub negative_filter : Option Text → List Text → Option Text
negative_filter existing [] = existing
negative_filter existing (t ∷ ts) = some (with_lookahead (codes "(?!.*(?:") existing (t ∷ ts))

unfoldable pub positive_filter : Option Text → List Text → Option Text
positive_filter existing [] = existing
positive_filter existing (t ∷ ts) = some (with_lookahead (codes "(?=.*(?:") existing (t ∷ ts))
