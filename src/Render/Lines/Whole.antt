-- ===== src/Render/Lines/Whole.antt =====
-- The lines of the whole that `renderIni` of worker/render.mjs prints.
use rules.Base.{
  false, ◌||◌, Option, none, some, List, [], ◌∷◌, ◌++◌, Text, codes, text_eq, join, split,
  split-join, any, any_weaken, null, All, All-append, All-keep, All-map_result, ok, >>=-eq-ok,
  map_result, Bool-cases, inl, inr, ◌≡◌, refl, ap, subst, ok-injective, arith, Option-cases, ◌==◌,
  ◌∙◌,
}
use mathlib.Core.List.{append_assoc}
use rules.Value.{Value, to_string}
use rules.Plan.{Section}
use rules.Catalog.{LocalizedCopy, Data}
use rules.Spec.Providers.{is_control}
use rules.Spec.Normalize.{ProfileSpec}
use rules.Render.{
  emit_sections, copy_named, localized_copy, provider_notes, checked_note, checked_notes,
  note_lines, preamble_lines, suffix_lines, ini_lines, render_ini,
}
use rules.Render.Lines.Rules.{OneLine}
use rules.Render.Lines.Sections.{AreLines, IsCopy, IsCatalog, IsCopyOption, emit_sections-OneLine}

checked_note-OneLine : (n : Option Text) (line : Text) → checked_note n ≡ ok line → OneLine line
unfolding checked_note
checked_note-OneLine none line e = cc
checked_note-OneLine (some note) line e =
    elim (Bool-cases (any (λ c. is_control c || c == 0x2028 || c == 0x2029) note)) [
      | inl bad ↦ absurd (ground arith)
      | inr good ↦
          let same : note ≡ line = ground arith in
          subst OneLine same (any_weaken _ (λ c. c == 10) note (λ c h. ground arith) good)
    ]

All-any : (ns : List (Option Text)) → All (λ n. Unit {0}) ns
All-any [] = tt
All-any (n ∷ ns) = (tt, All-any ns)

checked_notes-OneLine :
    (ns : List (Option Text)) (lines : List Text) → checked_notes ns ≡ ok lines → All OneLine lines
unfolding checked_notes any
checked_notes-OneLine [] lines e = subst (All OneLine) (ok-injective e) tt
checked_notes-OneLine (n ∷ ns) lines e =
    let (notes, ran, done) = >>=-eq-ok (map_result checked_note (n ∷ ns)) _ e in
    subst (All OneLine) (ok-injective done) (
      All-append OneLine notes ([] ∷ [])
        (All-map_result (λ x. Unit {0}) OneLine checked_note (n ∷ ns) notes
          (λ x line u. checked_note-OneLine x line) (All-any (n ∷ ns)) ran)
        (refl, tt))

note_lines-OneLine :
    (copy : Option LocalizedCopy) (spec : ProfileSpec) (lines : List Text)
    → note_lines copy spec ≡ ok lines
    → All OneLine lines
unfolding note_lines any
note_lines-OneLine none spec lines e = subst (All OneLine) (ok-injective e) tt
note_lines-OneLine (some copy) spec lines e =
    checked_notes-OneLine (provider_notes copy spec) lines e

copy_named-IsCopy :
    (name : Text) (m : List (Text × LocalizedCopy)) (copy : LocalizedCopy)
    → All (λ (e : Text × LocalizedCopy). IsCopy e.1) m
    → copy_named name m ≡ some copy
    → IsCopy copy
unfolding copy_named
copy_named-IsCopy name [] copy a e = cc
copy_named-IsCopy name ((n, l) ∷ m) copy a e = elim (Bool-cases (text_eq n name)) [
  | inl hit ↦ let same : l ≡ copy = ground arith in subst IsCopy same a.0
  | inr miss ↦ copy_named-IsCopy name m copy a.1 (ground arith)
]

localized_copy-IsCopyOption :
    (d : Data) (language : Option Value) (copy : Option LocalizedCopy)
    → IsCatalog d
    → localized_copy d language ≡ ok copy
    → IsCopyOption copy
unfolding localized_copy
localized_copy-IsCopyOption d none copy a e = subst IsCopyOption (ok-injective e) tt
localized_copy-IsCopyOption d (some language) copy a e =
    elim (Option-cases (copy_named (to_string language) d.localized)) [
      | inl missing ↦ absurd (ground arith)
      | inr (l, found) ↦
          let same : some l ≡ copy = ground arith in
          subst IsCopyOption same (copy_named-IsCopy _ d.localized l a.copies found)
    ]

preamble_lines-OneLine :
    (d : Data) (copy : Option LocalizedCopy)
    → IsCatalog d
    → IsCopyOption copy
    → All OneLine (preamble_lines d copy)
unfolding preamble_lines any
preamble_lines-OneLine d none a c = a.preamble
preamble_lines-OneLine d (some copy) a c =
    All-append OneLine copy.header ([] ∷ codes "[custom]" ∷ [] ∷ []) c.header
      (refl, (refl, (refl, tt)))

suffix_lines-OneLine :
    (d : Data) (copy : Option LocalizedCopy)
    → IsCatalog d
    → IsCopyOption copy
    → All OneLine (suffix_lines d copy)
unfolding suffix_lines any
suffix_lines-OneLine d none a c = a.suffix
suffix_lines-OneLine d (some copy) a c =
    (refl, (refl, All-append OneLine copy.footer _ c.footer (All-keep OneLine _ d.suffix a.suffix)))

ini_lines-OneLine :
    (d : Data) (plan : List Section) (language : Option Value) (spec : ProfileSpec)
    (lines : List Text)
    → IsCatalog d
    → All AreLines plan
    → ini_lines d plan language spec ≡ ok lines
    → All OneLine lines
unfolding ini_lines
ini_lines-OneLine d plan language spec lines a b e =
    let (copy, found, e₁) = >>=-eq-ok (localized_copy d language) _ e in
    let (notes, noted, e₂) = >>=-eq-ok (note_lines copy spec) _ e₁ in
    let (sections, printed, done) = >>=-eq-ok (emit_sections copy plan) _ e₂ in
    let c = localized_copy-IsCopyOption d language copy a found in
    subst (All OneLine) (ok-injective done) (
      All-append OneLine (preamble_lines d copy) _ (preamble_lines-OneLine d copy a c) (
        All-append OneLine notes _ (note_lines-OneLine copy spec notes noted) (
          All-append OneLine sections (suffix_lines d copy)
            (emit_sections-OneLine copy plan sections c b printed)
            (suffix_lines-OneLine d copy a c))))

join_last :
    (lines : List Text) (t : Text)
    → join (codes "\n") (t ∷ lines) ++ codes "\n" ≡ join (codes "\n") (t ∷ (lines ++ ([] ∷ [])))
unfolding join
join_last [] t = refl
join_last (u ∷ lines) t =
    append_assoc t (10 ∷ join (codes "\n") (u ∷ lines)) (codes "\n")
    ∙ ap (λ x. t ++ (10 ∷ x)) (join_last lines u)

-- A text that ends in a line break after its lines, none of which is broken, has those lines.
split-joined_lines :
    (lines : List Text)
    → null lines ≡ false
    → All OneLine lines
    → split 10 (join (codes "\n") lines ++ codes "\n") ≡ lines ++ ([] ∷ [])
unfolding any
split-joined_lines [] h a = cc
split-joined_lines (t ∷ lines) h a =
    rw (join_last lines t) (
      split-join 10 t (lines ++ ([] ∷ [])) (a.0, All-append OneLine lines ([] ∷ []) a.1 (refl, tt)))

null-front : (xs ys : List Text) → null xs ≡ false → null (xs ++ ys) ≡ false
null-front [] ys h = cc
null-front (x ∷ xs) ys h = refl

null-rest : (xs ys : List Text) → null ys ≡ false → null (xs ++ ys) ≡ false
null-rest [] ys h = h
null-rest (x ∷ xs) ys h = refl

preamble_lines_not_empty :
    (d : Data) (copy : Option LocalizedCopy)
    → null d.preamble ≡ false
    → null (preamble_lines d copy) ≡ false
unfolding preamble_lines
preamble_lines_not_empty d none h = h
preamble_lines_not_empty d (some copy) h = null-rest copy.header _ refl

ini_lines_not_empty :
    (d : Data) (plan : List Section) (language : Option Value) (spec : ProfileSpec)
    (lines : List Text)
    → null d.preamble ≡ false
    → ini_lines d plan language spec ≡ ok lines
    → null lines ≡ false
unfolding ini_lines
ini_lines_not_empty d plan language spec lines h e =
    let (copy, found, e₁) = >>=-eq-ok (localized_copy d language) _ e in
    let (notes, noted, e₂) = >>=-eq-ok (note_lines copy spec) _ e₁ in
    let (sections, printed, done) = >>=-eq-ok (emit_sections copy plan) _ e₂ in
    subst (λ l. null l ≡ false) (ok-injective done)
      (null-front (preamble_lines d copy) _ (preamble_lines_not_empty d copy h))

-- The text that is printed for a plan has, split at its line breaks, the lines that were pushed and
-- an empty one at its end, if the lines of the catalog, of which there are some before the plan, and
-- the texts of the plan have no line break: none of those texts adds a line of its own.
pub render_ini-lines :
    (d : Data) (plan : List Section) (language : Option Value) (spec : ProfileSpec) (out : Text)
    → IsCatalog d
    → null d.preamble ≡ false
    → All AreLines plan
    → render_ini d plan language spec ≡ ok out
    → (lines : List Text) × (ini_lines d plan language spec ≡ ok lines)
      × (split 10 out ≡ lines ++ ([] ∷ []))
unfolding render_ini
render_ini-lines d plan language spec out a h b e =
    let (lines, ran, done) = >>=-eq-ok (ini_lines d plan language spec) _ e in
    (
      lines,
      ran,
      subst (λ t. split 10 t ≡ lines ++ ([] ∷ [])) (ok-injective done)
          (split-joined_lines lines (ini_lines_not_empty d plan language spec lines h ran)
            (ini_lines-OneLine d plan language spec lines a b ran)),
    )
