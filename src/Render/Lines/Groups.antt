-- ===== src/Render/Lines/Groups.antt =====
-- The lines of the groups that `renderGroup` of worker/render.mjs prints.
use rules.Base.{
  ℕ, Option, none, some, get_or, List, [], ◌∷◌, map, Text, codes, is_empty, HasNo-flat, HasNo-join,
  any, flat, All, All-append, ok, err, Bool-cases, inl, inr, ◌≡◌, refl, subst, if-eq-ok,
  ok-injective, err-eq-ok, arith,
}
use rules.Value.{decimal}
use rules.Plan.{Candidate, Group}
use rules.Solve.Names.{is_group_reference}
use rules.Spec.GroupCatalog.{is_text}
use rules.Render.{
  RenderError, shown, render_candidate, nonempty_field, health_check, group_prefix, candidates_text,
  filter_text, render_url_test, render_fallback, render_group, fields_text, select_line,
  select_group_line,
}
use rules.Render.Lines.Rules.{OneLine, decimal-HasNo, branch}

-- What the line of a group is made of has no line break.
pub record IsGroupLine (g : Group) : Type 0 where
  pub name : OneLine g.name
  pub kind : OneLine (shown g.kind)
  pub candidates : All (λ (c : Candidate). OneLine c.value) g.candidates
  pub filter : OneLine (filter_text g)
  pub check : OneLine (get_or g.health_check_url [])

All-candidates :
    (cs : List Candidate)
    → All (λ (c : Candidate). OneLine c.value) cs
    → All OneLine (map render_candidate cs)
unfolding render_candidate any
All-candidates [] a = tt
All-candidates (c ∷ cs) a = (
  elim (Bool-cases (is_group_reference c)) [
    | inl ref ↦ rw ref (HasNo-flat 10 _ (refl, (a.0, tt)))
    | inr policy ↦ rw policy a.0
  ],
  All-candidates cs a.1,
)

All-nonempty_field : (t : Text) → OneLine t → All OneLine (nonempty_field t)
All-nonempty_field [] a = tt
All-nonempty_field (c ∷ t) a = (a, tt)

health_check-OneLine :
    (url : Option Text) (interval tolerance : Option ℕ) (t : Text)
    → OneLine (get_or url [])
    → health_check url interval tolerance ≡ some t
    → OneLine t
unfolding health_check any
health_check-OneLine (some url) (some m) (some n) t a e = elim (Bool-cases (is_empty url)) [
  | inl empty ↦ absurd (ground arith)
  | inr there ↦
      let same : flat (url ∷ codes "`" ∷ decimal m ∷ codes ",," ∷ decimal n ∷ []) ≡ t =
        ground arith in
      subst OneLine same (
        HasNo-flat 10 _
          (a, (refl, (decimal-HasNo 10 refl m, (refl, (decimal-HasNo 10 refl n, tt))))))
]
health_check-OneLine none _ _ t a e = cc
health_check-OneLine (some url) none _ t a e = cc
health_check-OneLine (some url) (some m) none t a e = cc

module _ (g : Group) (clean : IsGroupLine g) where
  group_prefix-OneLine : OneLine (group_prefix g)
  unfolding any
  group_prefix-OneLine = HasNo-flat 10 _ (refl, (clean.name, (refl, (clean.kind, (refl, tt)))))

  candidates_text-OneLine : OneLine (candidates_text g)
  unfolding any
  candidates_text-OneLine =
      HasNo-join 10 (codes "`") _ refl (All-candidates g.candidates clean.candidates)

  fields-OneLine : OneLine (fields_text g)
  unfolding any
  fields-OneLine = HasNo-join 10 (codes "`") _ refl (
      All-append OneLine (nonempty_field (candidates_text g)) (nonempty_field (filter_text g))
        (All-nonempty_field _ candidates_text-OneLine) (All-nonempty_field _ clean.filter))

  render_url_test-OneLine :
      (tail : Option Text) (line : Text)
      → ((t : Text) → tail ≡ some t → OneLine t)
      → render_url_test g tail ≡ ok line
      → OneLine line
  unfolding render_url_test any
  render_url_test-OneLine none line h e = cc
  render_url_test-OneLine (some tail) line h e =
      if-eq-ok OneLine (is_empty (filter_text g)) (err RenderError.incomplete_url_test) _ err-eq-ok
        (λ u.
          subst OneLine (ok-injective u)
            (HasNo-flat 10 _ (group_prefix-OneLine, (fields-OneLine, (refl, (h tail refl, tt))))))
        e

  render_fallback-OneLine :
      (tail : Option Text) (line : Text)
      → ((t : Text) → tail ≡ some t → OneLine t)
      → render_fallback g tail ≡ ok line
      → OneLine line
  unfolding render_fallback any
  render_fallback-OneLine none line h e = cc
  render_fallback-OneLine (some tail) line h e =
      subst OneLine (ok-injective e) (
        HasNo-flat 10 _
          (group_prefix-OneLine, (candidates_text-OneLine, (refl, (h tail refl, tt)))))

  select_group_line-OneLine : OneLine (select_group_line g)
  unfolding any
  select_group_line-OneLine =
      HasNo-flat 10 _ (refl, (clean.name, (refl, (candidates_text-OneLine, tt))))

  pub render_group-OneLine : (line : Text) → render_group g ≡ ok line → OneLine line
  unfolding render_group any
  render_group-OneLine line e =
      let tail : (t : Text)
          → health_check g.health_check_url g.interval g.tolerance ≡ some t
          → OneLine t =
        λ t. health_check-OneLine g.health_check_url g.interval g.tolerance t clean.check in
      branch (is_text g.type (codes "select-group")) (select_group_line g) select_group_line-OneLine
        (branch (is_text g.kind (codes "select")) (select_line g)
          (HasNo-flat 10 _ (group_prefix-OneLine, (fields-OneLine, tt)))
          (if-eq-ok OneLine (is_text g.kind (codes "url-test")) (render_url_test g _) _
            (render_url_test-OneLine _ line tail)
            (if-eq-ok OneLine (is_text g.kind (codes "fallback")) (render_fallback g _)
              (err RenderError.unsupported_group) (render_fallback-OneLine _ line tail) err-eq-ok)))
        e
