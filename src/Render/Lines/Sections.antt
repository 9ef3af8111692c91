-- ===== src/Render/Lines/Sections.antt =====
-- The lines of the sections and of the whole that `renderIni` of worker/render.mjs prints.
use rules.Base.{
  Bool, true, false, not, ◌&&◌, Option, none, some, get_or, List, [], ◌∷◌, Text, codes, text_eq,
  HasNo-flat, any, null, All, All-append, All-map_result, ok, >>=-eq-ok, map_result, Bool-cases,
  inl, inr, ◌≡◌, refl, subst, if-eq-ok, ok-injective,
}
use rules.Plan.{
  Rule, Group, Cluster, Selector, ClusterLayout, GroupLayout, Section, rule_section,
  cluster_section, group_section, selector_section,
}
use rules.Catalog.{LocalizedCopy, Data}
use rules.Spec.GroupCatalog.{label_of}
use rules.Render.{
  render_rule, render_group, banner, blank, section_title, comment_lines, subtitle_of,
  cluster_lines, group_lines, selector_lines, title_lines, emit_section, emit_sections,
}
use rules.Render.Lines.Rules.{OneLine, IsLine, render_rule-OneLine}
use rules.Render.Lines.Groups.{IsGroupLine, render_group-OneLine}

-- What the lines of a section are made of has no line break.
abbrev pub AreLines : Section → Type 0
AreLines (rule_section role layout rs) = All OneLine layout.comments × All IsLine rs
AreLines (cluster_section role layout cs) = All (λ (c : Cluster). All IsLine c.rule_list) cs
AreLines (group_section role layout gs) =
    OneLine layout.title × (OneLine (get_or layout.subtitle []) × All IsGroupLine gs)
AreLines (selector_section role layout ss) =
    OneLine layout.title
    × (OneLine (get_or layout.subtitle [])
        × All (λ (s : Selector). All OneLine s.comments × IsGroupLine s.group) ss)

-- The lines of a localized copy have no line break.
pub record IsCopy (copy : LocalizedCopy) : Type 0 where
  pub header : All OneLine copy.header
  pub footer : All OneLine copy.footer
  pub sections : All (λ (e : Text × Text). OneLine e.1) copy.sections

-- So do the lines that the catalog gives.
pub record IsCatalog (d : Data) : Type 0 where
  pub preamble : All OneLine d.preamble
  pub suffix : All OneLine d.suffix
  pub copies : All (λ (e : Text × LocalizedCopy). IsCopy e.1) d.localized

abbrev pub IsCopyOption : Option LocalizedCopy → Type 0
IsCopyOption none = Unit
IsCopyOption (some copy) = IsCopy copy

blank-OneLine : (flag : Bool) → All OneLine (blank flag)
unfolding any
blank-OneLine true = (refl, tt)
blank-OneLine false = tt

label_of-OneLine :
    (role title : Text) (m : List (Text × Text))
    → OneLine title
    → All (λ (e : Text × Text). OneLine e.1) m
    → OneLine (get_or (label_of role m) title)
unfolding label_of
label_of-OneLine role title [] t a = t
label_of-OneLine role title ((k, v) ∷ m) t a = elim (Bool-cases (text_eq k role)) [
  | inl hit ↦ rw (hit, label_of) a.0
  | inr miss ↦ rw (miss, label_of) (label_of-OneLine role title m t a.1)
]

section_title-OneLine :
    (copy : Option LocalizedCopy) (role title : Text)
    → IsCopyOption copy
    → OneLine title
    → OneLine (section_title copy role title)
unfolding section_title
section_title-OneLine none role title c t = t
section_title-OneLine (some l) role title c t = label_of-OneLine role title l.sections t c.sections

comment_lines-OneLine :
    (copy : Option LocalizedCopy) (role title : Text) (comments : List Text)
    → IsCopyOption copy
    → OneLine title
    → All OneLine comments
    → All OneLine (comment_lines copy role title comments)
unfolding comment_lines any
comment_lines-OneLine none role title comments c t a = a
comment_lines-OneLine (some l) role title [] c t a = tt
comment_lines-OneLine (some l) role title (x ∷ xs) c t a = (
  HasNo-flat 10 (codes "; " ∷ section_title (some l) role title ∷ [])
      (refl, (section_title-OneLine (some l) role title c t, tt)),
  tt,
)

subtitle_of-OneLine :
    (copy : Option LocalizedCopy) (subtitle : Option Text)
    → OneLine (get_or subtitle [])
    → OneLine (subtitle_of copy subtitle)
unfolding any
subtitle_of-OneLine none subtitle t = t
subtitle_of-OneLine (some l) subtitle t = refl

banner-OneLine :
    (title subtitle : Text) → OneLine title → OneLine subtitle → All OneLine (banner title subtitle)
unfolding banner any
banner-OneLine title [] t u =
    (refl, (HasNo-flat 10 (codes "; " ∷ title ∷ []) (refl, (t, tt)), (refl, (refl, tt))))
banner-OneLine title (x ∷ xs) t u = (
  refl,
  (
    HasNo-flat 10 (codes "; " ∷ title ∷ []) (refl, (t, tt)),
    (HasNo-flat 10 (codes "; " ∷ (x ∷ xs) ∷ []) (refl, (u, tt)), (refl, (refl, tt))),
  ),
)

title_lines-OneLine :
    (copy : Option LocalizedCopy) (role : Text) (layout : GroupLayout)
    → IsCopyOption copy
    → OneLine layout.title
    → OneLine (get_or layout.subtitle [])
    → All OneLine (title_lines copy role layout)
unfolding any
title_lines-OneLine copy role layout c t u = (
  refl,
  (
    refl,
    banner-OneLine _ _ (section_title-OneLine copy role layout.title c t)
        (subtitle_of-OneLine copy layout.subtitle u),
  ),
)

rules-OneLine :
    (rs : List Rule) (lines : List Text)
    → All IsLine rs
    → map_result render_rule rs ≡ ok lines
    → All OneLine lines
rules-OneLine rs lines =
    All-map_result IsLine OneLine render_rule rs lines
      (λ r line clean. render_rule-OneLine r clean line)

cluster_lines-OneLine :
    (layout : ClusterLayout) (first : Bool) (cs : List Cluster) (lines : List Text)
    → All (λ (c : Cluster). All IsLine c.rule_list) cs
    → cluster_lines layout first cs ≡ ok lines
    → All OneLine lines
unfolding cluster_lines
cluster_lines-OneLine layout first [] lines a e = subst (All OneLine) (ok-injective e) tt
cluster_lines-OneLine layout first (c ∷ cs) lines a e =
    let (here, one, more) = >>=-eq-ok (map_result render_rule c.rule_list) _ e in
    let (rest, two, done) = >>=-eq-ok (cluster_lines layout false cs) _ more in
    subst (All OneLine) (ok-injective done) (
      All-append OneLine _ _ (blank-OneLine _) (
        All-append OneLine _ _ (rules-OneLine c.rule_list here a.0 one)
          (cluster_lines-OneLine layout false cs rest a.1 two)))

group_lines-OneLine :
    (between first : Bool) (gs : List Group) (lines : List Text)
    → All IsGroupLine gs
    → group_lines between first gs ≡ ok lines
    → All OneLine lines
unfolding group_lines
group_lines-OneLine between first [] lines a e = subst (All OneLine) (ok-injective e) tt
group_lines-OneLine between first (g ∷ gs) lines a e =
    let (here, one, more) = >>=-eq-ok (render_group g) _ e in
    let (rest, two, done) = >>=-eq-ok (group_lines between false gs) _ more in
    subst (All OneLine) (ok-injective done) (
      All-append OneLine _ (here ∷ rest) (blank-OneLine _)
        (render_group-OneLine g a.0 here one, group_lines-OneLine between false gs rest a.1 two))

selector_lines-OneLine :
    (copy : Option LocalizedCopy) (role : Text) (between first : Bool) (ss : List Selector)
    (lines : List Text)
    → IsCopyOption copy
    → All (λ (s : Selector). All OneLine s.comments × IsGroupLine s.group) ss
    → selector_lines copy role between first ss ≡ ok lines
    → All OneLine lines
unfolding selector_lines any
selector_lines-OneLine copy role between first [] lines c a e =
    subst (All OneLine) (ok-injective e) tt
selector_lines-OneLine copy role between first (s ∷ ss) lines c a e =
    let (here, one, more) = >>=-eq-ok (render_group s.group) _ e in
    let (rest, two, done) = >>=-eq-ok (selector_lines copy role between false ss) _ more in
    subst (All OneLine) (ok-injective done) (
      All-append OneLine _ _ (blank-OneLine _) (
        All-append OneLine _ (here ∷ rest)
          (comment_lines-OneLine copy role (codes "Service choices") s.comments c refl a.0.0)
          (
            render_group-OneLine s.group a.0.1 here one,
            selector_lines-OneLine copy role between false ss rest c a.1 two,
          )))

emit_section-OneLine :
    (copy : Option LocalizedCopy) (s : Section) (lines : List Text)
    → IsCopyOption copy
    → AreLines s
    → emit_section copy s ≡ ok lines
    → All OneLine lines
unfolding emit_section any
emit_section-OneLine copy (rule_section role layout rs) lines c a e =
    if-eq-ok (All OneLine) (null rs && not layout.emit_if_empty) (ok []) _
      (λ u. subst (All OneLine) (ok-injective u) tt)
      (λ u.
        let (here, one, done) = >>=-eq-ok (map_result render_rule rs) _ u in
        subst (All OneLine) (ok-injective done) (
          All-append OneLine _ _ (blank-OneLine _) (
            All-append OneLine _ _
              (comment_lines-OneLine copy role (codes "Routing rules") layout.comments c refl a.0)
              (rules-OneLine rs here a.1 one))))
      e
emit_section-OneLine copy (cluster_section role layout cs) lines c a e =
    let (here, one, done) = >>=-eq-ok (cluster_lines layout true cs) _ e in
    subst (All OneLine) (ok-injective done)
      (All-append OneLine _ _ (blank-OneLine _) (cluster_lines-OneLine layout true cs here a one))
emit_section-OneLine copy (group_section role layout gs) lines c a e =
    let (here, one, done) = >>=-eq-ok (group_lines layout.blank_between true gs) _ e in
    subst (All OneLine) (ok-injective done) (
      All-append OneLine (title_lines copy role layout) here
        (title_lines-OneLine copy role layout c a.0 a.1.0)
        (group_lines-OneLine layout.blank_between true gs here a.1.1 one))
emit_section-OneLine copy (selector_section role layout ss) lines c a e =
    let (here, one, done) = >>=-eq-ok (selector_lines copy role layout.blank_between true ss) _ e in
    subst (All OneLine) (ok-injective done) (
      All-append OneLine (title_lines copy role layout) here
        (title_lines-OneLine copy role layout c a.0 a.1.0)
        (selector_lines-OneLine copy role layout.blank_between true ss here c a.1.1 one))

pub emit_sections-OneLine :
    (copy : Option LocalizedCopy) (ss : List Section) (lines : List Text)
    → IsCopyOption copy
    → All AreLines ss
    → emit_sections copy ss ≡ ok lines
    → All OneLine lines
unfolding emit_sections
emit_sections-OneLine copy [] lines c a e = subst (All OneLine) (ok-injective e) tt
emit_sections-OneLine copy (s ∷ ss) lines c a e =
    let (here, one, more) = >>=-eq-ok (emit_section copy s) _ e in
    let (rest, two, done) = >>=-eq-ok (emit_sections copy ss) _ more in
    subst (All OneLine) (ok-injective done) (
      All-append OneLine here rest (emit_section-OneLine copy s here c a.0 one)
        (emit_sections-OneLine copy ss rest c a.1 two))
