-- ===== src/Render.antt =====
-- The INI renderer, worker/render.mjs: a plan is printed line by line. A template literal is `flat`
-- of its pieces.
pub mod Lines
pub mod Providers
pub mod Direct
use rules.Base.{
  ℕ, Bool, true, false, not, ◌&&◌, ◌||◌, Option, none, some, get_or, List, [], ◌∷◌, ◌++◌, map, Text,
  codes, text_eq, is_empty, trim_start, join, starts_with, split, strip_last, keep, any, flat, null,
  ◌==◌, Result, ok, err, ◌>>=◌, ◌>>◌, throw_if, map_result, if◌then◌else◌,
}
use rules.Value.{Value, decimal, to_string}
use rules.Plan.{
  Rule, Candidate, Group, Cluster, Selector, RuleLayout, ClusterLayout, GroupLayout, Section,
  rule_section, cluster_section, group_section, selector_section,
}
use rules.Catalog.{LocalizedCopy, Data}
use rules.Spec.Providers.{is_control}
use rules.Spec.GroupCatalog.{label_of, is_text}
use rules.Spec.Normalize.{ProfileSpec, is_true, provider_list}
use rules.Solve.Names.{is_group_reference}

-- The errors that the renderer throws.
pub data RenderError : Type 0 where
  unsupported_rule : RenderError
  incomplete_url_test : RenderError
  incomplete_fallback : RenderError
  unsupported_group : RenderError
  unsupported_language : RenderError
  comments_unavailable : RenderError

-- `${value}`
unfoldable pub shown : Option Text → Text
shown none = codes "undefined"
shown (some t) = t

unfoldable pub shown_number : Option ℕ → Text
shown_number none = codes "undefined"
shown_number (some n) = decimal n

abbrev pub remote_line : Text → Rule → Text
remote_line kind r =
    flat
      (codes "ruleset=" ∷ r.target ∷ kind ∷ shown r.url ∷ codes "," ∷ shown_number r.interval ∷ [])

abbrev pub geoip_suffix : List Text → Text
geoip_suffix [] = []
geoip_suffix (o ∷ os) = flat (codes "," ∷ join (codes ",") (o ∷ os) ∷ [])

abbrev pub geosite_line : Rule → Text
geosite_line r = flat (codes "ruleset=" ∷ r.target ∷ codes ",[]GEOSITE," ∷ shown r.value ∷ [])

abbrev pub geoip_line : Rule → Text
geoip_line r =
    flat (
      codes "ruleset=" ∷ r.target ∷ codes ",[]GEOIP," ∷ shown r.value ∷ geoip_suffix r.options ∷ [])

abbrev pub final_line : Rule → Text
final_line r = flat (codes "ruleset=" ∷ r.target ∷ codes ",[]FINAL" ∷ [])

unfoldable pub render_rule : Rule → Result RenderError Text
render_rule r =
    if text_eq r.kind (codes "remote-classical")
    then ok (remote_line (codes ",clash-classic:") r)
    else if text_eq r.kind (codes "remote-domain")
    then ok (remote_line (codes ",clash-domain:") r)
    else if text_eq r.kind (codes "geosite")
    then ok (geosite_line r)
    else if text_eq r.kind (codes "geoip")
    then ok (geoip_line r)
    else if text_eq r.kind (codes "final")
    then ok (final_line r)
    else err RenderError.unsupported_rule

unfoldable pub render_candidate : Candidate → Text
render_candidate c = if is_group_reference c then flat (codes "[]" ∷ c.value ∷ []) else c.value

-- `if (text) fields.push(text)`
abbrev pub nonempty_field : Text → List Text
nonempty_field [] = []
nonempty_field (c ∷ t) = (c ∷ t) ∷ []

-- The health check at the end of a line, if it is complete.
unfoldable pub health_check : Option Text → Option ℕ → Option ℕ → Option Text
health_check (some url) (some interval) (some tolerance) =
    if is_empty url
    then none
    else some (flat (url ∷ codes "`" ∷ decimal interval ∷ codes ",," ∷ decimal tolerance ∷ []))
health_check _ _ _ = none

abbrev pub group_prefix : Group → Text
group_prefix g =
    flat (codes "custom_proxy_group=" ∷ g.name ∷ codes "`" ∷ shown g.kind ∷ codes "`" ∷ [])

abbrev pub candidates_text : Group → Text
candidates_text g = join (codes "`") (map render_candidate g.candidates)

abbrev pub filter_text : Group → Text
filter_text g = get_or g.filter_pattern []

unfoldable pub render_url_test : Group → Option Text → Result RenderError Text
render_url_test g none = err RenderError.incomplete_url_test
render_url_test g (some tail) =
    if is_empty (filter_text g)
    then err RenderError.incomplete_url_test
    else ok (
        flat (
          group_prefix g
          ∷ join (codes "`") (nonempty_field (candidates_text g) ++ nonempty_field (filter_text g))
          ∷ codes "`"
          ∷ tail
          ∷ []))

unfoldable pub render_fallback : Group → Option Text → Result RenderError Text
render_fallback g none = err RenderError.incomplete_fallback
render_fallback g (some tail) =
    ok (flat (group_prefix g ∷ candidates_text g ∷ codes "`" ∷ tail ∷ []))

abbrev pub select_group_line : Group → Text
select_group_line g =
    flat (codes "custom_proxy_group=" ∷ g.name ∷ codes "`select`" ∷ candidates_text g ∷ [])

abbrev pub fields_text : Group → Text
fields_text g =
    join (codes "`") (nonempty_field (candidates_text g) ++ nonempty_field (filter_text g))

abbrev pub select_line : Group → Text
select_line g = flat (group_prefix g ∷ fields_text g ∷ [])

unfoldable pub render_group : Group → Result RenderError Text
render_group g =
    if is_text g.type (codes "select-group")
    then ok (select_group_line g)
    else if is_text g.kind (codes "select")
    then ok (select_line g)
    else if is_text g.kind (codes "url-test")
    then render_url_test g (health_check g.health_check_url g.interval g.tolerance)
    else if is_text g.kind (codes "fallback")
    then render_fallback g (health_check g.health_check_url g.interval g.tolerance)
    else err RenderError.unsupported_group

-- `";" + "=".repeat(58)`
abbrev pub bar : Text
bar = codes ";=========================================================="

unfoldable pub banner : Text → Text → List Text
banner title subtitle =
    bar
    ∷ flat (codes "; " ∷ title ∷ [])
    ∷ ((if is_empty subtitle then [] else flat (codes "; " ∷ subtitle ∷ []) ∷ [])
        ++ (bar ∷ [] ∷ []))

-- `if (flag) lines.push("")`
abbrev pub blank : Bool → List Text
blank flag = if flag then [] ∷ [] else []

-- `localizedCopy?.sections[role] ?? title`
unfoldable pub section_title : Option LocalizedCopy → Text → Text → Text
section_title none role title = title
section_title (some copy) role title = get_or (label_of role copy.sections) title

-- The comments, or the localized one in their place.
unfoldable pub comment_lines : Option LocalizedCopy → Text → Text → List Text → List Text
comment_lines none role title comments = comments
comment_lines (some copy) role title [] = []
comment_lines (some copy) role title (c ∷ cs) =
    flat (codes "; " ∷ section_title (some copy) role title ∷ []) ∷ []

-- `localizedCopy ? null : section.subtitle`
abbrev pub subtitle_of : Option LocalizedCopy → Option Text → Text
subtitle_of none subtitle = get_or subtitle []
subtitle_of (some copy) subtitle = []

unfoldable pub cluster_lines : ClusterLayout → Bool → List Cluster → Result RenderError (List Text)
cluster_lines layout first [] = ok []
cluster_lines layout first (c ∷ cs) = do
  here ← map_result render_rule c.rule_list
  rest ← cluster_lines layout false cs
  ok (blank (if first then layout.blank_before_first else layout.blank_between) ++ (here ++ rest))

unfoldable pub group_lines : Bool → Bool → List Group → Result RenderError (List Text)
group_lines between first [] = ok []
group_lines between first (g ∷ gs) = do
  here ← render_group g
  rest ← group_lines between false gs
  ok (blank (not first && between) ++ (here ∷ rest))

unfoldable pub selector_lines :
    Option LocalizedCopy → Text → Bool → Bool → List Selector → Result RenderError (List Text)
selector_lines copy role between first [] = ok []
selector_lines copy role between first (s ∷ ss) = do
  here ← render_group s.group
  rest ← selector_lines copy role between false ss
  ok (
      blank (not first && between)
      ++ (comment_lines copy role (codes "Service choices") s.comments ++ (here ∷ rest)))

abbrev pub title_lines : Option LocalizedCopy → Text → GroupLayout → List Text
title_lines copy role layout =
    [] ∷ [] ∷ banner (section_title copy role layout.title) (subtitle_of copy layout.subtitle)

-- The lines that `emitSection` pushes.
unfoldable pub emit_section : Option LocalizedCopy → Section → Result RenderError (List Text)
emit_section copy (rule_section role layout rs) =
    if null rs && not layout.emit_if_empty then ok [] else do
      here ← map_result render_rule rs
      ok (
          blank layout.leading_blank
          ++ (comment_lines copy role (codes "Routing rules") layout.comments ++ here))
emit_section copy (cluster_section role layout cs) = do
  here ← cluster_lines layout true cs
  ok (blank layout.leading_blank ++ here)
emit_section copy (group_section role layout gs) = do
  here ← group_lines layout.blank_between true gs
  ok (title_lines copy role layout ++ here)
emit_section copy (selector_section role layout ss) = do
  here ← selector_lines copy role layout.blank_between true ss
  ok (title_lines copy role layout ++ here)

unfoldable pub emit_sections : Option LocalizedCopy → List Section → Result RenderError (List Text)
emit_sections copy [] = ok []
emit_sections copy (s ∷ ss) = do
  here ← emit_section copy s
  rest ← emit_sections copy ss
  ok (here ++ rest)

unfoldable pub copy_named : Text → List (Text × LocalizedCopy) → Option LocalizedCopy
copy_named name [] = none
copy_named name ((n, copy) ∷ m) = if text_eq n name then some copy else copy_named name m

-- `localizedCopy`, with the test that follows it
unfoldable pub localized_copy : Data → Option Value → Result RenderError (Option LocalizedCopy)
localized_copy d none = ok none
localized_copy d (some language) = elim (copy_named (to_string language) d.localized) [
  | none ↦ err RenderError.unsupported_language
  | some copy ↦ ok (some copy)
]

-- `notes`
unfoldable pub provider_notes : LocalizedCopy → ProfileSpec → List (Option Text)
provider_notes copy spec =
    (if is_true spec.adblock then copy.adblock_note ∷ [] else [])
    ++ (if null (provider_list spec.custom_rule_providers) then [] else copy.rules_note ∷ [])

-- A note is a comment without control characters.
unfoldable pub checked_note : Option Text → Result RenderError Text
checked_note none = err RenderError.comments_unavailable
checked_note (some note) =
    if not (starts_with (codes ";") note)
      || any (λ c. is_control c || c == 0x2028 || c == 0x2029) note
    then err RenderError.comments_unavailable
    else ok note

-- The notes, if there are any, with a blank line.
unfoldable pub checked_notes : List (Option Text) → Result RenderError (List Text)
checked_notes [] = ok []
checked_notes (n ∷ ns) = do notes ← map_result checked_note (n ∷ ns); ok (notes ++ ([] ∷ []))

unfoldable pub note_lines : Option LocalizedCopy → ProfileSpec → Result RenderError (List Text)
note_lines none spec = ok []
note_lines (some copy) spec = checked_notes (provider_notes copy spec)

unfoldable pub preamble_lines : Data → Option LocalizedCopy → List Text
preamble_lines d none = d.preamble
preamble_lines d (some copy) = copy.header ++ ([] ∷ codes "[custom]" ∷ [] ∷ [])

-- `line.trimStart().startsWith(";")`
abbrev pub is_comment : Text → Bool
is_comment line = starts_with (codes ";") (trim_start line)

unfoldable pub suffix_lines : Data → Option LocalizedCopy → List Text
suffix_lines d none = d.suffix
suffix_lines d (some copy) =
    [] ∷ [] ∷ (copy.footer ++ keep (λ line. not (is_empty line) && not (is_comment line)) d.suffix)

-- `lines` at the end of `renderIni`
unfoldable pub ini_lines :
    Data → List Section → Option Value → ProfileSpec → Result RenderError (List Text)
ini_lines d plan language spec = do
  copy ← localized_copy d language
  notes ← note_lines copy spec
  sections ← emit_sections copy plan
  ok (preamble_lines d copy ++ (notes ++ (sections ++ suffix_lines d copy)))

unfoldable pub render_ini :
    Data → List Section → Option Value → ProfileSpec → Result RenderError Text
render_ini d plan language spec = do
  lines ← ini_lines d plan language spec
  ok (join (codes "\n") lines ++ codes "\n")

-- `template.split(/\r?\n/u)`
abbrev pub without_returns : List Text → List Text
without_returns [] = []
without_returns (l ∷ []) = l ∷ []
without_returns (l ∷ m ∷ ls) = strip_last 13 l ∷ without_returns (m ∷ ls)

unfoldable pub template_body : Text → List Text
template_body template = keep (λ line. not (is_comment line)) (without_returns (split 10 template))

unfoldable pub render_ini_template : Text → Option Value → Data → Result RenderError Text
render_ini_template template language d = do
  copy ← localized_copy d language
  elim copy [
    | none ↦ ok template
    | some c ↦ ok (
        flat (
          join (codes "\n") c.header
          ∷ codes "\n\n"
          ∷ join (codes "\n") (template_body template)
          ∷ []))
  ]
