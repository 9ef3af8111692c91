-- ===== src/Tests/Rendering.antt =====
-- Printed plans, and instances of the theorems on the INI renderer.
use rules.Base.{
  true, false, none, some, List, [], ◌∷◌, ◌++◌, Text, codes, join, split, flat, any, starts_with,
  strip_last, map_result, All, ok, err, ok-injective, HasNo, subst, ◌≡◌, refl,
}
use rules.Value.{arr, cons, nil, decimal, decimal_fuel}
use rules.Plan.{Rule, Group, Section, rule_section, group_section}
use rules.Spec.Providers.{reject, direct, proxy, normalize_custom_rule_providers}
use rules.Solve.CustomRules.{provider_rule}
use rules.Tests.{catalog, english, parse_sample, provider_input, sample_provider, sample_spec}
use rules.Tests.Plans.{rule}
use rules.Tests.Solving.{subconverter, group, to_group}
use rules.Render.{
  bar, shown, shown_number, render_rule, render_candidate, health_check, render_url_test,
  render_fallback, render_group, banner, section_title, comment_lines, cluster_lines, group_lines,
  selector_lines, emit_section, emit_sections, copy_named, localized_copy, provider_notes,
  checked_note, checked_notes, note_lines, preamble_lines, suffix_lines, ini_lines, render_ini,
  template_body, render_ini_template,
}
use rules.Render.Lines.Rules.{OneLine, IsLine}
use rules.Render.Lines.Groups.{IsGroupLine}
use rules.Render.Lines.Sections.{AreLines, IsCopy, IsCatalog}
use rules.Render.Lines.Whole.{render_ini-lines}
use rules.Render.Providers.{HasPlainTargets, PrintProviders, normalize_custom_rule_providers-lines}

-- All that the tests of the renderer compute with.
unfoldable pub renderer : Unit {0}
unfolding subconverter join split flat starts_with strip_last decimal decimal_fuel shown
    shown_number render_rule render_candidate health_check render_url_test render_fallback
    render_group banner section_title comment_lines cluster_lines group_lines selector_lines
    emit_section emit_sections copy_named localized_copy provider_notes checked_note checked_notes
    note_lines preamble_lines suffix_lines ini_lines render_ini template_body render_ini_template
renderer = tt

abbrev printed_rule : Rule
printed_rule = record (rule (codes "geosite") (codes "Manual")) { value = some (codes "cn") }

abbrev printed_group : Group
printed_group = group (codes "Manual") (to_group (codes "US nodes") ∷ [])

abbrev printed_plan : List Section
printed_plan =
    rule_section (codes "local")
      (record { comments = codes "; Local" ∷ []; leading_blank = true; emit_if_empty = false })
      (printed_rule ∷ [])
    ∷ group_section (codes "groups")
        (record { title = codes "Groups"; subtitle = none; blank_between = false })
        (printed_group ∷ [])
    ∷ []

abbrev out : Text
out = elim (render_ini catalog printed_plan none sample_spec) [ ok t ↦ t | err e ↦ [] ]

printed : render_ini catalog printed_plan none sample_spec ≡ ok out
unfolding renderer
printed = refl

lines_printed :
    split 10 out
    ≡ codes "[custom]"
      ∷ []
      ∷ codes "; Local"
      ∷ codes "ruleset=Manual,[]GEOSITE,cn"
      ∷ []
      ∷ []
      ∷ bar
      ∷ codes "; Groups"
      ∷ bar
      ∷ []
      ∷ codes "custom_proxy_group=Manual`select`[]US nodes"
      ∷ codes "; end"
      ∷ codes "enable=true"
      ∷ []
      ∷ []
unfolding renderer
lines_printed = refl

english-IsCopy : IsCopy english
unfolding any
english-IsCopy = record { header = (refl, tt); footer = (refl, tt); sections = tt }

catalog-IsCatalog : IsCatalog catalog
unfolding any
catalog-IsCatalog = record {
  preamble = (refl, tt);
  suffix = (refl, (refl, tt));
  copies = (english-IsCopy, tt);
}

printed_rule-IsLine : IsLine printed_rule
unfolding any shown
printed_rule-IsLine = record { target = refl; url = refl; value = refl; options = tt }

printed_group-IsGroupLine : IsGroupLine printed_group
unfolding any shown
printed_group-IsGroupLine = record {
  name = refl;
  kind = refl;
  candidates = (refl, tt);
  filter = refl;
  check = refl;
}

printed_plan-AreLines : All AreLines printed_plan
unfolding any
printed_plan-AreLines =
    (((refl, tt), (printed_rule-IsLine, tt)), ((refl, (refl, (printed_group-IsGroupLine, tt))), tt))

render_ini-lines_example :
    (lines : List Text) × (ini_lines catalog printed_plan none sample_spec ≡ ok lines)
    × (split 10 out ≡ lines ++ ([] ∷ []))
render_ini-lines_example =
    render_ini-lines catalog printed_plan none sample_spec out catalog-IsCatalog refl
      printed_plan-AreLines printed

catalog-HasPlainTargets : HasPlainTargets catalog
unfolding renderer
catalog-HasPlainTargets reject name e =
    subst (λ n. HasNo 44 n × OneLine n) (ok-injective e) (refl, refl)
catalog-HasPlainTargets direct name e =
    subst (λ n. HasNo 44 n × OneLine n) (ok-injective e) (refl, refl)
catalog-HasPlainTargets proxy name e =
    subst (λ n. HasNo 44 n × OneLine n) (ok-injective e) (refl, refl)

providers_accepted :
    normalize_custom_rule_providers parse_sample (arr (cons provider_input nil))
    ≡ ok (sample_provider ∷ [])
unfolding renderer
providers_accepted = refl

abbrev provider_rules : List Rule
provider_rules = elim (map_result (provider_rule catalog 3600) (sample_provider ∷ [])) [
  | ok rs ↦ rs
  | err e ↦ []
]

provider_rules_made :
    map_result (provider_rule catalog 3600) (sample_provider ∷ []) ≡ ok provider_rules
unfolding renderer
provider_rules_made = refl

normalize_custom_rule_providers-lines_example :
    PrintProviders 3600 provider_rules (sample_provider ∷ [])
normalize_custom_rule_providers-lines_example =
    normalize_custom_rule_providers-lines parse_sample catalog 3600 catalog-HasPlainTargets
      (arr (cons provider_input nil)) (sample_provider ∷ []) provider_rules providers_accepted
      provider_rules_made
