-- ===== src/Tests/Solving.antt =====
-- A small plan, its solutions, and instances of the theorems on the INI plan solver.
use mathlib.Core.List.{Memᴰ}
use rules.Base.{
  true, false, none, some, List, [], ◌∷◌, Text, codes, All, ok, err, ◌≡◌, refl, sort_by, insert_by,
  join, starts_with, drop_chars, strip_prefix, strip_last, text_leb,
}
use rules.Value.{Value, bool, arr, obj, nil, cons, end, field}
use rules.Plan.{
  Rule, Candidate, Group, Cluster, ClusterLayout, Section, rule_section, cluster_section,
  group_section,
}
use rules.Catalog.{RuleRef, Service, Data}
use rules.Resolve.{Resolved, resolution}
use rules.Tests.{claude, chat, catalog, platform, provider_input, sample_provider}
use rules.Spec.Normalize.{ProfileSpec}
use rules.Solve.Subconverter.Direct.{solve_subconverter_plan-TargetsNoDirect}
use rules.Tests.Plans.{planner, rule}
use rules.Solve.Candidates.{
  is_region_group, rank_from, rank_of, fill, kept_candidates, reorder_candidates,
}
use rules.Solve.Names.{named_group, reject_group, service_rule_reference, region_by_id, plan_groups}
use rules.Solve.CustomRules.{
  plan_rules, custom_rule_target, adblock_rule, provider_rule, rules_with_interval,
  custom_ini_rules,
}
use rules.Solve.Filters.{alternatives, body_of, with_lookahead, negative_filter, positive_filter}
use rules.Solve.ServiceGroups.{
  route_target, routed_name, reject_first, service_group_candidates, region_index, find_region,
  region_metadata, region_additions, insert_before_group, insert_regional,
  add_scoped_ini_region_groups,
}
use rules.Solve.Layout.{
  group_name_for, layout_by_id, ref_includes, target_of_ref, add_ref_target, add_ref_targets,
  ref_targets, reference_among, set_deny, collect_denies, map_rules, insert_denies, deny_unassigned,
  retarget_rule, custom_selector, protect_group, apply_section, apply_layouts,
  apply_ini_service_groups,
}
use rules.Solve.Rewrite.{
  plain_target, layout_target, new_target, rewrite_rule, texts_eq, rule_eq, unique_rules,
  selector_named, selectors_named, there, deny_rules, retained_clusters, denied_clusters, reordered,
  with_reject_first, without_direct, selector_candidates, with_fallback, or_reject,
  group_candidates, group_filter, rewrite_group, preferred_here, prefer_selectors, rewrite_section,
  rewrite_sections,
}
use rules.Solve.Rewrite.Groups.{RejectsFirst, HasExits}
use rules.Render.Direct.{LosesDirect, solve_plan-LosesDirect}
use rules.Solve.Rewrite.Rules.{TargetsNoDirect}
use rules.Solve.Subconverter.Denied.{IsOff, rewrite_sections-IsOff}
use rules.Solve.Subconverter.{
  removed_groups, effective_disabled, region_terms, blocked_terms, add_member, members_by_group,
  service_group_members, service_group, disabled_protected_group, disabled_service_groups,
  disabled_rule_refs, solving, check_references, solve_plan, solve_subconverter_plan,
}
use rules.Solve.Subconverter.Groups.{
  group_names, AreDefined, solve_plan-AreDefined, solve_plan-RejectsFirst,
}

abbrev pub group : Text → List Candidate → Group
group name cs = record {
  type = some (codes "proxy-group");
  name = name;
  kind = some (codes "select");
  candidates = cs;
  filter_pattern = none;
  health_check_url = none;
  interval = none;
  tolerance = none;
}

abbrev pub to_group : Text → Candidate
to_group name = record { kind = codes "group-ref"; value = name }

abbrev to_policy : Text → Candidate
to_policy name = record { kind = codes "policy"; value = name }

-- Groups with direct traffic, a service rule and a fallback rule.
abbrev plan_groups_before : List Group
plan_groups_before =
    group (codes "Reject") (to_policy (codes "REJECT") ∷ [])
    ∷ group (codes "Direct") (to_policy (codes "DIRECT") ∷ [])
    ∷ group (codes "Manual") (to_group (codes "US nodes") ∷ to_group (codes "Direct") ∷ [])
    ∷ group (codes "Guard") (to_group (codes "US nodes") ∷ [])
    ∷ group (codes "US nodes") (to_policy (codes ".*") ∷ [])
    ∷ []

abbrev small_plan : List Section
small_plan =
    rule_section (codes "local")
      (record { comments = []; leading_blank = false; emit_if_empty = false })
      (rule (codes "geosite") (codes "Direct") ∷ [])
    ∷ cluster_section (codes "service-rule-clusters")
        (record { leading_blank = false; blank_before_first = false; blank_between = false })
        (record {
          source = codes "account";
          rule_list = rule (codes "geosite") (codes "Guard") ∷ [];
        }
          ∷ [])
    ∷ cluster_section (codes "routing-tail-clusters")
        (record { leading_blank = false; blank_before_first = false; blank_between = false })
        (record {
          source = codes "tail";
          rule_list =
              rule (codes "geoip") (codes "DIRECT") ∷ rule (codes "final") (codes "Manual") ∷ [];
        }
          ∷ [])
    ∷ group_section (codes "groups")
        (record { title = codes "Groups"; subtitle = none; blank_between = false })
        plan_groups_before
    ∷ []

abbrev pub planned : Data
planned = record catalog { plan = small_plan }

abbrev closed_input : Value
closed_input = obj (
    field (codes "allowDirect") (bool false) (
      field (codes "failClosed") (bool true) (
        field (codes "adblock") (bool true)
          (field (codes "customRuleProviders") (arr (cons provider_input nil)) end))))

-- All that the tests of the solver compute with.
unfoldable pub subconverter : Unit {0}
unfolding planner insert_by sort_by join starts_with drop_chars strip_prefix strip_last text_leb
    is_region_group rank_from rank_of fill kept_candidates reorder_candidates named_group
    reject_group service_rule_reference region_by_id plan_groups custom_rule_target adblock_rule
    provider_rule rules_with_interval custom_ini_rules alternatives body_of with_lookahead
    negative_filter positive_filter route_target routed_name reject_first service_group_candidates
    region_index find_region region_metadata region_additions insert_before_group insert_regional
    add_scoped_ini_region_groups group_name_for layout_by_id ref_includes target_of_ref
    add_ref_target add_ref_targets ref_targets reference_among set_deny collect_denies map_rules
    insert_denies deny_unassigned retarget_rule custom_selector protect_group apply_section
    apply_layouts apply_ini_service_groups plain_target layout_target new_target rewrite_rule
    texts_eq rule_eq unique_rules selector_named selectors_named there deny_rules retained_clusters
    denied_clusters reordered with_reject_first without_direct selector_candidates with_fallback
    or_reject group_candidates group_filter rewrite_group preferred_here prefer_selectors
    rewrite_section rewrite_sections removed_groups effective_disabled region_terms blocked_terms
    add_member members_by_group service_group_members service_group disabled_protected_group
    disabled_service_groups disabled_rule_refs solving check_references solve_plan
    solve_subconverter_plan
subconverter = tt

abbrev closed_spec : ProfileSpec
closed_spec = record {
  base_profile = codes "ai-balanced";
  disabled_node_regions = [];
  only_node_regions = [];
  preferred_node_regions = [];
  disabled_services = none;
  preferred_services = none;
  allow_direct = some false;
  fail_closed = some true;
  language = none;
  service_groups = none;
  adblock = some true;
  custom_rule_providers = some (sample_provider ∷ []);
}

abbrev resolved : Resolved
resolved = resolution (codes "us" ∷ codes "jp" ∷ []) closed_spec

abbrev solved_plan : List Section
solved_plan = elim (solve_plan planned resolved) [ ok plan ↦ plan | err e ↦ [] ]

abbrev names_after : List Text
names_after =
    codes "Reject" ∷ codes "Direct" ∷ codes "Manual" ∷ codes "Guard" ∷ codes "US nodes" ∷ []

names_kept : group_names solved_plan ≡ names_after
unfolding subconverter
names_kept = refl

planned_solved : solve_plan planned resolved ≡ ok solved_plan
unfolding subconverter
planned_solved = refl

input_solved : solve_subconverter_plan platform planned closed_input ≡ ok (resolved, solved_plan)
unfolding subconverter
input_solved = refl

pub planned-HasExits : HasExits planned
unfolding subconverter
planned-HasExits = record { reject = refl; auto = refl; plain_reject = refl; manual = refl }

resolved_closed : resolved.fail_closed ≡ some true
unfolding subconverter
resolved_closed = refl

resolved_no_direct : resolved.allow_direct ≡ some false
unfolding subconverter
resolved_no_direct = refl

resolved_plain : resolved.spec.service_groups ≡ none
unfolding subconverter
resolved_plain = refl

solve_plan-AreDefined_example : AreDefined (group_names solved_plan) (plan_groups solved_plan)
solve_plan-AreDefined_example = solve_plan-AreDefined planned resolved solved_plan planned_solved

solve_plan-RejectsFirst_example : All (RejectsFirst planned) (plan_groups solved_plan)
solve_plan-RejectsFirst_example =
    solve_plan-RejectsFirst planned resolved solved_plan planned_solved resolved_closed

-- A text of the catalog that is printed as a direct choice stays, as a candidate of kind node-filter.
text_kept :
    without_direct
      (solving planned resolved none)
      (codes "Manual")
      (record { kind = codes "node-filter"; value = codes "[]DIRECT" } ∷ [])
    ≡ record { kind = codes "node-filter"; value = codes "[]DIRECT" } ∷ []
unfolding subconverter
text_kept = refl

solve_plan-LosesDirect_example : All (LosesDirect planned) (plan_groups solved_plan)
solve_plan-LosesDirect_example =
    solve_plan-LosesDirect planned resolved solved_plan planned_solved planned-HasExits
      resolved_no_direct

solve_subconverter_plan-TargetsNoDirect_example :
    All (TargetsNoDirect planned) (plan_rules solved_plan)
solve_subconverter_plan-TargetsNoDirect_example =
    solve_subconverter_plan-TargetsNoDirect platform planned closed_input resolved solved_plan
      planned-HasExits input_solved resolved_no_direct resolved_plain

-- The service for chats has a rule, and is disabled.
abbrev chat_rule : RuleRef
chat_rule = record {
  ini_kind = some (codes "geosite");
  ini_value = some (codes "chat");
  yaml_kind = none;
  yaml_value = none;
}

abbrev chat_with_rule : Service
chat_with_rule = record chat { rule_refs = chat_rule ∷ [] }

abbrev with_rules : Data
with_rules = record planned { services = claude ∷ chat_with_rule ∷ [] }

abbrev without_chat : Resolved
without_chat =
    resolution (codes "us" ∷ codes "jp" ∷ [])
      (record closed_spec { disabled_services = some (codes "chat" ∷ []) })

abbrev geosite_rule : Text → Text → Rule
geosite_rule value target = record (rule (codes "geosite") target) { value = some value }

abbrev service_clusters : List Cluster
service_clusters =
    record {
      source = codes "account";
      rule_list = geosite_rule (codes "claude") (codes "Guard") ∷ [];
    }
    ∷ record {
      source = codes "service";
      rule_list = geosite_rule (codes "chat") (codes "Chat") ∷ [];
    }
    ∷ []

abbrev service_layout : ClusterLayout
service_layout = record { leading_blank = false; blank_before_first = false; blank_between = false }

abbrev service_rules : List Rule
service_rules = plan_rules (
    rewrite_sections (solving with_rules without_chat none) true
      (cluster_section (codes "service-rule-clusters") service_layout service_clusters ∷ []))

service_rules_listed :
    service_rules
    ≡ geosite_rule (codes "chat") (codes "Reject")
      ∷ geosite_rule (codes "claude") (codes "Guard")
      ∷ []
unfolding subconverter
service_rules_listed = refl

chat-IsOff : IsOff with_rules without_chat (codes "geosite", codes "chat")
unfolding subconverter
chat-IsOff =
    IsOff.disabled chat_with_rule chat_rule (Memᴰ.tail (Memᴰ.head refl)) refl (Memᴰ.head refl) refl
      refl

chat_rule_listed : Memᴰ (geosite_rule (codes "chat") (codes "Reject")) service_rules
unfolding subconverter
chat_rule_listed = Memᴰ.head refl

no_layout :
    apply_ini_service_groups with_rules without_chat
      (blocked_terms with_rules without_chat)
      with_rules.plan
    ≡ ok (small_plan, none)
unfolding subconverter
no_layout = refl

chat_rule_reference :
    service_rule_reference (geosite_rule (codes "chat") (codes "Reject"))
    ≡ some (codes "geosite", codes "chat")
unfolding subconverter
chat_rule_reference = refl

rewrite_sections-IsOff_example : codes "Reject" ≡ reject_group with_rules
rewrite_sections-IsOff_example =
    rewrite_sections-IsOff with_rules without_chat small_plan none (codes "geosite", codes "chat")
      no_layout service_layout service_clusters (geosite_rule (codes "chat") (codes "Reject"))
      chat-IsOff chat_rule_listed chat_rule_reference
