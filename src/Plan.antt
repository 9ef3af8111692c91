-- ===== src/Plan.antt =====
-- The routing plan that the INI solver rewrites and the INI renderer prints: sections of rules,
-- rule clusters, proxy groups and selectors (the plan of worker/generated/runtime-data.mjs).
use rules.Base.{ℕ, Bool, Option, List, Text}

pub record Rule : Type 0 where
  pub kind : Text
  pub target : Text
  pub url : Option Text
  pub interval : Option ℕ
  pub value : Option Text
  pub options : List Text

-- `kind` is "group-ref" for a reference to a group by its name.
pub record Candidate : Type 0 where
  pub kind : Text
  pub value : Text

pub record Group : Type 0 where
  pub type : Option Text
  pub name : Text
  pub kind : Option Text
  pub candidates : List Candidate
  pub filter_pattern : Option Text
  pub health_check_url : Option Text
  pub interval : Option ℕ
  pub tolerance : Option ℕ

pub record Cluster : Type 0 where
  pub source : Text
  pub rule_list : List Rule

pub record Selector : Type 0 where
  pub comments : List Text
  pub group : Group

pub record RuleLayout : Type 0 where
  pub comments : List Text
  pub leading_blank : Bool
  pub emit_if_empty : Bool

pub record ClusterLayout : Type 0 where
  pub leading_blank : Bool
  pub blank_before_first : Bool
  pub blank_between : Bool

pub record GroupLayout : Type 0 where
  pub title : Text
  pub subtitle : Option Text
  pub blank_between : Bool

-- `type` is the constructor; the first field is `role`.
pub data Section : Type 0 where
  rule_section : Text → RuleLayout → List Rule → Section
  cluster_section : Text → ClusterLayout → List Cluster → Section
  group_section : Text → GroupLayout → List Group → Section
  selector_section : Text → GroupLayout → List Selector → Section
