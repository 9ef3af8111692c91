-- ===== src/Tests/Editing.antt =====
-- A run of the editor, and instances of the theorems on its history.
use rules.Base.{
  map, All, true, false, none, some, List, [], ◌∷◌, Text, codes, join, flat, sort_by, insert_by,
  text_leb, not, null, ok, ◌≡◌, refl,
}
use rules.Value.{
  undefined, Value, str, bool, arr, obj, nil, cons, end, field, decimal, decimal_fuel,
}
use rules.Tests.{solver}
use rules.Spec.Saved.{from_options}
use rules.Spec.Groups.{ServiceGroup}
use rules.Editor.ServiceGroups.{
  Choices, is_globally_allowed, is_protected_group, effective_group, effective_service_groups,
  IsAllowed, HasOwnNames, IsGuarded, effective_service_groups-routes,
  effective_service_groups-IsGuarded,
}
use rules.Editor.Draft.{
  Draft, map_option, texts_of, flag_of, copy_provider, copy_providers, copy_service_group,
  copy_service_groups, copy_groups, copy_fields, copy_editor_draft, draft_fields, draft_value,
}
use rules.Editor.Draft.Laws.{copy_editor_draft_idempotent}
use rules.Editor.Fingerprint.{
  fingerprint, fingerprints, fingerprint_fields, unit_escape, json_unit, json_units, json_string,
}
use rules.Editor.State.{
  Editor, idle, Status, undo_draft, create_editor_state, without_oldest, push_undo, update,
  undo_with, revert, operation_of, begin, saved_draft, is_dirty, preview_current, preview_stale,
  idle_status, status,
}
use rules.Editor.History.{Step, Reach, IsEditor, Reach-IsEditor}
use rules.Editor.History.Undo.{undo_draft-ok}
use rules.Editor.History.Replay.{Edits, undo_times, undo_times-Edits}

-- All that the tests of the editor compute with.
editing : Unit {0}
unfolding solver from_options join flat sort_by insert_by text_leb decimal decimal_fuel fingerprint
    fingerprints fingerprint_fields map_option texts_of flag_of copy_provider copy_providers
    copy_service_group copy_service_groups copy_groups copy_fields copy_editor_draft draft_fields
    draft_value unit_escape json_unit json_units json_string create_editor_state without_oldest
    push_undo update undo_with revert operation_of begin saved_draft is_dirty preview_current
    preview_stale idle_status status
editing = tt

abbrev draft_input : Value → Value
draft_input regions = obj (
    field (codes "baseProfile") (str (codes "ai-balanced")) (
      field (codes "regionMode") (str (codes "exclude")) (
        field (codes "language") (str (codes "en")) (
          field (codes "selectedRegions") regions (
            field (codes "preferredNodeRegions") (arr nil) (
              field (codes "disabledServices") (arr nil) (
                field (codes "preferredServices") (arr nil)
                  (field (codes "failClosed") (bool true) end))))))))

abbrev first_input : Value
first_input = draft_input (arr nil)

abbrev second_input : Value
second_input = draft_input (arr (cons (str (codes "us")) nil))

abbrev draft_with : List Text → Draft
draft_with regions = record {
  base_profile = codes "ai-balanced";
  region_mode = codes "exclude";
  language = str (codes "en");
  selected_regions = regions;
  preferred_node_regions = [];
  disabled_services = [];
  preferred_services = [];
  allow_direct = none;
  fail_closed = some true;
  adblock = none;
  custom_rule_providers = none;
  service_groups = none;
}

first_copied : copy_editor_draft first_input ≡ some (draft_with [])
unfolding editing
first_copied = refl

copy_editor_draft_idempotent_example :
    copy_editor_draft (draft_value (draft_with [])) ≡ some (draft_with [])
copy_editor_draft_idempotent_example =
    copy_editor_draft_idempotent first_input (draft_with []) first_copied

abbrev opened : Editor
opened = record {
  draft = draft_with [];
  baseline = draft_with [];
  revision = none;
  operation = idle;
  failed = false;
  was_saved = false;
  preview = none;
  issues = [];
  undo = [];
}

abbrev edited : Editor
edited = record opened { draft = draft_with (codes "us" ∷ []); undo = draft_with [] ∷ [] }

editor_opened : create_editor_state first_input none ≡ ok opened
unfolding editing
editor_opened = refl

editor_edited : update opened second_input true ≡ ok (edited, true)
unfolding editing
editor_edited = refl

edited_dirty : status edited ≡ Status.dirty
unfolding editing
edited_dirty = refl

opened_reached : Reach opened
opened_reached = Reach.created first_input none opened editor_opened

edited_reached : Reach edited
edited_reached =
    Reach.called opened edited opened_reached
      (Step.updated second_input true true edited editor_edited)

Reach-IsEditor_example : IsEditor edited
Reach-IsEditor_example = Reach-IsEditor edited edited_reached

undo_draft-ok_example : (f : Editor) × (undo_draft edited ≡ ok (f, not (null edited.undo)))
undo_draft-ok_example = undo_draft-ok edited edited_reached

one_edit : Edits opened 1 edited
one_edit = Edits.edited 0 opened edited second_input Edits.done editor_edited

undo_times-Edits_example :
    (g : Editor) × (undo_times 1 edited ≡ ok g) × (g.draft ≡ opened.draft) × (g.undo ≡ [])
undo_times-Edits_example = undo_times-Edits opened edited 1 29 opened_reached one_edit refl

abbrev choices : Choices
choices = record {
  groups =
      record {
        id = codes "chat";
        name = codes "Chat";
        service_ids = codes "chat" ∷ [];
        default_routes = codes "us" ∷ codes "direct" ∷ codes "reject" ∷ [];
        protected = false;
      }
      ∷ [];
  regions = codes "us" ∷ codes "jp" ∷ [];
  allow_direct = some false;
  fail_closed = some true;
  disabled_regions = codes "jp" ∷ [];
  only_regions = [];
}

chat_routes :
    map (λ (g : ServiceGroup). g.routes) (effective_service_groups choices undefined)
    ≡ (codes "reject" ∷ codes "us" ∷ []) ∷ []
unfolding editing is_globally_allowed is_protected_group effective_group effective_service_groups
chat_routes = refl

choices-HasOwnNames : HasOwnNames choices
unfolding editing
choices-HasOwnNames = (refl, refl, refl)

effective_service_groups-routes_example :
    All
      (λ (item : ServiceGroup). All (IsAllowed choices) item.routes)
      (effective_service_groups choices undefined)
effective_service_groups-routes_example =
    effective_service_groups-routes choices undefined choices-HasOwnNames

effective_service_groups-IsGuarded_example :
    All (IsGuarded choices) (effective_service_groups choices undefined)
effective_service_groups-IsGuarded_example =
    effective_service_groups-IsGuarded choices undefined refl
