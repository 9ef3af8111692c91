-- ===== src/Editor/State.antt =====
-- `createEditorState` of public/editor-state.mjs: the model of the editor and its methods.
use rules.Base.{
  ℕ, Bool, true, false, not, ◌&&◌, ◌||◌, Option, none, some, List, [], ◌∷◌, Text, codes, text_eq,
  length, null, ltb, Result, ok, err, ◌>>=◌, ◌>>◌, throw_if, if◌then◌else◌,
}
use rules.Value.{Value}
use rules.Editor.Draft.{Draft, draft_value, copy_editor_draft}
use rules.Editor.Fingerprint.{fingerprint}

pub data EditorError : Type 0 where
  invalid_draft : EditorError
  invalid_operation : EditorError
  invalid_saved : EditorError

pub data Operation : Type 0 where
  idle : Operation
  validating : Operation
  saving : Operation

-- A preview: the fingerprint of the draft that it was made of, and what it shows.
pub record Preview : Type 0 where
  pub of_draft : Text
  pub shows : Value

-- `UNDO_LIMIT`
abbrev pub undo_limit : ℕ
undo_limit = 30

-- The variables of `createEditorState`; `undo` has its newest draft first.
pub record Editor : Type 0 where
  pub draft : Draft
  pub baseline : Draft
  pub revision : Option ℕ
  pub operation : Operation
  pub failed : Bool
  pub was_saved : Bool
  pub preview : Option Preview
  pub issues : List Value
  pub undo : List Draft

abbrev pub draft_fingerprint : Draft → Text
draft_fingerprint d = fingerprint (draft_value d)

-- `copyEditorDraft`, where `null` is thrown on
abbrev pub checked_draft : EditorError → Option Draft → Result EditorError Draft
checked_draft e none = err e
checked_draft e (some d) = ok d

-- `createEditorState`
unfoldable pub create_editor_state : Value → Option ℕ → Result EditorError Editor
create_editor_state initial revision = do
  draft ← checked_draft EditorError.invalid_draft (copy_editor_draft initial)
  ok (record {
    draft = draft;
    baseline = draft;
    revision = revision;
    operation = idle;
    failed = false;
    was_saved = false;
    preview = none;
    issues = [];
    undo = [];
  })

-- The drafts without the oldest: `undo.shift()`
unfoldable pub without_oldest : List Draft → List Draft
without_oldest [] = []
without_oldest (d ∷ []) = []
without_oldest (d ∷ e ∷ ds) = d ∷ without_oldest (e ∷ ds)

-- `undo.push(draft)`, and the shift that keeps the limit
unfoldable pub push_undo : Draft → List Draft → List Draft
push_undo d ds = if ltb undo_limit (length (d ∷ ds)) then without_oldest (d ∷ ds) else d ∷ ds

abbrev pub is_draft : Editor → Draft → Bool
is_draft e d = text_eq (draft_fingerprint d) (draft_fingerprint e.draft)

-- `update`, on a checked draft that is another than the draft
abbrev pub with_draft : Editor → Bool → Draft → Editor
with_draft e remember d = record e {
  draft = d;
  undo = if remember then push_undo e.draft e.undo else e.undo;
  issues = [];
  failed = false;
  was_saved = false;
}

-- `update`: the new state, and whether the draft is another
unfoldable pub update : Editor → Value → Bool → Result EditorError (Editor × Bool)
update e next remember = do
  d ← checked_draft EditorError.invalid_draft (copy_editor_draft next)
  ok (if is_draft e d then (e, false) else (with_draft e remember d, true))

-- `undo`, on the drafts to go back to
unfoldable pub undo_with : Editor → List Draft → Result EditorError (Editor × Bool)
undo_with e [] = ok (e, false)
undo_with e (d ∷ ds) = do x ← update (record e { undo = ds }) (draft_value d) false; ok (x.0, true)

-- `undo`: the new state, and whether there was a draft to go back to
abbrev pub undo_draft : Editor → Result EditorError (Editor × Bool)
undo_draft e = undo_with e e.undo

unfoldable pub revert : Editor → Result EditorError Editor
revert e = do x ← update e (draft_value e.baseline) true; ok x.0

abbrev pub set_issues : Editor → List Value → Editor
set_issues e next = record e { issues = next }

unfoldable pub operation_of : Text → Result EditorError Operation
operation_of t =
    if text_eq t (codes "validating")
    then ok validating
    else if text_eq t (codes "saving")
    then ok saving
    else err EditorError.invalid_operation

unfoldable pub begin : Editor → Text → Result EditorError Editor
begin e next = do o ← operation_of next; ok (record e { operation = o; failed = false })

abbrev pub finish : Editor → Bool → Editor
finish e error = record e { operation = idle; failed = error }

abbrev pub preview_resolved : Editor → Option Preview → Editor
preview_resolved e snapshot = record e { preview = snapshot }

-- `saved`; a revision is a natural number, and `Number.isSafeInteger` bounds it
unfoldable pub saved_draft : Editor → Value → ℕ → Result EditorError Editor
saved_draft e submitted revision = do
  d ← checked_draft EditorError.invalid_saved (copy_editor_draft submitted)
  throw_if (ltb 9007199254740991 revision) EditorError.invalid_saved
  ok (record e { baseline = d; revision = some revision; was_saved = true; failed = false })

-- `dirty`
unfoldable pub is_dirty : Editor → Bool
is_dirty e = not (text_eq (draft_fingerprint e.draft) (draft_fingerprint e.baseline))

-- `preview && preview.fingerprint === fingerprint(draft)`
abbrev pub shows_draft : Editor → Preview → Bool
shows_draft e p = text_eq p.of_draft (draft_fingerprint e.draft)

-- `previewCurrent`
unfoldable pub preview_current : Editor → Bool
preview_current e = elim e.preview [ none ↦ false | some p ↦ shows_draft e p && null e.issues ]

-- `preview && preview.fingerprint !== fingerprint(draft)`
unfoldable pub preview_stale : Editor → Bool
preview_stale e = elim e.preview [ none ↦ false | some p ↦ not (shows_draft e p) ]

pub data Status : Type 0 where
  at_work : Operation → Status
  in_error : Status
  stale : Status
  is_saved : Status
  ready : Status
  dirty : Status
  clean : Status

unfoldable pub idle_status : Editor → Status
idle_status e =
    if e.failed || not (null e.issues)
    then in_error
    else if preview_stale e
    then stale
    else if e.was_saved && not (is_dirty e)
    then is_saved
    else if preview_current e
    then ready
    else if is_dirty e
    then dirty
    else clean

-- `state`
unfoldable pub status : Editor → Status
status e = elim e.operation [
  | idle ↦ idle_status e
  | validating ↦ at_work validating
  | saving ↦ at_work saving
]
