-- ===== src/Editor/History.antt =====
-- The history of the editor of public/editor-state.mjs: what its methods do to the drafts that `undo`
-- goes back to.
pub mod Undo
pub mod Replay
use rules.Base.{
  ℕ, suc, ◌≤◌, ◌<◌, Bool, true, false, not, Option, none, some, List, [], ◌∷◌, ◌++◌, length, ltb,
  All, text_eq, text_eq_refl, Result, ok, err, ◌>>=◌, ◌>>◌, >>=-eq-ok, ok-injective, throw_if,
  Bool-cases, inl, inr, if◌then◌else◌, ◌≡◌, refl, sym, ap, subst, ◌∙◌, arith, Text, ◌⊎◌,
}
use rules.Value.{Value}
use rules.Editor.Draft.{Draft, draft_value, copy_editor_draft}
use rules.Editor.Draft.Laws.{IsDraft, copy_editor_draft-IsDraft, copy_editor_draft-draft_value}
use rules.Editor.State.{
  EditorError, Operation, Preview, Editor, undo_limit, checked_draft, create_editor_state,
  without_oldest, push_undo, is_draft, with_draft, update, undo_with, undo_draft, revert,
  set_issues, operation_of, begin, finish, preview_resolved, saved_draft,
}

-- One call of a method that returns.
pub data Step (e : Editor) : Editor → Type 0 where
  updated :
      (v : Value) (remember : Bool) (changed : Bool) (f : Editor)
      → update e v remember ≡ ok (f, changed)
      → Step e f
  undone : (changed : Bool) (f : Editor) → undo_draft e ≡ ok (f, changed) → Step e f
  reverted : (f : Editor) → revert e ≡ ok f → Step e f
  given_issues : (issues : List Value) → Step e (set_issues e issues)
  begun : (next : Text) (f : Editor) → begin e next ≡ ok f → Step e f
  finished : (error : Bool) → Step e (finish e error)
  previewed : (snapshot : Option Preview) → Step e (preview_resolved e snapshot)
  was_stored : (v : Value) (revision : ℕ) (f : Editor) → saved_draft e v revision ≡ ok f → Step e f

-- The editors that a new one becomes by calls of its methods.
pub data Reach : Editor → Type 0 where
  created :
      (initial : Value) (revision : Option ℕ) (e : Editor)
      → create_editor_state initial revision ≡ ok e
      → Reach e
  called : (e f : Editor) → Reach e → Step e f → Reach f

pub record IsEditor (e : Editor) : Type 0 where
  pub limit : length e.undo ≤ undo_limit
  pub history : All IsDraft e.undo
  pub draft : IsDraft e.draft
  pub baseline : IsDraft e.baseline

length-without_oldest : (d : Draft) (ds : List Draft) → length (without_oldest (d ∷ ds)) ≡ length ds
unfolding without_oldest
length-without_oldest d [] = refl
length-without_oldest d (c ∷ ds) = ap suc (length-without_oldest c ds)

All-without_oldest : (ds : List Draft) → All IsDraft ds → All IsDraft (without_oldest ds)
unfolding without_oldest
All-without_oldest [] a = tt
All-without_oldest (d ∷ []) a = tt
All-without_oldest (d ∷ c ∷ ds) a = (a.0, All-without_oldest (c ∷ ds) a.1)

push_undo-limit :
    (d : Draft) (ds : List Draft) → length ds ≤ undo_limit → length (push_undo d ds) ≤ undo_limit
unfolding push_undo
push_undo-limit d ds h = elim (Bool-cases (ltb undo_limit (length (d ∷ ds)))) [
  | inl over ↦ rw over (rw (length-without_oldest d ds) h)
  | inr fits ↦ rw fits (ground arith)
]

All-push_undo :
    (d : Draft) (ds : List Draft) → IsDraft d → All IsDraft ds → All IsDraft (push_undo d ds)
unfolding push_undo
All-push_undo d ds h a = elim (Bool-cases (ltb undo_limit (length (d ∷ ds)))) [
  | inl over ↦ rw over (All-without_oldest (d ∷ ds) (h, a))
  | inr fits ↦ rw fits (h, a)
]

with_draft-IsEditor :
    (e : Editor) (remember : Bool) (d : Draft)
    → IsEditor e
    → IsDraft d
    → IsEditor (with_draft e remember d)
with_draft-IsEditor e true d i h = record {
  limit = push_undo-limit e.draft e.undo i.limit;
  history = All-push_undo e.draft e.undo i.draft i.history;
  draft = h;
  baseline = i.baseline;
}
with_draft-IsEditor e false d i h = record {
  limit = i.limit;
  history = i.history;
  draft = h;
  baseline = i.baseline;
}

checked_of :
    (o : Option Draft) (x : EditorError) (d : Draft) → checked_draft x o ≡ ok d → o ≡ some d
checked_of none x d e = cc
checked_of (some c) x d e = ap some (ok-injective e)

-- A checked draft is a copy.
pub checked_draft-copy :
    (x : EditorError) (v : Value) (d : Draft)
    → checked_draft x (copy_editor_draft v) ≡ ok d
    → copy_editor_draft v ≡ some d
checked_draft-copy x v d e = checked_of (copy_editor_draft v) x d e

update_result :
    (b : Bool) (same other result : Editor × Bool)
    → (if b then same else other) ≡ result
    → IsEditor same.0
    → IsEditor other.0
    → IsEditor result.0
update_result true same other result e i j = subst (λ (x : Editor × Bool). IsEditor x.0) e i
update_result false same other result e i j = subst (λ (x : Editor × Bool). IsEditor x.0) e j

update-IsEditor :
    (e f : Editor) (v : Value) (remember changed : Bool)
    → IsEditor e
    → update e v remember ≡ ok (f, changed)
    → IsEditor f
unfolding update
update-IsEditor e f v remember changed i ran =
    let (d, copied, done) =
      >>=-eq-ok (checked_draft EditorError.invalid_draft (copy_editor_draft v)) _ ran in
    let known = copy_editor_draft-IsDraft v d (checked_draft-copy _ v d copied) in
    update_result (is_draft e d) (e, false) (with_draft e remember d, true) (f, changed)
      (ok-injective done) i (with_draft-IsEditor e remember d i known)

undo_with-IsEditor :
    (e f : Editor) (ds : List Draft) (changed : Bool)
    → IsEditor e
    → length ds ≤ undo_limit
    → All IsDraft ds
    → undo_with e ds ≡ ok (f, changed)
    → IsEditor f
unfolding undo_with
undo_with-IsEditor e f [] changed i h a ran =
    subst (λ (x : Editor × Bool). IsEditor x.0) (ok-injective ran) i
undo_with-IsEditor e f (d ∷ ds) changed i h a ran =
    let (x, moved, done) =
      >>=-eq-ok (update (record e { undo = ds }) (draft_value d) false) _ ran in
    let popped : IsEditor (record e { undo = ds }) = record {
      limit = ground arith;
      history = a.1;
      draft = i.draft;
      baseline = i.baseline;
    } in
    subst (λ (y : Editor × Bool). IsEditor y.0) (ok-injective done)
      (update-IsEditor (record e { undo = ds }) x.0 (draft_value d) false x.1 popped moved)

saved_draft-IsEditor :
    (e f : Editor) (v : Value) (revision : ℕ)
    → IsEditor e
    → saved_draft e v revision ≡ ok f
    → IsEditor f
unfolding saved_draft
saved_draft-IsEditor e f v revision i ran =
    let (d, copied, more) =
      >>=-eq-ok (checked_draft EditorError.invalid_saved (copy_editor_draft v)) _ ran in
    let (u, bounded, done) =
      >>=-eq-ok (throw_if (ltb 9007199254740991 revision) EditorError.invalid_saved) _ more in
    let known = copy_editor_draft-IsDraft v d (checked_draft-copy _ v d copied) in
    subst IsEditor (ok-injective done)
      (record { limit = i.limit; history = i.history; draft = i.draft; baseline = known })

Step-IsEditor : (e f : Editor) → IsEditor e → Step e f → IsEditor f
unfolding revert begin
Step-IsEditor e _ i (Step.updated v remember changed f ran) =
    update-IsEditor e f v remember changed i ran
Step-IsEditor e _ i (Step.undone changed f ran) =
    undo_with-IsEditor e f e.undo changed i i.limit i.history ran
Step-IsEditor e _ i (Step.reverted f ran) =
    let (x, moved, done) = >>=-eq-ok (update e (draft_value e.baseline) true) _ ran in
    subst IsEditor (ok-injective done)
      (update-IsEditor e x.0 (draft_value e.baseline) true x.1 i moved)
Step-IsEditor e _ i (Step.given_issues issues) = record {
  limit = i.limit;
  history = i.history;
  draft = i.draft;
  baseline = i.baseline;
}
Step-IsEditor e _ i (Step.begun next f ran) =
    let (o, named, done) = >>=-eq-ok (operation_of next) _ ran in
    subst IsEditor (ok-injective done)
      (record { limit = i.limit; history = i.history; draft = i.draft; baseline = i.baseline })
Step-IsEditor e _ i (Step.finished error) = record {
  limit = i.limit;
  history = i.history;
  draft = i.draft;
  baseline = i.baseline;
}
Step-IsEditor e _ i (Step.previewed snapshot) = record {
  limit = i.limit;
  history = i.history;
  draft = i.draft;
  baseline = i.baseline;
}
Step-IsEditor e _ i (Step.was_stored v revision f ran) = saved_draft-IsEditor e f v revision i ran

-- After any calls of its methods, an editor keeps at most 30 drafts to go back to, and these, its
-- draft and its baseline have a known mode and a known language.
pub Reach-IsEditor : (e : Editor) → Reach e → IsEditor e
unfolding create_editor_state
Reach-IsEditor _ (Reach.created initial revision e ran) =
    let (d, copied, done) =
      >>=-eq-ok (checked_draft EditorError.invalid_draft (copy_editor_draft initial)) _ ran in
    let known = copy_editor_draft-IsDraft initial d (checked_draft-copy _ initial d copied) in
    subst IsEditor (ok-injective done)
      (record { limit = ground arith; history = tt; draft = known; baseline = known })
Reach-IsEditor _ (Reach.called e f reached step) = Step-IsEditor e f (Reach-IsEditor e reached) step
