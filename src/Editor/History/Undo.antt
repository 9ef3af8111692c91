-- ===== src/Editor/History/Undo.antt =====
-- `undo` of public/editor-state.mjs: it is never refused, and takes an update back.
use rules.Base.{
  Bool, true, false, not, List, [], ◌∷◌, length, ltb, null, All, Text, text_eq, text_eq_iff,
  text_eq_refl, ok, >>=-eq-ok, ok-injective, Bool-cases, inl, inr, if◌then◌else◌, ◌≡◌, refl, ap,
  subst, arith,
}
use rules.Value.{Value}
use rules.Editor.Draft.{Draft, draft_value, copy_editor_draft}
use rules.Editor.Draft.Laws.{IsDraft, copy_editor_draft-IsDraft, copy_editor_draft-draft_value}
use rules.Editor.State.{
  EditorError, Editor, undo_limit, checked_draft, without_oldest, push_undo, is_draft, with_draft,
  update, undo_with, undo_draft,
}
use rules.Editor.History.{Reach, Reach-IsEditor, checked_draft-copy}

-- A draft of the history is accepted by `update`.
pub update-draft_value :
    (e : Editor) (d : Draft)
    → IsDraft d
    → update e (draft_value d) false
      ≡ ok (if is_draft e d then (e, false) else (with_draft e false d, true))
unfolding update
update-draft_value e d known = rw (copy_editor_draft-draft_value d known) refl

undo_with-ok :
    (e : Editor) (ds : List Draft)
    → All IsDraft ds
    → (f : Editor) × (undo_with e ds ≡ ok (f, not (null ds)))
unfolding undo_with
undo_with-ok e [] a = (e, refl)
undo_with-ok e (d ∷ ds) a =
    let popped : Editor = record e { undo = ds } in
    let chosen : Editor × Bool =
      if is_draft popped d then (popped, false) else (with_draft popped false d, true) in
    (chosen.0, rw (update-draft_value (record e { undo = ds }) d a.0) refl)

-- `undo` of an editor is never refused, after any calls of its methods, and says whether there was a
-- draft to go back to.
pub undo_draft-ok :
    (e : Editor) → Reach e → (f : Editor) × (undo_draft e ≡ ok (f, not (null e.undo)))
undo_draft-ok e reached = undo_with-ok e e.undo (Reach-IsEditor e reached).history

pub text_eq_sym : (s t : Text) → text_eq s t ≡ false → text_eq t s ≡ false
text_eq_sym s t h = elim (Bool-cases (text_eq t s)) [
  | inr other ↦ other
  | inl same ↦
      let equal : t ≡ s = (text_eq_iff t s).0 same in
      let again : text_eq s s ≡ false = subst (λ x. text_eq s x ≡ false) equal h in
      absurd (ground (arith, text_eq_refl s))
]

-- The history that one more draft leaves.
abbrev pub kept_history : List Draft → List Draft
kept_history ds = if ltb (length ds) undo_limit then ds else without_oldest ds

pub push_undo-kept_history : (d : Draft) (ds : List Draft) → push_undo d ds ≡ d ∷ kept_history ds
unfolding push_undo without_oldest
push_undo-kept_history d [] = refl
push_undo-kept_history d (c ∷ ds) = elim (Bool-cases (ltb undo_limit (length (d ∷ c ∷ ds)))) [
  | inl over ↦
      let full : ltb (length (c ∷ ds)) undo_limit ≡ false = ground arith in rw over (rw full refl)
  | inr fits ↦
      let room : ltb (length (c ∷ ds)) undo_limit ≡ true = ground arith in rw fits (rw room refl)
]

-- What an update that changes the draft has done.
pub record Updated (e f : Editor) (remember : Bool) : Type 0 where
  pub d : Draft
  pub known : IsDraft d
  pub other : is_draft e d ≡ false
  pub same : with_draft e remember d ≡ f

changed_result :
    (b : Bool) (x y : Editor × Bool) (f : Editor)
    → x.1 ≡ false
    → (if b then x else y) ≡ (f, true)
    → (b ≡ false) × (y.0 ≡ f)
changed_result true x y f h e =
    let flag : x.1 ≡ true = ap (λ (z : Editor × Bool). z.1) e in absurd (ground arith)
changed_result false x y f h e = (refl, ap (λ (z : Editor × Bool). z.0) e)

pub update-Updated :
    (e f : Editor) (v : Value) (remember : Bool)
    → update e v remember ≡ ok (f, true)
    → Updated e f remember
unfolding update
update-Updated e f v remember ran =
    let (d, copied, done) =
      >>=-eq-ok (checked_draft EditorError.invalid_draft (copy_editor_draft v)) _ ran in
    let (other, same) =
      changed_result (is_draft e d) (e, false) (with_draft e remember d, true) f refl
        (ok-injective done) in
    record {
      d = d;
      known = copy_editor_draft-IsDraft v d (checked_draft-copy _ v d copied);
      other = other;
      same = same;
    }
