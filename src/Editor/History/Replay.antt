-- ===== src/Editor/History/Replay.antt =====
-- Runs of updates and of `undo` of public/editor-state.mjs: as many calls of `undo` take a run of
-- updates back.
use rules.Base.{
  ℕ, zero, suc, ◌+◌, ◌≤◌, ◌<◌, true, false, List, [], ◌∷◌, length, ltb, Result, ok, ◌>>=◌,
  Bool-cases, inl, inr, ◌≡◌, refl, sym, ap, subst, ◌∙◌, arith, text_eq, Bool,
}
use rules.Value.{Value}
use rules.Editor.Draft.{Draft}
use rules.Editor.Draft.Laws.{IsDraft}
use rules.Editor.State.{
  EditorError, Editor, undo_limit, without_oldest, push_undo, is_draft, with_draft, update,
  undo_with, undo_draft, draft_fingerprint,
}
use rules.Editor.History.{Step, Reach, Reach-IsEditor}
use rules.Editor.History.Undo.{
  update-draft_value, text_eq_sym, push_undo-kept_history, update-Updated,
}

-- So many updates, each of which is remembered and changes the draft.
pub data Edits (e : Editor) : ℕ → Editor → Type 0 where
  done : Edits e 0 e
  edited :
      (k : ℕ) (f g : Editor) (v : Value)
      → Edits e k f
      → update f v true ≡ ok (g, true)
      → Edits e (suc k) g

-- So many calls of `undo`.
unfoldable pub undo_times : ℕ → Editor → Result EditorError Editor
undo_times zero e = ok e
undo_times (suc k) e = do x ← undo_draft e; undo_times k x.0

-- The first elements of a list.
abbrev pub take {ℓ} : {A : Type ℓ} → ℕ → List A → List A
take zero xs = []
take (suc n) [] = []
take (suc n) (x ∷ xs) = x ∷ take n xs

take_all {ℓ} : {A : Type ℓ} (n : ℕ) (xs : List A) → length xs ≤ n → take n xs ≡ xs
take_all zero [] h = refl
take_all zero (x ∷ xs) h = absurd (omega arith)
take_all (suc n) [] h = refl
take_all (suc n) (x ∷ xs) h = ap (λ l. x ∷ l) (take_all n xs (omega arith))

take-without_oldest :
    (n : ℕ) (ds : List Draft) → n < length ds → take n (without_oldest ds) ≡ take n ds
unfolding without_oldest
take-without_oldest zero ds h = refl
take-without_oldest (suc n) [] h = absurd (omega arith)
take-without_oldest (suc n) (d ∷ []) h = absurd (omega arith)
take-without_oldest (suc n) (d ∷ c ∷ ds) h =
    ap (λ l. d ∷ l) (take-without_oldest n (c ∷ ds) (omega arith))

-- The newest drafts of a history to which a draft is added.
take-push_undo :
    (n : ℕ) (d : Draft) (ds : List Draft)
    → suc n ≤ undo_limit
    → take (suc n) (push_undo d ds) ≡ d ∷ take n ds
take-push_undo n d ds h =
    rw (push_undo-kept_history d ds) (elim (Bool-cases (ltb (length ds) undo_limit)) [
      | inl room ↦ rw room refl
      | inr full ↦ rw full (ap (λ l. d ∷ l) (take-without_oldest n ds (ground arith)))
    ])

-- `undo` with a draft in the history that is not the current one.
undo_draft-back :
    (h : Editor) (d : Draft) (ds : List Draft)
    → h.undo ≡ d ∷ ds
    → IsDraft d
    → is_draft h d ≡ false
    → undo_draft h ≡ ok (with_draft (record h { undo = ds }) false d, true)
unfolding undo_with
undo_draft-back h d ds same known other =
    ap (undo_with h) same ∙ rw (update-draft_value (record h { undo = ds }) d known) (rw other refl)

Edits-Reach : (e f : Editor) (k : ℕ) → Reach e → Edits e k f → Reach f
Edits-Reach e _ _ reached Edits.done = reached
Edits-Reach e _ _ reached (Edits.edited k f g v before ran) =
    Reach.called f g (Edits-Reach e f k reached before) (Step.updated v true true g ran)

-- The draft and the newest drafts of the history are those of another editor.
record Agrees (h f : Editor) (n : ℕ) : Type 0 where
  draft : h.draft ≡ f.draft
  history : h.undo ≡ take n f.undo

undo_times-Agrees :
    (e f h : Editor) (k m : ℕ)
    → Reach e
    → Edits e k f
    → m + k ≤ undo_limit
    → Agrees h f (m + k)
    → (g : Editor) × (undo_times k h ≡ ok g) × (Agrees g e m)
unfolding undo_times
undo_times-Agrees e _ h _ m reached Edits.done fits a =
    let same : m + 0 ≡ m = omega arith in
    (
      h,
      refl,
      record { draft = a.draft; history = subst (λ n. h.undo ≡ take n e.undo) same a.history },
    )
undo_times-Agrees e _ h _ m reached (Edits.edited k f g v before ran) fits a =
    let u = update-Updated f g v true ran in
    let known = (Reach-IsEditor f (Edits-Reach e f k reached before)).draft in
    let same_draft : u.d ≡ h.draft = ap (λ (x : Editor). x.draft) u.same ∙ sym a.draft in
    let next : m + suc k ≡ suc (m + k) = omega arith in
    let pushed : h.undo ≡ take (suc (m + k)) (push_undo f.draft f.undo) =
      subst (λ n. h.undo ≡ take n (push_undo f.draft f.undo)) next
        (a.history ∙ ap (take (m + suc k)) (ap (λ (x : Editor). x.undo) (sym u.same))) in
    let other : is_draft h f.draft ≡ false =
      subst (λ (x : Draft). text_eq (draft_fingerprint f.draft) (draft_fingerprint x) ≡ false)
        same_draft (text_eq_sym (draft_fingerprint u.d) (draft_fingerprint f.draft) u.other) in
    let ds : List Draft = take (m + k) f.undo in
    let back =
      undo_draft-back h f.draft ds
        (pushed ∙ take-push_undo (m + k) f.draft f.undo (omega (arith, next))) known other in
    let (r, undone, agrees) =
      undo_times-Agrees e f (with_draft (record h { undo = ds }) false f.draft) k m reached before
        (omega arith) (record { draft = refl; history = refl }) in
    (
      r,
      ap (λ (x : Result EditorError (Editor × Bool)). x >>= λ y. undo_times k y.0) back ∙ undone,
      agrees,
    )

-- After any calls of an editor's methods and a run of at most 30 updates, each of which is remembered
-- and changes the draft, as many calls of `undo` are not refused and bring back the draft from before
-- the run, and the newest drafts of the history from before it: as many as the run leaves room for.
pub undo_times-Edits :
    (e f : Editor) (k m : ℕ)
    → Reach e
    → Edits e k f
    → m + k ≡ undo_limit
    → (g : Editor) × (undo_times k f ≡ ok g) × (g.draft ≡ e.draft) × (g.undo ≡ take m e.undo)
undo_times-Edits e f k m reached run limit =
    let i = Reach-IsEditor f (Edits-Reach e f k reached run) in
    let whole : f.undo ≡ take (m + k) f.undo =
      rw limit (sym (take_all undo_limit f.undo i.limit)) in
    let (g, undone, agrees) =
      undo_times-Agrees e f f k m reached run (omega (arith, limit))
        (record { draft = refl; history = whole }) in
    (g, undone, agrees.draft, agrees.history)
