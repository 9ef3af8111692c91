-- ===== src/Store/Rotation.antt =====
-- `rotateReadToken` of worker/store.mjs: the old read token is revoked and the fresh one takes its
-- place, on the one row that the caller manages.
use rules.Base.{
  ◌+◌, Bool, true, false, Option, none, some, [], ◌∷◌, Text, text_eq, includes, text_eq_refl,
  text_eq_iff, any, find, ◌≡◌, ◌≢◌, refl, ap, sym, ◌∙◌, arith, Bool-cases, inl, inr, ok, subst,
}
use rules.Spec.Saved.{option_map}
use rules.Store.{
  get_profile_by_read_token, Row, Table, update_rows, require_db, reads, manages, with_read_token,
  takes_hash, rotate_read_token,
}
use rules.Store.Table.{select-find, find-eq-none, find-eq-some, update_rows_unhit, includes_of_any}
use rules.Store.Invariant.{IsValid, hashes, others_free, unmanaged_rest}

abbrev holds : Text → Row → Bool
holds x r = text_eq r.read_token_hash x

module _ (sha256_hex : Text → Text) (id token fresh now : Text) where
  abbrev hit : Row → Bool
  hit = manages sha256_hex id token

  abbrev change : Row → Row
  change = with_read_token sha256_hex fresh now

  find-hash :
      (t : Table) (r : Row) → find hit t ≡ some r → includes r.read_token_hash (hashes t) ≡ true
  unfolding find includes
  find-hash [] r h = cc
  find-hash (q ∷ rs) r h = ground (arith, find-hash rs r, text_eq_refl q.read_token_hash)

  -- The row behind a hit is the only one that is managed.
  alone : (q : Row) (rs : Table) → IsValid (q ∷ rs) → hit q ≡ true → update_rows hit change rs ≡ rs
  alone q rs v h =
      let same_id : q.id ≡ id = ground (arith, text_eq_iff q.id id) in
      update_rows_unhit hit change rs
        (unmanaged_rest sha256_hex id token rs (rw (← same_id) v.unique_ids.0))

  tail-IsValid : (q : Row) (rs : Table) → IsValid (q ∷ rs) → IsValid rs
  tail-IsValid q rs v = record { unique_ids = v.unique_ids.1; unique_hashes = v.unique_hashes.1 }

  fresh-found :
      (t : Table) (r : Row)
      → others_free sha256_hex id token fresh t ≡ false
      → find hit t ≡ some r
      → find (holds (sha256_hex fresh)) (update_rows hit change t) ≡ some (change r)
  unfolding find update_rows any
  fresh-found [] r f h = cc
  fresh-found (q ∷ rs) r f h = elim (Bool-cases (hit q)) [
    | inl managed ↦
        let same : some q ≡ some r = rw managed at h in
        rw managed (rw text_eq_refl (ap (option_map change) same))
    | inr other ↦ rw other (ground (arith, fresh-found rs r (ground arith) (rw other at h)))
  ]

  old-lost :
      (t : Table) (r : Row)
      → IsValid t
      → find hit t ≡ some r
      → sha256_hex fresh ≢ r.read_token_hash
      → find (holds r.read_token_hash) (update_rows hit change t) ≡ none
  unfolding find update_rows includes
  old-lost [] r v h n = refl
  old-lost (q ∷ rs) r v h n = elim (Bool-cases (hit q)) [
    | inl managed ↦
        let same : q ≡ r = ground arith in
        let gone : any (holds r.read_token_hash) rs ≡ false =
          includes_of_any (λ x. x.read_token_hash) r.read_token_hash rs
          ∙ subst (λ x. includes x (hashes rs) ≡ false) (ap (λ (x : Row). x.read_token_hash) same)
              v.unique_hashes.0 in
        rw managed (
          rw (alone q rs v managed) (
            ground (
              arith,
              find-eq-none (holds r.read_token_hash) rs gone,
              text_eq_iff (sha256_hex fresh) r.read_token_hash,
            )))
    | inr other ↦
        let later : find hit rs ≡ some r = rw other at h in
        let present = find-hash rs r later in
        let first = v.unique_hashes.0 in
        rw other (
          ground (
            arith,
            old-lost rs r (tail-IsValid q rs v) later n,
            text_eq_iff q.read_token_hash r.read_token_hash,
          ))
  ]

  others-kept :
      (t : Table) (r : Row) (x : Text)
      → IsValid t
      → find hit t ≡ some r
      → r.read_token_hash ≢ x
      → sha256_hex fresh ≢ x
      → find (holds x) (update_rows hit change t) ≡ find (holds x) t
  unfolding find update_rows
  others-kept [] r x v h n m = refl
  others-kept (q ∷ rs) r x v h n m = elim (Bool-cases (hit q)) [
    | inl managed ↦
        let same : q ≡ r = ground arith in
        rw managed (
          rw (alone q rs v managed)
            (ground (arith, text_eq_iff (sha256_hex fresh) x, text_eq_iff q.read_token_hash x)))
    | inr other ↦
        rw other (ground (arith, others-kept rs r x (tail-IsValid q rs v) (rw other at h) n m))
  ]

-- What a rotation that is not refused leaves behind, and what it returns.
rotate_read_token-table :
    (sha256_hex : Text → Text) (id token fresh now : Text) (r : Row) (t t' : Table)
    (o : Option Text)
    → find (manages sha256_hex id token) t ≡ some r
    → rotate_read_token sha256_hex id token fresh now (some t) ≡ ok (o, t')
    → (others_free sha256_hex id token fresh t ≡ false)
      × (o ≡ some fresh)
      × (update_rows (manages sha256_hex id token) (with_read_token sha256_hex fresh now) t ≡ t')
unfolding rotate_read_token require_db takes_hash
rotate_read_token-table sha256_hex id token fresh now r t t' o h e =
    let managed = find-eq-some (manages sha256_hex id token) t h in
    elim (Bool-cases (others_free sha256_hex id token fresh t)) [
      | inl taken ↦ absurd (ground arith)
      | inr free ↦ (free, ground arith, ground arith)
    ]

-- A rotation by the manager of a row that is not refused returns the fresh token, which reads that
-- row's id, specification and time of creation, the revision after its own, and the time of the
-- rotation as the time of the last change.
pub rotate_read_token-reads :
    (sha256_hex : Text → Text) (id token fresh now : Text) (r : Row) (t t' : Table)
    (o : Option Text)
    → find (manages sha256_hex id token) t ≡ some r
    → rotate_read_token sha256_hex id token fresh now (some t) ≡ ok (o, t')
    → (o ≡ some fresh)
      × (get_profile_by_read_token sha256_hex fresh (some t')
          ≡ ok (
              some (record {
                id = r.id;
                spec = r.spec;
                revision = r.revision + 1;
                created_at = r.created_at;
                updated_at = now;
              })))
unfolding get_profile_by_read_token require_db
rotate_read_token-reads sha256_hex id token fresh now r t t' o h e =
    let (free, returned, same) =
      rotate_read_token-table sha256_hex id token fresh now r t t' o h e in
    (
      returned,
      rw (← same) (rw select-find (rw (fresh-found sha256_hex id token fresh now t r free h) refl)),
    )

-- A rotation by the manager of a row of a valid table that is not refused revokes the row's old read
-- token: a token with the old hash reads nothing, if the fresh token's hash is another.
pub rotate_read_token-revokes :
    (sha256_hex : Text → Text) (id token fresh now old : Text) (r : Row) (t t' : Table)
    (o : Option Text)
    → IsValid t
    → find (manages sha256_hex id token) t ≡ some r
    → rotate_read_token sha256_hex id token fresh now (some t) ≡ ok (o, t')
    → sha256_hex old ≡ r.read_token_hash
    → sha256_hex fresh ≢ r.read_token_hash
    → get_profile_by_read_token sha256_hex old (some t') ≡ ok none
unfolding get_profile_by_read_token require_db
rotate_read_token-revokes sha256_hex id token fresh now old r t t' o v h e is_old n =
    let (free, returned, same) =
      rotate_read_token-table sha256_hex id token fresh now r t t' o h e in
    let lost =
      subst
        (λ x.
          find (holds x)
            (update_rows (manages sha256_hex id token) (with_read_token sha256_hex fresh now) t)
          ≡ none)
        (sym is_old) (old-lost sha256_hex id token fresh now t r v h n) in
    rw (← same) (rw select-find (rw lost refl))

-- A rotation by the manager of a row of a valid table that is not refused leaves every read token
-- what it reads, whose hash is neither the row's old hash nor the fresh token's.
pub rotate_read_token-others :
    (sha256_hex : Text → Text) (id token fresh now other : Text) (r : Row) (t t' : Table)
    (o : Option Text)
    → IsValid t
    → find (manages sha256_hex id token) t ≡ some r
    → rotate_read_token sha256_hex id token fresh now (some t) ≡ ok (o, t')
    → r.read_token_hash ≢ sha256_hex other
    → sha256_hex fresh ≢ sha256_hex other
    → get_profile_by_read_token sha256_hex other (some t')
      ≡ get_profile_by_read_token sha256_hex other (some t)
unfolding get_profile_by_read_token require_db
rotate_read_token-others sha256_hex id token fresh now other r t t' o v h e n m =
    let (free, returned, same) =
      rotate_read_token-table sha256_hex id token fresh now r t t' o h e in
    rw (← same) (
      rw (select-find (reads sha256_hex other) t) (
        rw select-find
          (rw (others-kept sha256_hex id token fresh now t r (sha256_hex other) v h n m) refl)))
