-- ===== src/Store/Invariant.antt =====
-- The invariant of the table of worker/store.mjs: profile ids and read tokens' hashes are unique. It
-- holds after every sequence of requests.
use rules.Base.{
  Bool, false, not, ◌&&◌, ◌||◌, Option, some, List, [], ◌∷◌, map, Text, text_eq, includes,
  text_eq_iff, any, ◌≡◌, refl, sym, ◌∙◌, arith, Bool-cases, inl, inr, Distinct, ok, subst,
}
use rules.Value.{Value}
use rules.Store.{
  Row, Table, Draw, Created, Profile, update_rows, require_db, inserted, clashes, create_profile,
  manages, with_spec, update_managed_profile, with_read_token, takes_hash, rotate_read_token,
}
use rules.Store.Table.{update_rows_unhit, map-update_rows, includes_of_any}

abbrev pub ids : Table → List Text
ids = map (λ (r : Row). r.id)

abbrev pub hashes : Table → List Text
hashes = map (λ (r : Row). r.read_token_hash)

pub record IsValid (t : Table) : Type 0 where
  pub unique_ids : Distinct (ids t)
  pub unique_hashes : Distinct (hashes t)

any-or :
    (f g : Row → Bool) (t : Table)
    → any (λ r. f r || g r) t ≡ false
    → (any f t ≡ false) × (any g t ≡ false)
unfolding any
any-or f g [] h = (refl, refl)
any-or f g (r ∷ rs) h = (ground (arith, any-or f g rs), ground (arith, any-or f g rs))

module _ (sha256_hex : Text → Text) where
  pub create_profile-IsValid :
      (draw : Draw) (spec : Value) (t t' : Table) (c : Created)
      → create_profile sha256_hex draw spec (some t) ≡ ok (c, t')
      → IsValid t
      → IsValid t'
  unfolding create_profile require_db
  create_profile-IsValid draw spec t t' c e v =
      let row : Row = inserted sha256_hex draw spec in
      elim (Bool-cases (any (clashes sha256_hex row) t)) [
        | inl clash ↦ absurd (ground arith)
        | inr fresh ↦
            let same : row ∷ t ≡ t' = ground arith in
            let (new_id, new_hash) =
              any-or (λ r. text_eq r.id row.id) (λ r. text_eq r.read_token_hash row.read_token_hash)
                t fresh in
            rw (← same) (record {
              unique_ids = (sym (includes_of_any (λ r. r.id) row.id t) ∙ new_id, v.unique_ids);
              unique_hashes = (
                sym (includes_of_any (λ r. r.read_token_hash) row.read_token_hash t) ∙ new_hash,
                v.unique_hashes,
              );
            })
      ]

  -- No other row has the id of a managed row, so none is managed besides it.
  pub unmanaged_rest :
      (id token : Text) (rs : Table)
      → includes id (ids rs) ≡ false
      → any (manages sha256_hex id token) rs ≡ false
  unfolding includes any
  unmanaged_rest id token [] h = refl
  unmanaged_rest id token (r ∷ rs) h = ground (arith, unmanaged_rest id token rs)

  pub update_managed_profile-IsValid :
      (id token now : Text) (spec : Value) (t t' : Table) (p : Option Profile)
      → update_managed_profile sha256_hex id token spec now (some t) ≡ ok (p, t')
      → IsValid t
      → IsValid t'
  unfolding update_managed_profile require_db
  update_managed_profile-IsValid id token now spec t t' p e v =
      let hit = manages sha256_hex id token in
      let same : update_rows hit (with_spec sha256_hex spec now) t ≡ t' = ground arith in
      rw (← same) (record {
        unique_ids =
            rw (map-update_rows (λ r. r.id) hit (with_spec sha256_hex spec now) t (λ r. refl))
              v.unique_ids;
        unique_hashes =
            rw
              (map-update_rows (λ r. r.read_token_hash) hit (with_spec sha256_hex spec now) t
                (λ r. refl))
              v.unique_hashes;
      })

  -- The statement's refusal leaves every other row with another hash than the fresh one.
  abbrev pub others_free : Text → Text → Text → Table → Bool
  others_free id token fresh t =
      any
        (λ (r : Row).
          not (manages sha256_hex id token r) && text_eq r.read_token_hash (sha256_hex fresh))
        t

  -- The hashes after a rotation are old ones, but for the fresh one.
  hashes-rotated :
      (id token fresh now x : Text) (rs : Table)
      → includes x (hashes rs) ≡ false
      → text_eq (sha256_hex fresh) x ≡ false
      → includes x (
          hashes
            (update_rows (manages sha256_hex id token) (with_read_token sha256_hex fresh now) rs))
        ≡ false
  unfolding includes update_rows
  hashes-rotated id token fresh now x [] h n = refl
  hashes-rotated id token fresh now x (r ∷ rs) h n =
      ground (arith, hashes-rotated id token fresh now x rs)

  all_free :
      (id token fresh : Text) (rs : Table)
      → any (manages sha256_hex id token) rs ≡ false
      → others_free id token fresh rs ≡ false
      → includes (sha256_hex fresh) (hashes rs) ≡ false
  unfolding includes any
  all_free id token fresh [] h f = refl
  all_free id token fresh (r ∷ rs) h f = ground (arith, all_free id token fresh rs)

  rotated-Distinct :
      (id token fresh now : Text) (t : Table)
      → IsValid t
      → others_free id token fresh t ≡ false
      → Distinct (
          hashes
            (update_rows (manages sha256_hex id token) (with_read_token sha256_hex fresh now) t))
  unfolding update_rows any includes
  rotated-Distinct id token fresh now [] v f = tt
  rotated-Distinct id token fresh now (r ∷ rs) v f =
      let tail : IsValid rs = record {
        unique_ids = v.unique_ids.1;
        unique_hashes = v.unique_hashes.1;
      } in
      elim (Bool-cases (manages sha256_hex id token r)) [
        | inl hit ↦
            let same_id : r.id ≡ id = ground (arith, text_eq_iff r.id id) in
            let alone : any (manages sha256_hex id token) rs ≡ false =
              unmanaged_rest id token rs (rw (← same_id) v.unique_ids.0) in
            rw hit (
              rw
                (update_rows_unhit (manages sha256_hex id token)
                  (with_read_token sha256_hex fresh now) rs alone)
                (all_free id token fresh rs alone (ground arith), tail.unique_hashes))
        | inr miss ↦ rw miss (
          hashes-rotated id token fresh now r.read_token_hash rs v.unique_hashes.0 (
              ground (
                arith,
                text_eq_iff (sha256_hex fresh) r.read_token_hash,
                text_eq_iff r.read_token_hash (sha256_hex fresh),
              )),
          rotated-Distinct id token fresh now rs tail (ground arith),
        )
      ]

  pub rotate_read_token-IsValid :
      (id token fresh now : Text) (t t' : Table) (o : Option Text)
      → rotate_read_token sha256_hex id token fresh now (some t) ≡ ok (o, t')
      → IsValid t
      → IsValid t'
  unfolding rotate_read_token require_db takes_hash
  rotate_read_token-IsValid id token fresh now t t' o e v =
      let hit = manages sha256_hex id token in
      let change = with_read_token sha256_hex fresh now in
      elim (Bool-cases (any hit t)) [
        | inl managed ↦ elim (Bool-cases (others_free id token fresh t)) [
          | inl taken ↦ absurd (ground arith)
          | inr free ↦
              let same : update_rows hit change t ≡ t' = ground arith in
              rw (← same) (record {
                unique_ids = rw (map-update_rows (λ r. r.id) hit change t (λ r. refl)) v.unique_ids;
                unique_hashes = rotated-Distinct id token fresh now t v free;
              })
        ]
        | inr unmanaged ↦
            let same : update_rows hit change t ≡ t' = ground arith in
            subst IsValid (sym (update_rows_unhit hit change t unmanaged) ∙ same) v
      ]

  -- One request that writes, with whatever the caller sends and the platform draws.
  pub data Step (t : Table) (t' : Table) : Type 0 where
    create :
        (draw : Draw) (spec : Value) (c : Created)
        → create_profile sha256_hex draw spec (some t) ≡ ok (c, t')
        → Step t t'
    update :
        (id token now : Text) (spec : Value) (p : Option Profile)
        → update_managed_profile sha256_hex id token spec now (some t) ≡ ok (p, t')
        → Step t t'
    rotate :
        (id token fresh now : Text) (o : Option Text)
        → rotate_read_token sha256_hex id token fresh now (some t) ≡ ok (o, t')
        → Step t t'

  pub data Reach (t : Table) : Table → Type 0 where
    here : Reach t t
    next : {u w : Table} → Reach t u → Step u w → Reach t w

  Step-IsValid : {t t' : Table} → Step t t' → IsValid t → IsValid t'
  Step-IsValid {t} {t'} (create draw spec c e) v = create_profile-IsValid draw spec t t' c e v
  Step-IsValid {t} {t'} (update id token now spec p e) v =
      update_managed_profile-IsValid id token now spec t t' p e v
  Step-IsValid {t} {t'} (rotate id token fresh now o e) v =
      rotate_read_token-IsValid id token fresh now t t' o e v

  -- After any sequence of creations, updates and rotations that begins with the empty table, no two
  -- rows have the same id or the same read token hash.
  pub Reach-IsValid : {t : Table} → Reach [] t → IsValid t
  Reach-IsValid here = record { unique_ids = tt; unique_hashes = tt }
  Reach-IsValid (next r s) = Step-IsValid s (Reach-IsValid r)
