-- ===== src/Store/Access.antt =====
-- What the tokens of worker/store.mjs give access to, and what an update or a rotation leaves alone.
use rules.Base.{
  ◌+◌, false, Option, none, some, [], ◌∷◌, Text, text_eq, ◌&&◌, All, if◌then◌else◌, text_eq_iff,
  any, find, ◌≡◌, ◌≢◌, refl, ap, arith, Bool-cases, inl, inr, ok,
}
use rules.Value.{Value}
use rules.Spec.Saved.{option_map}
use rules.Store.{
  Row, Table, Draw, Created, Profile, profile_of, select, update_rows, require_db, inserted,
  clashes, create_profile, reads, manages, get_profile_by_read_token, with_spec,
  update_managed_profile, with_read_token, takes_hash, rotate_read_token,
}
use rules.Store.Table.{select-find, changed, find-update_rows, update_rows_unhit}

module _ (sha256_hex : Text → Text) where
  -- A created profile leaves every read token with another hash than the new one what it reads.
  pub create_profile-others :
      (draw : Draw) (spec : Value) (t t' : Table) (c : Created) (token : Text)
      → create_profile sha256_hex draw spec (some t) ≡ ok (c, t')
      → sha256_hex c.read_token ≢ sha256_hex token
      → get_profile_by_read_token sha256_hex token (some t')
        ≡ get_profile_by_read_token sha256_hex token (some t)
  unfolding create_profile require_db get_profile_by_read_token select
  create_profile-others draw spec t t' c token e other =
      elim (Bool-cases (any (clashes sha256_hex (inserted sha256_hex draw spec)) t)) [
        | inl clash ↦ absurd (ground arith)
        | inr fresh ↦
            let same : inserted sha256_hex draw spec ∷ t ≡ t' = ground arith in
            rw (← same)
              (ground (arith, text_eq_iff (sha256_hex draw.read_token) (sha256_hex token)))
      ]

  module _ (id token now : Text) (spec : Value) where
    -- What a row that may have been updated gives its reader.
    abbrev read_after : Row → Profile
    read_after r =
        if text_eq r.id id && text_eq r.manage_token_hash (sha256_hex token)
        then record {
          id = r.id;
          spec = spec;
          revision = r.revision + 1;
          created_at = r.created_at;
          updated_at = now;
        }
        else record {
          id = r.id;
          spec = r.spec;
          revision = r.revision;
          created_at = r.created_at;
          updated_at = r.updated_at;
        }

    profile_of-changed :
        (r : Row)
        → profile_of (changed (manages sha256_hex id token) (with_spec sha256_hex spec now) r)
          ≡ read_after r
    profile_of-changed r = elim (Bool-cases (manages sha256_hex id token r)) [
      | inl hit ↦ rw hit refl
      | inr miss ↦ rw miss refl
    ]

    option_map-changed :
        (o : Option Row)
        → option_map profile_of
            (option_map (changed (manages sha256_hex id token) (with_spec sha256_hex spec now)) o)
          ≡ option_map read_after o
    option_map-changed none = refl
    option_map-changed (some r) = ap some (profile_of-changed r)

  -- After an update, a read token reads what it read before, but of the row that has the caller's id
  -- and the hash of the caller's manage token it reads the new specification, the revision after the
  -- row's own, and the time of the update as the time of the last change.
  pub update_managed_profile-reads :
      (id token now : Text) (spec : Value) (t t' : Table) (p : Option Profile) (read : Text)
      → update_managed_profile sha256_hex id token spec now (some t) ≡ ok (p, t')
      → get_profile_by_read_token sha256_hex read (some t')
        ≡ ok (
            option_map
              (λ (r : Row).
                if text_eq r.id id && text_eq r.manage_token_hash (sha256_hex token)
                then record {
                  id = r.id;
                  spec = spec;
                  revision = r.revision + 1;
                  created_at = r.created_at;
                  updated_at = now;
                }
                else record {
                  id = r.id;
                  spec = r.spec;
                  revision = r.revision;
                  created_at = r.created_at;
                  updated_at = r.updated_at;
                })
              (find (λ (r : Row). text_eq r.read_token_hash (sha256_hex read)) t))
  unfolding update_managed_profile get_profile_by_read_token require_db
  update_managed_profile-reads id token now spec t t' p read e =
      let hit = manages sha256_hex id token in
      let change = with_spec sha256_hex spec now in
      let same : update_rows hit change t ≡ t' = ground arith in
      rw (← same) (
        rw select-find (
          rw (find-update_rows (reads sha256_hex read) hit change t (λ r. refl))
            (ap ok (option_map-changed id token now spec (find (reads sha256_hex read) t)))))

  -- No row is hit by the caller's statement.
  stranger :
      (id token : Text) (t : Table)
      → All (λ (r : Row). r.id ≡ id → r.manage_token_hash ≢ sha256_hex token) t
      → any (manages sha256_hex id token) t ≡ false
  unfolding any
  stranger id token [] h = refl
  stranger id token (r ∷ rs) h = elim (Bool-cases (text_eq r.id id)) [
    | inr other ↦ rw other (stranger id token rs h.1)
    | inl same ↦
        let denied : r.manage_token_hash ≢ sha256_hex token = h.0 ((text_eq_iff r.id id).0 same) in
        ground (arith, stranger id token rs h.1, text_eq_iff r.manage_token_hash (sha256_hex token))
  ]

  -- An update or a rotation by a caller whose id and manage token belong to no row, since every row
  -- with that id has another manage token's hash, changes nothing and gets `null`.
  pub write_denied :
      (id token fresh now : Text) (spec : Value) (t : Table)
      → All (λ (r : Row). r.id ≡ id → r.manage_token_hash ≢ sha256_hex token) t
      → (update_managed_profile sha256_hex id token spec now (some t) ≡ ok (none, t))
        × (rotate_read_token sha256_hex id token fresh now (some t) ≡ ok (none, t))
  unfolding update_managed_profile rotate_read_token require_db takes_hash
  write_denied id token fresh now spec t strangers =
      let h = stranger id token t strangers in
      (
        rw h (
            rw (update_rows_unhit (manages sha256_hex id token) (with_spec sha256_hex spec now) t h)
              refl),
        rw h (
            rw
              (update_rows_unhit (manages sha256_hex id token)
                (with_read_token sha256_hex fresh now) t h)
              refl),
      )
