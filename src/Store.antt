-- ===== src/Store.antt =====
-- worker/store.mjs: profiles in a table with hashed capabilities. The table is the list of the rows
-- of `profiles` (migrations), and each function reads or writes it as its SQL statement says.
-- Random bytes, ids and the clock are arguments; SHA-256 is the platform's, a parameter.
pub mod Table
pub mod Token
pub mod Invariant
pub mod Access
pub mod Rotation
use rules.Base.{
  ℕ, zero, suc, ◌+◌, Bool, true, false, not, ◌&&◌, ◌||◌, Option, none, some, List, [], ◌∷◌, ◌++◌,
  map, Text, text_eq, any, if◌then◌else◌, Result, ok, err, ◌>>=◌, ◌>>◌, throw_if,
}
use rules.Value.{Value}

pub record Row : Type 0 where
  pub id : Text
  pub read_token_hash : Text
  pub manage_token_hash : Text
  -- `spec_json`, as the value that its text stands for
  pub spec : Value
  pub revision : ℕ
  pub created_at : Text
  pub updated_at : Text

-- `StoreUnavailableError`, and the database's refusal of a row that breaks a uniqueness constraint
pub data StoreError : Type 0 where
  unavailable constraint : StoreError

abbrev pub Table : Type 0
Table = List Row

-- `requireDb`
unfoldable pub require_db : Option Table → Result StoreError Table
require_db none = err StoreError.unavailable
require_db (some t) = ok t

-- What `createProfile` draws: the id, the two tokens, the time.
pub record Draw : Type 0 where
  pub id : Text
  pub read_token : Text
  pub manage_token : Text
  pub now : Text

pub record Created : Type 0 where
  pub id : Text
  pub read_token : Text
  pub manage_token : Text
  pub revision : ℕ

-- The columns that the SELECT statements give.
pub record Profile : Type 0 where
  pub id : Text
  pub spec : Value
  pub revision : ℕ
  pub created_at : Text
  pub updated_at : Text

abbrev pub profile_of : Row → Profile
profile_of r = record {
  id = r.id;
  spec = r.spec;
  revision = r.revision;
  created_at = r.created_at;
  updated_at = r.updated_at;
}

-- `SELECT … WHERE … LIMIT 1`
unfoldable pub select : (Row → Bool) → Table → Option Profile
select test [] = none
select test (r ∷ rs) = if test r then some (profile_of r) else select test rs

-- `UPDATE … WHERE …`: the rows after it
unfoldable pub update_rows : (Row → Bool) → (Row → Row) → Table → Table
update_rows test change [] = []
update_rows test change (r ∷ rs) = (if test r then change r else r) ∷ update_rows test change rs

module _ (sha256_hex : Text → Text) where
  -- The row that the INSERT statement adds.
  abbrev pub inserted : Draw → Value → Row
  inserted draw spec = record {
    id = draw.id;
    read_token_hash = sha256_hex draw.read_token;
    manage_token_hash = sha256_hex draw.manage_token;
    spec = spec;
    revision = 1;
    created_at = draw.now;
    updated_at = draw.now;
  }

  -- Whether a row of the table has the id or the read token's hash of another.
  abbrev pub clashes : Row → Row → Bool
  clashes row r = text_eq r.id row.id || text_eq r.read_token_hash row.read_token_hash

  unfoldable pub create_profile : Draw → Value → Option Table → Result StoreError (Created × Table)
  create_profile draw spec db = do
    t ← require_db db
    throw_if (any (clashes (inserted draw spec)) t) StoreError.constraint
    ok (
      record {
        id = draw.id;
        read_token = draw.read_token;
        manage_token = draw.manage_token;
        revision = 1;
      },
      inserted draw spec ∷ t,
    )

  abbrev pub reads : Text → Row → Bool
  reads token r = text_eq r.read_token_hash (sha256_hex token)

  abbrev pub manages : Text → Text → Row → Bool
  manages id token r = text_eq r.id id && text_eq r.manage_token_hash (sha256_hex token)

  unfoldable pub get_profile_by_read_token :
      Text → Option Table → Result StoreError (Option Profile)
  get_profile_by_read_token token db = do t ← require_db db; ok (select (reads token) t)

  unfoldable pub get_managed_profile :
      Text → Text → Option Table → Result StoreError (Option Profile)
  get_managed_profile id token db = do t ← require_db db; ok (select (manages id token) t)

  abbrev pub with_spec : Value → Text → Row → Row
  with_spec spec now r = record r { spec = spec; revision = r.revision + 1; updated_at = now }

  -- The new table, and what the function returns; `null` where no row has changed.
  unfoldable pub update_managed_profile :
      Text → Text → Value → Text → Option Table → Result StoreError (Option Profile × Table)
  update_managed_profile id token spec now db = do
    t ← require_db db
    let t' : Table = update_rows (manages id token) (with_spec spec now) t
    ok ((if any (manages id token) t then select (manages id token) t' else none), t')

  abbrev pub with_read_token : Text → Text → Row → Row
  with_read_token token now r = record r {
    read_token_hash = sha256_hex token;
    revision = r.revision + 1;
    updated_at = now;
  }

  -- Whether the statement would give a row the hash that another row has.
  unfoldable pub takes_hash : Text → Text → Text → Table → Bool
  takes_hash id token fresh t =
      any (manages id token) t
      && any (λ (r : Row). not (manages id token r) && text_eq r.read_token_hash (sha256_hex fresh))
          t

  unfoldable pub rotate_read_token :
      Text → Text → Text → Text → Option Table → Result StoreError (Option Text × Table)
  rotate_read_token id token fresh now db = do
    t ← require_db db
    throw_if (takes_hash id token fresh t) StoreError.constraint
    ok (
      (if any (manages id token) t then some fresh else none),
      update_rows (manages id token) (with_read_token fresh now) t,
    )
