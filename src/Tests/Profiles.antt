-- ===== src/Tests/Profiles.antt =====
-- Instances of the theorems on the store. The hash of the tests is the text itself.
use rules.Base.{
  ℕ, true, false, none, some, List, [], ◌∷◌, ◌++◌, length, Text, codes, text_eq, text_eq_iff,
  includes, any, find, ok, All, ◌≡◌, ◌≢◌, refl, arith,
}
use rules.Value.{str}
use rules.Store.{
  Row, Table, Draw, Created, profile_of, select, update_rows, require_db, inserted, create_profile,
  manages, get_profile_by_read_token, get_managed_profile, with_spec, update_managed_profile,
  with_read_token, takes_hash, rotate_read_token,
}
use rules.Store.Token.{token_of_bytes, is_token, token_of_bytes-is_token}
use rules.Store.Invariant.{IsValid, Step, Reach, Reach-IsValid}
use rules.Store.Access.{create_profile-others, update_managed_profile-reads, write_denied}
use rules.Store.Rotation.{
  rotate_read_token-reads, rotate_read_token-revokes, rotate_read_token-others,
}

-- All that the tests of the store compute with.
store : Unit {0}
unfolding text_eq includes any find require_db create_profile select update_rows
    get_profile_by_read_token get_managed_profile update_managed_profile takes_hash
    rotate_read_token
store = tt

abbrev hash : Text → Text
hash t = t

abbrev draw_a : Draw
draw_a = record {
  id = codes "a";
  read_token = codes "ra";
  manage_token = codes "ma";
  now = codes "1";
}

abbrev draw_b : Draw
draw_b = record {
  id = codes "b";
  read_token = codes "rb";
  manage_token = codes "mb";
  now = codes "2";
}

abbrev row_a : Row
row_a = inserted hash draw_a (str (codes "x"))

abbrev row_b : Row
row_b = inserted hash draw_b (str (codes "y"))

abbrev created_a : Created
created_a = record {
  id = codes "a";
  read_token = codes "ra";
  manage_token = codes "ma";
  revision = 1;
}

abbrev created_b : Created
created_b = record {
  id = codes "b";
  read_token = codes "rb";
  manage_token = codes "mb";
  revision = 1;
}

abbrev two_rows : Table
two_rows = row_b ∷ row_a ∷ []

create_a : create_profile hash draw_a (str (codes "x")) (some []) ≡ ok (created_a, row_a ∷ [])
unfolding store
create_a = refl

create_b :
    create_profile hash draw_b (str (codes "y")) (some (row_a ∷ [])) ≡ ok (created_b, two_rows)
unfolding store
create_b = refl

abbrev rotated_a : Row
rotated_a = with_read_token hash (codes "rc") (codes "3") row_a

rotate_a :
    rotate_read_token hash (codes "a") (codes "ma") (codes "rc") (codes "3") (some two_rows)
    ≡ ok (some (codes "rc"), row_b ∷ rotated_a ∷ [])
unfolding store
rotate_a = refl

abbrev updated_a : Row
updated_a = with_spec hash (str (codes "z")) (codes "4") row_a

update_a :
    update_managed_profile hash
      (codes "a")
      (codes "ma")
      (str (codes "z"))
      (codes "4")
      (some two_rows)
    ≡ ok (some (profile_of updated_a), row_b ∷ updated_a ∷ [])
unfolding store
update_a = refl

Reach-IsValid_example : IsValid (row_b ∷ rotated_a ∷ [])
Reach-IsValid_example = Reach-IsValid hash (
    Reach.next
      (Reach.next (Reach.next Reach.here (Step.create draw_a (str (codes "x")) created_a create_a))
        (Step.create draw_b (str (codes "y")) created_b create_b))
      (Step.rotate (codes "a") (codes "ma") (codes "rc") (codes "3") (some (codes "rc")) rotate_a))

two_rows-IsValid : IsValid two_rows
unfolding store
two_rows-IsValid = record { unique_ids = (refl, (refl, tt)); unique_hashes = (refl, (refl, tt)) }

differ : (s t : Text) → text_eq s t ≡ false → s ≢ t
differ s t h = λ e. ground (arith, text_eq_iff s t)

rb-ra : codes "rb" ≢ codes "ra"
unfolding store
rb-ra = differ (codes "rb") (codes "ra") refl

rc-ra : codes "rc" ≢ codes "ra"
unfolding store
rc-ra = differ (codes "rc") (codes "ra") refl

ra-rb : codes "ra" ≢ codes "rb"
unfolding store
ra-rb = differ (codes "ra") (codes "rb") refl

rc-rb : codes "rc" ≢ codes "rb"
unfolding store
rc-rb = differ (codes "rc") (codes "rb") refl

create_profile-others_example :
    get_profile_by_read_token hash (codes "ra") (some two_rows)
    ≡ get_profile_by_read_token hash (codes "ra") (some (row_a ∷ []))
create_profile-others_example =
    create_profile-others hash draw_b (str (codes "y")) (row_a ∷ []) two_rows created_b (codes "ra")
      create_b rb-ra

update_managed_profile-reads_example :
    get_profile_by_read_token hash (codes "ra") (some (row_b ∷ updated_a ∷ []))
    ≡ ok (some (profile_of updated_a))
unfolding store
update_managed_profile-reads_example =
    update_managed_profile-reads hash (codes "a") (codes "ma") (codes "4") (str (codes "z"))
      two_rows (row_b ∷ updated_a ∷ []) (some (profile_of updated_a)) (codes "ra") update_a

strangers : All (λ (r : Row). r.id ≡ codes "a" → r.manage_token_hash ≢ hash (codes "mb")) two_rows
unfolding store
strangers = (
  λ same. absurd (differ (codes "b") (codes "a") refl same),
  (λ same. differ (codes "ma") (codes "mb") refl, tt),
)

write_denied_example :
    (update_managed_profile hash
        (codes "a")
        (codes "mb")
        (str (codes "z"))
        (codes "4")
        (some two_rows)
      ≡ ok (none, two_rows))
    × (rotate_read_token hash (codes "a") (codes "mb") (codes "rc") (codes "4") (some two_rows)
        ≡ ok (none, two_rows))
write_denied_example =
    write_denied hash (codes "a") (codes "mb") (codes "rc") (codes "4") (str (codes "z")) two_rows
      strangers

managed_a : find (manages hash (codes "a") (codes "ma")) two_rows ≡ some row_a
unfolding store
managed_a = refl

rotate_read_token-reads_example :
    (some (codes "rc") ≡ some (codes "rc"))
    × (get_profile_by_read_token hash (codes "rc") (some (row_b ∷ rotated_a ∷ []))
        ≡ ok (some (profile_of rotated_a)))
rotate_read_token-reads_example =
    rotate_read_token-reads hash (codes "a") (codes "ma") (codes "rc") (codes "3") row_a two_rows
      (row_b ∷ rotated_a ∷ []) (some (codes "rc")) managed_a rotate_a

rotate_read_token-revokes_example :
    get_profile_by_read_token hash (codes "ra") (some (row_b ∷ rotated_a ∷ [])) ≡ ok none
rotate_read_token-revokes_example =
    rotate_read_token-revokes hash (codes "a") (codes "ma") (codes "rc") (codes "3") (codes "ra")
      row_a two_rows (row_b ∷ rotated_a ∷ []) (some (codes "rc")) two_rows-IsValid managed_a
      rotate_a refl rc-ra

rotate_read_token-others_example :
    get_profile_by_read_token hash (codes "rb") (some (row_b ∷ rotated_a ∷ []))
    ≡ get_profile_by_read_token hash (codes "rb") (some two_rows)
rotate_read_token-others_example =
    rotate_read_token-others hash (codes "a") (codes "ma") (codes "rc") (codes "3") (codes "rb")
      row_a two_rows (row_b ∷ rotated_a ∷ []) (some (codes "rc")) two_rows-IsValid managed_a
      rotate_a ra-rb rc-rb

abbrev eight : List ℕ
eight = 0 ∷ 255 ∷ 17 ∷ 251 ∷ 190 ∷ 3 ∷ 128 ∷ 64 ∷ []

abbrev random_bytes : List ℕ
random_bytes = eight ++ eight ++ eight ++ eight

random_bytes-length : length random_bytes ≡ 32
random_bytes-length = refl

token_of_bytes-is_token_example :
    (is_token (token_of_bytes random_bytes) ≡ true) × (length (token_of_bytes random_bytes) ≡ 43)
token_of_bytes-is_token_example = token_of_bytes-is_token random_bytes random_bytes-length
