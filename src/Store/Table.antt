-- ===== src/Store/Table.antt =====
-- Finding and changing rows of the table of worker/store.mjs.
use rules.Base.{
  Bool, true, false, none, some, [], ◌∷◌, map, Text, text_eq, includes, text_eq_iff, any, find,
  if◌then◌else◌, ◌≡◌, refl, arith,
}
use rules.Spec.Saved.{option_map}
use rules.Store.{Row, Table, profile_of, select, update_rows}

pub select-find :
    (test : Row → Bool) (t : Table) → select test t ≡ option_map profile_of (find test t)
unfolding select find
select-find test [] = refl
select-find test (r ∷ rs) = ground (arith, select-find test rs)

abbrev pub changed : (Row → Bool) → (Row → Row) → Row → Row
changed hit change r = if hit r then change r else r

-- Where a change does not touch what a test reads, the same row is found, changed.
pub find-update_rows :
    (test hit : Row → Bool) (change : Row → Row) (t : Table)
    → ((r : Row) → test (change r) ≡ test r)
    → find test (update_rows hit change t) ≡ option_map (changed hit change) (find test t)
unfolding find update_rows
find-update_rows test hit change [] keeps = refl
find-update_rows test hit change (r ∷ rs) keeps =
    ground (arith, keeps r, find-update_rows test hit change rs keeps)

pub find-eq-none : (test : Row → Bool) (t : Table) → any test t ≡ false → find test t ≡ none
unfolding find any
find-eq-none test [] h = refl
find-eq-none test (r ∷ rs) h = ground (arith, find-eq-none test rs)

pub find-eq-some :
    (test : Row → Bool) (t : Table) {r : Row} → find test t ≡ some r → any test t ≡ true
unfolding find any
find-eq-some test [] h = cc
find-eq-some test (q ∷ rs) {r} h = ground (arith, find-eq-some test rs {r = r})

-- Without a row that is hit, nothing changes.
pub update_rows_unhit :
    (hit : Row → Bool) (change : Row → Row) (t : Table)
    → any hit t ≡ false
    → update_rows hit change t ≡ t
unfolding update_rows any
update_rows_unhit hit change [] h = refl
update_rows_unhit hit change (r ∷ rs) h = ground (arith, update_rows_unhit hit change rs)

pub map-update_rows :
    (field : Row → Text) (hit : Row → Bool) (change : Row → Row) (t : Table)
    → ((r : Row) → field (change r) ≡ field r)
    → map field (update_rows hit change t) ≡ map field t
unfolding update_rows
map-update_rows field hit change [] keeps = refl
map-update_rows field hit change (r ∷ rs) keeps =
    ground (arith, keeps r, map-update_rows field hit change rs keeps)

pub includes_of_any :
    (field : Row → Text) (x : Text) (t : Table)
    → any (λ r. text_eq (field r) x) t ≡ includes x (map field t)
unfolding any includes
includes_of_any field x [] = refl
includes_of_any field x (r ∷ rs) = rw (includes_of_any field x rs)

-- A row that is found holds the text that the test asks for.
pub find_text-eq :
    (field : Row → Text) (x : Text) (t : Table) (r : Row)
    → find (λ q. text_eq (field q) x) t ≡ some r
    → field r ≡ x
unfolding find
find_text-eq field x [] r h = cc
find_text-eq field x (q ∷ rs) r h =
    ground (arith, find_text-eq field x rs r, text_eq_iff (field q) x)
