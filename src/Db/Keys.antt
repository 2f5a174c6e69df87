-- ===== src/Db/Keys.antt =====
-- Primary keys hold in every table, whatever statements are executed.
use sist_distrib2c.Base.{
  ◌≤◌, ◌==◌, ◌&&◌, length, ℕ, ◌≡◌, refl, ◌∙◌, Bool, true, false, not, List, [], ◌∷◌, ◌++◌, map,
  if◌then◌else◌, keep, any, arith, Bool-cases, inl, inr, subst,
}
use sist_distrib2c.Db.Tables.{
  Table, Column, users, rooms, seats, reservations, clients_rooms, active_clients, Row, Statement,
  delete_from, update_paid, insert_into, insert_null, row_of, matches, mark_paid, same_key, apply,
  is_table,
}
use sist_distrib2c.Db.Sqlite.{Engine, EngineLaws}

is_table→eq : (t u : Table) → is_table t u ≡ true → t ≡ u
is_table→eq t u h = ground arith

-- No two rows of the list are related.
abbrev pub Distinct : (Row → Row → Bool) → List Row → Type 0
Distinct same [] = Unit {0}
Distinct same (r ∷ rows) = (any (same r) rows ≡ false) × Distinct same rows

module _ (same : Row → Row → Bool) where
  any-keep : (p q : Row → Bool) (rows : List Row) → any p rows ≡ false → any p (keep q rows) ≡ false
  any-keep p q [] h = refl
  any-keep p q (r ∷ rows) h = ground (arith, any-keep p q rows)

  keep-Distinct :
      (q : Row → Bool) (rows : List Row) → Distinct same rows → Distinct same (keep q rows)
  keep-Distinct q [] d = tt
  keep-Distinct q (r ∷ rows) d = ground (arith, any-keep (same r) q rows, keep-Distinct q rows d.1)

  any-append :
      (p : Row → Bool) (rows : List Row) (r : Row)
      → any p rows ≡ false
      → p r ≡ false
      → any p (rows ++ (r ∷ [])) ≡ false
  any-append p [] r h k = ground arith
  any-append p (x ∷ rows) r h k = ground (arith, any-append p rows r)

  append-Distinct :
      (rows : List Row) (r : Row)
      → Distinct same rows
      → any (λ x. same x r) rows ≡ false
      → Distinct same (rows ++ (r ∷ []))
  append-Distinct [] r d h = (refl, tt)
  append-Distinct (x ∷ rows) r d h =
      ground (arith, any-append (same x) rows r, append-Distinct rows r d.1)

  any-map :
      (f : Row → Row) (r : Row) (rows : List Row)
      → ((s : Row) → same (f r) (f s) ≡ same r s)
      → any (same (f r)) (map f rows) ≡ any (same r) rows
  any-map f r [] h = refl
  any-map f r (s ∷ rows) h = rw (h s, any-map f r rows h) refl

  map-Distinct :
      (f : Row → Row) (rows : List Row)
      → ((r s : Row) → same (f r) (f s) ≡ same r s)
      → Distinct same rows
      → Distinct same (map f rows)
  map-Distinct f [] h d = tt
  map-Distinct f (r ∷ rows) h d = (any-map f r rows (h r) ∙ d.0, map-Distinct f rows h d.1)

-- A payment leaves the key of a reservation alone.
mark_paid_key :
    (conditions : List (Column × ℕ)) (r s : Row)
    → same_key reservations (mark_paid conditions r) (mark_paid conditions s)
      ≡ same_key reservations r s
mark_paid_key conditions r s = ground arith

-- The reservations of a seat of a room, whoever holds them.
abbrev pub bookings : ℕ → ℕ → List Row → List Row
bookings room seat = keep λ r. r.room_id == room && r.seat_id == seat

no_bookings :
    (r : Row) (rows : List Row)
    → any (same_key reservations r) rows ≡ false
    → length (bookings r.room_id r.seat_id rows) ≡ 0
no_bookings r [] h = refl
no_bookings r (s ∷ rows) h = ground (arith, no_bookings r rows)

-- The primary key of the reservations: a seat of a room has one at most.
pub bookings-Distinct :
    (room seat : ℕ) (rows : List Row)
    → Distinct (same_key reservations) rows
    → length (bookings room seat rows) ≤ 1
bookings-Distinct room seat [] d = omega arith
bookings-Distinct room seat (r ∷ rows) d =
    ground (arith, no_bookings r rows d.0, bookings-Distinct room seat rows d.1)

-- Every table has its primary key.
abbrev pub Keyed : (Table → List Row) → Type 0
Keyed tables = (t : Table) → Distinct (same_key t) (tables t)

abbrev Unused : Table → Row → (Table → List Row) → Type 0
Unused t row tables = any (λ r. same_key t r row) (tables t) ≡ false

append_row_Keyed :
    (t : Table) (row : Row) (tables : Table → List Row)
    → Keyed tables
    → Unused t row tables
    → (u : Table)
    → Distinct (same_key u) (if is_table t u then tables u ++ (row ∷ []) else tables u)
append_row_Keyed t row tables d h u = elim (Bool-cases (is_table t u)) [
  | inl same ↦ rw same (
      append-Distinct (same_key u) (tables u) row (d u)
        (subst (λ v. any (λ r. same_key v r row) (tables v) ≡ false) (is_table→eq t u same) h))
  | inr other ↦ rw other (d u)
]

delete_Keyed :
    (t : Table) (conditions : List (Column × ℕ)) (tables : Table → List Row)
    → Keyed tables
    → (u : Table)
    → Distinct
        (same_key u)
        (if is_table t u then keep (λ r. not (matches conditions r)) (tables u) else tables u)
delete_Keyed t conditions tables d u = elim (Bool-cases (is_table t u)) [
  | inl same ↦
      rw same (keep-Distinct (same_key u) (λ r. not (matches conditions r)) (tables u) (d u))
  | inr other ↦ rw other (d u)
]

update_Keyed :
    (conditions : List (Column × ℕ)) (tables : Table → List Row)
    → Keyed tables
    → (u : Table) → Distinct (same_key u) (apply (update_paid conditions) 0 tables u)
update_Keyed conditions tables d reservations =
    map-Distinct (same_key reservations) (mark_paid conditions) (tables reservations)
      (mark_paid_key conditions) (d reservations)
update_Keyed conditions tables d users = d users
update_Keyed conditions tables d rooms = d rooms
update_Keyed conditions tables d seats = d seats
update_Keyed conditions tables d clients_rooms = d clients_rooms
update_Keyed conditions tables d active_clients = d active_clients

module _ (e : Engine) (laws : EngineLaws e) where
  executed :
      (s : Statement) (db : e.Db)
      → Keyed (e.rows db)
      → (e.exec s db).0 ≡ true
      → Keyed (apply s (e.last_insert_rowid (e.exec s db).1) (e.rows db))
  executed (delete_from t conditions) db d h = delete_Keyed t conditions (e.rows db) d
  executed (update_paid conditions) db d h = update_Keyed conditions (e.rows db) d
  executed (insert_into t values) db d h =
      append_row_Keyed t (row_of values) (e.rows db) d (laws.fresh t values db h)
  executed (insert_null t) db d h = append_row_Keyed t _ (e.rows db) d (laws.fresh_id t db h)

  -- A statement, whether it succeeds or fails, keeps the primary key of every table.
  pub exec-Keyed : (s : Statement) (db : e.Db) → Keyed (e.rows db) → Keyed (e.rows (e.exec s db).1)
  exec-Keyed s db d t = elim (Bool-cases (e.exec s db).0) [
    | inl h ↦ rw (laws.done s db t h) (executed s db d h t)
    | inr h ↦ rw (laws.failed s db t h) (d t)
  ]
