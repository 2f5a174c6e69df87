-- ===== src/Setup.antt =====
-- src/utils/database_data_init.cpp: the rooms and seats with which the cinema begins. The database is the
-- one that `db_initialize` leaves; the results of the insertions are not looked at.
pub mod Resources
use sist_distrib2c.Base.{
  ℕ, zero, suc, ◌+◌, ◌≤◌, ◌≡◌, ◌≢◌, ◌⊎◌, refl, sym, ◌∙◌, ap, true, false, List, [], ◌∷◌, ◌++◌, map,
  append_assoc, append-nil, inl, inr, Bool-cases, subst, keep, any, All, arith,
}
use sist_distrib2c.Db.{
  Engine, EngineLaws, Table, Column, Row, Statement, default_row, insert_into, insert_null, row_of,
  cell, matches, same_key, prepare_and_step, db_insert_user, db_insert_room, db_insert_seats,
}

module _ (e : Engine) where
  open e use {Db}

  -- `for (int i = ...; i < n; i++) db_insert_seats(handler, room, i + 1)`, with the rounds left.
  unfoldable pub insert_seats : ℕ → ℕ → ℕ → Db → Db
  insert_seats room i zero db = db
  insert_seats room i (suc left) db =
      insert_seats room (suc i) left (db_insert_seats e db room (i + 1)).1

  unfoldable pub database_data_init : Db → Db
  unfolding insert_seats
  database_data_init db =
      let one = (db_insert_user e db).1 in
      let two = (db_insert_user e one).1 in
      let room_1 = (db_insert_room e two).1 in
      let room_2 = (db_insert_room e room_1).1 in
      let room_3 = (db_insert_room e room_2).1 in
      insert_seats 3 0 15 (insert_seats 2 0 10 (insert_seats 1 0 20 room_3))

-- The insertion of a seat that is not there succeeds.
pub record IsWritable (e : Engine) : Type 0 where
  pub prepared : (s : Statement) (db : e.Db) → e.prepare s db ≡ true
  pub inserted :
      (values : List (Column × ℕ)) (db : e.Db)
      → any (λ r. same_key Table.seats r (row_of values)) (e.rows db Table.seats) ≡ false
      → (e.exec (insert_into Table.seats values) db).0 ≡ true

abbrev pub seat_row : ℕ → ℕ → Row
seat_row room seat = record default_row { room_id = room; seat_id = seat }

-- The seats of a room behind the number i, n of them.
abbrev pub seat_rows : ℕ → ℕ → ℕ → List Row
seat_rows room i zero = []
seat_rows room i (suc n) = seat_row room (i + 1) ∷ seat_rows room (suc i) n

-- The ids of the seats of a room, in order of insertion.
abbrev pub seat_ids : ℕ → List Row → List ℕ
seat_ids room rows = map (cell Column.seat_id) (keep (matches ((Column.room_id, room) ∷ [])) rows)

-- i + 1, i + 2, ..., i + n.
abbrev pub numbers : ℕ → ℕ → List ℕ
numbers i zero = []
numbers i (suc n) = (i + 1) ∷ numbers (suc i) n

-- No row is a seat of the room behind the number i.
abbrev Below : ℕ → ℕ → List Row → Type 0
Below room i = All λ r. (r.room_id ≢ room) ⊎ (r.seat_id ≤ i)

any-same_key :
    (room i : ℕ) (rows : List Row)
    → Below room i rows
    → any (λ r. same_key Table.seats r (seat_row room (i + 1))) rows ≡ false
any-same_key room i [] h = refl
any-same_key room i (r ∷ rows) h = ground (arith, any-same_key room i rows h.1, h.0)

append-Below :
    (room i : ℕ) (rows : List Row)
    → Below room i rows
    → Below room (suc i) (rows ++ (seat_row room (i + 1) ∷ []))
append-Below room i [] h = (inr (omega arith), tt)
append-Below room i (r ∷ rows) h = (ground (arith, h.0), append-Below room i rows h.1)

seat_rows-Below :
    (room other i n : ℕ) (rows : List Row)
    → room ≢ other
    → Below room 0 rows
    → Below room 0 (rows ++ seat_rows other i n)
seat_rows-Below room other i zero [] d h = tt
seat_rows-Below room other i (suc n) [] d h =
    (inl (λ same. d (sym same)), seat_rows-Below room other (suc i) n [] d tt)
seat_rows-Below room other i n (r ∷ rows) d h = (h.0, seat_rows-Below room other i n rows d h.1)

module _ (e : Engine) (laws : EngineLaws e) (writable : IsWritable e) where
  abbrev seats_in : e.Db → List Row
  seats_in db = e.rows db Table.seats

  insert_seat :
      (room seat : ℕ) (db : e.Db)
      → any (λ r. same_key Table.seats r (seat_row room seat)) (seats_in db) ≡ false
      → seats_in (db_insert_seats e db room seat).1 ≡ seats_in db ++ (seat_row room seat ∷ [])
  unfolding db_insert_seats prepare_and_step
  insert_seat room seat db free =
      let values : List (Column × ℕ) = (Column.room_id, room) ∷ (Column.seat_id, seat) ∷ [] in
      rw (writable.prepared (insert_into Table.seats values) db) (
        laws.done (insert_into Table.seats values) db Table.seats
          (writable.inserted values db free))

  insert_seats-seat_rows :
      (room i n : ℕ) (db : e.Db)
      → Below room i (seats_in db)
      → seats_in (insert_seats e room i n db) ≡ seats_in db ++ seat_rows room i n
  unfolding insert_seats
  insert_seats-seat_rows room i zero db below = sym (append-nil _)
  insert_seats-seat_rows room i (suc n) db below =
      let added = insert_seat room (i + 1) db (any-same_key room i (seats_in db) below) in
      insert_seats-seat_rows room (suc i) n (db_insert_seats e db room (i + 1)).1
        (subst (Below room (suc i)) (sym added) (append-Below room i (seats_in db) below))
      ∙ ap (λ rows. rows ++ seat_rows room (suc i) n) added
      ∙ append_assoc (seats_in db) (seat_row room (i + 1) ∷ []) (seat_rows room (suc i) n)

  insert_user_seats : (db : e.Db) → seats_in (db_insert_user e db).1 ≡ seats_in db
  unfolding db_insert_user
  insert_user_seats db = elim (Bool-cases (e.exec (insert_null Table.users) db).0) [
    | inl done ↦ laws.done (insert_null Table.users) db Table.seats done
    | inr bad ↦ laws.failed (insert_null Table.users) db Table.seats bad
  ]

  insert_room_seats : (db : e.Db) → seats_in (db_insert_room e db).1 ≡ seats_in db
  unfolding db_insert_room
  insert_room_seats db = elim (Bool-cases (e.exec (insert_null Table.rooms) db).0) [
    | inl done ↦ laws.done (insert_null Table.rooms) db Table.seats done
    | inr bad ↦ laws.failed (insert_null Table.rooms) db Table.seats bad
  ]

  abbrev filled : List Row
  filled = (seat_rows 1 0 20 ++ seat_rows 2 0 10) ++ seat_rows 3 0 15

  filled_lem : (db : e.Db) → seats_in db ≡ [] → seats_in (database_data_init e db) ≡ filled
  unfolding database_data_init
  filled_lem db empty =
      let one = (db_insert_user e db).1 in
      let two = (db_insert_user e one).1 in
      let room_1 = (db_insert_room e two).1 in
      let room_2 = (db_insert_room e room_1).1 in
      let room_3 = (db_insert_room e room_2).1 in
      let start : seats_in room_3 ≡ [] =
        insert_room_seats room_2
        ∙ (insert_room_seats room_1
            ∙ (insert_room_seats two ∙ (insert_user_seats one ∙ (insert_user_seats db ∙ empty)))) in
      let first : seats_in (insert_seats e 1 0 20 room_3) ≡ seat_rows 1 0 20 =
        insert_seats-seat_rows 1 0 20 room_3 (subst (Below 1 0) (sym start) tt)
        ∙ ap (λ rows. rows ++ seat_rows 1 0 20) start in
      let second_db = insert_seats e 2 0 10 (insert_seats e 1 0 20 room_3) in
      let second : seats_in second_db ≡ seat_rows 1 0 20 ++ seat_rows 2 0 10 =
        insert_seats-seat_rows 2 0 10 (insert_seats e 1 0 20 room_3) (
          subst (Below 2 0) (sym first)
            (seat_rows-Below 2 1 0 20 [] (λ same. omega (arith, same)) tt))
        ∙ ap (λ rows. rows ++ seat_rows 2 0 10) first in
      insert_seats-seat_rows 3 0 15 second_db (
        subst (Below 3 0) (sym second) (
          seat_rows-Below 3 2 0 10 (seat_rows 1 0 20) (λ same. omega (arith, same))
            (seat_rows-Below 3 1 0 20 [] (λ same. omega (arith, same)) tt)))
      ∙ ap (λ rows. rows ++ seat_rows 3 0 15) second

  -- If statements can be prepared and the insertion of a new seat succeeds, then the program leaves a
  -- database that had no seats with 20 seats in room 1, 10 in room 2 and 15 in room 3, each numbered
  -- from 1 in order, whether or not the insertions of users and rooms succeed.
  pub database_data_init_lem :
      (db : e.Db)
      → e.rows db Table.seats ≡ []
      → (seat_ids 1 (e.rows (database_data_init e db) Table.seats) ≡ numbers 0 20)
        × (seat_ids 2 (e.rows (database_data_init e db) Table.seats) ≡ numbers 0 10)
        × (seat_ids 3 (e.rows (database_data_init e db) Table.seats) ≡ numbers 0 15)
  database_data_init_lem db empty = rw (filled_lem db empty) (refl, refl, refl)
