-- ===== src/Db/Api.antt =====
-- The functions of db_api.cpp. The `int` that a function returns for success is a Boolean.
use sist_distrib2c.Base.{
  ℕ, ◌%◌, ◌^◌, Bool, true, false, List, [], ◌∷◌, Option, none, some, if◌then◌else◌,
}
use sist_distrib2c.Base.Words.{is_positive}
use sist_distrib2c.Message.{Reservation}
use sist_distrib2c.Db.Tables.{
  users, rooms, seats, reservations, clients_rooms, active_clients, Column, Statement, delete_from,
  update_paid, insert_into, insert_null,
}
use sist_distrib2c.Db.Sqlite.{Engine}

abbrev pub reservation_insert : ℕ → ℕ → ℕ → Statement
reservation_insert userid roomid seatid =
    insert_into reservations
      ((Column.user_id, userid) ∷ (Column.room_id, roomid) ∷ (Column.seat_id, seatid) ∷ [])

-- `res.front()`: undefined on the empty vector.
abbrev pub front : List ℕ → Option ℕ
front [] = none
front (v ∷ _) = some v

module _ (e : Engine) where
  open e use {Db, exec, prepare, select, last_insert_rowid}

  unfoldable pub db_remove_user_unpaid_reservations : Db → ℕ → Bool × Db
  db_remove_user_unpaid_reservations db userid =
      exec (delete_from reservations ((Column.user_id, userid) ∷ (Column.paid_flag, 0) ∷ [])) db

  unfoldable pub db_remove_unpaid_reservations : Db → Bool × Db
  db_remove_unpaid_reservations db = exec (delete_from reservations ((Column.paid_flag, 0) ∷ [])) db

  unfoldable pub db_update_paid_reservation : Db → ℕ → Reservation → Bool × Db
  db_update_paid_reservation db userid r =
      exec
        (update_paid
          ((Column.user_id, userid) ∷ (Column.room_id, r.room) ∷ (Column.seat_id, r.seat_num) ∷ []))
        db

  unfoldable pub db_logout_user : Db → ℕ → Bool × Db
  db_logout_user db userid = exec (delete_from active_clients ((Column.user_id, userid) ∷ [])) db

  unfoldable pub db_login_user : Db → ℕ → Bool × Db
  db_login_user db userid = exec (insert_into active_clients ((Column.user_id, userid) ∷ [])) db

  -- The result of the INSERT is not looked at; `(int)sqlite3_last_insert_rowid(database)`.
  unfoldable pub db_insert_user : Db → ℕ × Db
  db_insert_user db =
      let after = (exec (insert_null users) db).1 in (last_insert_rowid after % 2 ^ 32, after)

  -- `sqlite3_finalize` of the null statement that a failed `sqlite3_prepare` leaves is SQLITE_OK.
  unfoldable pub prepare_and_step : Statement → Db → Bool × Db
  prepare_and_step s db = if prepare s db then exec s db else (true, db)

  unfoldable pub db_insert_reservation : Db → ℕ → ℕ → ℕ → Bool × Db
  unfolding prepare_and_step
  db_insert_reservation db userid roomid seatid =
      if is_positive seatid
      then prepare_and_step (reservation_insert userid roomid seatid) db
      else (false, db)

  unfoldable pub db_insert_room : Db → Bool × Db
  db_insert_room db = exec (insert_null rooms) db

  unfoldable pub db_insert_seats : Db → ℕ → ℕ → Bool × Db
  unfolding prepare_and_step
  db_insert_seats db roomid seatid =
      prepare_and_step
        (insert_into seats ((Column.room_id, roomid) ∷ (Column.seat_id, seatid) ∷ [])) db

  unfoldable pub db_select_room : Db → List ℕ
  db_select_room db = select Column.id rooms [] db

  unfoldable pub db_insert_user_in_room : Db → ℕ → ℕ → Bool × Db
  db_insert_user_in_room db userid roomid =
      exec (insert_into clients_rooms ((Column.user_id, userid) ∷ (Column.room_id, roomid) ∷ [])) db

  unfoldable pub db_remove_user_in_room : Db → ℕ → Bool × Db
  db_remove_user_in_room db userid =
      exec (delete_from clients_rooms ((Column.user_id, userid) ∷ [])) db

  unfoldable pub db_remove_users_in_room : Db → Bool × Db
  db_remove_users_in_room db = exec (delete_from clients_rooms []) db

  unfoldable pub db_select_user_current_room : Db → ℕ → Option ℕ
  db_select_user_current_room db userid =
      front (select Column.room_id clients_rooms ((Column.user_id, userid) ∷ []) db)

  unfoldable pub db_select_users_in_room : Db → ℕ → List ℕ
  db_select_users_in_room db roomid =
      select Column.user_id clients_rooms ((Column.room_id, roomid) ∷ []) db

  unfoldable pub db_select_room_seats : Db → ℕ → List ℕ
  db_select_room_seats db roomid = select Column.seat_id seats ((Column.room_id, roomid) ∷ []) db

  unfoldable pub db_select_reservations : Db → ℕ → List ℕ
  db_select_reservations db roomid =
      select Column.seat_id reservations ((Column.room_id, roomid) ∷ []) db
