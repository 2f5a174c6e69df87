-- ===== src/Admin/Running/Selection.antt =====
-- The program that answers a selection.
use sist_distrib2c.Base.{
  ℕ, ◌≡◌, refl, ◌∙◌, Bool, true, false, List, [], ◌∷◌, some, ◌>>=◌, if◌then◌else◌, ◌==◌,
}
use sist_distrib2c.Base.Words.{is_positive}
use sist_distrib2c.Message.{Message, first_word, success_code}
use sist_distrib2c.Channel.{Channel}
use sist_distrib2c.Db.{
  Engine, Statement, reservation_insert, prepare_and_step, db_select_room_seats,
  db_select_reservations, db_select_user_current_room, db_insert_reservation,
  db_remove_user_in_room, db_select_users_in_room,
}
use sist_distrib2c.Admin.{
  notify, reserved, select_in_room, handle_selection, update_users, seat_reserved, seat_refused,
  seats_message, seat_status,
}
use sist_distrib2c.Admin.Program.{
  Program, update_program, notify_program, insert_program, reserved_program, leave_program,
  executes, prepares, selected_program, selection_program, run,
}
use sist_distrib2c.Admin.Running.{
  Outcome, run-attempt, run-if, some->>=, after_sending, after_sending_none, after_sending_first,
  after_updates,
}

module _ (e : Engine) where
  pub run-update_program :
      (activity : Channel) (seats status users : List ℕ) (k : Program) (db : e.Db)
      → run e (update_program activity seats status users k) db ≡ (
          update_users activity seats status users >>= λ updates.
          after_sending e updates (run e k db))
  unfolding run update_program update_users
  run-update_program activity seats status [] k db = after_sending_none e (run e k db)
  run-update_program activity seats status (u ∷ users) k db =
      run-attempt e (seats_message _ success_code seats status) _ _ _ db λ m.
        rw (run-update_program activity seats status users k db)
          (after_sending_first e (update_users activity seats status users) _ (run e k db))

  pub run-notify_program :
      (activity : Channel) (roomid : ℕ) (users : List ℕ) (k : Program) (db : e.Db)
      → run e (notify_program activity roomid users k) db
        ≡ (notify e activity db roomid users >>= λ updates. after_sending e updates (run e k db))
  unfolding run notify db_select_room_seats db_select_reservations
  run-notify_program activity roomid [] k db = after_sending_none e (run e k db)
  run-notify_program activity roomid (u ∷ users) k db =
      run-attempt e (seat_status _ _) _ _ _ db
        λ status. run-update_program _ _ status (u ∷ users) k db

  pub run-reserved_program :
      (activity : Channel) (request response : Message) (roomid : ℕ) (k : Message → Program)
      (db : e.Db)
      → run e (reserved_program activity request response roomid k) db
        ≡ (reserved e activity db request response roomid >>= after_updates e k)
  unfolding run reserved_program db_remove_user_in_room db_select_users_in_room
  run-reserved_program activity request response roomid k db =
      let left = (db_remove_user_in_room e db request.client_id).1 in
      let listed = db_select_users_in_room e left roomid in
      run-notify_program activity roomid listed
        (leave_program request.client_id (k (seat_reserved response))) left
      ∙ some->>= e (notify e activity left roomid listed) _ (after_updates e k)

  abbrev pub going_on : (Bool → Program) → Bool × e.Db → Outcome e
  going_on k r = run e (k r.0) r.1

  pub run-prepared :
      (ready : Bool) (s : Statement) (k : Bool → Program) (db : e.Db)
      → run e (if ready then executes s k else k true) db
        ≡ going_on k (if ready then e.exec s db else (true, db))
  unfolding run
  run-prepared true s k db = refl
  run-prepared false s k db = refl

  pub run-tested :
      (positive : Bool) (s : Statement) (k : Bool → Program) (db : e.Db)
      → run e
          (if positive
            then prepares s (λ ready. if ready then executes s k else k true)
            else k false)
          db
        ≡ going_on k (if positive then prepare_and_step e s db else (false, db))
  unfolding run prepare_and_step
  run-tested true s k db = run-prepared (e.prepare s db) s k db
  run-tested false s k db = refl

  pub run-insert_program :
      (userid roomid seatid : ℕ) (k : Bool → Program) (db : e.Db)
      → run e (insert_program userid roomid seatid k) db
        ≡ run e
            (k (db_insert_reservation e db userid roomid seatid).0)
            (db_insert_reservation e db userid roomid seatid).1
  unfolding run insert_program db_insert_reservation
  run-insert_program userid roomid seatid k db =
      run-tested (is_positive seatid) (reservation_insert userid roomid seatid) k db

  pub run-selected_program :
      (activity : Channel) (request response : Message) (roomid : ℕ) (k : Message → Program)
      (ok : Bool) (db : e.Db)
      → run e (selected_program activity request response roomid k ok) db ≡ (
          (if ok
            then reserved e activity db request response roomid
            else some (db, seat_refused response, []))
          >>= after_updates e k)
  run-selected_program activity request response roomid k true db =
      run-reserved_program activity request response roomid k db
  run-selected_program activity request response roomid k false db =
      after_sending_none e (run e (k (seat_refused response)) db)

  pub run-selection_program :
      (activity : Channel) (request response : Message) (k : Message → Program) (db : e.Db)
      → run e (selection_program activity request response k) db
        ≡ (handle_selection e activity db request response >>= after_updates e k)
  unfolding run selection_program handle_selection db_select_user_current_room
  run-selection_program activity request response k db =
      run-attempt e (db_select_user_current_room e db request.client_id) _
        (select_in_room e activity db request response) (after_updates e k) db
        λ roomid.
          let seat = first_word request.message_choice in
          let (ok, inserted) = db_insert_reservation e db request.client_id roomid seat in
          run-if e (roomid == 0) _
            (insert_program request.client_id roomid seat
              (selected_program activity request response roomid k))
            _ _ (after_updates e k) db (after_sending_none e (run e (k _) db))
            (run-insert_program request.client_id roomid seat
                (selected_program activity request response roomid k) db
              ∙ run-selected_program activity request response roomid k ok inserted)
