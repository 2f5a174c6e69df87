-- ===== src/Admin/Running/Answers.antt =====
-- The programs that answer a payment, a connection, a request for rooms or seats, and an exit.
use sist_distrib2c.Base.{ℕ, zero, suc, ◌≡◌, refl, ◌∙◌, List, [], ◌∷◌, some, ◌>>=◌, replicate}
use sist_distrib2c.Base.Words.{rounds}
use sist_distrib2c.Arrays.{copy_into}
use sist_distrib2c.Message.{Message, Reservation, as_m7, zero_message, success_code, max_rooms}
use sist_distrib2c.Db.{
  Engine, db_update_paid_reservation, db_logout_user, db_remove_user_unpaid_reservations,
  db_insert_user, db_login_user, db_select_room, db_select_room_seats, db_select_reservations,
  db_insert_user_in_room,
}
use sist_distrib2c.Admin.{
  pay_loop, handle_payment, handle_exit, handle_connection, handle_rooms, seats_of_room,
  handle_seats, seats_message, seat_status,
}
use sist_distrib2c.Admin.Program.{
  Program, pay_program, payment_program, exit_program, connection_program, rooms_program,
  seats_of_room_program, seats_program, run,
}
use sist_distrib2c.Admin.Running.{onward, run-attempt, run-if, some->>=}

module _ (e : Engine) where
  pub run-pay_program :
      (userid n : ℕ) (list : List Reservation) (k : Program) (db : e.Db)
      → run e (pay_program userid n list k) db ≡ (pay_loop e db userid n list >>= run e k)
  unfolding run pay_program pay_loop db_update_paid_reservation
  run-pay_program userid zero list k db = refl
  run-pay_program userid (suc n) [] k db = refl
  run-pay_program userid (suc n) (r ∷ list) k db =
      let (ok, paid) = db_update_paid_reservation e db userid r in
      run-if e ok (pay_program userid n list k) k (pay_loop e paid userid n list) (some paid)
        (run e k) paid (run-pay_program userid n list k paid) refl

  pub run-payment_program :
      (request : Message) (k : Message → Program) (db : e.Db)
      → run e (payment_program request k) db ≡ (
          handle_payment e db request (record zero_message { client_id = request.client_id })
          >>= onward e k)
  unfolding payment_program handle_payment
  run-payment_program request k db =
      run-attempt e (as_m7 request.message_choice) _ _ (onward e k) db λ (count, list).
        run-pay_program request.client_id (rounds count) list _ db
        ∙ some->>= e (pay_loop e db request.client_id (rounds count) list) _ (onward e k)

  pub run-rooms_program :
      (response : Message) (k : Message → Program) (db : e.Db)
      → run e (rooms_program response k) db ≡ (handle_rooms e db response >>= onward e k)
  unfolding run rooms_program handle_rooms db_select_room
  run-rooms_program response k db =
      run-attempt e (copy_into _ (replicate max_rooms 0)) _ _ (onward e k) db λ cells. refl

  pub run-seats_of_room_program :
      (request response : Message) (roomid : ℕ) (seats : List ℕ) (k : Message → Program) (db : e.Db)
      → run e (seats_of_room_program request response roomid seats k) db
        ≡ (seats_of_room e db request response roomid seats >>= onward e k)
  unfolding run db_select_reservations db_insert_user_in_room
  run-seats_of_room_program request response roomid [] k db = refl
  run-seats_of_room_program request response roomid (seat ∷ seats) k db =
      run-attempt e (seat_status (seat ∷ seats) _) _ _ (onward e k) db λ status.
        run-attempt e (seats_message response success_code (seat ∷ seats) status) _ _ (onward e k)
          db λ full. refl

  pub run-exit_program :
      (request : Message) (db : e.Db)
      → run e (exit_program request.client_id) db ≡ some (handle_exit e db request, [])
  unfolding run exit_program handle_exit db_logout_user db_remove_user_unpaid_reservations
  run-exit_program request db = refl

  pub run-connection_program :
      (response : Message) (k : Message → Program) (db : e.Db)
      → run e (connection_program response k) db ≡ onward e k (handle_connection e db response)
  unfolding run connection_program handle_connection db_insert_user db_login_user
  run-connection_program response k db = refl

  pub run-seats_program :
      (request response : Message) (k : Message → Program) (db : e.Db)
      → run e (seats_program request response k) db
        ≡ (handle_seats e db request response >>= onward e k)
  unfolding run seats_program handle_seats db_select_room_seats
  run-seats_program request response k db = run-seats_of_room_program request response _ _ k db
