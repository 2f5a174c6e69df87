-- ===== src/Admin/Program.antt =====
-- `admin_handle_request` of src/admin/admin.cpp as the process that `admin_listen_requests` forks for
-- a request: a program that acts on the database and the queues one call at a time, so that
-- the calls of other handlers can come in between. A statement of SQLite is atomic.
use sist_distrib2c.Base.{
  ℕ, zero, suc, ◌%◌, ◌^◌, Bool, true, false, List, [], ◌∷◌, Option, none, some, ◌>>=◌, ◌==◌,
  if◌then◌else◌, length, replicate,
}
use sist_distrib2c.Base.Words.{is_positive, rounds}
use sist_distrib2c.Arrays.{copy_into}
use sist_distrib2c.Message.{
  Message, m1, m2, m6, Reservation, max_rooms, no_text, success_code, zero_message, first_word,
  as_m7, choice_connection_accepted, choice_rooms_request, choice_rooms_response,
  choice_seats_request, choice_seat_select_request, choice_exit, choice_invalid_request,
  choice_pay_reservation_request, choice_pay_reservation_response,
}
use sist_distrib2c.Channel.{Channel, Sent, commqueue_as_server, send_message}
use sist_distrib2c.Db.{
  Engine, Table, Column, Statement, reservations, clients_rooms, active_clients, delete_from,
  update_paid, insert_into, insert_null, reservation_insert, front,
}
use sist_distrib2c.Admin.{seat_status, seats_message, answer, seat_reserved, seat_refused}

pub data Program : Type 0 where
  finished : Program
  -- Behaviour that C++ leaves undefined.
  undefined : Program
  -- A statement; the program goes on with whether the result is SQLITE_OK.
  executes : Statement → (Bool → Program) → Program
  -- `db_insert_user`, with the id that it reads: that is the last of the handler's own connection, so
  -- no call of another handler comes in between.
  inserts_user : (ℕ → Program) → Program
  prepares : Statement → (Bool → Program) → Program
  selects : Column → Table → List (Column × ℕ) → (List ℕ → Program) → Program
  sends : Sent → Program → Program

abbrev pub attempt {ℓ} : {A : Type ℓ} → Option A → (A → Program) → Program
attempt none k = undefined
attempt (some a) k = k a

unfoldable pub pay_program : ℕ → ℕ → List Reservation → Program → Program
pay_program userid zero list k = k
pay_program userid (suc n) [] k = undefined
pay_program userid (suc n) (r ∷ list) k =
    let rest = pay_program userid n list k in
    executes
      (update_paid
        ((Column.user_id, userid) ∷ (Column.room_id, r.room) ∷ (Column.seat_id, r.seat_num) ∷ []))
      λ ok. if ok then rest else k

unfoldable pub payment_program : Message → (Message → Program) → Program
payment_program request k = attempt (as_m7 request.message_choice) λ (count, list).
    pay_program request.client_id (rounds count) list (
      k (
        answer (record zero_message { client_id = request.client_id })
          choice_pay_reservation_response (m6 success_code no_text)))

unfoldable pub exit_program : ℕ → Program
exit_program userid = executes (delete_from active_clients ((Column.user_id, userid) ∷ [])) λ _.
    executes (delete_from reservations ((Column.user_id, userid) ∷ (Column.paid_flag, 0) ∷ []))
      λ _. finished

unfoldable pub connection_program : Message → (Message → Program) → Program
connection_program response k = inserts_user λ userid.
    executes (insert_into active_clients ((Column.user_id, userid) ∷ []))
      λ _. k (answer response choice_connection_accepted (m1 userid))

unfoldable pub rooms_program : Message → (Message → Program) → Program
rooms_program response k = selects Column.id Table.rooms [] λ ids.
    attempt (copy_into ids (replicate max_rooms 0))
      λ cells. k (answer response choice_rooms_response (m2 (length ids) cells))

abbrev pub seats_of_room_program : Message → Message → ℕ → List ℕ → (Message → Program) → Program
seats_of_room_program request response roomid [] k =
    k (record response { message_choice_number = choice_invalid_request })
seats_of_room_program request response roomid (seat ∷ seats) k =
    selects Column.seat_id reservations ((Column.room_id, roomid) ∷ []) λ taken.
      attempt (seat_status (seat ∷ seats) taken) λ status.
        attempt (seats_message response success_code (seat ∷ seats) status) λ full.
          executes
            (insert_into clients_rooms
              ((Column.user_id, request.client_id) ∷ (Column.room_id, roomid) ∷ []))
            λ _. k full

unfoldable pub seats_program : Message → Message → (Message → Program) → Program
seats_program request response k =
    let roomid = first_word request.message_choice in
    selects Column.seat_id Table.seats ((Column.room_id, roomid) ∷ [])
      λ ids. seats_of_room_program request response roomid ids k

-- Every update is sent before the next one is made.
unfoldable pub update_program : Channel → List ℕ → List ℕ → List ℕ → Program → Program
update_program activity seats status [] k = k
update_program activity seats status (userid ∷ users) k =
    let rest = update_program activity seats status users k in
    attempt (seats_message (record zero_message { client_id = userid }) success_code seats status)
      λ m. sends (send_message (record activity { id = userid }) m) rest

abbrev pub notify_program : Channel → ℕ → List ℕ → Program → Program
notify_program activity roomid [] k = k
notify_program activity roomid (userid ∷ users) k =
    selects Column.seat_id Table.seats ((Column.room_id, roomid) ∷ []) λ ids.
      selects Column.seat_id reservations ((Column.room_id, roomid) ∷ []) λ taken.
        attempt (seat_status ids taken) λ status.
          update_program (record activity { orientation = commqueue_as_server }) ids status
            (userid ∷ users) k

abbrev pub leave_program : ℕ → Program → Program
leave_program userid k = executes (delete_from clients_rooms ((Column.user_id, userid) ∷ [])) λ _. k

unfoldable pub insert_program : ℕ → ℕ → ℕ → (Bool → Program) → Program
insert_program userid roomid seatid k =
    let insertion = reservation_insert userid roomid seatid in
    if is_positive seatid
    then prepares insertion (λ ok. if ok then executes insertion k else k true)
    else k false

unfoldable pub reserved_program : Channel → Message → Message → ℕ → (Message → Program) → Program
reserved_program activity request response roomid k = leave_program request.client_id (
    selects Column.user_id clients_rooms ((Column.room_id, roomid) ∷ []) λ listed.
      notify_program activity roomid listed
        (leave_program request.client_id (k (seat_reserved response))))

abbrev pub selected_program : Channel → Message → Message → ℕ → (Message → Program) → Bool → Program
selected_program activity request response roomid k ok =
    if ok then reserved_program activity request response roomid k else k (seat_refused response)

unfoldable pub selection_program : Channel → Message → Message → (Message → Program) → Program
unfolding insert_program reserved_program
selection_program activity request response k =
    selects Column.room_id clients_rooms ((Column.user_id, request.client_id) ∷ []) λ found.
      attempt (front found) λ roomid.
        if roomid == 0
        then k (record response { message_choice_number = choice_invalid_request })
        else insert_program request.client_id roomid (first_word request.message_choice)
            (selected_program activity request response roomid k)

unfoldable pub handler_program : Channel → Channel → Message → Program
unfolding payment_program exit_program connection_program rooms_program seats_program
    selection_program
handler_program activity channel request =
    let response = record zero_message { client_id = request.client_id } in
    let reply_to = record channel { id = request.client_id } in
    let reply : Message → Program = λ m. sends (send_message reply_to m) finished in
    let number = request.message_choice_number in
    if number == choice_pay_reservation_request
    then payment_program request reply
    else if number == choice_exit
    then exit_program request.client_id
    else if number == choice_connection_accepted
    then connection_program response reply
    else if number == choice_rooms_request
    then rooms_program response reply
    else if number == choice_seats_request
    then seats_program request response reply
    else if number == choice_seat_select_request
    then selection_program activity request response reply
    else reply (record response { message_choice_number = choice_invalid_request })

-- The program alone, to its end: the database after and what it sent.
unfoldable pub run : (e : Engine) → Program → e.Db → Option (e.Db × List Sent)
run e finished db = some (db, [])
run e undefined db = none
run e (executes s k) db = run e (k (e.exec s db).0) (e.exec s db).1
run e (inserts_user k) db =
    let after = (e.exec (insert_null Table.users) db).1 in
    run e (k (e.last_insert_rowid after % 2 ^ 32)) after
run e (prepares s k) db = run e (k (e.prepare s db)) db
run e (selects c t conditions k) db = run e (k (e.select c t conditions db)) db
run e (sends s k) db = do (after, out) ← run e k db; some (after, s ∷ out)
