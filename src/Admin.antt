-- ===== src/Admin.antt =====
-- src/admin/admin.cpp: the administrator's handler of a request. It returns the database after and
-- the messages sent, in order; `none` is behaviour that C++ leaves undefined.
pub mod Statements
pub mod SeatMap
pub mod Ownership
pub mod Notifying
pub mod Selecting
pub mod Leaving
pub mod Payment
pub mod Servable
pub mod Answering
pub mod Daemon
pub mod Program
pub mod Running
pub mod Handlers
use sist_distrib2c.Base.{
  ℕ, zero, suc, ◌+◌, Bool, true, false, codes, List, [], ◌∷◌, ◌++◌, Option, none, some, ◌>>=◌, ◌==◌,
  if◌then◌else◌, length, replicate, drop,
}
use sist_distrib2c.Base.Words.{rounds}
use sist_distrib2c.Arrays.{copy_into}
use sist_distrib2c.Message.{
  Message, Choice, M4Seats, m1, m2, m4, m6, m7, Reservation, max_rooms, max_seats, no_text,
  success_code, not_success, seat_status_free, seat_status_occuped, zero_message, first_word, as_m7,
  choice_connection_accepted, choice_rooms_request, choice_rooms_response, choice_seats_request,
  choice_seats_response, choice_seat_select_request, choice_seat_select_response, choice_exit,
  choice_invalid_request, choice_pay_reservation_request, choice_pay_reservation_response,
}
use sist_distrib2c.Channel.{Channel, Sent, commqueue_as_server, send_message}
use sist_distrib2c.Db.{
  Engine, db_update_paid_reservation, db_logout_user, db_remove_user_unpaid_reservations,
  db_insert_user, db_login_user, db_select_room, db_select_room_seats, db_select_reservations,
  db_insert_user_in_room, db_select_user_current_room, db_insert_reservation,
  db_remove_user_in_room, db_select_users_in_room, db_remove_unpaid_reservations,
  db_remove_users_in_room,
}

-- `strcpy` writes the text and a zero.
abbrev pub strcpy : List ℕ → List ℕ → List ℕ
strcpy cells text = text ++ (0 ∷ drop (length text + 1) cells)

-- `seat_status[index-1] = SEAT_STATUS_OCCUPED`, with no check that the index lies in the vector.
unfoldable pub occupy : List ℕ → ℕ → Option (List ℕ)
occupy status zero = none
occupy [] (suc index) = none
occupy (s ∷ status) (suc zero) = some (seat_status_occuped ∷ status)
occupy (s ∷ status) (suc (suc index)) = do rest ← occupy status (suc index); some (s ∷ rest)

unfoldable pub occupy_all : List ℕ → List ℕ → Option (List ℕ)
occupy_all status [] = some status
occupy_all status (index ∷ taken) = do next ← occupy status index; occupy_all next taken

-- The vector of statuses for the seats of a room and its taken seats.
unfoldable pub seat_status : List ℕ → List ℕ → Option (List ℕ)
unfolding occupy_all
seat_status seats taken = occupy_all (replicate (length seats) seat_status_free) taken

-- A CHOICE_SEATS_RESPONSE with this flag for these seats and statuses.
unfoldable pub seats_message : Message → ℕ → List ℕ → List ℕ → Option Message
seats_message m flag seats status = do
  ids ← copy_into seats (replicate max_seats 0)
  cells ← copy_into status (replicate max_seats 0)
  some (record m {
    message_choice_number = choice_seats_response;
    message_choice = m4 (record {
      count = length seats;
      success = flag;
      information = no_text;
      seats_id = ids;
      seats_status = cells;
    });
  })

abbrev pub answer : Message → ℕ → Choice → Message
answer m number choice = record m { message_choice_number = number; message_choice = choice }

abbrev invalid_seat_text : List ℕ
invalid_seat_text = codes "You have entered an invalid seat. "

abbrev reserved_text : List ℕ
reserved_text = codes "Succesfully made seat reservation"

-- The two answers to a selection.
unfoldable pub seat_reserved : Message → Message
seat_reserved response =
    answer response choice_seat_select_response (m6 success_code (strcpy no_text reserved_text))

unfoldable pub seat_refused : Message → Message
seat_refused response =
    answer response choice_seat_select_response (m6 not_success (strcpy no_text invalid_seat_text))

-- The loop over `users_to_update`; every user's message goes out under the user's id.
unfoldable pub update_users : Channel → List ℕ → List ℕ → List ℕ → Option (List Sent)
update_users activity seats status [] = some []
update_users activity seats status (userid ∷ users) = do
  update ← seats_message (record zero_message { client_id = userid }) success_code seats status
  rest ← update_users activity seats status users
  some (send_message (record activity { id = userid }) update ∷ rest)

module _ (e : Engine) where
  open e use {Db}

  -- The loop `while (executed_transactions < count)`; the list is what it has not reached.
  unfoldable pub pay_loop : Db → ℕ → ℕ → List Reservation → Option Db
  pay_loop db userid zero list = some db
  pay_loop db userid (suc n) [] = none
  pay_loop db userid (suc n) (r ∷ list) =
      let (ok, paid) = db_update_paid_reservation e db userid r in
      let rest = pay_loop paid userid n list in if ok then rest else some paid

  -- The response is SUCCESS also after a `break`: the CHOICE_INVALID_REQUEST is overwritten.
  unfoldable pub handle_payment : Db → Message → Message → Option (Db × Message)
  handle_payment db request response = do
    (count, list) ← as_m7 request.message_choice
    paid ← pay_loop db request.client_id (rounds count) list
    some (paid, answer response choice_pay_reservation_response (m6 success_code no_text))

  -- CHOICE_EXIT sends nothing.
  unfoldable pub handle_exit : Db → Message → Db
  handle_exit db request =
      let left = (db_logout_user e db request.client_id).1 in
      (db_remove_user_unpaid_reservations e left request.client_id).1

  unfoldable pub handle_connection : Db → Message → Db × Message
  handle_connection db response =
      let (userid, registered) = db_insert_user e db in
      (
        (db_login_user e registered userid).1,
        answer response choice_connection_accepted (m1 userid),
      )

  unfoldable pub handle_rooms : Db → Message → Option (Db × Message)
  handle_rooms db response = do
    let ids = db_select_room e db
    cells ← copy_into ids (replicate max_rooms 0)
    some (db, answer response choice_rooms_response (m2 (length ids) cells))

  abbrev pub seats_of_room : Db → Message → Message → ℕ → List ℕ → Option (Db × Message)
  seats_of_room db request response roomid [] =
      some (db, record response { message_choice_number = choice_invalid_request })
  seats_of_room db request response roomid (seat ∷ seats) = do
    status ← seat_status (seat ∷ seats) (db_select_reservations e db roomid)
    full ← seats_message response success_code (seat ∷ seats) status
    some ((db_insert_user_in_room e db request.client_id roomid).1, full)

  -- `message_choice.m3.room_id` is the first int of the union.
  unfoldable pub handle_seats : Db → Message → Message → Option (Db × Message)
  handle_seats db request response =
      let roomid = first_word request.message_choice in
      seats_of_room db request response roomid (db_select_room_seats e db roomid)

  unfoldable pub notify : Channel → Db → ℕ → List ℕ → Option (List Sent)
  notify activity db roomid [] = some []
  notify activity db roomid (userid ∷ users) = do
    let seats = db_select_room_seats e db roomid
    status ← seat_status seats (db_select_reservations e db roomid)
    update_users (record activity { orientation = commqueue_as_server }) seats status
        (userid ∷ users)

  abbrev pub reserved : Channel → Db → Message → Message → ℕ → Option (Db × Message × List Sent)
  reserved activity db request response roomid = do
    let left = (db_remove_user_in_room e db request.client_id).1
    updates ← notify activity left roomid (db_select_users_in_room e left roomid)
    some ((db_remove_user_in_room e left request.client_id).1, seat_reserved response, updates)

  abbrev pub select_in_room :
      Channel → Db → Message → Message → ℕ → Option (Db × Message × List Sent)
  select_in_room activity db request response roomid =
      let (ok, inserted) =
        db_insert_reservation e db request.client_id roomid (first_word request.message_choice) in
      let made = reserved activity inserted request response roomid in
      if roomid == 0
      then some (db, record response { message_choice_number = choice_invalid_request }, [])
      else if ok
      then made
      else some (inserted, seat_refused response, [])

  -- `activity` is what `create_commqueue(QUEUE_ACTIVITY_FILE, QUEUE_ACTIVITY_CHAR)` returns. The
  -- response's `client_id` is the request's already.
  unfoldable pub handle_selection :
      Channel → Db → Message → Message → Option (Db × Message × List Sent)
  handle_selection activity db request response = do
    roomid ← db_select_user_current_room e db request.client_id
    select_in_room activity db request response roomid

  abbrev pub respond : Channel → Option (Db × Message) → Option (Db × List Sent)
  respond channel none = none
  respond channel (some (db, response)) = some (db, send_message channel response ∷ [])

  abbrev pub respond_after : Channel → Option (Db × Message × List Sent) → Option (Db × List Sent)
  respond_after channel none = none
  respond_after channel (some (db, response, updates)) =
      some (db, updates ++ (send_message channel response ∷ []))

  unfoldable pub admin_handle_request : Channel → Db → Channel → Message → Option (Db × List Sent)
  admin_handle_request activity db channel request =
      let response = record zero_message { client_id = request.client_id } in
      let reply_to = record channel { id = request.client_id } in
      let number = request.message_choice_number in
      if number == choice_pay_reservation_request
      then respond reply_to (handle_payment db request response)
      else if number == choice_exit
      then some (handle_exit db request, [])
      else if number == choice_connection_accepted
      then respond reply_to (some (handle_connection db response))
      else if number == choice_rooms_request
      then respond reply_to (handle_rooms db response)
      else if number == choice_seats_request
      then respond reply_to (handle_seats db request response)
      else if number == choice_seat_select_request
      then respond_after reply_to (handle_selection activity db request response)
      else respond reply_to
          (some (db, record response { message_choice_number = choice_invalid_request }))

  unfoldable pub clean_db_tables : Db → Db
  clean_db_tables db =
      let cleaned = (db_remove_unpaid_reservations e db).1 in (db_remove_users_in_room e cleaned).1
