-- ===== src/Admin/Servable.antt =====
-- Which requests `admin_handle_request` is defined for, and what it is to answer one.
use sist_distrib2c.Base.{ℕ, ◌≤◌, ◌≡◌, ◌≢◌, ◌⊎◌, List, [], ◌∷◌, ◌++◌, some, length, All}
use sist_distrib2c.Base.Words.{rounds}
use sist_distrib2c.Message.{
  Message, Reservation, m7, first_word, max_rooms, choice_pay_reservation_request, choice_exit,
  choice_connection_accepted, choice_rooms_request, choice_seats_request,
  choice_seat_select_request,
}
use sist_distrib2c.Channel.{Channel, Sent, send_message, undefined_id, commqueue_as_server}
use sist_distrib2c.Db.{
  Engine, db_select_room, db_select_room_seats, db_select_reservations, db_select_user_current_room,
  db_insert_reservation, db_remove_user_in_room, db_select_users_in_room,
}
use sist_distrib2c.Admin.Notifying.{FitsRoom, IsUpdate}

-- The database when the updates of a selection are computed.
abbrev pub before_updates : (e : Engine) → e.Db → Message → ℕ → e.Db
before_updates e db request room =
    (db_remove_user_in_room e
      (db_insert_reservation e db request.client_id room (first_word request.message_choice)).1
      request.client_id).1

-- A request that the handler is defined for, by its kind.
pub data Servable (e : Engine) (db : e.Db) (request : Message) : Type 0 where
  pays :
      (count : ℕ) (list : List Reservation)
      → request.message_choice_number ≡ choice_pay_reservation_request
      → request.message_choice ≡ m7 count list
      → rounds count ≤ length list
      → Servable e db request
  leaves : request.message_choice_number ≡ choice_exit → Servable e db request
  connects : request.message_choice_number ≡ choice_connection_accepted → Servable e db request
  asks_rooms :
      request.message_choice_number ≡ choice_rooms_request
      → length (db_select_room e db) ≤ max_rooms
      → Servable e db request
  asks_seats :
      request.message_choice_number ≡ choice_seats_request
      → FitsRoom
          (db_select_room_seats e db (first_word request.message_choice))
          (db_select_reservations e db (first_word request.message_choice))
      → Servable e db request
  selects :
      (room : ℕ)
      → request.message_choice_number ≡ choice_seat_select_request
      → db_select_user_current_room e db request.client_id ≡ some room
      → FitsRoom
          (db_select_room_seats e (before_updates e db request room) room)
          (db_select_reservations e (before_updates e db request room) room)
      → All
          (λ u. u ≢ undefined_id)
          (db_select_users_in_room e (before_updates e db request room) room)
      → Servable e db request
  unknown :
      request.message_choice_number ≢ choice_pay_reservation_request
      → request.message_choice_number ≢ choice_exit
      → request.message_choice_number ≢ choice_connection_accepted
      → request.message_choice_number ≢ choice_rooms_request
      → request.message_choice_number ≢ choice_seats_request
      → request.message_choice_number ≢ choice_seat_select_request
      → Servable e db request

-- What is sent for a request that is not CHOICE_EXIT: one answer, last, on the channel of the request,
-- under the client's id, and before it nothing but seat maps on the queue of the activity channel,
-- and these only for a selection.
pub record HasAnswer (activity channel : Channel) (request : Message) (out : List Sent)
    : Type 0 where
  pub updates : List Sent
  pub response : Message
  pub for_client : response.client_id ≡ request.client_id
  pub whole :
      out ≡ updates ++ (send_message (record channel { id = request.client_id }) response ∷ [])
  pub are_updates : All (IsUpdate (record activity { orientation = commqueue_as_server })) updates
  pub only_selection : (request.message_choice_number ≡ choice_seat_select_request) ⊎ (updates ≡ [])

-- CHOICE_EXIT has no answer; any other request has one.
abbrev pub IsAnswered : Channel → Channel → Message → List Sent → Type 0
IsAnswered activity channel request out =
    ((request.message_choice_number ≡ choice_exit) × (out ≡ []))
    ⊎ ((request.message_choice_number ≢ choice_exit) × HasAnswer activity channel request out)
