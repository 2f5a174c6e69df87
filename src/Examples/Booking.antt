-- ===== src/Examples/Booking.antt =====
-- Selections, payments and leaving, over the same database.
use sist_distrib2c.Base.{
  ℕ, ◌≡◌, ◌≢◌, ◌⊎◌, inl, refl, true, false, List, [], ◌∷◌, ◌++◌, map, some, All, arith, keep, not,
}
use sist_distrib2c.Message.{
  Message, Reservation, m5, m6, m7, zero_message, choice_seat_select_request, choice_exit,
  success_code, no_text, choice_pay_reservation_request, choice_pay_reservation_response,
}
use sist_distrib2c.Channel.{Channel, Sent, undefined_id, send_message, commqueue_as_server}
use sist_distrib2c.Db.{
  db_remove_unpaid_reservations, db_remove_users_in_room, Column, matches, Table, reservations,
  clients_rooms, db_insert_reservation, db_remove_user_in_room, db_select_users_in_room,
  db_remove_user_unpaid_reservations, db_logout_user, db_select_user_current_room,
  db_select_room_seats, db_select_reservations, db_update_paid_reservation,
}
use sist_distrib2c.Db.Memory.{Store, memory, memory_laws}
use sist_distrib2c.Admin.{admin_handle_request, pay_loop, seat_refused, seat_reserved, answer}
use sist_distrib2c.Admin.Daemon.{admin_daemon, admin_daemon_lem}
use sist_distrib2c.Admin.Notifying.{FitsRoom, IsUpdate}
use sist_distrib2c.Admin.Selecting.{holds_unpaid, selection_made, selection_refused}
use sist_distrib2c.Admin.Leaving.{has_unpaid, exit_lem}
use sist_distrib2c.Admin.Payment.{paid_rows, payment_answered, pay_loop-paid_rows}
use sist_distrib2c.Examples.Admin.{cinema_db, admin_channel, activity_channel}

abbrev selecting : ℕ → Message
selecting seat = record zero_message {
  client_id = 7;
  message_choice_number = choice_seat_select_request;
  message_choice = m5 seat;
}

abbrev response : Message
response = record zero_message { client_id = 7 }

abbrev reply_to : Channel
reply_to = record admin_channel { id = 7 }

in_room_one : db_select_user_current_room memory cinema_db 7 ≡ some 1
unfolding db_select_user_current_room
in_room_one = refl

-- Seat 1 is held by client 8.
selection_refused_example :
    (db' : Store) × (admin_handle_request memory activity_channel cinema_db admin_channel
        (selecting 1)
      ≡ some (db', send_message reply_to (seat_refused response) ∷ []))
    × ((t : Table) → memory.rows db' t ≡ memory.rows cinema_db t)
selection_refused_example =
    selection_refused memory memory_laws activity_channel admin_channel cinema_db (selecting 1) 1
      refl in_room_one (omega arith) refl (inl refl)

-- Seat 3 is free.
abbrev left_db : Store
left_db = (db_remove_user_in_room memory (db_insert_reservation memory cinema_db 7 1 3).1 7).1

seat_three_inserted : (db_insert_reservation memory cinema_db 7 1 3).0 ≡ true
unfolding db_insert_reservation
seat_three_inserted = refl

room_one_fits :
    FitsRoom (db_select_room_seats memory left_db 1) (db_select_reservations memory left_db 1)
unfolding db_insert_reservation db_remove_user_in_room db_select_room_seats db_select_reservations
room_one_fits = record {
  size = omega arith;
  in_range =
      ((omega arith, omega arith), ((omega arith, omega arith), ((omega arith, omega arith), tt)));
}

room_one_users : All (λ u. u ≢ undefined_id) (db_select_users_in_room memory left_db 1)
unfolding db_insert_reservation db_remove_user_in_room db_select_users_in_room
room_one_users = ((omega arith), tt)

selection_made_example :
    (db' : Store) × (updates : List Sent) × (admin_handle_request memory activity_channel cinema_db
        admin_channel
        (selecting 3)
      ≡ some (db', updates ++ (send_message reply_to (seat_reserved response) ∷ [])))
    × (holds_unpaid 7 1 3 (memory.rows db' reservations) ≡ true)
    × (map (λ s. s.mtype) updates ≡ db_select_users_in_room memory left_db 1)
    × All (IsUpdate (record activity_channel { orientation = commqueue_as_server })) updates
selection_made_example =
    selection_made memory memory_laws activity_channel admin_channel cinema_db (selecting 3) 1 refl
      in_room_one (omega arith) refl seat_three_inserted room_one_fits room_one_users

-- Client 7 pays for seat 2.
abbrev to_pay : List Reservation
to_pay = record { room = 1; seat_num = 2 } ∷ []

abbrev paying : Message
paying = record zero_message {
  client_id = 7;
  message_choice_number = choice_pay_reservation_request;
  message_choice = m7 1 to_pay;
}

payment_answered_example :
    (db' : Store) × (pay_loop memory cinema_db 7 1 to_pay ≡ some db')
    × (admin_handle_request memory activity_channel cinema_db admin_channel paying
        ≡ some (
          db',
          send_message reply_to
                (answer response choice_pay_reservation_response (m6 success_code no_text))
              ∷ [],
        ))
payment_answered_example =
    payment_answered memory activity_channel admin_channel cinema_db paying 1 to_pay refl refl
      (omega arith)

abbrev paid_db : Store
paid_db = (db_update_paid_reservation memory cinema_db 7 (record { room = 1; seat_num = 2 })).1

never_fails :
    (r : Reservation) (u : ℕ) (d : Store) → (db_update_paid_reservation memory d u r).0 ≡ true
unfolding db_update_paid_reservation
never_fails r u d = refl

paid : pay_loop memory cinema_db 7 1 to_pay ≡ some paid_db
unfolding pay_loop db_update_paid_reservation
paid = refl

pay_loop-paid_rows_example :
    memory.rows paid_db reservations ≡ paid_rows 7 to_pay (memory.rows cinema_db reservations)
pay_loop-paid_rows_example =
    pay_loop-paid_rows memory memory_laws never_fails cinema_db paid_db 7 1 to_pay paid

abbrev leaving : Message
leaving = record zero_message { client_id = 7; message_choice_number = choice_exit }

exit_lem_example :
    (db' : Store) × (admin_handle_request memory activity_channel cinema_db admin_channel leaving
      ≡ some (db', []))
    × (memory.rows db' clients_rooms ≡ memory.rows cinema_db clients_rooms)
    × (((db_remove_user_unpaid_reservations memory (db_logout_user memory cinema_db 7).1 7).0
          ≡ false)
        ⊎ (has_unpaid 7 (memory.rows db' reservations) ≡ false))
exit_lem_example = exit_lem memory memory_laws activity_channel admin_channel cinema_db leaving refl

unpaid_deleted : (db_remove_unpaid_reservations memory cinema_db).0 ≡ true
unfolding db_remove_unpaid_reservations
unpaid_deleted = refl

rooms_emptied :
    (db_remove_users_in_room memory (db_remove_unpaid_reservations memory cinema_db).1).0 ≡ true
unfolding db_remove_users_in_room
rooms_emptied = refl

admin_daemon_lem_example :
    (memory.rows (admin_daemon memory cinema_db admin_channel).0 clients_rooms ≡ [])
    × (memory.rows (admin_daemon memory cinema_db admin_channel).0 reservations
        ≡ keep
            (λ r. not (matches ((Column.paid_flag, 0) ∷ []) r))
            (memory.rows cinema_db reservations))
unfolding db_remove_unpaid_reservations db_remove_users_in_room
admin_daemon_lem_example = admin_daemon_lem memory memory_laws cinema_db admin_channel refl refl
