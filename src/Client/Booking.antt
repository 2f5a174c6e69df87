-- ===== src/Client/Booking.antt =====
-- `reserve_seat`, `get_reservations` and `pay_seats` of src/middleware/client_interface.cpp.
use sist_distrib2c.Base.{
  ℕ, Bool, true, false, codes, c_string, List, [], ◌∷◌, ◌++◌, Option, none, some, ◌>>=◌, ◌==◌,
  if◌then◌else◌, length, replicate,
}
use sist_distrib2c.Message.{
  Message, m5, m7, Seat, Reservation, zero_message, first_word, as_m6, max_length_string,
  no_reservation, success_code, not_success, choice_exit, choice_seat_select_request,
  choice_seat_select_response, choice_pay_reservation_request, choice_pay_reservation_response,
}
use sist_distrib2c.Arrays.{copy_into}
use sist_distrib2c.Client.Registry.{
  Client, Clients, store, get_client, with_error, clean_error, end_listener_thread,
  error_general_error,
}
use sist_distrib2c.Client.Exchange.{Called, exchange, asking, closed_by_cinema, unexpected}

-- The client after an answer to a selection, and the value of the call.
abbrev pub selection_answered : Client → Bool → Seat → Message → Option (Client × Bool)
selection_answered client cancelled seat response =
    if response.message_choice_number == choice_seat_select_response
    then (if first_word response.message_choice == success_code
        then some (
          record (end_listener_thread client cancelled) {
            reservations =
                client.reservations ++ (record { room = seat.room_id; seat_num = seat.id } ∷ []);
          },
          true,
        )
        else (as_m6 response.message_choice >>= λ (_, information).
            some (with_error client error_general_error (c_string information), false)))
    else some
        (unexpected client cancelled response (codes "Unexpected error when select seat"), false)

unfoldable pub reserve_seat : Clients → ℕ → Seat → Bool → Message → Option (Called Bool)
reserve_seat clients fd seat cancelled response = elim (get_client clients fd true) [
  | none ↦ some (record { clients = clients; actions = []; value = false })
  | some found ↦
      (exchange (clean_error found) (asking choice_seat_select_request (m5 seat.id)) >>= λ actions.
      selection_answered (clean_error found) cancelled seat response >>= λ (client, value).
      some (record { clients = store fd client clients; actions = actions; value = value }))
]

unfoldable pub get_reservations : Clients → ℕ → Clients × List Reservation
get_reservations clients fd = elim (get_client clients fd true) [
  | none ↦ (clients, [])
  | some found ↦ (store fd (clean_error found) clients, found.reservations)
]

-- `std::copy` into `m7.list`: undefined for more than 500 reservations.
unfoldable pub payment_request : Client → Option Message
payment_request client = do
  list ← copy_into client.reservations (replicate max_length_string no_reservation)
  some (record zero_message {
    client_id = client.cinema_id;
    message_choice_number = choice_pay_reservation_request;
    message_choice = m7 (length client.reservations) list;
  })

-- The error of a closed connection is overwritten by the general one.
abbrev payment_outcome : Client → Bool → Message → Option (Client × Bool)
payment_outcome client cancelled response =
    if response.message_choice_number == choice_pay_reservation_response
    then (if first_word response.message_choice == not_success
        then (as_m6 response.message_choice >>= λ (_, information). some (
          with_error client error_general_error (codes "Error on Buy: " ++ c_string information),
          false,
        ))
        else some (client, true))
    else some (
      with_error
          (if response.message_choice_number == choice_exit
            then closed_by_cinema client cancelled
            else client)
          error_general_error (codes "Error on pay reservations"),
      false,
    )

unfoldable pub pay_seats : Clients → ℕ → Bool → Message → Option (Called Bool)
pay_seats clients fd cancelled response = elim (get_client clients fd true) [
  | none ↦ some (record { clients = clients; actions = []; value = false })
  | some found ↦
      (payment_request (clean_error found) >>= λ request.
      exchange (clean_error found) request >>= λ actions.
      payment_outcome (clean_error found) cancelled response >>= λ (client, value).
      some (record { clients = store fd client clients; actions = actions; value = value }))
]
