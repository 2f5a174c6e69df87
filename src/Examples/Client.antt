-- ===== src/Examples/Client.antt =====
-- A client of the interface, connected under the pid 77.
use sist_distrib2c.Base.{
  ℕ, ◌≡◌, ◌≢◌, ◌↔◌, ◌⊎◌, ◌≤◌, ◌<◌, refl, true, false, Bool, List, [], ◌∷◌, ◌==◌, some, none, arith,
  if◌then◌else◌, length, take,
}
use sist_distrib2c.Message.{
  m1, choice_connection_accepted, Message, Seat, m6, zero_message, choice_exit,
  choice_seat_select_response, success_code, no_text, Reservation, m7, max_length_string,
  choice_pay_reservation_request,
}
use sist_distrib2c.Channel.{Channel}
use sist_distrib2c.Client.Registry.{Client, Clients, find}
use sist_distrib2c.Client.Exchange.{Called}
use sist_distrib2c.Client.Browsing.{get_rooms}
use sist_distrib2c.Client.Booking.{reserve_seat, payment_request}
use sist_distrib2c.Client.Session.{init_mom, login, end_mom, is_connected, is_error}
use sist_distrib2c.Client.Lifecycle.{end_mom-init_mom}
use sist_distrib2c.Client.Reserving.{
  IsSession, IsReserved, reservations_after, reserve_seat_lem, payment_request_lem,
}
use sist_distrib2c.Client.Closing.{IsClosed, get_rooms-IsClosed}

abbrev queue : Channel
queue = record { id_firstqueue = 50; id_secondqueue = 51; orientation = 1; id = 77 }

abbrev pub connected_client : Client
connected_client = record {
  mom_queue = queue;
  listener_updates_position = 27;
  has_update_data = true;
  reservations = record { room = 1; seat_num = 4 } ∷ [];
  local_id = 77;
  cinema_id = 9;
  connected = true;
  error = record { error_type = 0; info = [] };
}

abbrev pub clients : Clients
clients = (77, connected_client) ∷ (78, record connected_client { local_id = 78 }) ∷ []

pub is_session : IsSession clients 77 connected_client
unfolding find
is_session = record { found = refl; online = refl; channel = omega arith }

abbrev seat : Seat
seat = record { id = 5; room_id = 1; status = 0 }

abbrev pub reserved_answer : Message
reserved_answer = record zero_message {
  message_choice_number = choice_seat_select_response;
  message_choice = m6 success_code no_text;
}

reserve_seat_lem_example :
    (called : Called Bool) × (after : Client) × (reserve_seat clients 77 seat true reserved_answer
      ≡ some called)
    × (called.value ≡ true ↔ IsReserved reserved_answer)
    × (after.reservations ≡ reservations_after connected_client seat called.value)
    × ((k : ℕ) → find called.clients k ≡ (if 77 == k then some after else find clients k))
reserve_seat_lem_example =
    reserve_seat_lem clients 77 connected_client seat true reserved_answer is_session (λ e. cc e)

get_rooms-IsClosed_example :
    (called : Called (List ℕ)) × (get_rooms clients 77 true
        (record zero_message { message_choice_number = choice_exit })
      ≡ some called)
    × (called.value ≡ [])
    × IsClosed called.clients 77
    × ((k : ℕ) → k ≢ 77 → find called.clients k ≡ find clients k)
    × (restarted : Called ℕ) × (init_mom called.clients queue 77 reserved_answer ≡ some restarted)
    × IsClosed restarted.clients 77
get_rooms-IsClosed_example =
    get_rooms-IsClosed clients 77 connected_client true
      (record zero_message { message_choice_number = choice_exit }) queue reserved_answer is_session
      refl

abbrev accepted_as : ℕ → Message
accepted_as id = record zero_message {
  message_choice_number = choice_connection_accepted;
  message_choice = m1 id;
}

abbrev exit_answer : Message
exit_answer = record zero_message { message_choice_number = choice_exit }

not_in_registry : find clients 80 ≡ none
unfolding find
not_in_registry = refl

end_mom-init_mom_example :
    (begun : Called ℕ) × (logged_in ended : Called Bool) × (init_mom clients queue 80
        (accepted_as 30)
      ≡ some begun)
    × (is_connected begun.clients 80 ≡ true)
    × (is_error begun.clients 80 ≡ false)
    × (login begun.clients 80 (accepted_as 11) ≡ some logged_in)
    × (logged_in.value ≡ true)
    × (end_mom logged_in.clients 80 true exit_answer ≡ some ended)
    × (ended.value ≡ true)
    × (find ended.clients 77 ≡ find clients 77)
end_mom-init_mom_example =
    end_mom-init_mom clients queue 80 (accepted_as 30) (accepted_as 11) not_in_registry
      (omega arith) refl refl (omega arith) true exit_answer 77 refl

payment_request_lem_example :
    ((length connected_client.reservations ≤ max_length_string)
      × (list : List Reservation) × (payment_request connected_client
          ≡ some (record zero_message {
            client_id = connected_client.cinema_id;
            message_choice_number = choice_pay_reservation_request;
            message_choice = m7 (length connected_client.reservations) list;
          }))
      × (length list ≡ max_length_string)
      × (take (length connected_client.reservations) list ≡ connected_client.reservations))
    ⊎ ((max_length_string < length connected_client.reservations)
        × (payment_request connected_client ≡ none))
payment_request_lem_example = payment_request_lem connected_client
