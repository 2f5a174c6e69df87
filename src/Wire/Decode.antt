-- ===== src/Wire/Decode.antt =====
-- `deserialize_message` and its helpers. `rec_msg` is a reference: what it held before (`Held`) stays
-- where nothing is written. The moving pointer is the list of the bytes ahead; `none` is a read past
-- the end of the buffer or a write past the end of an array. A helper returns the array with its
-- cells, and the bytes ahead.
use sist_distrib2c.Base.{
  ℕ, zero, suc, List, [], ◌∷◌, Option, none, some, ◌>>=◌, ◌==◌, if◌then◌else◌, replicate, length,
  length-replicate, ◌≡◌,
}
use sist_distrib2c.Base.Words.{rounds}
use sist_distrib2c.Message.{
  Message, Choice, m1, m2, m3, m4, m5, m6, m7, Reservation, max_length_string, max_rooms, max_seats,
  no_text, no_reservation, zero_message, choice_connection_accepted, choice_rooms_request,
  choice_rooms_response, choice_seats_request, choice_seats_response, choice_seat_select_request,
  choice_seat_select_response, choice_pay_reservation_request, choice_pay_reservation_response,
}
use sist_distrib2c.Wire.Memory.{load_int, htonl, ntohs}

unfoldable pub deserialize_ints : ℕ → List ℕ → List ℕ → Option (List ℕ × List ℕ)
deserialize_ints zero cells bytes = some (cells, bytes)
deserialize_ints (suc n) [] bytes = none
deserialize_ints (suc n) (_ ∷ cells) bytes = do
  (w, ahead) ← load_int bytes
  (written, left) ← deserialize_ints n cells ahead
  some (htonl w ∷ written, left)

unfoldable pub deserialize_chars : ℕ → List ℕ → List ℕ → Option (List ℕ × List ℕ)
deserialize_chars zero cells bytes = some (cells, bytes)
deserialize_chars (suc n) [] bytes = none
deserialize_chars (suc n) (_ ∷ cells) [] = none
deserialize_chars (suc n) (_ ∷ cells) (b ∷ ahead) = do
  (written, left) ← deserialize_chars n cells ahead
  some (b ∷ written, left)

unfoldable pub deserialize_reservations :
    ℕ → List Reservation → List ℕ → Option (List Reservation × List ℕ)
deserialize_reservations zero cells bytes = some (cells, bytes)
deserialize_reservations (suc n) [] bytes = none
deserialize_reservations (suc n) (_ ∷ cells) bytes = do
  (room, ahead) ← load_int bytes
  (seat_num, further) ← load_int ahead
  (written, left) ← deserialize_reservations n cells further
  some (record { room = htonl room; seat_num = htonl seat_num } ∷ written, left)

-- What the union of `rec_msg` held before, as each member with an array reads it: m2.ids, m4.seats_id,
-- m4.seats_status, m4.information, m6.information and m7.list; `choice` is the member it was last
-- written through.
pub record Held : Type 0 where
  pub choice : Choice
  pub rooms_ids : List ℕ
  pub seats_id : List ℕ
  pub seats_status : List ℕ
  pub seats_information : List ℕ
  pub atomic_information : List ℕ
  pub reservations : List Reservation

-- The declared sizes.
pub record HasSizes (held : Held) : Type 0 where
  pub rooms_size : length held.rooms_ids ≡ max_rooms
  pub ids_size : length held.seats_id ≡ max_seats
  pub status_size : length held.seats_status ≡ max_seats
  pub seats_text_size : length held.seats_information ≡ max_length_string
  pub atomic_text_size : length held.atomic_information ≡ max_length_string
  pub reservations_size : length held.reservations ≡ max_length_string

-- `q_message m{}`.
abbrev pub zero_held : Held
zero_held = record {
  choice = zero_message.message_choice;
  rooms_ids = replicate max_rooms 0;
  seats_id = replicate max_seats 0;
  seats_status = replicate max_seats 0;
  seats_information = no_text;
  atomic_information = no_text;
  reservations = replicate max_length_string no_reservation;
}

pub zero_held-HasSizes : HasSizes zero_held
zero_held-HasSizes = record {
  rooms_size = length-replicate {A = ℕ} max_rooms 0;
  ids_size = length-replicate {A = ℕ} max_seats 0;
  status_size = length-replicate {A = ℕ} max_seats 0;
  seats_text_size = length-replicate {A = ℕ} max_length_string 0;
  atomic_text_size = length-replicate {A = ℕ} max_length_string 0;
  reservations_size = length-replicate max_length_string no_reservation;
}

unfoldable pub deserialize_rooms : Held → List ℕ → Option Choice
deserialize_rooms held bytes = do
  (count, ahead) ← load_int bytes
  (ids, _) ← deserialize_ints (rounds (htonl count)) held.rooms_ids ahead
  some (m2 (htonl count) ids)

unfoldable pub deserialize_seats : Held → List ℕ → Option Choice
deserialize_seats held bytes = do
  (success, after_success) ← load_int bytes
  (count, ahead) ← load_int after_success
  (ids, after_ids) ← deserialize_ints (rounds (htonl count)) held.seats_id ahead
  (status, after_status) ← deserialize_chars (rounds (htonl count)) held.seats_status after_ids
  (information, _) ← deserialize_chars max_length_string held.seats_information after_status
  some (
      m4 (record {
        count = htonl count;
        success = ntohs success;
        information = information;
        seats_id = ids;
        seats_status = status;
      }))

unfoldable pub deserialize_atomic : Held → List ℕ → Option Choice
deserialize_atomic held bytes = do
  (success, ahead) ← load_int bytes
  (information, _) ← deserialize_chars max_length_string held.atomic_information ahead
  some (m6 (htonl success) information)

unfoldable pub deserialize_payments : Held → List ℕ → Option Choice
deserialize_payments held bytes = do
  (count, ahead) ← load_int bytes
  (list, _) ← deserialize_reservations (rounds (htonl count)) held.reservations ahead
  some (m7 (htonl count) list)

-- `message_choice.mX.field = ntohl(*data_as_int)` for a member that is one int.
unfoldable pub deserialize_int : (ℕ → Choice) → List ℕ → Option Choice
deserialize_int member bytes = do (w, _) ← load_int bytes; some (member (htonl w))

-- The switch on `message_choice_number`.
unfoldable pub deserialize_choice : Held → ℕ → List ℕ → Option Choice
deserialize_choice held number bytes =
    if number == choice_connection_accepted
    then deserialize_int m1 bytes
    else if number == choice_rooms_request
    then some held.choice
    else if number == choice_rooms_response
    then deserialize_rooms held bytes
    else if number == choice_seats_request
    then deserialize_int m3 bytes
    else if number == choice_seats_response
    then deserialize_seats held bytes
    else if number == choice_seat_select_request
    then deserialize_int m5 bytes
    else if number == choice_seat_select_response
    then deserialize_atomic held bytes
    else if number == choice_pay_reservation_response
    then deserialize_atomic held bytes
    else if number == choice_pay_reservation_request
    then deserialize_payments held bytes
    else deserialize_int m1 bytes

unfoldable pub deserialize_message : Held → List ℕ → Option Message
deserialize_message held bytes = do
  (message_type, after_type) ← load_int bytes
  (client_id, after_client) ← load_int after_type
  (number, ahead) ← load_int after_client
  choice ← deserialize_choice held (htonl number) ahead
  some (record {
    message_type = htonl message_type;
    client_id = htonl client_id;
    message_choice_number = htonl number;
    message_choice = choice;
  })
