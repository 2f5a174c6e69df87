-- ===== src/Message.antt =====
-- include/constants.h and include/messages/message.h: the records of the model and the messages
-- that the processes exchange. The union `message_choice` is a data type with a constructor for
-- each member. Every member but m0 begins with an int at offset 0, so such an int is read through
-- any member by `first_word`; a read of another part through the wrong member is left out (`none`).
-- An array is a list with all its cells, zeros included.
mod Members
pub use Members.*
use sist_distrib2c.Base.{ℕ, ◌*◌, ◌+◌, ◌^◌, List, [], ◌∷◌, ◌==◌, replicate, arith}

pub record Message : Type 0 where
  pub message_type : ℕ
  pub client_id : ℕ
  pub message_choice_number : ℕ
  pub message_choice : Choice

-- `q_message m{}`.
abbrev pub zero_message : Message
zero_message = record {
  message_type = 0;
  client_id = 0;
  message_choice_number = 0;
  message_choice = m1 0;
}

abbrev pub type_connection_cinema_request : ℕ
type_connection_cinema_request = 1

abbrev pub type_connection_mom_request : ℕ
type_connection_mom_request = 2

abbrev pub admin_request : ℕ
admin_request = 1

abbrev pub choice_connection_accepted : ℕ
choice_connection_accepted = 2

abbrev pub choice_rooms_request : ℕ
choice_rooms_request = 3

abbrev pub choice_rooms_response : ℕ
choice_rooms_response = 4

abbrev pub choice_seats_request : ℕ
choice_seats_request = 5

abbrev pub choice_seats_response : ℕ
choice_seats_response = 6

abbrev pub choice_seat_select_request : ℕ
choice_seat_select_request = 7

abbrev pub choice_seat_select_response : ℕ
choice_seat_select_response = 8

abbrev pub choice_exit : ℕ
choice_exit = 9

abbrev pub choice_invalid_request : ℕ
choice_invalid_request = 10

abbrev pub choice_pay_reservation_request : ℕ
choice_pay_reservation_request = 11

abbrev pub choice_pay_reservation_response : ℕ
choice_pay_reservation_response = 12
