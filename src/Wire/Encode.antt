-- ===== src/Wire/Encode.antt =====
-- `serialize_message` and its helpers. The pointer that moves through the buffer is the list of the
-- bytes written so far; `none` is a read past the end of an array.
use sist_distrib2c.Base.{
  ℕ, zero, suc, List, [], ◌∷◌, ◌++◌, Option, none, some, ◌>>=◌, ◌==◌, if◌then◌else◌,
}
use sist_distrib2c.Base.Words.{rounds, extend_short}
use sist_distrib2c.Message.{
  Message, Choice, Reservation, M4Seats, max_length_string, first_word, as_m2, as_m4, as_m6, as_m7,
  choice_connection_accepted, choice_rooms_request, choice_rooms_response, choice_seats_request,
  choice_seats_response, choice_seat_select_request, choice_seat_select_response,
  choice_pay_reservation_request, choice_pay_reservation_response,
}
use sist_distrib2c.Wire.Memory.{store_int, htonl}

unfoldable pub serialize_chars : List ℕ → ℕ → Option (List ℕ)
serialize_chars cells zero = some []
serialize_chars [] (suc n) = none
serialize_chars (c ∷ cells) (suc n) = do rest ← serialize_chars cells n; some (c ∷ rest)

unfoldable pub serialize_ints : List ℕ → ℕ → Option (List ℕ)
serialize_ints cells zero = some []
serialize_ints [] (suc n) = none
serialize_ints (w ∷ cells) (suc n) = do
  rest ← serialize_ints cells n
  some (store_int (htonl w) ++ rest)

unfoldable pub serialize_reservation : List Reservation → ℕ → Option (List ℕ)
serialize_reservation cells zero = some []
serialize_reservation [] (suc n) = none
serialize_reservation (r ∷ cells) (suc n) = do
  rest ← serialize_reservation cells n
  some (store_int (htonl r.room) ++ (store_int (htonl r.seat_num) ++ rest))

-- The case `CHOICE_SEATS_RESPONSE`.
unfoldable pub serialize_seats : M4Seats → Option (List ℕ)
serialize_seats s = do
  ids ← serialize_ints s.seats_id (rounds s.count)
  status ← serialize_chars s.seats_status (rounds s.count)
  information ← serialize_chars s.information max_length_string
  some (
      store_int (htonl (extend_short s.success))
      ++ (store_int (htonl s.count) ++ (ids ++ (status ++ information))))

-- `success` is stored as the host has it: no `htonl`.
unfoldable pub serialize_atomic : ℕ × List ℕ → Option (List ℕ)
serialize_atomic (success, cells) = do
  information ← serialize_chars cells max_length_string
  some (store_int success ++ information)

unfoldable pub serialize_rooms : ℕ × List ℕ → Option (List ℕ)
serialize_rooms (count, cells) = do
  ids ← serialize_ints cells (rounds count)
  some (store_int (htonl count) ++ ids)

unfoldable pub serialize_payments : ℕ × List Reservation → Option (List ℕ)
serialize_payments (count, cells) = do
  list ← serialize_reservation cells (rounds count)
  some (store_int (htonl count) ++ list)

-- The switch on `message_choice_number`.
unfoldable pub serialize_choice : ℕ → Choice → Option (List ℕ)
serialize_choice number choice =
    if number == choice_connection_accepted
    then some (store_int (htonl (first_word choice)))
    else if number == choice_rooms_request
    then some []
    else if number == choice_rooms_response
    then (as_m2 choice >>= serialize_rooms)
    else if number == choice_seats_request
    then some (store_int (htonl (first_word choice)))
    else if number == choice_seats_response
    then (as_m4 choice >>= serialize_seats)
    else if number == choice_seat_select_request
    then some (store_int (htonl (first_word choice)))
    else if number == choice_seat_select_response
    then (as_m6 choice >>= serialize_atomic)
    else if number == choice_pay_reservation_response
    then (as_m6 choice >>= serialize_atomic)
    else if number == choice_pay_reservation_request
    then (as_m7 choice >>= serialize_payments)
    else some (store_int (htonl (first_word choice)))

unfoldable pub serialize_message : Message → Option (List ℕ)
serialize_message m = do
  body ← serialize_choice m.message_choice_number m.message_choice
  some (
      store_int (htonl m.message_type)
      ++ (store_int (htonl m.client_id) ++ (store_int (htonl m.message_choice_number) ++ body)))
