-- ===== src/Message/Members.antt =====
-- The constants of include/constants.h, its structs, and the members of the union of message.h.
use sist_distrib2c.Base.{ℕ, ◌*◌, ◌+◌, ◌^◌, List, ◌∷◌, Option, none, some, replicate}

abbrev pub max_length_string : ℕ
max_length_string = 500

abbrev pub max_rooms : ℕ
max_rooms = 20

abbrev pub max_seats : ℕ
max_seats = 50

abbrev pub seat_status_free : ℕ
seat_status_free = 0

abbrev pub seat_status_occuped : ℕ
seat_status_occuped = 1

abbrev pub not_success : ℕ
not_success = 1

abbrev pub success_code : ℕ
success_code = 0

abbrev pub max_clients : ℕ
max_clients = 100

abbrev pub max_clients_host : ℕ
max_clients_host = 50

pub record Seat : Type 0 where
  pub id : ℕ
  pub room_id : ℕ
  pub status : ℕ

-- `Seats_update`, in shared memory.
pub record SeatsUpdate : Type 0 where
  pub update : ℕ
  pub count : ℕ
  pub seats : List Seat

abbrev pub no_seat : Seat
no_seat = record { id = 0; room_id = 0; status = 0 }

pub record Reservation : Type 0 where
  pub room : ℕ
  pub seat_num : ℕ

-- m4_seats.
pub record M4Seats : Type 0 where
  pub count : ℕ
  pub success : ℕ
  pub information : List ℕ
  pub seats_id : List ℕ
  pub seats_status : List ℕ

pub data Choice : Type 0 where
  m0 : (test_msg : List ℕ) → Choice
  m1 : (client_id : ℕ) → Choice
  m2 : (count : ℕ) (ids : List ℕ) → Choice
  m3 : (room_id : ℕ) → Choice
  m4 : M4Seats → Choice
  m5 : (seat_id : ℕ) → Choice
  m6 : (success : ℕ) (information : List ℕ) → Choice
  m7 : (count : ℕ) (list : List Reservation) → Choice

-- The int that the first four bytes hold.
abbrev pub first_word : Choice → ℕ
first_word (m0 (a ∷ b ∷ c ∷ d ∷ text)) = a + 2 ^ 8 * b + 2 ^ 16 * c + 2 ^ 24 * d
first_word (m0 _) = 0
first_word (m1 client_id) = client_id
first_word (m2 count ids) = count
first_word (m3 room_id) = room_id
first_word (m4 seats) = seats.count
first_word (m5 seat_id) = seat_id
first_word (m6 success information) = success
first_word (m7 count list) = count

abbrev pub as_m2 : Choice → Option (ℕ × List ℕ)
as_m2 (m2 count ids) = some (count, ids)
as_m2 _ = none

abbrev pub as_m4 : Choice → Option M4Seats
as_m4 (m4 seats) = some seats
as_m4 _ = none

abbrev pub as_m6 : Choice → Option (ℕ × List ℕ)
as_m6 (m6 success information) = some (success, information)
as_m6 _ = none

abbrev pub as_m7 : Choice → Option (ℕ × List Reservation)
as_m7 (m7 count list) = some (count, list)
as_m7 _ = none

abbrev pub no_text : List ℕ
no_text = replicate max_length_string 0

abbrev pub no_reservation : Reservation
no_reservation = record { room = 0; seat_num = 0 }
