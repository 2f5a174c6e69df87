-- ===== src/Wire/Arrival.antt =====
-- What a peer receives for what was sent, for each message of the protocol (message.h), as a
-- relation on the choice number, the member sent and the member received; `held` is what the peer's
-- message held before.
use sist_distrib2c.Base.{ℕ, ◌≤◌, ◌<◌, ◌≡◌, ◌⊎◌, List, length, All}
use sist_distrib2c.Base.Words.{IsWord, rounds, extend_short}
use sist_distrib2c.Message.{
  Choice, M4Seats, m1, m2, m3, m4, m5, m6, m7, Reservation, max_length_string, max_rooms, max_seats,
  first_word,
}
use sist_distrib2c.Wire.Memory.{htonl, ntohs}
use sist_distrib2c.Wire.Decode.{Held}
use sist_distrib2c.Wire.Arrays.{IsWordPair, overlay}

-- The arrays have their declared sizes, and the count lies within them.
pub record SeatsFit (s : M4Seats) : Type 0 where
  pub count_word : IsWord s.count
  pub count_fits : rounds s.count ≤ max_seats
  pub ids_size : length s.seats_id ≡ max_seats
  pub status_size : length s.seats_status ≡ max_seats
  pub information_size : length s.information ≡ max_length_string
  pub ids_words : All IsWord s.seats_id

-- The flag goes out by `htonl` and comes in by `ntohs`.
abbrev pub seats_arrived : Held → M4Seats → M4Seats
seats_arrived held s = record {
  count = s.count;
  success = ntohs (htonl (extend_short s.success));
  information = overlay max_length_string s.information held.seats_information;
  seats_id = overlay (rounds s.count) s.seats_id held.seats_id;
  seats_status = overlay (rounds s.count) s.seats_status held.seats_status;
}

-- Numbers that both switches leave to their default case.
abbrev pub IsDefault : ℕ → Type 0
IsDefault number = (number < 2) ⊎ (number ≡ 9) ⊎ (number ≡ 10) ⊎ (12 < number)

pub data Arrives (held : Held) : ℕ → Choice → Choice → Type 0 where
  connection_accepted :
      (sent : Choice) → IsWord (first_word sent) → Arrives held 2 sent (m1 (first_word sent))
  rooms_request : (sent : Choice) → Arrives held 3 sent held.choice
  rooms_response :
      (count : ℕ) (ids : List ℕ)
      → IsWord count
      → rounds count ≤ max_rooms
      → length ids ≡ max_rooms
      → All IsWord ids
      → Arrives held 4 (m2 count ids) (m2 count (overlay (rounds count) ids held.rooms_ids))
  seats_request :
      (sent : Choice) → IsWord (first_word sent) → Arrives held 5 sent (m3 (first_word sent))
  seats_response : (s : M4Seats) → SeatsFit s → Arrives held 6 (m4 s) (m4 (seats_arrived held s))
  seat_select_request :
      (sent : Choice) → IsWord (first_word sent) → Arrives held 7 sent (m5 (first_word sent))
  -- The flag goes out as it is and comes in by `ntohl`.
  seat_select_response :
      (success : ℕ) (information : List ℕ)
      → IsWord success
      → length information ≡ max_length_string
      → Arrives held 8
          (m6 success information)
          (m6 (htonl success) (overlay max_length_string information held.atomic_information))
  pay_reservation_request :
      (count : ℕ) (list : List Reservation)
      → IsWord count
      → rounds count ≤ max_length_string
      → length list ≡ max_length_string
      → All IsWordPair list
      → Arrives held 11 (m7 count list) (m7 count (overlay (rounds count) list held.reservations))
  pay_reservation_response :
      (success : ℕ) (information : List ℕ)
      → IsWord success
      → length information ≡ max_length_string
      → Arrives held 12
          (m6 success information)
          (m6 (htonl success) (overlay max_length_string information held.atomic_information))
  default :
      (number : ℕ) (sent : Choice)
      → IsDefault number
      → IsWord (first_word sent)
      → Arrives held number sent (m1 (first_word sent))
