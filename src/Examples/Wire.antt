-- ===== src/Examples/Wire.antt =====
-- Messages on the wire, and channels.
use sist_distrib2c.Base.{
  ℕ, ◌≤◌, ◌≡◌, ◌≢◌, ◌↔◌, inl, refl, zero, suc, List, [], ◌∷◌, ◌++◌, map, some, length, take, drop,
  replicate, All, arith, length-append, length-replicate, append-nil,
}
use sist_distrib2c.Base.Words.{IsWord}
use sist_distrib2c.Arrays.{copy_into, copy_into_lem}
use sist_distrib2c.Message.{
  Message, M4Seats, m1, m2, m4, m6, max_rooms, no_text, success_code, not_success,
  choice_connection_accepted, choice_rooms_response, choice_seats_response,
  choice_seat_select_response,
}
use sist_distrib2c.Wire.{
  serialize_message, serialize_choice, store_int, htonl, zero_held, zero_held-HasSizes,
  deserialize_message,
}
use sist_distrib2c.Wire.RoundTrip.{buffer_size}
use sist_distrib2c.Wire.Arrays.{overlay}
use sist_distrib2c.Wire.Arrival.{SeatsFit, connection_accepted, rooms_response}
use sist_distrib2c.Wire.RoundTrip.{deserialize_message-serialize_message}
use sist_distrib2c.Wire.Packet.{send_packet, receive_packet, accepted, chunk, complete, waiting}
use sist_distrib2c.Wire.Transfer.{receive_packet-send_packet, receive_packet_end_of_stream}
use sist_distrib2c.Wire.Flags.{IsReadAs, successful, seats_response_flag_lost, atomic_response_flag}
use sist_distrib2c.Channel.{Channel}

zeros-IsWord : (n : ℕ) → All IsWord (replicate n 0)
zeros-IsWord zero = tt
zeros-IsWord (suc n) = (omega arith, zeros-IsWord n)

abbrev two_rooms : List ℕ
two_rooms = 1 ∷ 2 ∷ replicate 18 0

abbrev rooms_message : Message
rooms_message = record {
  message_type = 7;
  client_id = 7;
  message_choice_number = choice_rooms_response;
  message_choice = m2 2 two_rooms;
}

deserialize_message-serialize_message_example :
    (bytes : List ℕ) × (serialize_message rooms_message ≡ some bytes)
    × (length bytes ≤ buffer_size)
    × ((rest : List ℕ)
        → deserialize_message zero_held (bytes ++ rest)
          ≡ some (record rooms_message {
            message_choice = m2 2 (overlay 2 two_rooms (replicate max_rooms 0));
          }))
deserialize_message-serialize_message_example =
    deserialize_message-serialize_message zero_held rooms_message
      (m2 2 (overlay 2 two_rooms (replicate max_rooms 0))) zero_held-HasSizes (omega arith)
      (omega arith) (omega arith)
      (rooms_response 2 two_rooms (omega arith) (omega arith) refl
        (omega arith, (omega arith, zeros-IsWord 18)))

abbrev accepted_message : Message
accepted_message = record {
  message_type = 7;
  client_id = 7;
  message_choice_number = choice_connection_accepted;
  message_choice = m1 5;
}

abbrev accepted_bytes : List ℕ
accepted_bytes = 0 ∷ 0 ∷ 0 ∷ 7 ∷ 0 ∷ 0 ∷ 0 ∷ 7 ∷ 0 ∷ 0 ∷ 0 ∷ 2 ∷ 0 ∷ 0 ∷ 0 ∷ 5 ∷ []

abbrev left_over : List ℕ
left_over = replicate 4008 255

receive_packet-send_packet_example :
    (send_packet accepted_message left_over (map accepted (24 ∷ 4000 ∷ []))
      ≡ some (complete (accepted_bytes ++ left_over)))
    × (receive_packet zero_held
          (map chunk (take 10 accepted_bytes ∷ (drop 10 accepted_bytes ++ left_over) ∷ []))
        ≡ complete (some accepted_message))
unfolding serialize_message serialize_choice store_int htonl
receive_packet-send_packet_example =
    receive_packet-send_packet zero_held accepted_message (m1 5) accepted_bytes left_over
      (24 ∷ 4000 ∷ []) (take 10 accepted_bytes ∷ (drop 10 accepted_bytes ++ left_over) ∷ [])
      zero_held-HasSizes (omega arith) (omega arith) (omega arith)
      (connection_accepted (m1 5) (omega arith)) refl
      (omega (arith, length-append accepted_bytes left_over, length-replicate {A = ℕ} 4008 255))
      (omega arith) (append-nil (accepted_bytes ++ left_over))

receive_packet_end_of_stream_example :
    receive_packet zero_held (chunk accepted_bytes ∷ replicate 3 (chunk [])) ≡ waiting
receive_packet_end_of_stream_example =
    receive_packet_end_of_stream zero_held accepted_bytes 3 (omega arith)

abbrev refused_seats : M4Seats
refused_seats = record {
  count = 2;
  success = not_success;
  information = no_text;
  seats_id = 1 ∷ 2 ∷ replicate 48 0;
  seats_status = 0 ∷ 1 ∷ replicate 48 0;
}

abbrev seats_message_sent : Message
seats_message_sent = record {
  message_type = 7;
  client_id = 7;
  message_choice_number = choice_seats_response;
  message_choice = m4 refused_seats;
}

refused_seats_fit : SeatsFit refused_seats
refused_seats_fit = record {
  count_word = omega arith;
  count_fits = omega arith;
  ids_size = refl;
  status_size = refl;
  information_size = length-replicate {A = ℕ} 500 0;
  ids_words = (omega arith, (omega arith, zeros-IsWord 48));
}

seats_response_flag_lost_example :
    IsReadAs zero_held seats_message_sent
      (record seats_message_sent { message_choice = m4 (successful zero_held refused_seats) })
seats_response_flag_lost_example =
    seats_response_flag_lost zero_held zero_held-HasSizes seats_message_sent (omega arith)
      (omega arith) refused_seats refl refl refused_seats_fit (omega arith)

abbrev refusal : Message
refusal = record {
  message_type = 7;
  client_id = 7;
  message_choice_number = choice_seat_select_response;
  message_choice = m6 not_success no_text;
}

atomic_response_flag_example :
    (got : ℕ) × IsReadAs zero_held refusal (record refusal { message_choice = m6 got no_text })
    × ((got ≡ success_code) ↔ (not_success ≡ success_code))
    × (not_success ≡ not_success → got ≢ not_success)
atomic_response_flag_example =
    atomic_response_flag zero_held zero_held-HasSizes refusal (omega arith) (omega arith)
      not_success no_text (inl refl) refl (omega arith) (length-replicate {A = ℕ} 500 0)

abbrev server_side : Channel
server_side = record { id_firstqueue = 10; id_secondqueue = 11; orientation = 0; id = 7 }

abbrev client_side : Channel
client_side = record { id_firstqueue = 10; id_secondqueue = 11; orientation = 1; id = 7 }

copy_into_lem_example :
    (out : List ℕ) × (copy_into (1 ∷ 2 ∷ []) (0 ∷ 0 ∷ 9 ∷ []) ≡ some out)
    × (length out ≡ 3)
    × (take 2 out ≡ 1 ∷ 2 ∷ [])
    × (drop 2 out ≡ 9 ∷ [])
copy_into_lem_example = copy_into_lem (1 ∷ 2 ∷ []) (0 ∷ 0 ∷ 9 ∷ []) (omega arith)
