-- ===== src/Wire/Flags.antt =====
-- The `success` flags over the wire: m4 is sent by `htonl` and read by `ntohs`, m6 is sent as the
-- host has it and read by `ntohl`.
use sist_distrib2c.Base.{
  ℕ, zero, suc, ◌<◌, ◌^◌, ◌≡◌, ◌≢◌, refl, ap, ◌∙◌, List, [], ◌∷◌, ◌++◌, some, arith, length, ◌⊎◌,
  ◌↔◌, inl, inr,
}
use sist_distrib2c.Base.Words.{IsWord, rounds, extend_short}
use sist_distrib2c.Message.{
  Message, M4Seats, m4, m6, max_length_string, success_code, not_success, choice_seats_response,
  choice_seat_select_response, choice_pay_reservation_response,
}
use sist_distrib2c.Wire.Memory.{htonl, ntohs}
use sist_distrib2c.Wire.Encode.{serialize_message}
use sist_distrib2c.Wire.Decode.{Held, HasSizes, deserialize_message}
use sist_distrib2c.Wire.Arrays.{overlay}
use sist_distrib2c.Wire.Arrival.{
  Arrives, SeatsFit, seats_arrived, seats_response, seat_select_response, pay_reservation_response,
}
use sist_distrib2c.Wire.RoundTrip.{deserialize_message-serialize_message}

overlay_all :
    (n : ℕ) (cells old : List ℕ) → length cells ≡ n → length old ≡ n → overlay n cells old ≡ cells
overlay_all zero [] [] h k = refl
overlay_all zero [] (x ∷ old) h k = absurd (omega arith)
overlay_all zero (x ∷ cells) old h k = absurd (omega arith)
overlay_all (suc n) [] old h k = absurd (omega arith)
overlay_all (suc n) (x ∷ cells) [] h k = absurd (omega arith)
overlay_all (suc n) (x ∷ cells) (y ∷ old) h k =
    ap (◌∷◌ x) (overlay_all n cells old (omega arith) (omega arith))

flag_lost : (s : ℕ) → s < 2 ^ 15 → ntohs (htonl (extend_short s)) ≡ success_code
unfolding htonl ntohs
flag_lost s h = ground arith

-- A seat map with the flag SUCCESS, and behind the count the cells that the receiver had.
abbrev pub successful : Held → M4Seats → M4Seats
successful held s = record s {
  success = success_code;
  seats_id = overlay (rounds s.count) s.seats_id held.seats_id;
  seats_status = overlay (rounds s.count) s.seats_status held.seats_status;
}

seats_arrived_lem :
    (held : Held) (s : M4Seats)
    → HasSizes held
    → SeatsFit s
    → s.success < 2 ^ 15
    → seats_arrived held s ≡ successful held s
seats_arrived_lem held s sizes fit small = λ i. record {
  count = s.count;
  success = flag_lost s.success small i;
  information =
      overlay_all max_length_string s.information held.seats_information fit.information_size
        sizes.seats_text_size i;
  seats_id = overlay (rounds s.count) s.seats_id held.seats_id;
  seats_status = overlay (rounds s.count) s.seats_status held.seats_status;
}

flag_swapped :
    (success : ℕ)
    → IsWord success
    → ((htonl success ≡ success_code) ↔ (success ≡ success_code))
      × (success ≡ not_success → htonl success ≢ not_success)
unfolding htonl
flag_swapped success w = ((λ h. omega arith, λ h. omega arith), λ h k. omega arith)

-- What `send_packet` writes for `m` is read back by `receive_packet` as `m'`, where the receiver's
-- message held `held`.
abbrev pub IsReadAs : Held → Message → Message → Type 0
IsReadAs held m m' =
    (bytes : List ℕ) × (serialize_message m ≡ some bytes)
    × ((rest : List ℕ) → deserialize_message held (bytes ++ rest) ≡ some m')

module _ (held : Held) (sizes : HasSizes held) (m : Message) (type_word : IsWord m.message_type)
    (client_word : IsWord m.client_id) where
  -- A CHOICE_SEATS_RESPONSE with ints in its header, arrays of the declared sizes, a count within them
  -- and a flag from 0 to 2^15 - 1 arrives with its header, count, text and the cells of both arrays up
  -- to the count as sent, and behind the count with the cells that the receiver's message held; but
  -- with the flag SUCCESS whichever it was sent with: NOT_SUCCESS is lost.
  pub seats_response_flag_lost :
      (s : M4Seats)
      → m.message_choice_number ≡ choice_seats_response
      → m.message_choice ≡ m4 s
      → SeatsFit s
      → s.success < 2 ^ 15
      → IsReadAs held m (record m { message_choice = m4 (successful held s) })
  seats_response_flag_lost s number choice fit small =
      let (bytes, written, _, reads) =
        deserialize_message-serialize_message held m (m4 (seats_arrived held s)) sizes type_word
          client_word (omega arith) (rw (number, choice) (seats_response s fit)) in
      (
        bytes,
        written,
        λ rest.
            reads rest
            ∙ ap (λ a. some (record m { message_choice = m4 a }))
                (seats_arrived_lem held s sizes fit small),
      )

  atomic-Arrives :
      (success : ℕ) (information : List ℕ)
      → (m.message_choice_number ≡ choice_seat_select_response)
        ⊎ (m.message_choice_number ≡ choice_pay_reservation_response)
      → m.message_choice ≡ m6 success information
      → IsWord success
      → length information ≡ max_length_string
      → Arrives held m.message_choice_number m.message_choice
          (m6 (htonl success) (overlay max_length_string information held.atomic_information))
  atomic-Arrives success information (inl number) choice w size =
      rw (number, choice) (seat_select_response success information w size)
  atomic-Arrives success information (inr number) choice w size =
      rw (number, choice) (pay_reservation_response success information w size)

  -- An answer to a seat selection or a payment, its numbers ints and its text of 500 bytes, arrives
  -- with its text, and with a flag that is SUCCESS exactly if it was sent as SUCCESS, but is not
  -- NOT_SUCCESS if it was sent so.
  pub atomic_response_flag :
      (success : ℕ) (information : List ℕ)
      → (m.message_choice_number ≡ choice_seat_select_response)
        ⊎ (m.message_choice_number ≡ choice_pay_reservation_response)
      → m.message_choice ≡ m6 success information
      → IsWord success
      → length information ≡ max_length_string
      → (got : ℕ) × IsReadAs held m (record m { message_choice = m6 got information })
        × ((got ≡ success_code) ↔ (success ≡ success_code))
        × (success ≡ not_success → got ≢ not_success)
  atomic_response_flag success information number choice w size =
      let (bytes, written, _, reads) =
        deserialize_message-serialize_message held m
          (m6 (htonl success) (overlay max_length_string information held.atomic_information)) sizes
          type_word client_word (omega arith)
          (atomic-Arrives success information number choice w size) in
      (
        htonl success,
        (
          bytes,
          written,
          λ rest.
              reads rest
              ∙ ap (λ t. some (record m { message_choice = m6 (htonl success) t }))
                  (overlay_all max_length_string information held.atomic_information size
                    sizes.atomic_text_size),
        ),
        (flag_swapped success w).0,
        (flag_swapped success w).1,
      )
