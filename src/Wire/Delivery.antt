-- ===== src/Wire/Delivery.antt =====
-- Each kind of message through the switch of `serialize_message` and that of `deserialize_message`.
use sist_distrib2c.Base.{
  ℕ, ◌≤◌, ◌≡◌, refl, List, [], ◌++◌, Option, some, arith, append_assoc, length, All, length-append,
  ◌∙◌,
}
use sist_distrib2c.Base.Words.{IsWord, rounds, extend_short}
use sist_distrib2c.Message.{
  Choice, M4Seats, m1, m2, m3, m4, m5, m6, m7, Reservation, max_length_string, max_rooms,
  first_word,
}
use sist_distrib2c.Wire.Memory.{
  store_int, htonl, load_int-htonl, htonl-htonl, load_int-store_int, length-store_int,
}
use sist_distrib2c.Wire.Encode.{
  serialize_choice, serialize_rooms, serialize_seats, serialize_atomic, serialize_payments,
}
use sist_distrib2c.Wire.Decode.{
  Held, HasSizes, deserialize_int, deserialize_choice, deserialize_rooms, deserialize_seats,
  deserialize_atomic, deserialize_payments,
}
use sist_distrib2c.Wire.Arrays.{
  IsWordPair, overlay, chars_carried, ints_carried, reservations_carried,
}
use sist_distrib2c.Wire.Arrival.{
  Arrives, SeatsFit, seats_arrived, IsDefault, connection_accepted, rooms_request, rooms_response,
  seats_request, seats_response, seat_select_request, seat_select_response, pay_reservation_request,
  pay_reservation_response, default,
}

-- `size` bounds the bytes.
abbrev pub Delivers : ℕ → Option (List ℕ) → (List ℕ → Option Choice) → Choice → Type 0
Delivers size written read got =
    (bytes : List ℕ) × (written ≡ some bytes)
    × (length bytes ≤ size)
    × ((rest : List ℕ) → read (bytes ++ rest) ≡ some got)

int_delivered :
    (member : ℕ → Choice) (w : ℕ)
    → IsWord w
    → Delivers 4008 (some (store_int (htonl w))) (deserialize_int member) (member w)
unfolding deserialize_int
int_delivered member w h = (
  store_int (htonl w),
  refl,
  omega (arith, length-store_int (htonl w)),
  λ rest. simp (load_int-htonl, htonl-htonl w h),
)

rooms_delivered :
    (held : Held) (count : ℕ) (ids : List ℕ)
    → length held.rooms_ids ≡ max_rooms
    → IsWord count
    → rounds count ≤ max_rooms
    → length ids ≡ max_rooms
    → All IsWord ids
    → Delivers 4008
        (serialize_rooms (count, ids))
        (deserialize_rooms held)
        (m2 count (overlay (rounds count) ids held.rooms_ids))
unfolding serialize_rooms deserialize_rooms
rooms_delivered held count ids old w fits size ws =
    let (bytes, written, long, reads) =
      ints_carried (rounds count) ids held.rooms_ids (omega arith) (omega arith) ws in
    (
      store_int (htonl count) ++ bytes,
      rw written refl,
      omega (arith, length-append (store_int (htonl count)) bytes, length-store_int (htonl count)),
      λ rest. simp (append_assoc, load_int-htonl, htonl-htonl count w, reads),
    )

payments_delivered :
    (held : Held) (count : ℕ) (list : List Reservation)
    → length held.reservations ≡ max_length_string
    → IsWord count
    → rounds count ≤ max_length_string
    → length list ≡ max_length_string
    → All IsWordPair list
    → Delivers 4008
        (serialize_payments (count, list))
        (deserialize_payments held)
        (m7 count (overlay (rounds count) list held.reservations))
unfolding serialize_payments deserialize_payments
payments_delivered held count list old w fits size ws =
    let (bytes, written, long, reads) =
      reservations_carried (rounds count) list held.reservations (omega arith) (omega arith) ws in
    (
      store_int (htonl count) ++ bytes,
      rw written refl,
      omega (arith, length-append (store_int (htonl count)) bytes, length-store_int (htonl count)),
      λ rest. simp (append_assoc, load_int-htonl, htonl-htonl count w, reads),
    )

atomic_delivered :
    (held : Held) (success : ℕ) (information : List ℕ)
    → length held.atomic_information ≡ max_length_string
    → IsWord success
    → length information ≡ max_length_string
    → Delivers 4008
        (serialize_atomic (success, information))
        (deserialize_atomic held)
        (m6 (htonl success) (overlay max_length_string information held.atomic_information))
unfolding serialize_atomic deserialize_atomic
atomic_delivered held success information old w size =
    let (bytes, written, long, reads) =
      chars_carried max_length_string information held.atomic_information (omega arith)
        (omega arith) in
    (
      store_int success ++ bytes,
      rw written refl,
      omega (arith, length-append (store_int success) bytes, length-store_int success),
      λ rest. simp (append_assoc, load_int-store_int success (bytes ++ rest) w, reads),
    )

seats_delivered :
    (held : Held) (s : M4Seats)
    → HasSizes held
    → SeatsFit s
    → Delivers 4008 (serialize_seats s) (deserialize_seats held) (m4 (seats_arrived held s))
unfolding serialize_seats deserialize_seats
seats_delivered held s sizes fit =
    let (ids, ids_written, ids_long, ids_read) =
      ints_carried (rounds s.count) s.seats_id held.seats_id (omega arith)
        (omega (arith, sizes.ids_size, fit.count_fits)) fit.ids_words in
    let (status, status_written, status_long, status_read) =
      chars_carried (rounds s.count) s.seats_status held.seats_status (omega arith)
        (omega (arith, sizes.status_size, fit.count_fits)) in
    let (text, text_written, text_long, text_read) =
      chars_carried max_length_string s.information held.seats_information (omega arith)
        (omega (arith, sizes.seats_text_size)) in
    let flag = store_int (htonl (extend_short s.success)) in
    let count = store_int (htonl s.count) in
    (
      flag ++ (count ++ (ids ++ (status ++ text))),
      rw (ids_written, status_written, text_written) refl,
      omega (
        arith,
        length-append flag (count ++ (ids ++ (status ++ text))),
        length-append count (ids ++ (status ++ text)),
        length-append ids (status ++ text),
        length-append status text,
        length-store_int (htonl (extend_short s.success)),
        length-store_int (htonl s.count),
      ),
      λ rest. simp (
        append_assoc,
        load_int-htonl,
        htonl-htonl s.count fit.count_word,
        ids_read,
        status_read,
        text_read,
      ),
    )

default_encodes :
    (number : ℕ) (sent : Choice)
    → IsDefault number
    → serialize_choice number sent ≡ some (store_int (htonl (first_word sent)))
unfolding serialize_choice
default_encodes number sent h = ground arith

default_decodes :
    (held : Held) (number : ℕ) (bytes : List ℕ)
    → IsDefault number
    → deserialize_choice held number bytes ≡ deserialize_int m1 bytes
unfolding deserialize_choice
default_decodes held number bytes h = ground arith

default_delivered :
    (held : Held) (number : ℕ) (sent : Choice)
    → IsDefault number
    → IsWord (first_word sent)
    → Delivers 4008
        (serialize_choice number sent)
        (deserialize_choice held number)
        (m1 (first_word sent))
default_delivered held number sent other w =
    let (bytes, written, long, reads) = int_delivered m1 (first_word sent) w in
    (
      bytes,
      default_encodes number sent other ∙ written,
      long,
      λ rest. default_decodes held number (bytes ++ rest) other ∙ reads rest,
    )

pub choice_delivered :
    (held : Held) (sizes : HasSizes held) (number : ℕ) (sent got : Choice)
    → Arrives held number sent got
    → Delivers 4008 (serialize_choice number sent) (deserialize_choice held number) got
unfolding serialize_choice deserialize_choice
choice_delivered held sizes _ _ _ (connection_accepted sent w) =
    int_delivered m1 (first_word sent) w
choice_delivered held sizes _ _ _ (rooms_request sent) = ([], refl, omega arith, λ rest. refl)
choice_delivered held sizes _ _ _ (rooms_response count ids w fits size ws) =
    rooms_delivered held count ids sizes.rooms_size w fits size ws
choice_delivered held sizes _ _ _ (seats_request sent w) = int_delivered m3 (first_word sent) w
choice_delivered held sizes _ _ _ (seats_response s fit) = seats_delivered held s sizes fit
choice_delivered held sizes _ _ _ (seat_select_request sent w) =
    int_delivered m5 (first_word sent) w
choice_delivered held sizes _ _ _ (seat_select_response success text w size) =
    atomic_delivered held success text sizes.atomic_text_size w size
choice_delivered held sizes _ _ _ (pay_reservation_request count list w fits size ws) =
    payments_delivered held count list sizes.reservations_size w fits size ws
choice_delivered held sizes _ _ _ (pay_reservation_response success text w size) =
    atomic_delivered held success text sizes.atomic_text_size w size
choice_delivered held sizes _ _ _ (default number sent other w) =
    default_delivered held number sent other w
