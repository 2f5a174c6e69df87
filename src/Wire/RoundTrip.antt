-- ===== src/Wire/RoundTrip.antt =====
-- `deserialize_message` after `serialize_message`, and the room that a message takes in the buffer.
use sist_distrib2c.Base.{
  ℕ, ◌≤◌, ◌≡◌, refl, List, ◌++◌, some, arith, append_assoc, length, length-append,
}
use sist_distrib2c.Base.Words.{IsWord}
use sist_distrib2c.Message.{Message, Choice}
use sist_distrib2c.Wire.Memory.{store_int, htonl, load_int-htonl, htonl-htonl, length-store_int}
use sist_distrib2c.Wire.Encode.{serialize_message}
use sist_distrib2c.Wire.Decode.{Held, HasSizes, deserialize_message}
use sist_distrib2c.Wire.Delivery.{choice_delivered}
use sist_distrib2c.Wire.Arrival.{Arrives}

-- `malloc(sizeof(q_message) + sizeof(int)*2)`: 12 bytes of header, a union of 4004 bytes (m7), and 8.
abbrev pub buffer_size : ℕ
buffer_size = 4024

-- Every message that `Arrives` lists (its numbers are ints, its arrays have their declared sizes, its
-- count lies within them, and its union holds the member of its choice number) fits the buffer of
-- `send_packet`; and whatever the bytes behind it are, and whatever the receiver's message held in
-- arrays of the declared sizes, `deserialize_message` reads the three header words as they were sent
-- and the member that `Arrives` names, with what it held before behind the count.
pub deserialize_message-serialize_message :
    (held : Held) (m : Message) (got : Choice)
    → HasSizes held
    → IsWord m.message_type
    → IsWord m.client_id
    → IsWord m.message_choice_number
    → Arrives held m.message_choice_number m.message_choice got
    → (bytes : List ℕ) × (serialize_message m ≡ some bytes)
      × (length bytes ≤ buffer_size)
      × ((rest : List ℕ)
          → deserialize_message held (bytes ++ rest) ≡ some (record m { message_choice = got }))
unfolding serialize_message deserialize_message
deserialize_message-serialize_message held m got sizes type_word client_word number_word arrives =
    let (body, written, long, reads) =
      choice_delivered held sizes m.message_choice_number m.message_choice got arrives in
    let type = store_int (htonl m.message_type) in
    let client = store_int (htonl m.client_id) in
    let number = store_int (htonl m.message_choice_number) in
    (
      type ++ (client ++ (number ++ body)),
      rw written refl,
      omega (
        arith,
        length-append type (client ++ (number ++ body)),
        length-append client (number ++ body),
        length-append number body,
        length-store_int (htonl m.message_type),
        length-store_int (htonl m.client_id),
        length-store_int (htonl m.message_choice_number),
      ),
      λ rest. simp (
        append_assoc,
        load_int-htonl,
        htonl-htonl m.message_type type_word,
        htonl-htonl m.client_id client_word,
        htonl-htonl m.message_choice_number number_word,
        reads,
      ),
    )
