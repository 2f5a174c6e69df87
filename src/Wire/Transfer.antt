-- ===== src/Wire/Transfer.antt =====
-- A message over a stream that splits the bytes as it likes, and a stream that ends early.
use sist_distrib2c.Base.{
  ℕ, zero, suc, ◌+◌, ◌≤◌, ◌<◌, ◌≡◌, refl, ap, sym, ◌∙◌, List, [], ◌∷◌, ◌++◌, some, arith,
  append_assoc, append-nil, length, take, drop, leb, length-append, replicate, map,
  take-append-drop, length-drop, Bool-cases, inl, inr, false, leb→le,
}
use sist_distrib2c.Base.Words.{IsWord}
use sist_distrib2c.Message.{Message, Choice}
use sist_distrib2c.Wire.Encode.{serialize_message}
use sist_distrib2c.Wire.Decode.{Held, HasSizes}
use sist_distrib2c.Wire.Arrival.{Arrives}
use sist_distrib2c.Wire.RoundTrip.{deserialize_message-serialize_message}
use sist_distrib2c.Wire.Packet.{
  msg_size, accepted, waiting, complete, send_loop, send_packet, RecvAnswer, failure, chunk,
  recv_loop, receive_packet,
}

-- The bytes that a list of chunks carries.
abbrev pub joined : List (List ℕ) → List ℕ
joined [] = []
joined (c ∷ cs) = c ++ joined cs

full :
    (buffer : List ℕ) (answers : List RecvAnswer)
    → msg_size ≤ length buffer
    → recv_loop buffer answers ≡ complete buffer
unfolding recv_loop
full buffer [] h = ground arith
full buffer (failure ∷ answers) h = ground arith
full buffer (chunk bytes ∷ answers) h = ground arith

one_more :
    (buffer bytes : List ℕ) (answers : List RecvAnswer)
    → leb msg_size (length buffer) ≡ false
    → recv_loop buffer (chunk bytes ∷ answers) ≡ recv_loop (buffer ++ bytes) answers
unfolding recv_loop
one_more buffer bytes answers more = rw more refl

suffix_nil : (xs ys : List ℕ) → length (xs ++ ys) ≤ length xs → xs ++ ys ≡ xs
suffix_nil xs [] h = append-nil xs
suffix_nil xs (y ∷ ys) h = absurd (omega (arith, length-append xs (y ∷ ys)))

recv_loop-joined :
    (buffer : List ℕ) (chunks : List (List ℕ))
    → length (buffer ++ joined chunks) ≡ msg_size
    → recv_loop buffer (map chunk chunks) ≡ complete (buffer ++ joined chunks)
recv_loop-joined buffer [] h =
    rw (append-nil buffer) (full buffer [] (omega (arith, ap length (append-nil buffer))))
recv_loop-joined buffer (c ∷ cs) h = elim (Bool-cases (leb msg_size (length buffer))) [
  | inl done ↦
      full buffer (map chunk (c ∷ cs)) (leb→le msg_size (length buffer) done)
      ∙ ap complete (
          sym (
            suffix_nil buffer (joined (c ∷ cs))
              (omega (arith, leb→le msg_size (length buffer) done))))
  | inr more ↦
      one_more buffer c (map chunk cs) more
      ∙ recv_loop-joined (buffer ++ c) cs (ap length (append_assoc buffer c (joined cs)) ∙ h)
      ∙ ap complete (append_assoc buffer c (joined cs))
]

abbrev pub sum : List ℕ → ℕ
sum [] = 0
sum (n ∷ ns) = n + sum ns

send_loop_total :
    (ahead sent ns : List ℕ)
    → length ahead ≤ sum ns
    → send_loop ahead sent (map accepted ns) ≡ complete (sent ++ ahead)
unfolding send_loop
send_loop_total [] sent [] h = ap complete (sym (append-nil sent))
send_loop_total [] sent (n ∷ ns) h = ap complete (sym (append-nil sent))
send_loop_total (b ∷ ahead) sent [] h = absurd (omega arith)
send_loop_total (b ∷ ahead) sent (n ∷ ns) h =
    send_loop_total (drop n (b ∷ ahead)) (sent ++ take n (b ∷ ahead)) ns
      (omega (arith, length-drop n (b ∷ ahead)))
    ∙ ap complete (
        append_assoc sent (take n (b ∷ ahead)) (drop n (b ∷ ahead))
        ∙ ap (◌++◌ sent) (take-append-drop n (b ∷ ahead)))

-- Suppose that `send` accepts 4024 bytes or more over its calls, in whatever pieces, and that `recv`
-- hands out the same bytes, in whatever pieces. Then for every message that `Arrives` lists
-- `send_packet` ends having sent the message and what `malloc` left behind it, and `receive_packet`
-- returns the message as `Arrives` has it, whatever `malloc` left, and whatever the receiver's message
-- held before in arrays of the declared sizes.
pub receive_packet-send_packet :
    (held : Held) (m : Message) (got : Choice) (bytes garbage ns : List ℕ) (chunks : List (List ℕ))
    → HasSizes held
    → IsWord m.message_type
    → IsWord m.client_id
    → IsWord m.message_choice_number
    → Arrives held m.message_choice_number m.message_choice got
    → serialize_message m ≡ some bytes
    → length (bytes ++ garbage) ≡ msg_size
    → msg_size ≤ sum ns
    → joined chunks ≡ bytes ++ garbage
    → (send_packet m garbage (map accepted ns) ≡ some (complete (bytes ++ garbage)))
      × (receive_packet held (map chunk chunks)
          ≡ complete (some (record m { message_choice = got })))
unfolding send_packet receive_packet
receive_packet-send_packet held m got bytes garbage ns chunks sizes t c n arrives written size
      enough split =
    let (same_bytes, serialized, _, reads) =
      deserialize_message-serialize_message held m got sizes t c n arrives in
    let same : same_bytes ≡ bytes = cc (serialized, written) in
    (
      rw written (ap some (send_loop_total (bytes ++ garbage) [] ns (omega arith))),
      rw (recv_loop-joined [] chunks (ap length split ∙ size), split, ← same, reads garbage) refl,
    )

starved :
    (buffer : List ℕ) (n : ℕ)
    → length buffer < msg_size
    → recv_loop buffer (replicate n (chunk [])) ≡ waiting
unfolding recv_loop
starved buffer zero h = ground arith
starved buffer (suc n) h = ground (arith, starved buffer n h, append-nil buffer)

-- Once the peer has closed the stream before the 4024th byte, every further `recv` returns 0, and
-- after any number of them `receive_packet` is still in its loop.
pub receive_packet_end_of_stream :
    (held : Held) (head : List ℕ) (n : ℕ)
    → length head < msg_size
    → receive_packet held (chunk head ∷ replicate n (chunk [])) ≡ waiting
unfolding receive_packet recv_loop
receive_packet_end_of_stream held head n h = rw (starved head n h) refl
