-- ===== src/Wire/Packet.antt =====
-- `send_packet` and `receive_packet` of socket.cpp. What the socket calls answer is a script, one
-- entry for each call of `send` or `recv`; how they split the bytes is up to the kernel.
use sist_distrib2c.Base.{
  ℕ, List, [], ◌∷◌, ◌++◌, Option, some, ◌>>=◌, length, take, drop, leb, if◌then◌else◌,
}
use sist_distrib2c.Message.{Message}
use sist_distrib2c.Wire.Encode.{serialize_message}
use sist_distrib2c.Wire.Decode.{Held, deserialize_message}

-- `malloc(sizeof(q_message) + sizeof(int)*2)`: 12 bytes of header, a union of 4004 bytes (m7), and 8.
abbrev pub msg_size : ℕ
msg_size = 4024

-- `refused` is a negative answer, `accepted n` the number of bytes taken.
pub data SendAnswer : Type 0 where
  refused : SendAnswer
  accepted : ℕ → SendAnswer

-- `waiting`: the script ended before the loop did. `aborted`: `THROW_UTIL` ended the process.
pub data Transfer {ℓ} (A : Type ℓ) : Type ℓ where
  waiting : Transfer A
  aborted : Transfer A
  complete : A → Transfer A

-- `ahead` is what `data_buffer` points at up to `msg_size`, `sent` what went out.
unfoldable pub send_loop : List ℕ → List ℕ → List SendAnswer → Transfer (List ℕ)
send_loop [] sent answers = complete sent
send_loop (b ∷ ahead) sent [] = waiting
send_loop (b ∷ ahead) sent (refused ∷ answers) = aborted
send_loop (b ∷ ahead) sent (accepted n ∷ answers) =
    send_loop (drop n (b ∷ ahead)) (sent ++ take n (b ∷ ahead)) answers

-- `garbage` is what `malloc` left behind the message; the bytes go out with it. `none` where
-- `serialize_message` reads past an array.
unfoldable pub send_packet : Message → List ℕ → List SendAnswer → Option (Transfer (List ℕ))
send_packet m garbage answers = do
  bytes ← serialize_message m
  some (send_loop (bytes ++ garbage) [] answers)

-- An answer of `recv`: negative, or bytes (none at the end of the stream).
pub data RecvAnswer : Type 0 where
  failure : RecvAnswer
  chunk : List ℕ → RecvAnswer

unfoldable pub recv_loop : List ℕ → List RecvAnswer → Transfer (List ℕ)
recv_loop buffer [] = if leb msg_size (length buffer) then complete buffer else waiting
recv_loop buffer (failure ∷ answers) =
    if leb msg_size (length buffer) then complete buffer else aborted
recv_loop buffer (chunk bytes ∷ answers) =
    let rest = recv_loop (buffer ++ bytes) answers in
    if leb msg_size (length buffer) then complete buffer else rest

-- `held` is what `received_msg` held before.
abbrev deserialize_complete : Held → Transfer (List ℕ) → Transfer (Option Message)
deserialize_complete held waiting = waiting
deserialize_complete held aborted = aborted
deserialize_complete held (complete bytes) = complete (deserialize_message held bytes)

unfoldable pub receive_packet : Held → List RecvAnswer → Transfer (Option Message)
receive_packet held answers = deserialize_complete held (recv_loop [] answers)
