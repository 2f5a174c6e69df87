-- ===== src/Mom/Listener.antt =====
-- The seat listener of src/middleware/mom.cpp: what it writes to shared memory for each message.
use sist_distrib2c.Base.{
  ℕ, zero, suc, ◌≤◌, ◌≡◌, refl, Bool, true, false, List, [], ◌∷◌, Option, none, some, ◌>>=◌, ◌==◌,
  if◌then◌else◌, replicate, length, take, arith,
}
use sist_distrib2c.Base.Words.{rounds}
use sist_distrib2c.Message.{
  Message, M4Seats, Seat, SeatsUpdate, no_seat, as_m4, max_seats, success_code, not_success,
  choice_seats_response, choice_exit,
}

-- The loop over the seats of the message: it reads two arrays and fills a third.
unfoldable pub copy_seats : ℕ → List ℕ → List ℕ → List Seat → Option (List Seat)
copy_seats zero ids status cells = some cells
copy_seats (suc n) (i ∷ ids) (s ∷ status) (_ ∷ cells) = do
  rest ← copy_seats n ids status cells
  some (record { id = i; room_id = 0; status = s } ∷ rest)
copy_seats (suc n) _ _ _ = none

unfoldable pub seats_update : M4Seats → Option SeatsUpdate
seats_update seats = do
  cells ←
      copy_seats (rounds seats.count) seats.seats_id seats.seats_status
        (replicate max_seats no_seat)
  some (record { update = success_code; count = seats.count; seats = cells })

abbrev pub no_update : SeatsUpdate
no_update = record { update = not_success; count = 0; seats = replicate max_seats no_seat }

abbrev received_seats : Message → Option SeatsUpdate
received_seats m = as_m4 m.message_choice >>= seats_update

-- The values written to the client's place in shared memory after `no_update`, and whether
-- the listener has stopped, over the messages that it receives.
unfoldable pub listener_loop : List Message → Option (List SeatsUpdate × Bool)
listener_loop [] = some ([], false)
listener_loop (m ∷ messages) =
    let rest = listener_loop messages in
    if m.message_choice_number == choice_seats_response
    then (received_seats m >>= λ u. rest >>= λ (updates, stopped). some (u ∷ updates, stopped))
    else if m.message_choice_number == choice_exit
    then some ([], true)
    else rest

-- A seat for each id and status.
abbrev pub seats_of : List ℕ → List ℕ → List Seat
seats_of (i ∷ ids) (s ∷ status) = record { id = i; room_id = 0; status = s } ∷ seats_of ids status
seats_of _ _ = []

-- The loop of the polling thread of src/middleware/client_interface.cpp: `for (i < update.count) push_back(update.seats[i])`.
unfoldable pub read_seats : ℕ → List Seat → Option (List Seat)
read_seats zero cells = some []
read_seats (suc n) [] = none
read_seats (suc n) (c ∷ cells) = do rest ← read_seats n cells; some (c ∷ rest)

copy_seats_lem :
    (n : ℕ) (ids status : List ℕ) (cells : List Seat)
    → n ≤ length ids
    → n ≤ length status
    → n ≤ length cells
    → (copied : List Seat) × (copy_seats n ids status cells ≡ some copied)
      × (read_seats n copied ≡ some (seats_of (take n ids) (take n status)))
unfolding copy_seats read_seats
copy_seats_lem zero ids status cells h k l = (cells, refl, refl)
copy_seats_lem (suc n) [] status cells h k l = absurd (omega arith)
copy_seats_lem (suc n) (i ∷ ids) [] cells h k l = absurd (omega arith)
copy_seats_lem (suc n) (i ∷ ids) (s ∷ status) [] h k l = absurd (omega arith)
copy_seats_lem (suc n) (i ∷ ids) (s ∷ status) (c ∷ cells) h k l =
    let (copied, written, read) =
      copy_seats_lem n ids status cells (omega arith) (omega arith) (omega arith) in
    (record { id = i; room_id = 0; status = s } ∷ copied, rw written refl, rw read refl)

-- A seat map whose count lies within its arrays and the 50 places of the shared memory is written
-- as an update marked SUCCESS, and the client's polling loop, run over what was written, yields one
-- seat for each id and status that the message counts, in order.
pub read_seats-seats_update :
    (seats : M4Seats)
    → rounds seats.count ≤ length seats.seats_id
    → rounds seats.count ≤ length seats.seats_status
    → rounds seats.count ≤ max_seats
    → (u : SeatsUpdate) × (seats_update seats ≡ some u)
      × (u.update ≡ success_code)
      × (read_seats (rounds u.count) u.seats
          ≡ some (
              seats_of
                (take (rounds seats.count) seats.seats_id)
                (take (rounds seats.count) seats.seats_status)))
unfolding seats_update
read_seats-seats_update seats h k l =
    let (cells, copied, read) =
      copy_seats_lem (rounds seats.count) seats.seats_id seats.seats_status
        (replicate max_seats no_seat) h k l in
    (
      record { update = success_code; count = seats.count; seats = cells },
      rw copied refl,
      refl,
      read,
    )
