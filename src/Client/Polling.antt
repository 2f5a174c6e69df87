-- ===== src/Client/Polling.antt =====
-- One round of `_listener_thread` of src/middleware/client_interface.cpp.
use sist_distrib2c.Base.{
  ◌≤◌, ◌≡◌, refl, Bool, true, List, Option, some, none, ◌>>=◌, ◌==◌, if◌then◌else◌, length, take,
  ◌||◌,
}
use sist_distrib2c.Base.Words.{rounds}
use sist_distrib2c.Message.{Seat, SeatsUpdate, M4Seats, max_seats, success_code, not_success}
use sist_distrib2c.Mom.Listener.{seats_update, read_seats, seats_of, read_seats-seats_update}

-- The cell of shared memory after the round, the seats that `on_seat_update` gets, if it is called,
-- and whether the loop goes on.
unfoldable pub listener_poll : SeatsUpdate → Option (SeatsUpdate × Option (List Seat) × Bool)
listener_poll update =
    let seen = record update { update = not_success } in
    let goes_on = update.update == success_code || update.update == not_success in
    if update.update == success_code
    then (read_seats (rounds update.count) update.seats >>= λ seats.
        some (seen, some seats, goes_on))
    else some (seen, none, goes_on)

-- An update of the middleware whose count lies within its arrays is handed to the client program
-- once: the first round gives its ids and statuses in order, the next round gives nothing and leaves
-- the cell as it is, and the loop goes on after both.
pub listener_poll-seats_update :
    (seats : M4Seats)
    → rounds seats.count ≤ length seats.seats_id
    → rounds seats.count ≤ length seats.seats_status
    → rounds seats.count ≤ max_seats
    → (written seen : SeatsUpdate) × (seats_update seats ≡ some written)
      × (listener_poll written
          ≡ some (
            seen,
            some (
                seats_of
                  (take (rounds seats.count) seats.seats_id)
                  (take (rounds seats.count) seats.seats_status)),
            true,
          ))
      × (listener_poll seen ≡ some (seen, none, true))
unfolding listener_poll
listener_poll-seats_update seats ids status fits =
    let (written, made, success, read) = read_seats-seats_update seats ids status fits in
    (written, record written { update = not_success }, made, rw (success, read) refl, refl)
