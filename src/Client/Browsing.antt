-- ===== src/Client/Browsing.antt =====
-- `get_rooms` and `get_seats` of src/middleware/client_interface.cpp.
use sist_distrib2c.Base.{
  ℕ, zero, suc, Bool, true, codes, c_string, List, [], ◌∷◌, ◌++◌, Option, none, some, ◌>>=◌, ◌==◌,
  if◌then◌else◌,
}
use sist_distrib2c.Base.Words.{rounds}
use sist_distrib2c.Message.{
  Message, Choice, m1, m3, M4Seats, Seat, as_m2, as_m4, not_success, choice_rooms_request,
  choice_rooms_response, choice_seats_request, choice_seats_response,
}
use sist_distrib2c.Mom.Listener.{seats_of}
use sist_distrib2c.Client.Registry.{
  Client, Clients, store, get_client, with_error, clean_error, end_listener_thread,
  error_general_error,
}
use sist_distrib2c.Client.Exchange.{Called, exchange, asking, unexpected}

-- `cells[i]` for i below `n`; `none` past the end of the array.
unfoldable pub read_cells {ℓ} : {A : Type ℓ} → ℕ → List A → Option (List A)
read_cells zero cells = some []
read_cells (suc n) [] = none
read_cells (suc n) (c ∷ cells) = do rest ← read_cells n cells; some (c ∷ rest)

-- The room ids of a CHOICE_ROOMS_RESPONSE.
unfoldable pub rooms_of : Choice → Option (List ℕ)
rooms_of choice = do (count, ids) ← as_m2 choice; read_cells (rounds count) ids

-- `_clean_error` of a null pointer does nothing, but `end_listener_thread` follows it.
unfoldable pub get_rooms : Clients → ℕ → Bool → Message → Option (Called (List ℕ))
get_rooms clients fd cancelled response = do
  found ← get_client clients fd true
  let client = end_listener_thread (clean_error found) cancelled
  actions ← exchange client (asking choice_rooms_request (m1 0))
  if response.message_choice_number == choice_rooms_response
      then (rooms_of response.message_choice >>= λ rooms.
          some (record { clients = store fd client clients; actions = actions; value = rooms }))
      else some (record {
        clients =
            store fd
              (unexpected client cancelled response
                (codes "Unexpected Error after CHOICE_ROOMS_REQUEST"))
              clients;
        actions = actions;
        value = [];
      })

unfoldable pub seat_to_vector : M4Seats → Option (List Seat)
seat_to_vector seats = do
  ids ← read_cells (rounds seats.count) seats.seats_id
  status ← read_cells (rounds seats.count) seats.seats_status
  some (seats_of ids status)

-- `start_listener_thread`; `created` is whether `pthread_create` gives 0.
unfoldable pub start_listener_thread : Client → Bool → Bool → Client
start_listener_thread client cancelled created =
    let ended = end_listener_thread client cancelled in
    if created then ended else with_error ended error_general_error (codes "Cannot start listener")

abbrev listening : Client → Bool → Bool → Bool → Client
listening client updates cancelled created =
    if updates
    then start_listener_thread (record client { has_update_data = true }) cancelled created
    else client

abbrev refused_room : Client → M4Seats → Client
refused_room client seats =
    with_error client error_general_error
      (codes "Not succes after select room: \"" ++ (c_string seats.information ++ codes "\""))

-- `updates` is whether `on_update_data` is not null.
unfoldable pub get_seats :
    Clients → ℕ → ℕ → (updates cancelled created : Bool) → Message → Option (Called (List Seat))
get_seats clients fd room updates cancelled created response = do
  found ← get_client clients fd true
  let client = end_listener_thread (clean_error found) cancelled
  actions ← exchange client (asking choice_seats_request (m3 room))
  let answered = do
    seats ← as_m4 response.message_choice
    if seats.success == not_success
        then some (record {
          clients = store fd (refused_room client seats) clients;
          actions = actions;
          value = [];
        })
        else (seat_to_vector seats >>= λ vector. some (record {
          clients = store fd (listening client updates cancelled created) clients;
          actions = actions;
          value = vector;
        }))
  if response.message_choice_number == choice_seats_response
      then answered
      else some (record {
        clients =
            store fd
              (unexpected client cancelled response
                (codes "Unexpected Error after CHOICE_SEATS_REQUEST"))
              clients;
        actions = actions;
        value = [];
      })
