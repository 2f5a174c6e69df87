-- ===== src/Client/Session.antt =====
-- `init_mom`, `login`, `end_mom` and the calls that look at a client, of
-- src/middleware/client_interface.cpp.
use sist_distrib2c.Base.{
  ℕ, Bool, true, false, not, codes, [], ◌∷◌, Option, none, some, ◌>>=◌, ◌==◌, if◌then◌else◌,
}
use sist_distrib2c.Message.{
  Message, m1, zero_message, first_word, choice_connection_accepted, choice_exit,
  type_connection_mom_request, type_connection_cinema_request,
}
use sist_distrib2c.Channel.{
  Channel, sends, waits, commqueue_as_client, send_message, receive_message,
}
use sist_distrib2c.Client.Registry.{
  MomError, Client, Clients, store, erase, get_client, with_error, clean_error, end_listener_thread,
  error_no_error, error_cannot_connect_to_cinema, error_on_disconnect_cinema, error_general_error,
  error_mom_already_init, error_mom_not_initialized, undefined_client_id,
}
use sist_distrib2c.Client.Exchange.{Called, exchange, asking}

-- `mom_queue` is what `create_commqueue` returns, with the id -1, and `pid` is `getpid()`.
abbrev pub new_client : Channel → ℕ → ℕ → Client
new_client mom_queue pid position = record {
  mom_queue = record mom_queue { orientation = commqueue_as_client; id = pid };
  listener_updates_position = position;
  has_update_data = false;
  reservations = [];
  local_id = pid;
  cinema_id = undefined_client_id;
  connected = true;
  error = record { error_type = error_no_error; info = [] };
}

abbrev pub mom_request : ℕ → Message
mom_request pid = record zero_message {
  message_type = type_connection_mom_request;
  message_choice = m1 pid;
}

unfoldable pub init_mom : Clients → Channel → ℕ → Message → Option (Called ℕ)
init_mom clients mom_queue pid response = elim (get_client clients pid false) [
  | some client ↦ some (record {
    clients =
        store pid
          (with_error client error_mom_already_init (codes "Error. MOM is already initialized"))
          clients;
    actions = [];
    value = pid;
  })
  | none ↦
      (receive_message (record mom_queue { orientation = commqueue_as_client; id = pid })
        >>= λ wanted. some (record {
          clients =
              if response.message_choice_number == choice_connection_accepted
              then store pid (new_client mom_queue pid (first_word response.message_choice)) clients
              else clients;
          actions =
              sends (
                send_message (record mom_queue { orientation = commqueue_as_client })
                  (mom_request pid))
              ∷ waits wanted
              ∷ [];
          value = pid;
        }))
]

-- The request of `_connect_to_cinema`, and the id that it makes of the answer.
unfoldable pub cinema_request : Client → Message
cinema_request client = record {
  message_type = type_connection_cinema_request;
  client_id = 0;
  message_choice_number = type_connection_cinema_request;
  message_choice = m1 client.local_id;
}

unfoldable pub connected_id : Message → ℕ
connected_id response =
    if response.message_choice_number == choice_connection_accepted
    then first_word response.message_choice
    else undefined_client_id

-- The pointer is followed without a test: `none` for an unknown client.
unfoldable pub login : Clients → ℕ → Message → Option (Called Bool)
login clients fd response = do
  found ← get_client clients fd false
  actions ← exchange found (cinema_request found)
  let client = record (clean_error found) { cinema_id = connected_id response }
  if client.cinema_id == undefined_client_id
      then some (record {
        clients =
            store fd
              (with_error client error_cannot_connect_to_cinema
                (codes "Cannot connect with cinema"))
              clients;
        actions = actions;
        value = false;
      })
      else some (record {
        clients = store fd (record client { connected = true }) clients;
        actions = actions;
        value = true;
      })

unfoldable pub is_connected : Clients → ℕ → Bool
is_connected clients fd = elim (get_client clients fd true) [
  | none ↦ false
  | some client ↦ client.connected
]

unfoldable pub is_error : Clients → ℕ → Bool
is_error clients fd = elim (get_client clients fd true) [
  | none ↦ true
  | some client ↦ not (client.error.error_type == error_no_error)
]

unfoldable pub get_error : Clients → ℕ → MomError
get_error clients fd = elim (get_client clients fd true) [
  | none ↦ record { error_type = error_mom_not_initialized; info = codes "MOM not initialized" }
  | some client ↦ client.error
]

-- `_disconnect(client)`: the client after, and whether the cinema answered CHOICE_EXIT.
unfoldable pub disconnect : Client → Bool → Message → Client × Bool
disconnect client cancelled response =
    let ended = end_listener_thread client cancelled in
    if response.message_choice_number == choice_exit
    then (record ended { connected = false }, true)
    else (
      with_error ended error_on_disconnect_cinema (codes "Error after exited from cinema"),
      false,
    )

abbrev ended_mom : Clients → ℕ → Client × Bool → Clients
ended_mom clients fd (client, true) = erase fd clients
ended_mom clients fd (client, false) =
    store fd (with_error client error_general_error (codes "Error on en MOM")) clients

unfoldable pub end_mom : Clients → ℕ → Bool → Message → Option (Called Bool)
end_mom clients fd cancelled response = elim (get_client clients fd true) [
  | none ↦ some (record { clients = clients; actions = []; value = true })
  | some found ↦
      (exchange found (asking choice_exit (m1 0)) >>= λ actions. some (record {
        clients = ended_mom clients fd (disconnect (clean_error found) cancelled response);
        actions = actions;
        value = (disconnect (clean_error found) cancelled response).1;
      }))
]
