-- ===== src/Client/Exchange.antt =====
-- What the calls of client_interface.cpp share: a request with its answer, and the errors.
use sist_distrib2c.Base.{
  ℕ, Bool, false, codes, List, [], ◌∷◌, Option, some, ◌>>=◌, ◌==◌, if◌then◌else◌,
}
use sist_distrib2c.Message.{Message, Choice, zero_message, choice_exit}
use sist_distrib2c.Channel.{Action, sends, waits, send_message, receive_message}
use sist_distrib2c.Client.Registry.{
  Client, Clients, with_error, end_listener_thread, error_cinema_close_connection,
  error_general_error,
}

pub record Called {ℓ} (A : Type ℓ) : Type ℓ where
  pub clients : Clients
  pub actions : List Action
  pub value : A

-- Send a request on the client's queue and wait for its answer.
abbrev pub exchange : Client → Message → Option (List Action)
exchange client request = do
  wanted ← receive_message client.mom_queue
  some (sends (send_message client.mom_queue request) ∷ waits wanted ∷ [])

abbrev pub asking : ℕ → Choice → Message
asking number choice = record zero_message {
  message_choice_number = number;
  message_choice = choice;
}

-- "Cinema close connection", after `_disconnect(client, false)`.
unfoldable pub closed_by_cinema : Client → Bool → Client
closed_by_cinema client cancelled =
    with_error (record (end_listener_thread client cancelled) { connected = false })
      error_cinema_close_connection (codes "Cinema close connection")

-- What the calls do with an answer of another kind than the one wanted.
unfoldable pub unexpected : Client → Bool → Message → List ℕ → Client
unfolding closed_by_cinema
unexpected client cancelled response info =
    if response.message_choice_number == choice_exit
    then closed_by_cinema client cancelled
    else with_error client error_general_error info
