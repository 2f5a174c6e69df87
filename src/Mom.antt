-- ===== src/Mom.antt =====
-- src/middleware/mom.cpp: the middleware between the clients of a host and the cinema. A message
-- that the code receives and the pid that `fork` returns are arguments; what is returned are the
-- actions on the queues and on processes, in order.
pub mod Listener
pub mod Lifecycle
pub mod Network
pub mod Relay
use sist_distrib2c.Base.{
  ℕ, ◌%◌, Bool, true, false, List, [], ◌∷◌, ◌++◌, Option, none, some, ◌>>=◌, ◌==◌, if◌then◌else◌,
}
use sist_distrib2c.Base.Words.{minus_one}
use sist_distrib2c.Message.{
  Message, m1, zero_message, first_word, max_clients_host, success_code,
  type_connection_mom_request, choice_connection_accepted, choice_rooms_response,
  choice_seats_response, choice_seat_select_response, choice_exit,
}
use sist_distrib2c.Channel.{
  Channel, Sent, Wanted, Action, sends, waits, send_message, receive_message_of, receive_message,
}

abbrev pub undefined_cinema_client_id : ℕ
undefined_cinema_client_id = minus_one

abbrev pub listener_not_initialized : ℕ
listener_not_initialized = 0

abbrev pub sigkill : ℕ
sigkill = 9

-- The parts of the struct `Mom` that the process of one client uses.
pub record Mom : Type 0 where
  pub client_queue : Channel
  pub cinema_queue : Channel
  pub listener_queue : Channel
  pub update_flag_position : ℕ
  pub listener_pid : ℕ
  pub client_local_id : ℕ
  pub client_cinema_id : ℕ

pub data Effect : Type 0 where
  -- `fork()` of a listener process.
  forks_listener : Effect
  -- `kill(pid, signal)`.
  kills : (pid signal : ℕ) → Effect

-- `request` is the message of type TYPE_CONNECTION_MOM_REQUEST; the result is the local id.
unfoldable pub connect_client : Mom → Message → List Action × ℕ
connect_client mom request =
    let client_local_id = first_word request.message_choice in
    (
      waits (receive_message_of mom.client_queue type_connection_mom_request)
          ∷ sends (
              send_message (record mom.client_queue { id = client_local_id })
                (record zero_message {
                  message_choice_number = choice_connection_accepted;
                  message_choice = m1 (client_local_id % max_clients_host);
                }))
          ∷ [],
      client_local_id,
    )

-- `pid` is what `fork` returns to the parent.
unfoldable pub start_async_seat_listener : Mom → ℕ → Mom × List Effect
start_async_seat_listener mom pid =
    if mom.listener_pid == listener_not_initialized
    then (record mom { listener_pid = pid }, forks_listener ∷ [])
    else (mom, [])

-- The source writes `kill(SIGKILL, mom->listener_pid)`: the pid is SIGKILL.
unfoldable pub finish_async_seat_listener : Mom → Mom × List Effect
finish_async_seat_listener mom =
    if mom.listener_pid == listener_not_initialized then (mom, []) else (
      record mom { listener_pid = listener_not_initialized },
      kills sigkill mom.listener_pid ∷ [],
    )

-- The new state, what was done to processes, and `*exit`.
unfoldable pub process_message : Mom → Message → ℕ → Mom × List Effect × Bool
unfolding start_async_seat_listener finish_async_seat_listener
process_message mom message pid =
    let number = message.message_choice_number in
    let accepted = first_word message.message_choice in
    let started = start_async_seat_listener mom pid in
    let finished = finish_async_seat_listener mom in
    if number == choice_connection_accepted
    then (
      record mom {
        client_cinema_id = accepted;
        cinema_queue = record mom.cinema_queue { id = accepted };
        listener_queue = record mom.listener_queue { id = accepted };
      },
      [],
      false,
    )
    else if number == choice_seats_response
    then (started.0, started.1, false)
    else if number == choice_seat_select_response
    then (if first_word message.message_choice == success_code
        then (finished.0, finished.1, false)
        else (mom, [], false))
    else if number == choice_rooms_response
    then (finished.0, finished.1, false)
    else if number == choice_exit
    then (finished.0, finished.1, true)
    else (mom, [], false)

-- Where the answer of the cinema is waited for: under the local id until the cinema has given one.
unfoldable pub wanted_response : Mom → Option Wanted
wanted_response mom =
    if mom.client_cinema_id == undefined_cinema_client_id
    then some (receive_message_of mom.cinema_queue mom.client_local_id)
    else receive_message mom.cinema_queue

-- One round of the loop of `fork_client`; `none` is an exit in `THROW_UTIL`.
unfoldable pub client_round :
    Mom → Message → Message → ℕ → Option (List Action × (Mom × List Effect × Bool))
client_round mom request response pid = do
  from_client ← receive_message mom.client_queue
  from_cinema ← wanted_response mom
  some (
    waits from_client
        ∷ sends (send_message mom.cinema_queue request)
        ∷ waits from_cinema
        ∷ sends (send_message mom.client_queue response)
        ∷ [],
    process_message mom response pid,
  )

-- The child of `fork_client` before its loop.
unfoldable pub client_process : Mom → ℕ → Mom
client_process mom client_local_id = record mom {
  client_local_id = client_local_id;
  client_queue = record mom.client_queue { id = client_local_id };
  update_flag_position = client_local_id % max_clients_host;
}
