-- ===== src/Cinema.antt =====
-- src/cinema/cinema_handler.cpp and src/cinema/cinema.cpp: connecting a client and serving its
-- requests. A message that the code receives is an argument; what is returned are the actions on
-- the queues, in order. `none` for an outcome is the exit of `THROW_UTIL`.
pub mod Timer
pub mod Serving
pub mod Connecting
pub mod Start
pub mod Session
use sist_distrib2c.Base.{
  ℕ, ◌+◌, ◌≡◌, Bool, true, false, ◌||◌, List, [], ◌∷◌, ◌++◌, Option, none, some, ◌==◌,
  if◌then◌else◌, ◌%◌, ◌≢◌,
}
use sist_distrib2c.Base.Words.{minus_one}
use sist_distrib2c.Message.{
  Message, m1, zero_message, first_word, max_clients, type_connection_cinema_request,
  choice_connection_accepted, choice_rooms_request, choice_seats_request,
  choice_seat_select_request, choice_exit, choice_invalid_request, choice_pay_reservation_request,
}
use sist_distrib2c.Channel.{
  Channel, Sent, Wanted, Action, sends, waits, commqueue_as_client, send_message,
  receive_message_of, receive_message,
}

-- The parts of the struct `Cinema` that these functions use.
pub record Cinema : Type 0 where
  pub client_comm : Channel
  pub admin_comm : Channel
  pub client_id : ℕ

pub record Ran {ℓ} (A : Type ℓ) : Type ℓ where
  pub actions : List Action
  pub outcome : Option A

abbrev pub receiving {ℓ} : {A : Type ℓ} → List Action → Option Wanted → List Action → A → Ran A
receiving before none after a = record { actions = before; outcome = none }
receiving before (some wanted) after a = record {
  actions = before ++ (waits wanted ∷ after);
  outcome = some a;
}

abbrev pub is_forwarded : ℕ → Bool
is_forwarded number =
    number == choice_seats_request
    || number == choice_rooms_request
    || number == choice_pay_reservation_request
    || number == choice_seat_select_request

-- `reply` is what the admin sends back, if it is waited for; the Boolean is `*exit`.
unfoldable pub cinema_handle : Channel → Message → Message → Ran (Message × Bool)
cinema_handle admin message reply =
    if is_forwarded message.message_choice_number
    then receiving (sends (send_message admin message) ∷ [])
        (receive_message (record admin { id = message.client_id })) [] (reply, false)
    else if message.message_choice_number == choice_exit
    then record {
      actions = sends (send_message admin message) ∷ [];
      outcome = some (record zero_message { message_choice_number = choice_exit }, true);
    }
    else record {
      actions = [];
      outcome =
          some (record zero_message { message_choice_number = choice_invalid_request }, false);
    }

unfoldable pub send_confirmation : Cinema → Action
send_confirmation cinema = sends (
    send_message cinema.client_comm (record zero_message {
      message_choice_number = choice_connection_accepted;
      message_choice = m1 cinema.client_id;
    }))

-- Reaping finished children is left out. `request` is the connection request, `registered` the
-- admin's answer. The result is the client's id.
unfoldable pub registration : ℕ → Message
registration client_id = record zero_message {
  client_id = client_id;
  message_choice_number = choice_connection_accepted;
}

abbrev pub confirmed : Cinema → Message → List Action → Ran ℕ
confirmed cinema registered before =
    if registered.message_choice_number == choice_connection_accepted
    then record {
      actions =
          before
          ++ (send_confirmation (record cinema { client_id = first_word registered.message_choice })
              ∷ []);
      outcome = some (first_word registered.message_choice);
    }
    else record { actions = before; outcome = none }

abbrev pub registering : Cinema → Message → List Action → Option Wanted → Ran ℕ
registering cinema registered before none = record { actions = before; outcome = none }
registering cinema registered before (some wanted) =
    confirmed cinema registered (before ++ (waits wanted ∷ []))

unfoldable pub cinema_take_client : Cinema → Message → Message → Ran ℕ
cinema_take_client cinema request registered =
    let client_id = first_word request.message_choice in
    registering (record cinema { client_comm = record cinema.client_comm { id = client_id } })
      registered
      (waits (receive_message_of cinema.client_comm type_connection_cinema_request)
        ∷ sends (send_message cinema.admin_comm (registration client_id))
        ∷ [])
      (receive_message (record cinema.admin_comm { id = client_id }))

-- One round of the relay of `network_listen` for a remote host: `request` comes from the socket,
-- `answer` from the queue, and goes back over the socket.
unfoldable pub relay : Channel → Message → Message → List Action × Message
relay client_comm request answer =
    let comm = record client_comm { orientation = commqueue_as_client; id = minus_one } in
    (
      sends (send_message comm request)
          ∷ waits (
              receive_message_of comm (
                if request.message_type == type_connection_cinema_request
                then first_word request.message_choice
                else request.message_type))
          ∷ [],
      answer,
    )
