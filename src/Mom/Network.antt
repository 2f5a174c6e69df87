-- ===== src/Mom/Network.antt =====
-- `start_mom`, and the two processes of `network_listen` that relay between the queues of the host
-- and the sockets, of src/middleware/mom.cpp.
use sist_distrib2c.Base.{ℕ, ◌≡◌, ◌≢◌, List, [], ◌∷◌, some, ◌==◌, if◌then◌else◌, arith}
use sist_distrib2c.Base.Words.{minus_one}
use sist_distrib2c.Message.{Message, SeatsUpdate, first_word, choice_connection_accepted}
use sist_distrib2c.Channel.{
  Channel, Sent, Action, sends, waits, commqueue_as_server, commqueue_as_client, undefined_id,
  send_message, receive_message, receive_message_of,
}
use sist_distrib2c.Mom.{
  Mom, undefined_cinema_client_id, listener_not_initialized, client_process, process_message,
  wanted_response,
}

-- The arguments are what `create_commqueue` returns for the client, the cinema and the listener.
unfoldable pub start_mom : Channel → Channel → Channel → Mom
start_mom client cinema listener = record {
  client_queue = record client { orientation = commqueue_as_server };
  cinema_queue = record cinema { orientation = commqueue_as_client };
  listener_queue = record listener { orientation = commqueue_as_client };
  update_flag_position = 0;
  listener_pid = listener_not_initialized;
  client_local_id = minus_one;
  client_cinema_id = undefined_cinema_client_id;
}

-- The shared memory as a function of the position; the semaphore around each access is left out.
unfoldable pub flag_update_read : Mom → (ℕ → SeatsUpdate) → SeatsUpdate
flag_update_read mom flags = flags mom.update_flag_position

unfoldable pub flag_update_write : Mom → SeatsUpdate → (ℕ → SeatsUpdate) → ℕ → SeatsUpdate
flag_update_write mom update flags position =
    if position == mom.update_flag_position then update else flags position

-- One round of the first process: `request` comes from the queue and goes out by `send_packet`,
-- `answer` comes in by `receive_packet`.
unfoldable pub cinema_relay : Mom → Message → Message → Message × List Action
cinema_relay mom request answer =
    let comm = record mom.cinema_queue { orientation = commqueue_as_server } in
    (request, waits (receive_message_of comm 0) ∷ sends (send_message comm answer) ∷ [])

-- One round of the second process.
unfoldable pub update_relay : Mom → Message → Sent
update_relay mom update =
    send_message (record mom.listener_queue { orientation = commqueue_as_server; id = minus_one })
      update

-- Once the cinema has accepted a client under an id other than -1, an answer and an update that
-- come over the sockets with that id as their type are put on the queue and under the type on which
-- the client's process waits for an answer, and its listener for an update.
pub relays_reach_client :
    (client cinema listener : Channel) (local_id pid : ℕ) (accepted request answer update : Message)
    → cinema.id ≡ undefined_id
    → accepted.message_choice_number ≡ choice_connection_accepted
    → first_word accepted.message_choice ≢ undefined_id
    → answer.message_type ≡ first_word accepted.message_choice
    → update.message_type ≡ first_word accepted.message_choice
    → (sent : Sent) × ((cinema_relay (start_mom client cinema listener) request answer).1
        ≡ waits (
            receive_message_of
              (record (start_mom client cinema listener).cinema_queue {
                orientation = commqueue_as_server;
              })
              0)
          ∷ sends sent
          ∷ [])
      × (wanted_response
            (process_message
              (client_process (start_mom client cinema listener) local_id)
              accepted
              pid).0
          ≡ some (record { queue = sent.queue; mtype = sent.mtype }))
      × (receive_message
            (process_message
              (client_process (start_mom client cinema listener) local_id)
              accepted
              pid).0.listener_queue
          ≡ some (record {
            queue = (update_relay (start_mom client cinema listener) update).queue;
            mtype = (update_relay (start_mom client cinema listener) update).mtype;
          }))
unfolding start_mom cinema_relay update_relay process_message client_process wanted_response
    receive_message receive_message_of send_message
relays_reach_client client cinema listener local_id pid accepted request answer update fresh accepts
      defined a u =
    (
      send_message (record cinema { orientation = commqueue_as_server }) answer,
      ground arith,
      ground arith,
      ground arith,
    )
