-- ===== src/Examples/Cinema.antt =====
-- A client of the cinema, its timer, and its session at the middleware.
use sist_distrib2c.Base.{
  ◌-◌, ◌^◌, none, ℕ, ◌+◌, ◌≡◌, inr, refl, true, false, List, [], ◌∷◌, map, some, replicate, All,
  arith, any, if◌then◌else◌,
}
use sist_distrib2c.Message.{
  Message, M4Seats, SeatsUpdate, m1, zero_message, admin_request, choice_exit, choice_rooms_request,
  choice_rooms_response, success_code, type_connection_cinema_request, choice_connection_accepted,
  no_text, choice_seats_response,
}
use sist_distrib2c.Channel.{
  commqueue_as_server, Channel, Sent, sends, waits, commqueue_as_client, out_queue, send_message,
  receive_message, receive_message_of,
}
use sist_distrib2c.Db.{db_insert_user, db_login_user}
use sist_distrib2c.Db.Memory.{memory}
use sist_distrib2c.Admin.{admin_handle_request}
use sist_distrib2c.Cinema.{Cinema, registration, cinema_take_client}
use sist_distrib2c.Cinema.Connecting.{connection_accepted}
use sist_distrib2c.Cinema.Serving.{
  Round, serving, exited, cinema_listen_client, expected, through_exit, asks_exit, sent_to,
  cinema_listen_client_answers,
}
use sist_distrib2c.Cinema.Timer.{exit_message, timer_loop, timer_loop_lem}
use sist_distrib2c.Mom.{Mom, client_process, process_message, wanted_response}
use sist_distrib2c.Mom.Network.{start_mom, cinema_relay, update_relay, relays_reach_client}
use sist_distrib2c.Client.Polling.{listener_poll, listener_poll-seats_update}
use sist_distrib2c.Mom.Listener.{seats_update, seats_of}
use sist_distrib2c.Mom.Lifecycle.{
  session, forks, kill_calls, recorded, IsToSigkill, session_balance,
}
use sist_distrib2c.Examples.Admin.{cinema_db, admin_channel, activity_channel}

abbrev client_channel : Channel
client_channel = record { id_firstqueue = 40; id_secondqueue = 41; orientation = 0; id = 9 }

abbrev to_admin : Channel
to_admin = record admin_channel { orientation = 1 }

abbrev serving_cinema : Cinema
serving_cinema = record { client_comm = client_channel; admin_comm = to_admin; client_id = 9 }

abbrev round : ℕ → Round
round number = record {
  request = record zero_message { message_choice_number = number };
  stamp = 50;
  now = 60;
  reply = record zero_message { message_choice_number = choice_rooms_response };
}

abbrev two_requests : List Round
two_requests = round choice_rooms_request ∷ round choice_exit ∷ []

cinema_listen_client_answers_example :
    (sent_to (out_queue client_channel) (cinema_listen_client serving_cinema two_requests).0
      ≡ map (λ r. send_message client_channel (expected r)) (through_exit two_requests))
    × ((cinema_listen_client serving_cinema two_requests).1
        ≡ (if any asks_exit two_requests then exited else serving))
cinema_listen_client_answers_example =
    cinema_listen_client_answers serving_cinema two_requests (omega arith) (omega arith)

abbrev connecting : Message
connecting = record zero_message {
  message_type = type_connection_cinema_request;
  message_choice = m1 77;
}

abbrev asked : Sent
asked = send_message to_admin (registration 77)

connection_accepted_example :
    (reply : Sent) × (receive_message_of admin_channel admin_request
      ≡ record { queue = asked.queue; mtype = asked.mtype })
    × (admin_handle_request memory activity_channel cinema_db admin_channel asked.message
        ≡ some (
          (db_login_user memory
              (db_insert_user memory cinema_db).1
              (db_insert_user memory cinema_db).0).1,
          reply ∷ [],
        ))
    × (receive_message (record to_admin { id = 77 })
        ≡ some (record { queue = reply.queue; mtype = reply.mtype }))
    × ((cinema_take_client serving_cinema connecting reply.message).outcome
        ≡ some (db_insert_user memory cinema_db).0)
    × ((cinema_take_client serving_cinema connecting reply.message).actions
        ≡ waits (receive_message_of client_channel type_connection_cinema_request)
          ∷ sends asked
          ∷ waits (record { queue = reply.queue; mtype = reply.mtype })
          ∷ sends (
              send_message
                (record client_channel { id = 77 })
                (record zero_message {
                  message_choice_number = choice_connection_accepted;
                  message_choice = m1 (db_insert_user memory cinema_db).0;
                }))
          ∷ [])
connection_accepted_example =
    connection_accepted memory activity_channel admin_channel cinema_db serving_cinema connecting
      (record { first = refl; second = refl; sides = inr (omega arith, refl) }) refl (omega arith)

timer_loop_lem_example :
    (timer_loop client_channel ((10, 20) ∷ (15, 115) ∷ []) ≡ ([], false))
    × (timer_loop client_channel ((10, 20) ∷ (15, 115) ∷ (15, 116) ∷ (15, 117) ∷ []) ≡ (
      send_message (record client_channel { orientation = commqueue_as_client }) exit_message ∷ [],
      true,
    ))
timer_loop_lem_example =
    timer_loop_lem client_channel ((10, 20) ∷ (15, 115) ∷ []) ((15, 117) ∷ []) 15 116
      ((omega arith, omega arith, omega arith), ((omega arith, omega arith, omega arith), tt))
      (omega arith, omega arith) (omega arith)

abbrev seats : M4Seats
seats = record {
  count = 2;
  success = success_code;
  information = no_text;
  seats_id = 1 ∷ 2 ∷ replicate 48 0;
  seats_status = 0 ∷ 1 ∷ replicate 48 0;
}

abbrev mom : Mom
mom = record {
  client_queue = client_channel;
  cinema_queue = client_channel;
  listener_queue = client_channel;
  update_flag_position = 9;
  listener_pid = 0;
  client_local_id = 9;
  client_cinema_id = 3;
}

abbrev answers : List (Message × ℕ)
answers =
    (record zero_message { message_choice_number = choice_seats_response }, 500)
    ∷ (record zero_message { message_choice_number = choice_rooms_response }, 501)
    ∷ []

session_balance_example :
    (forks (session mom answers).1
      ≡ kill_calls (session mom answers).1 + recorded (session mom answers).0)
    × All IsToSigkill (session mom answers).1
session_balance_example = session_balance mom answers refl (omega arith, (omega arith, tt))

abbrev update_from_admin : Message
update_from_admin = record zero_message { message_type = 11 }

abbrev accepted : Message
accepted = record zero_message {
  message_choice_number = choice_connection_accepted;
  message_choice = m1 11;
}

abbrev fresh_channel : Channel
fresh_channel = record { id_firstqueue = 60; id_secondqueue = 61; orientation = 0; id = 2 ^ 32 - 1 }

abbrev host : Mom
host = start_mom client_channel fresh_channel fresh_channel

relays_reach_client_example :
    (sent : Sent) × ((cinema_relay host connecting update_from_admin).1
      ≡ waits
          (receive_message_of (record host.cinema_queue { orientation = commqueue_as_server }) 0)
        ∷ sends sent
        ∷ [])
    × (wanted_response (process_message (client_process host 77) accepted 500).0
        ≡ some (record { queue = sent.queue; mtype = sent.mtype }))
    × (receive_message (process_message (client_process host 77) accepted 500).0.listener_queue
        ≡ some (record {
          queue = (update_relay host update_from_admin).queue;
          mtype = (update_relay host update_from_admin).mtype;
        }))
relays_reach_client_example =
    relays_reach_client client_channel fresh_channel fresh_channel 77 500 accepted connecting
      update_from_admin update_from_admin (omega arith) refl (omega arith) refl refl

listener_poll-seats_update_example :
    (written seen : SeatsUpdate) × (seats_update seats ≡ some written)
    × (listener_poll written ≡ some (seen, some (seats_of (1 ∷ 2 ∷ []) (0 ∷ 1 ∷ [])), true))
    × (listener_poll seen ≡ some (seen, none, true))
listener_poll-seats_update_example =
    listener_poll-seats_update seats (omega arith) (omega arith) (omega arith)
