-- ===== src/Examples/Relays.antt =====
-- A client of a host that leaves before it is connected to the cinema.
use sist_distrib2c.Base.{◌≡◌, ◌≢◌, ◌++◌, refl, inl, List, [], ◌∷◌, arith, if◌then◌else◌, ◌==◌}
use sist_distrib2c.Message.{Message}
use sist_distrib2c.Channel.{Channel, undefined_id, out_queue, receive_message_of, send_message}
use sist_distrib2c.Channel.Routing.{AreOpposite}
use sist_distrib2c.Channel.Queues.{send_on, parcel_of, parcel_on}
use sist_distrib2c.Channel.Delivery.{
  Event, sent, received, sends, here, waiting, received_from, sent_to,
}
use sist_distrib2c.Mom.{Mom, undefined_cinema_client_id, process_message}
use sist_distrib2c.Mom.Relay.{
  sends as relay_sends, receives as relay_receives, works, others_call, Stage, Relay, start_relay,
  Reach, start, later, to_send, to_receive, receive_next, after_send, after_receive, passes, work,
}
use sist_distrib2c.Mom.Relay.Stages.{Took, Ends}
use sist_distrib2c.Mom.Relay.Calls.{responses_sent}
use sist_distrib2c.Mom.Relay.Passing.{responses_passed_on}
use sist_distrib2c.Examples.Endless.{Stored, endless, endless_laws}
use sist_distrib2c.Examples.Queues.{cinema_side, leaves, no_messages}

abbrev host_side : Channel
host_side = record { id_firstqueue = 30; id_secondqueue = 31; orientation = 0; id = 7 }

abbrev program_side : Channel
program_side = record { id_firstqueue = 30; id_secondqueue = 31; orientation = 1; id = 7 }

abbrev to_cinema : Channel
to_cinema = record { id_firstqueue = 10; id_secondqueue = 11; orientation = 1; id = undefined_id }

abbrev mom : Mom
mom = record {
  client_queue = record host_side { id = undefined_id };
  cinema_queue = to_cinema;
  listener_queue = to_cinema;
  update_flag_position = 0;
  listener_pid = 0;
  client_local_id = undefined_id;
  client_cinema_id = undefined_cinema_client_id;
}

abbrev request : Message
request = record leaves { message_type = 7 }

abbrev asked_state : Stored
asked_state = λ q.
    if 31 == q then no_messages q ++ (record { mtype = 7; text = request } ∷ []) else no_messages q

abbrev taken_state : Stored
taken_state = λ q. if 31 == q then [] else asked_state q

abbrev forwarded_state : Stored
forwarded_state = λ q.
    if 11 == q then taken_state q ++ (record { mtype = 7; text = request } ∷ []) else taken_state q

abbrev replied_state : Stored
replied_state = λ q.
    if 10 == q
    then forwarded_state q ++ (record { mtype = 7; text = request } ∷ [])
    else forwarded_state q

abbrev received_state : Stored
received_state = λ q. if 10 == q then [] else replied_state q

abbrev answered_state : Stored
answered_state = λ q.
    if 30 == q
    then received_state q ++ (record { mtype = 7; text = request } ∷ [])
    else received_state q

abbrev calls : List Event
calls =
    sent program_side leaves
    ∷ received host_side 7 request
    ∷ sent to_cinema request
    ∷ sent cinema_side leaves
    ∷ received to_cinema 7 request
    ∷ sent host_side request
    ∷ []

abbrev first_stage : Relay endless
first_stage = start_relay endless no_messages mom 7

abbrev last_stage : Relay endless
last_stage = record first_stage {
  queues = answered_state;
  stage = Stage.ended;
  log = record { request = request; response = request } ∷ [];
}

passed : Reach endless first_stage calls last_stage
unfolding send_on send_message parcel_on parcel_of receive_message_of to_send to_receive
    receive_next after_send after_receive passes work start_relay process_message
passed =
    later {before = calls}
      (later
        {before = sent program_side leaves
          ∷ received host_side 7 request
          ∷ sent to_cinema request
          ∷ sent cinema_side leaves
          ∷ received to_cinema 7 request
          ∷ []}
        (later
          {before = sent program_side leaves
            ∷ received host_side 7 request
            ∷ sent to_cinema request
            ∷ sent cinema_side leaves
            ∷ []}
          (later
            {before = sent program_side leaves
              ∷ received host_side 7 request
              ∷ sent to_cinema request
              ∷ []}
            (later {before = sent program_side leaves ∷ received host_side 7 request ∷ []}
              (later {before = sent program_side leaves ∷ []}
                (later start (
                  others_call (sent program_side leaves ∷ [])
                    (sends program_side leaves refl (here asked_state))))
                (relay_receives host_side 7 (record { mtype = 7; text = request }) {q = taken_state}
                  refl refl))
              (relay_sends to_cinema request {q = forwarded_state} refl refl))
            (others_call (sent cinema_side leaves ∷ [])
              (sends cinema_side leaves refl (here replied_state))))
          (relay_receives to_cinema 7 (record { mtype = 7; text = request }) {q = received_state}
            refl refl))
        (relay_sends host_side request {q = answered_state} refl refl))
      (works 0 refl)

host_opposite : AreOpposite host_side program_side
host_opposite = record { first = refl; second = refl; sides = inl (refl, omega arith) }

answers_apart : (receive_message_of to_cinema 7).queue ≢ (receive_message_of host_side 7).queue
unfolding receive_message_of
answers_apart h = omega (arith, h)

responses_passed_on_example :
    (seen : List Message) × Took last_stage.stage seen last_stage.log
    × Ends last_stage.stage last_stage.log
    × (seen ++ waiting endless endless_laws host_side 7 last_stage.queues
        ≡ waiting endless endless_laws host_side 7 no_messages
          ++ sent_to (out_queue program_side) 7 calls)
    × (received_from (receive_message_of program_side 7).queue 7 calls
          ++ waiting endless endless_laws program_side 7 last_stage.queues
        ≡ waiting endless endless_laws program_side 7 no_messages
          ++ responses_sent endless endless_laws host_side to_cinema refl refl
              (omega arith)
              answers_apart
              (omega arith)
              last_stage.log)
unfolding passed
responses_passed_on_example =
    responses_passed_on endless endless_laws host_side to_cinema refl refl (omega arith)
      answers_apart (omega arith) program_side no_messages mom host_opposite refl refl refl passed
      (((((((tt, (refl, refl)), tt), tt), (refl, refl)), tt), tt), tt)
