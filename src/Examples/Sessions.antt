-- ===== src/Examples/Sessions.antt =====
-- A session of the cinema with a client that leaves at once.
use sist_distrib2c.Base.{true, ◌≡◌, ◌≢◌, ◌++◌, refl, List, [], ◌∷◌, All, arith, if◌then◌else◌, ◌==◌}
use sist_distrib2c.Message.{Message, choice_exit, zero_message}
use sist_distrib2c.Channel.{Channel, out_queue, receive_message_of, send_message}
use sist_distrib2c.Channel.Routing.{opposite}
use sist_distrib2c.Channel.Queues.{returns, send_on, receive_of, receive_on}
use sist_distrib2c.Channel.Delivery.{
  Event, sent, received, sends, here, waiting, received_from, sent_to,
}
use sist_distrib2c.Cinema.{Cinema}
use sist_distrib2c.Cinema.Start.{update_timestamp}
use sist_distrib2c.Cinema.Session.{
  Listener, Timer, Session, Reach, start, later, others_call, listener_receives, listener_works,
  listener_sends, listener_work, start_session, reply_channel, exit_answer, to_send, to_receive,
  after_send, after_receive, logs, replied,
}
use sist_distrib2c.Cinema.Session.Log.{IsRight, Uses, LoopsTo}
use sist_distrib2c.Cinema.Session.Warnings.{HasWarned, Outlives}
use sist_distrib2c.Cinema.Session.Answers.{Reach-answers}
use sist_distrib2c.Cinema.Session.Requests.{Got, in_queue}
use sist_distrib2c.Base.Words.{is_positive}
use sist_distrib2c.Cinema.Session.Race.{idle_session, race_events, timeout_unnoticed}
use sist_distrib2c.Cinema.Session.Steps.{answers_sent}
use sist_distrib2c.Cinema.Session.Traffic.{requests_answered}
use sist_distrib2c.Examples.Endless.{Stored, endless, endless_laws}
use sist_distrib2c.Examples.Queues.{
  cinema_side, user_side, leaves, one_sent, no_messages, sides_opposite,
}

abbrev cinema : Cinema
cinema = record {
  client_comm = cinema_side;
  admin_comm = record { id_firstqueue = 20; id_secondqueue = 21; orientation = 1; id = 1 };
  client_id = 7;
}

abbrev first_state : Session endless
first_state = start_session endless cinema no_messages (λ p. 0) 1000

abbrev request : Message
request = record leaves { message_type = 7 }

abbrev exit_sent : Message
exit_sent = record zero_message { message_choice_number = choice_exit; message_type = 7 }

abbrev for_admin : Message
for_admin = record request { client_id = 7; message_type = 1 }

abbrev taken_state : Stored
taken_state = λ q. if 11 == q then [] else one_sent q

abbrev admin_state : Stored
admin_state = λ q.
    if 21 == q
    then taken_state q ++ (record { mtype = 1; text = for_admin } ∷ [])
    else taken_state q

abbrev answered_state : Stored
answered_state = λ q.
    if 10 == q
    then admin_state q ++ (record { mtype = 7; text = exit_sent } ∷ [])
    else admin_state q

abbrev events : List Event
events =
    sent user_side leaves
    ∷ received cinema_side 7 request
    ∷ sent cinema.admin_comm (record request { client_id = 7 })
    ∷ sent cinema_side exit_answer
    ∷ []

-- The client has left, and the listener is about to kill the timer.
abbrev last_state : Session endless
last_state = record first_state {
  queues = answered_state;
  stamps = update_timestamp first_state.stamps 7 1000;
  listener = Listener.kills_timer;
  log = record { request = request; answer = exit_answer } ∷ [];
}

left : Reach endless cinema first_state events last_state
unfolding send_on send_message receive_on receive_of receive_message_of to_send to_receive
    after_send after_receive replied logs start_session listener_work
left =
    later
      {before = sent user_side leaves
        ∷ received cinema_side 7 request
        ∷ sent cinema.admin_comm (record request { client_id = 7 })
        ∷ []}
      (later {before = sent user_side leaves ∷ received cinema_side 7 request ∷ []}
        (later {before = sent user_side leaves ∷ received cinema_side 7 request ∷ []}
          (later {before = sent user_side leaves ∷ received cinema_side 7 request ∷ []}
            (later {before = sent user_side leaves ∷ []}
              (later start (
                others_call (sent user_side leaves ∷ [])
                  (sends user_side leaves refl (here one_sent))))
              (listener_receives cinema_side request {q = taken_state} refl refl))
            (listener_works refl))
          (listener_works refl))
        (listener_sends cinema.admin_comm (record request { client_id = 7 }) {q = admin_state} refl
          refl))
      (listener_sends cinema_side exit_answer {q = answered_state} refl refl)

Reach-answers_example :
    All IsRight last_state.log
    × Uses last_state.listener last_state.log last_state.replies
    × LoopsTo last_state.listener last_state.log
    × HasWarned last_state.timer last_state.warnings
    × Outlives last_state.listener last_state.timer
Reach-answers_example = Reach-answers endless cinema no_messages (λ p. 0) 1000 left

replies_apart : (receive_message_of (reply_channel cinema) 7).queue ≢ in_queue cinema
unfolding receive_message_of
replies_apart h = omega (arith, h)

requests_answered_example :
    (seen : List Message) × Got last_state.listener seen last_state.log
    × (seen ++ waiting endless endless_laws cinema_side 7 last_state.queues
        ≡ waiting endless endless_laws cinema_side 7 no_messages
          ++ sent_to (out_queue user_side) 7 events)
    × (received_from (receive_message_of user_side 7).queue 7 events
          ++ waiting endless endless_laws user_side 7 last_state.queues
        ≡ waiting endless endless_laws user_side 7 no_messages
          ++ answers_sent endless endless_laws cinema refl refl
              (omega arith)
              replies_apart
              (omega arith)
              last_state.log)
unfolding left
requests_answered_example =
    requests_answered endless endless_laws cinema refl refl (omega arith) replies_apart
      (omega arith) user_side no_messages (λ p. 0) 1000 (opposite sides_opposite) left
      ((((((tt, (refl, refl)), tt), tt), tt), tt), tt)

never_full :
    (channel : Channel) (x : Message) (s : Stored)
    → is_positive (send_message channel x).mtype ≡ true
    → (t : Stored) × (send_on endless channel x s ≡ returns tt t)
unfolding send_on
never_full channel x s positive =
    let call = send_message channel x in
    (
      λ q.
          if call.queue == q
          then s q ++ (record { mtype = call.mtype; text = call.message } ∷ [])
          else s q,
      rw positive refl,
    )

admin_apart : out_queue cinema.admin_comm ≢ in_queue cinema
unfolding receive_message_of
admin_apart h = omega (arith, h)

timeout_unnoticed_example :
    (t : Session endless) × Reach endless cinema
      (idle_session endless endless_laws cinema refl refl
        (omega arith)
        admin_apart
        no_messages
        (λ p. 0)
        1000
        [])
      (race_events endless endless_laws cinema refl refl (omega arith) admin_apart user_side leaves)
      t
    × (t.listener ≡ Listener.ended)
    × (t.timer ≡ Timer.killed)
    × (waiting endless endless_laws cinema_side 7 t.queues
        ≡ (send_message user_side leaves).message ∷ [])
timeout_unnoticed_example =
    timeout_unnoticed endless endless_laws cinema refl refl (omega arith) admin_apart user_side
      leaves no_messages (λ p. 0) 1000 [] (opposite sides_opposite) refl refl never_full refl
      (omega arith) (omega arith)
