-- ===== src/Cinema/Session/Race.antt =====
-- A time-out that the end of the session does not notice.
use sist_distrib2c.Base.{
  ℕ, ◌≡◌, ◌≢◌, Bool, refl, ap, ◌∙◌, true, false, ◌&&◌, List, [], ◌∷◌, ◌++◌, some, ◌==◌, arith,
  append-nil, ne→==, eq→==,
}
use sist_distrib2c.Base.Words.{is_positive}
use sist_distrib2c.Message.{Message}
use sist_distrib2c.Channel.{
  Channel, commqueue_as_server, out_queue, send_message, receive_message_of,
}
use sist_distrib2c.Channel.Routing.{AreOpposite}
use sist_distrib2c.Channel.Queues.{MessageQueues, QueueLaws, returns, send_on, receive_on}
use sist_distrib2c.Channel.Delivery.{Event, sent, received, sends, here, waiting, sent_view}
use sist_distrib2c.Channel.Waiting.{oldest_received, receive_on-defined}
use sist_distrib2c.Cinema.{Cinema}
use sist_distrib2c.Cinema.Timer.{exit_message, connection_timedout, timer_close}
use sist_distrib2c.Cinema.Start.{update_timestamp, get_timestamp}
use sist_distrib2c.Cinema.Session.{
  waits_request, checks_stamp, updates_stamp, handles, answers, kills_timer, reads_stamp,
  closes_timer, ended, warns, marks, killed, Session, Exchange, position, client_channel,
  timer_channel, exit_answer, to_send, to_receive, after_send, after_receive, logs, replied,
  kill_timer, listener_work, listener_sends, listener_receives, listener_works, timer_warns,
  others_call, Reach, start, later,
}

module _ (k : MessageQueues) (laws : QueueLaws k) (cinema : Cinema)
    (positive : is_positive cinema.client_id ≡ true)
    (server : cinema.client_comm.orientation ≡ commqueue_as_server)
    (two : cinema.client_comm.id_firstqueue ≢ cinema.client_comm.id_secondqueue)
    (apart : out_queue cinema.admin_comm
      ≢ (receive_message_of (client_channel cinema) cinema.client_id).queue) where
  abbrev warning : Message
  warning = (send_message (timer_channel cinema) exit_message).message

  abbrev for_admin : Message
  for_admin = record warning { client_id = cinema.client_id }

  -- The calls of the session, and then the client's.
  abbrev pub race_events : Channel → Message → List Event
  race_events user m =
      sent (timer_channel cinema) exit_message
      ∷ received (client_channel cinema) cinema.client_id warning
      ∷ sent cinema.admin_comm for_admin
      ∷ sent (client_channel cinema) exit_answer
      ∷ sent user m
      ∷ []

  -- The listener waits for a request, and the timer has found the client idle.
  abbrev pub idle_session : k.State → (ℕ → ℕ) → ℕ → List Exchange → Session k
  idle_session queues stamps now log = record {
    queues = queues;
    stamps = stamps;
    now = now;
    listener = waits_request;
    timer = warns;
    log = log;
    replies = [];
    warnings = 0;
  }

  module _ (user : Channel) (m : Message) (queues : k.State) (stamps : ℕ → ℕ) (now : ℕ)
      (log : List Exchange) (unmarked : stamps (position cinema) ≢ connection_timedout)
      (time : now ≢ connection_timedout) {q1 q2 q3 q4 q5 : k.State}
      (c1 : send_on k (timer_channel cinema) exit_message queues ≡ returns tt q1)
      (c2 : receive_on k (client_channel cinema) q1 ≡ returns warning q2)
      (c3 : send_on k cinema.admin_comm for_admin q2 ≡ returns tt q3)
      (c4 : send_on k (client_channel cinema) exit_answer q3 ≡ returns tt q4)
      (c5 : send_on k user m q4 ≡ returns tt q5) where
    abbrev idle : Session k
    idle = idle_session queues stamps now log

    abbrev warned : Session k
    warned = record idle { queues = q1; timer = marks; warnings = 1 }

    abbrev got : Session k
    got = record warned { queues = q2; listener = checks_stamp warning }

    abbrev stamped : ℕ → ℕ
    stamped = update_timestamp stamps (position cinema) now

    abbrev updated : Session k
    updated = record got { listener = handles warning; stamps = stamped }

    abbrev told : Session k
    told = record updated {
      queues = q3;
      listener = answers warning exit_answer true;
      log = log ++ [];
    }

    abbrev answered : Session k
    answered = record told {
      queues = q4;
      listener = kills_timer;
      log = (log ++ []) ++ (record { request = warning; answer = exit_answer } ∷ []);
    }

    abbrev over : Session k
    over = record answered {
      listener = ended;
      timer = killed;
      stamps = update_timestamp stamped (position cinema) timer_close;
    }

    abbrev first_calls : List Event
    first_calls =
        sent (timer_channel cinema) exit_message
        ∷ received (client_channel cinema) cinema.client_id warning
        ∷ []

    to_got : Reach k cinema idle first_calls got
    unfolding to_receive after_receive replied
    to_got =
        later {before = sent (timer_channel cinema) exit_message ∷ []}
          (later start (timer_warns refl c1))
          (listener_receives (client_channel cinema) warning refl c2)

    checks_work :
        listener_work k cinema got got.listener
        ≡ some (record got { listener = updates_stamp warning })
    unfolding listener_work get_timestamp
    checks_work = rw (ne→== _ _ unmarked) refl

    to_updated : Reach k cinema idle first_calls updated
    unfolding listener_work
    to_updated =
        later {before = first_calls}
          (later {before = first_calls} to_got (listener_works checks_work)) (listener_works refl)

    to_answered :
        Reach k cinema idle
          (first_calls
            ++ (sent cinema.admin_comm for_admin ∷ sent (client_channel cinema) exit_answer ∷ []))
          answered
    unfolding to_send after_send logs send_message
    to_answered =
        later {before = first_calls ++ (sent cinema.admin_comm for_admin ∷ [])}
          (later {t = updated} {u = told} {before = first_calls} to_updated
            (listener_sends cinema.admin_comm for_admin refl c3))
          (listener_sends (client_channel cinema) exit_answer refl c4)

    finishes_work :
        listener_work k cinema
          (record answered { listener = reads_stamp; timer = killed })
          reads_stamp
        ≡ some (record answered { listener = closes_timer; timer = killed })
    unfolding listener_work get_timestamp update_timestamp
    finishes_work = rw (eq→== _ _ refl, ne→== _ _ time) refl

    pub race_run : Reach k cinema idle (race_events user m) (record over { queues = q5 })
    unfolding listener_work kill_timer
    race_run =
        let quiet =
          first_calls
          ++ (sent cinema.admin_comm for_admin ∷ sent (client_channel cinema) exit_answer ∷ []) in
        later {t = over} {before = quiet}
          (later {before = quiet}
            (later {before = quiet} (later {before = quiet} to_answered (listener_works refl))
              (listener_works finishes_work))
            (listener_works refl))
          (others_call (sent user m ∷ []) (sends user m c5 (here q5)))

  abbrev in_queue : ℕ
  in_queue = (receive_message_of (client_channel cinema) cinema.client_id).queue

  abbrev waits_for : k.State → List Message
  waits_for = waiting k laws (client_channel cinema) cinema.client_id

  abbrev comes : Channel → Message → Bool
  comes channel m =
      (send_message channel m).queue == in_queue
      && (send_message channel m).mtype == cinema.client_id

  added :
      (channel : Channel) (m : Message) (s t : k.State)
      → comes channel m ≡ true
      → send_on k channel m s ≡ returns tt t
      → waits_for t ≡ waits_for s ++ ((send_message channel m).message ∷ [])
  added channel m s t h called =
      let view = sent_view k laws channel m s t in_queue cinema.client_id called in rw h at view

  not_added :
      (channel : Channel) (m : Message) (s t : k.State)
      → comes channel m ≡ false
      → send_on k channel m s ≡ returns tt t
      → waits_for t ≡ waits_for s
  not_added channel m s t h called =
      let view = sent_view k laws channel m s t in_queue cinema.client_id called in
      let same : waits_for t ≡ waits_for s ++ [] = rw h at view in same ∙ append-nil (waits_for s)

  warning_comes : comes (timer_channel cinema) exit_message ≡ true
  unfolding send_message receive_message_of
  warning_comes = ground arith

  admin_apart : comes cinema.admin_comm for_admin ≡ false
  unfolding send_message
  admin_apart = rw (ne→== _ _ apart) refl

  answer_apart : comes (client_channel cinema) exit_answer ≡ false
  unfolding send_message receive_message_of
  answer_apart = ground arith

  user_comes :
      (user : Channel) (m : Message)
      → AreOpposite (client_channel cinema) user
      → user.id ≡ cinema.client_id
      → comes user m ≡ true
  unfolding send_message receive_message_of
  user_comes user m sides same = ground arith

  positive_type :
      (channel : Channel) (m : Message)
      → is_positive channel.id ≡ true
      → is_positive (send_message channel m).mtype ≡ true
  unfolding send_message
  positive_type channel m h = ground arith

  -- If no queue is full, then whenever the listener waits with nothing under the client's id on its
  -- queue, and the timer has found the client idle and has the time-out not yet stored, there is an
  -- interleaving in which the listener answers the CHOICE_EXIT of the timer and ends the session
  -- without noticing the time-out, since it kills the timer before the time-out is stored; a
  -- message that the client sends afterwards, whatever it is, then stays in the queue and nobody
  -- waits for it.
  pub timeout_unnoticed :
      (user : Channel) (m : Message) (queues : k.State) (stamps : ℕ → ℕ) (now : ℕ)
      (log : List Exchange)
      → AreOpposite (client_channel cinema) user
      → user.id ≡ cinema.client_id
      → is_positive cinema.admin_comm.id ≡ true
      → ((channel : Channel) (x : Message) (s : k.State)
          → is_positive (send_message channel x).mtype ≡ true
          → (t : k.State) × (send_on k channel x s ≡ returns tt t))
      → waits_for queues ≡ []
      → stamps (position cinema) ≢ connection_timedout
      → now ≢ connection_timedout
      → (t : Session k) × Reach k cinema (idle_session queues stamps now log) (race_events user m) t
        × (t.listener ≡ ended)
        × (t.timer ≡ killed)
        × (waits_for t.queues ≡ (send_message user m).message ∷ [])
  timeout_unnoticed user m queues stamps now log sides same admin_positive never_full empty unmarked
        time =
      let (q1, c1) =
        never_full (timer_channel cinema) exit_message queues
          (positive_type (timer_channel cinema) exit_message positive) in
      let one : waits_for q1 ≡ warning ∷ [] =
        added (timer_channel cinema) exit_message queues q1 warning_comes c1
        ∙ ap (λ (l : List Message). l ++ (warning ∷ [])) empty in
      let (q2, c2, none_left) =
        oldest_received k laws (client_channel cinema) cinema.client_id warning [] q1 positive
          one in
      let (q3, c3) =
        never_full cinema.admin_comm for_admin q2
          (positive_type cinema.admin_comm for_admin admin_positive) in
      let (q4, c4) =
        never_full (client_channel cinema) exit_answer q3
          (positive_type (client_channel cinema) exit_answer positive) in
      let (q5, c5) =
        never_full user m q4
          (positive_type user m (ap (λ (i : ℕ). is_positive i) same ∙ positive)) in
      let left : waits_for q4 ≡ [] =
        not_added (client_channel cinema) exit_answer q3 q4 answer_apart c4
        ∙ not_added cinema.admin_comm for_admin q2 q3 admin_apart c3
        ∙ none_left in
      (
        _,
        race_run user m queues stamps now log unmarked time c1
            (receive_on-defined k laws (client_channel cinema) cinema.client_id q1 refl positive
              ∙ c2)
            c3 c4 c5,
        refl,
        refl,
        added user m q4 q5 (user_comes user m sides same) c5
            ∙ ap (λ (l : List Message). l ++ ((send_message user m).message ∷ [])) left,
      )
