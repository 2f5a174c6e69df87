-- ===== src/Cinema/Session/Steps.antt =====
-- What the calls of one step of a session do.
use mathlib.Core.List.{map-append}
use sist_distrib2c.Base.{
  ℕ, ◌≡◌, ◌≢◌, refl, sym, ◌∙◌, subst, Bool, true, false, ◌&&◌, List, [], ◌∷◌, ◌++◌, map, ◌==◌,
  ne→==, arith, append-nil,
}
use sist_distrib2c.Base.Words.{is_positive}
use sist_distrib2c.Message.{Message}
use sist_distrib2c.Channel.{
  Channel, commqueue_as_server, out_queue, send_message, receive_message_of,
}
use sist_distrib2c.Channel.Queues.{
  MessageQueues, QueueLaws, returns, receive_of, parcel_of, receive_on,
}
use sist_distrib2c.Channel.Delivery.{
  Event, sent, received, sent_to, received_from, Run, here, sends, receives, fails_to_send,
  fails_to_receive,
}
use sist_distrib2c.Channel.Waiting.{receive_on-defined, receive_of_asked, receive_of_failed}
use sist_distrib2c.Cinema.{Cinema}
use sist_distrib2c.Cinema.Timer.{exit_message}
use sist_distrib2c.Cinema.Session.Views.{
  Sending, sends_request, sends_exit, sends_answer, Receiving, takes_request, takes_reply,
  takes_last, to_send_view, to_receive_view,
}
use sist_distrib2c.Cinema.Session.{
  Listener, Exchange, Session, client_channel, timer_channel, reply_channel, logs, Step,
  listener_sends, listener_receives, listener_cannot_send, listener_cannot_receive, listener_works,
  timer_warns, timer_cannot_warn, timer_works, clock, others_call, others_stamp, Reach, start,
  later,
}
use sist_distrib2c.Cinema.Session.Requests.{
  Got, Got-any, in_queue, came, Receiving-id, got_sends, got_receives, got_works, works_leave,
  timer_leaves,
}

module _ (k : MessageQueues) (laws : QueueLaws k) (cinema : Cinema)
    (positive : is_positive cinema.client_id ≡ true)
    (server : cinema.client_comm.orientation ≡ commqueue_as_server)
    (two : cinema.client_comm.id_firstqueue ≢ cinema.client_comm.id_secondqueue)
    (apart_in : (receive_message_of (reply_channel cinema) cinema.client_id).queue
      ≢ in_queue cinema)
    (apart_out : out_queue cinema.admin_comm ≢ out_queue (client_channel cinema)) where
  abbrev out : ℕ
  out = out_queue (client_channel cinema)

  -- The answers given, as they are sent.
  abbrev pub answers_sent : List Exchange → List Message
  answers_sent = map (λ (x : Exchange). (send_message (client_channel cinema) x.answer).message)

  -- The other processes neither take a message under the client's id from the queue of the requests
  -- nor send one under it on the queue of the answers.
  abbrev pub KeepsOff : {s t : Session k} {events : List Event} → Step k cinema s events t → Type 0
  KeepsOff (others_call events h) =
      (received_from (in_queue cinema) cinema.client_id events ≡ [])
      × (sent_to out cinema.client_id events ≡ [])
  KeepsOff _ = Unit {0}

  abbrev pub AllKeepOff :
      {s t : Session k} {events : List Event} → Reach k cinema s events t → Type 0
  AllKeepOff start = Unit {0}
  AllKeepOff (later r step) = AllKeepOff r × KeepsOff step

  -- What the calls of a step do.
  pub record Traffic (s : Session k) (events : List Event) (t : Session k) : Type 0 where
    pub ran : Run k s.queues events t.queues
    pub got :
        (seen : List Message)
        → Got s.listener seen s.log
        → Got t.listener (seen ++ received_from (in_queue cinema) cinema.client_id events) t.log
    pub answered : answers_sent t.log ≡ answers_sent s.log ++ sent_to out cinema.client_id events

  abbrev goes_out : Channel → Message → Bool
  goes_out channel m =
      (send_message channel m).queue == out && (send_message channel m).mtype == cinema.client_id

  abbrev comes_in : Channel → Bool
  comes_in channel =
      (receive_message_of channel channel.id).queue == in_queue cinema
      && channel.id == cinema.client_id

  admin_goes_elsewhere : (m : Message) → goes_out cinema.admin_comm m ≡ false
  unfolding send_message
  admin_goes_elsewhere m = rw (ne→== _ _ apart_out) refl

  answer_goes_out : (m : Message) → goes_out (client_channel cinema) m ≡ true
  unfolding send_message
  answer_goes_out m = ground arith

  warning_goes_in : (m : Message) → goes_out (timer_channel cinema) m ≡ false
  unfolding send_message
  warning_goes_in m = ground arith

  request_comes_in : comes_in (client_channel cinema) ≡ true
  unfolding receive_message_of
  request_comes_in = ground arith

  reply_comes_elsewhere : comes_in (reply_channel cinema) ≡ false
  reply_comes_elsewhere = rw (ne→== _ _ apart_in) refl

  unlogged :
      (log : List Exchange) (channel : Channel) (m : Message)
      → goes_out channel m ≡ false
      → answers_sent log ≡ answers_sent log ++ sent_to out cinema.client_id (sent channel m ∷ [])
  unlogged log channel m h = rw h (sym (append-nil (answers_sent log)))

  answer_sent :
      (log : List Exchange) {l : Listener} {channel : Channel} {m : Message}
      → Sending cinema channel m l
      → answers_sent (log ++ logs l)
        ≡ answers_sent log ++ sent_to out cinema.client_id (sent channel m ∷ [])
  unfolding logs
  answer_sent log {channel = channel} {m = m} (sends_request r e c) =
      rw (append-nil log) (unlogged log channel m (rw c (admin_goes_elsewhere m)))
  answer_sent log {channel = channel} {m = m} (sends_exit r e leaves c) =
      rw (append-nil log) (unlogged log channel m (rw c (admin_goes_elsewhere m)))
  answer_sent log {channel = channel} {m = m} (sends_answer request exit c) =
      rw (c, answer_goes_out m)
        (map-append (λ (x : Exchange). (send_message (client_channel cinema) x.answer).message) log
          (record { request = request; answer = m } ∷ []))

  came_lem :
      {l : Listener} {channel : Channel} (m : Message)
      → Receiving cinema channel l
      → received_from (in_queue cinema) cinema.client_id (received channel channel.id m ∷ [])
        ≡ came cinema l m
  came_lem m (takes_request c) = rw (c, request_comes_in) refl
  came_lem m (takes_reply r c) = rw (c, reply_comes_elsewhere) refl
  came_lem m (takes_last c) = rw (c, request_comes_in) refl

  -- The id of the channel is the client's, so that a receive is a call of the kernel.
  received_by_kernel :
      {l : Listener} {channel : Channel} (s : k.State)
      → Receiving cinema channel l
      → receive_on k channel s ≡ receive_of k channel channel.id s
  received_by_kernel {channel = channel} s r =
      receive_on-defined k laws channel channel.id s refl (rw (Receiving-id cinema r) positive)

  taken_by_kernel :
      {l : Listener} {channel : Channel} {m : Message} (s : k.State) {q : k.State}
      → Receiving cinema channel l
      → receive_on k channel s ≡ returns m q
      → parcel_of k channel channel.id s ≡ returns (record { mtype = channel.id; text = m }) q
  taken_by_kernel {channel = channel} {m = m} s {q = q} r h =
      receive_of_asked k laws channel channel.id m s q (rw (Receiving-id cinema r) positive)
        (sym (received_by_kernel s r) ∙ h)

  pub traffic :
      {s t : Session k} {events : List Event} (step : Step k cinema s events t)
      → KeepsOff step
      → Traffic s events t
  traffic {s = s} (listener_sends channel m h called) off =
      let view = to_send_view cinema s.listener channel m h in
      record {
        ran = sends channel m called (here _);
        got = λ seen v. rw (append-nil seen) (got_sends cinema seen s.log view v);
        answered = answer_sent s.log view;
      }
  traffic {s = s} (listener_receives channel m h called) off =
      let view = to_receive_view cinema s.listener channel h in
      record {
        ran =
            receives channel channel.id (record { mtype = channel.id; text = m })
              (taken_by_kernel s.queues view called) (here _);
        got = λ seen v. rw (came_lem m view) (got_receives cinema seen s.log m view v);
        answered = sym (append-nil (answers_sent s.log));
      }
  traffic {s = s} (listener_cannot_send channel m h called) off = record {
    ran = fails_to_send channel m called (here _);
    got = λ seen v. rw (append-nil seen) (Got-any s.listener seen s.log v);
    answered = sym (append-nil (answers_sent s.log));
  }
  traffic {s = s} (listener_cannot_receive channel h called) off =
      let view = to_receive_view cinema s.listener channel h in
      record {
        ran =
            fails_to_receive channel channel.id
              (receive_of_failed k laws channel channel.id s.queues _
                (sym (received_by_kernel s.queues view) ∙ called))
              (here _);
        got = λ seen v. rw (append-nil seen) (Got-any s.listener seen s.log v);
        answered = sym (append-nil (answers_sent s.log));
      }
  traffic {s = s} {t = t} (listener_works h) off =
      let (same_log, same_queues) = works_leave cinema k s t s.listener h in
      record {
        ran = subst (λ (q : k.State). Run k s.queues [] q) (sym same_queues) (here s.queues);
        got = λ seen v. rw (append-nil seen) (got_works cinema k s t s.listener seen h v);
        answered = rw same_log (sym (append-nil (answers_sent s.log)));
      }
  traffic {s = s} (timer_warns h called) off = record {
    ran = sends (timer_channel cinema) exit_message called (here _);
    got = λ seen v. rw (append-nil seen) v;
    answered = unlogged s.log (timer_channel cinema) exit_message (warning_goes_in exit_message);
  }
  traffic {s = s} (timer_cannot_warn h called) off = record {
    ran = fails_to_send (timer_channel cinema) exit_message called (here _);
    got = λ seen v. rw (append-nil seen) v;
    answered = sym (append-nil (answers_sent s.log));
  }
  traffic {s = s} {t = t} (timer_works h) off =
      let (same_listener, (same_log, same_queues)) = timer_leaves cinema k s t s.timer h in
      record {
        ran = subst (λ (q : k.State). Run k s.queues [] q) (sym same_queues) (here s.queues);
        got = λ seen v. rw (append-nil seen, same_listener, same_log) v;
        answered = rw same_log (sym (append-nil (answers_sent s.log)));
      }
  traffic {s = s} (clock now h) off = record {
    ran = here s.queues;
    got = λ seen v. rw (append-nil seen) v;
    answered = sym (append-nil (answers_sent s.log));
  }
  traffic {s = s} (others_call events h) off = record {
    ran = h;
    got = λ seen v. rw (off.0, append-nil seen) v;
    answered = rw off.1 (sym (append-nil (answers_sent s.log)));
  }
  traffic {s = s} (others_stamp stamps) off = record {
    ran = here s.queues;
    got = λ seen v. rw (append-nil seen) v;
    answered = sym (append-nil (answers_sent s.log));
  }
