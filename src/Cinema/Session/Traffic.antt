-- ===== src/Cinema/Session/Traffic.antt =====
-- The listener of a client, its timer and the queues of the kernel together: what the client sends
-- and what it receives.
use sist_distrib2c.Base.{ℕ, ◌≡◌, ◌≢◌, refl, sym, ap, ◌∙◌, true, List, [], ◌++◌}
use sist_distrib2c.Base.Words.{is_positive}
use sist_distrib2c.Message.{Message}
use sist_distrib2c.Channel.{Channel, commqueue_as_server, out_queue, receive_message_of}
use sist_distrib2c.Channel.Routing.{AreOpposite, opposite}
use sist_distrib2c.Channel.Queues.{MessageQueues, QueueLaws}
use sist_distrib2c.Channel.Delivery.{
  Event, sent_to, received_from, Run, here, waiting, received_in_order,
}
use sist_distrib2c.Cinema.{Cinema}
use sist_distrib2c.Cinema.Session.{
  Session, client_channel, reply_channel, start_session, Reach, start, later,
}
use sist_distrib2c.Channel.Events.{received_from-append, sent_to-append, run-append}
use sist_distrib2c.Cinema.Session.Requests.{Got, in_queue}
use sist_distrib2c.Cinema.Session.Steps.{answers_sent, AllKeepOff, traffic}

module _ (k : MessageQueues) (laws : QueueLaws k) (cinema : Cinema)
    (positive : is_positive cinema.client_id ≡ true)
    (server : cinema.client_comm.orientation ≡ commqueue_as_server)
    (two : cinema.client_comm.id_firstqueue ≢ cinema.client_comm.id_secondqueue)
    (apart_in : (receive_message_of (reply_channel cinema) cinema.client_id).queue
      ≢ in_queue cinema)
    (apart_out : out_queue cinema.admin_comm ≢ out_queue (client_channel cinema)) where
  Reach-traffic :
      {s t : Session k} {events : List Event} (r : Reach k cinema s events t)
      → AllKeepOff k laws cinema positive server two apart_in apart_out r
      → Got s.listener [] s.log
      → answers_sent k laws cinema positive server two apart_in apart_out s.log ≡ []
      → Run k s.queues events t.queues
        × Got t.listener (received_from (in_queue cinema) cinema.client_id events) t.log
        × (answers_sent k laws cinema positive server two apart_in apart_out t.log
            ≡ sent_to (out_queue (client_channel cinema)) cinema.client_id events)
  Reach-traffic start off got none_ = (here _, got, none_)
  Reach-traffic (later {before = before} {events = events} r step) off got none_ =
      let (ran, had, answered) = Reach-traffic r off.0 got none_ in
      let next = traffic k laws cinema positive server two apart_in apart_out step off.1 in
      (
        run-append k ran next.ran,
        rw (received_from-append (in_queue cinema) cinema.client_id before events)
            (next.got (received_from (in_queue cinema) cinema.client_id before) had),
        next.answered
            ∙ ap
                (λ (x : List Message).
                  x ++ sent_to (out_queue (client_channel cinema)) cinema.client_id events)
                answered
            ∙ sym
                (sent_to-append (out_queue (client_channel cinema)) cinema.client_id before events),
      )

  -- Suppose that the client's id is positive; that the listener is the server side of a channel with
  -- two different queues and the client's side the other; that the queue of the admin's replies is not
  -- that of the requests, nor the queue to the admin that of the answers; and that the other processes
  -- neither take a message under the client's id from the queue of the requests nor send one under it
  -- on the queue of the answers, whatever types they ask for. Then however the listener, its timer and
  -- the others are interleaved: the messages that have come to the listener are, in order, the
  -- requests it has answered and the one in hand (after the loop or a failure at most one more that
  -- stays without an answer); these, and then what still waits, are what waited at the start and then
  -- what the other side, the client and the timer, has sent under the id; and what the client's side
  -- has received under the id, and then what still waits for it, are what waited at the start and then
  -- the answers given, one for each request answered.
  pub requests_answered :
      {t : Session k} {events : List Event} (user : Channel) (queues : k.State) (stamps : ℕ → ℕ)
      (now : ℕ)
      → AreOpposite (client_channel cinema) user
      → (r : Reach k cinema (start_session k cinema queues stamps now) events t)
      → AllKeepOff k laws cinema positive server two apart_in apart_out r
      → (seen : List Message) × Got t.listener seen t.log
        × (seen ++ waiting k laws (client_channel cinema) cinema.client_id t.queues
            ≡ waiting k laws (client_channel cinema) cinema.client_id queues
              ++ sent_to (out_queue user) cinema.client_id events)
        × (received_from (receive_message_of user cinema.client_id).queue cinema.client_id events
              ++ waiting k laws user cinema.client_id t.queues
            ≡ waiting k laws user cinema.client_id queues
              ++ answers_sent k laws cinema positive server two apart_in apart_out t.log)
  unfolding start_session
  requests_answered {events = events} user queues stamps now sides r off =
      let (ran, had, answered) = Reach-traffic r off refl refl in
      (
        received_from (in_queue cinema) cinema.client_id events,
        had,
        received_in_order k laws user (client_channel cinema) cinema.client_id (opposite sides) ran,
        rw answered
            (received_in_order k laws (client_channel cinema) user cinema.client_id sides ran),
      )
