-- ===== src/Mom/Relay/Passing.antt =====
-- What the process of a client passes on, over the queues of the kernel.
use sist_distrib2c.Base.{◌≡◌, ◌≢◌, inl, refl, sym, ap, ◌∙◌, true, List, [], ◌++◌}
use sist_distrib2c.Base.Words.{is_positive}
use sist_distrib2c.Message.{Message}
use sist_distrib2c.Channel.{Channel, commqueue_as_server, out_queue, receive_message_of}
use sist_distrib2c.Channel.Routing.{AreOpposite, opposite}
use sist_distrib2c.Channel.Queues.{MessageQueues, QueueLaws}
use sist_distrib2c.Channel.Delivery.{
  Event, sent_to, received_from, Run, here, waiting, received_in_order,
}
use sist_distrib2c.Channel.Events.{received_from-append, sent_to-append, run-append}
use sist_distrib2c.Mom.{Mom, undefined_cinema_client_id}
use sist_distrib2c.Mom.Relay.{Relay, start_relay, Reach, start, later}
use sist_distrib2c.Mom.Relay.Stages.{Took, Ends}
use sist_distrib2c.Mom.Relay.Calls.{responses_sent, AllKeepOff, Holds, traffic}

module _ (k : MessageQueues) (laws : QueueLaws k) (client cinema : Channel)
    (positive : is_positive client.id ≡ true) (server : client.orientation ≡ commqueue_as_server)
    (two : client.id_firstqueue ≢ client.id_secondqueue)
    (apart_in : (receive_message_of cinema client.id).queue
      ≢ (receive_message_of client client.id).queue)
    (apart_out : out_queue cinema ≢ out_queue client) where
  Reach-traffic :
      {s t : Relay k} {events : List Event} (r : Reach k s events t)
      → AllKeepOff k laws client cinema positive server two apart_in apart_out r
      → Holds k laws client cinema positive server two apart_in apart_out s []
      → responses_sent k laws client cinema positive server two apart_in apart_out s.log ≡ []
      → Run k s.queues events t.queues
        × Holds k laws client cinema positive server two apart_in apart_out t
            (received_from (receive_message_of client client.id).queue client.id events)
        × (responses_sent k laws client cinema positive server two apart_in apart_out t.log
            ≡ sent_to (out_queue client) client.id events)
  Reach-traffic start off holds nothing = (here _, holds, nothing)
  Reach-traffic (later {before = before} {events = events} r step) off holds nothing =
      let (ran, held, answered) = Reach-traffic r off.0 holds nothing in
      let next =
        traffic k laws client cinema positive server two apart_in apart_out step off.1 held.kept
          (received_from (receive_message_of client client.id).queue client.id before)
          held.passing in
      (
        run-append k ran next.ran,
        rw
            (received_from-append (receive_message_of client client.id).queue client.id before
              events)
            (next.holds (received_from (receive_message_of client client.id).queue client.id before)
              held),
        next.answered
            ∙ ap (λ (x : List Message). x ++ sent_to (out_queue client) client.id events) answered
            ∙ sym (sent_to-append (out_queue client) client.id before events),
      )

  -- Suppose that the client's local id is positive; that the process is the server side of a channel
  -- with two different queues and the client the other; that the queue from the cinema is not that of
  -- the requests, nor the queue to the cinema that of the answers; that the process begins without an
  -- id of the cinema; and that the other processes neither take a message under the local id from the
  -- queue of the requests nor send one under it on the queue of the answers, whatever types they ask
  -- for. Then however the process and the others are interleaved: the requests that the process has
  -- taken are, in order, those answered and the one in hand (after a failure one more may be lost); a
  -- CHOICE_EXIT is answered at most once, is then the last answer and the process ends after it; the
  -- requests taken and then those that still wait are those that waited at the start and then those
  -- that the client has sent; and what the client has received and then what still waits for it are
  -- what waited at the start and then the answers given, one for each request answered.
  pub responses_passed_on :
      {t : Relay k} {events : List Event} (user : Channel) (queues : k.State) (mom : Mom)
      → AreOpposite client user
      → record mom.client_queue { id = client.id } ≡ client
      → mom.cinema_queue ≡ cinema
      → mom.client_cinema_id ≡ undefined_cinema_client_id
      → (r : Reach k (start_relay k queues mom client.id) events t)
      → AllKeepOff k laws client cinema positive server two apart_in apart_out r
      → (seen : List Message) × Took t.stage seen t.log
        × Ends t.stage t.log
        × (seen ++ waiting k laws client client.id t.queues
            ≡ waiting k laws client client.id queues ++ sent_to (out_queue user) client.id events)
        × (received_from (receive_message_of user client.id).queue client.id events
              ++ waiting k laws user client.id t.queues
            ≡ waiting k laws user client.id queues
              ++ responses_sent k laws client cinema positive server two apart_in apart_out t.log)
  unfolding start_relay
  responses_passed_on {events = events} user queues mom sides same_client same_cinema fresh r off =
      let begun : Holds k laws client cinema positive server two apart_in apart_out
          (start_relay k queues mom client.id) [] =
        record {
          kept = record {
            same_client = same_client;
            local_id = refl;
            same_first = ap (λ (c : Channel). c.id_firstqueue) same_cinema;
            same_second = ap (λ (c : Channel). c.id_secondqueue) same_cinema;
            same_side = ap (λ (c : Channel). c.orientation) same_cinema;
            known = inl fresh;
          };
          passing = record { took = refl; ends = refl };
        } in
      let (ran, held, answered) = Reach-traffic r off begun refl in
      (
        received_from (receive_message_of client client.id).queue client.id events,
        held.passing.took,
        held.passing.ends,
        received_in_order k laws user client client.id (opposite sides) ran,
        rw answered (received_in_order k laws client user client.id sides ran),
      )
