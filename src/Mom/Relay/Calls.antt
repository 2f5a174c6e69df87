-- ===== src/Mom/Relay/Calls.antt =====
-- What the calls of one step of the process of a client do.
use mathlib.Core.List.{map-append}
use sist_distrib2c.Base.{
  ℕ, ◌≡◌, ◌≢◌, inl, inr, refl, sym, ap, ◌∙◌, subst, Bool, true, false, ◌&&◌, List, [], ◌∷◌, ◌++◌,
  map, some, ◌==◌, arith, Bool-cases, append-nil, some-injective,
}
use sist_distrib2c.Base.Words.{is_positive}
use sist_distrib2c.Message.{Message}
use sist_distrib2c.Channel.{
  Channel, undefined_id, commqueue_as_server, out_queue, send_message, receive_message_of,
}
use sist_distrib2c.Channel.Queues.{Parcel, MessageQueues, QueueLaws, returns, parcel_of, parcel_on}
use sist_distrib2c.Channel.Delivery.{
  Event, sent, received, sent_to, received_from, Run, here, sends, receives, fails_to_send,
  fails_to_receive,
}
use sist_distrib2c.Channel.Waiting.{asked_parcel}
use sist_distrib2c.Mom.{Mom, undefined_cinema_client_id, process_message}
use sist_distrib2c.Mom.Relay.{sends as relay_sends, receives as relay_receives}
use sist_distrib2c.Mom.Relay.{
  Stage, waits_request, forwards, waits_response, answers, processes, ended, died, Passed, Relay,
  passes, receive_next, work, Step, cannot_send, cannot_receive, works, others_call, Reach, start,
  later,
}
use sist_distrib2c.Mom.Relay.Views.{
  Sending, sends_request, sends_response, Receiving, takes_request, takes_response, to_send_view,
  to_receive_view,
}
use sist_distrib2c.Mom.Relay.Stages.{
  IsKept, Passing, came, process_message-IsKept, exits_at, sends-Passing, receives-Passing,
  dies-Passing, decides-Passing,
}

module _ (k : MessageQueues) (laws : QueueLaws k) (client cinema : Channel)
    (positive : is_positive client.id ≡ true) (server : client.orientation ≡ commqueue_as_server)
    (two : client.id_firstqueue ≢ client.id_secondqueue)
    (apart_in : (receive_message_of cinema client.id).queue
      ≢ (receive_message_of client client.id).queue)
    (apart_out : out_queue cinema ≢ out_queue client) where
  abbrev pub responses_sent : List Passed → List Message
  responses_sent = map (λ (x : Passed). (send_message client x.response).message)

  abbrev pub in_queue : ℕ
  in_queue = (receive_message_of client client.id).queue

  -- The other processes neither take a message under the client's id from the queue of its requests
  -- nor send one under it on the queue of its answers.
  abbrev pub KeepsOff : {s t : Relay k} {events : List Event} → Step k s events t → Type 0
  KeepsOff (others_call events h) =
      (received_from (receive_message_of client client.id).queue client.id events ≡ [])
      × (sent_to (out_queue client) client.id events ≡ [])
  KeepsOff _ = Unit {0}

  abbrev pub AllKeepOff : {s t : Relay k} {events : List Event} → Reach k s events t → Type 0
  AllKeepOff start = Unit {0}
  AllKeepOff (later r step) = AllKeepOff r × KeepsOff step

  abbrev goes_out : Channel → Message → Bool
  goes_out channel m =
      (send_message channel m).queue == out_queue client
      && (send_message channel m).mtype == client.id

  abbrev comes_in : Channel → ℕ → Bool
  comes_in channel mtype =
      (receive_message_of channel mtype).queue == in_queue && mtype == client.id

  cinema_goes_elsewhere :
      (mom : Mom) (m : Message) → IsKept client cinema mom → goes_out mom.cinema_queue m ≡ false
  unfolding send_message
  cinema_goes_elsewhere mom m h = ground arith

  response_goes_out : (m : Message) → goes_out client m ≡ true
  unfolding send_message
  response_goes_out m = ground arith

  request_comes_in : comes_in client client.id ≡ true
  unfolding receive_message_of
  request_comes_in = ground arith

  response_comes_elsewhere :
      (mom : Mom) (mtype : ℕ) → IsKept client cinema mom → comes_in mom.cinema_queue mtype ≡ false
  unfolding receive_message_of
  response_comes_elsewhere mom mtype h = ground arith

  receives_by_kernel :
      (mom : Mom) {stage : Stage} {channel : Channel} {mtype : ℕ} (s : k.State)
      → IsKept client cinema mom
      → Receiving mom channel mtype stage
      → receive_next k mom stage s ≡ parcel_of k channel mtype s
  unfolding receive_next parcel_on
  receives_by_kernel mom s kept (takes_request c t) =
      let defined : (mom.client_queue.id == undefined_id) ≡ false =
        rw kept.same_client (ground arith) in
      rw (defined, c, t) refl
  receives_by_kernel mom s kept (takes_response request c t) =
      elim (Bool-cases (mom.client_cinema_id == undefined_cinema_client_id)) [
        | inl fresh ↦ rw (fresh, c, rw fresh at t) refl
        | inr accepted ↦
            let defined : (mom.cinema_queue.id == undefined_id) ≡ false = ground arith in
            rw (accepted, defined, c, rw accepted at t) refl
      ]

  came_lem :
      (mom : Mom) {stage : Stage} {channel : Channel} {mtype : ℕ} (p : Parcel) (s t : k.State)
      → IsKept client cinema mom
      → Receiving mom channel mtype stage
      → parcel_of k channel mtype s ≡ returns p t
      → received_from in_queue client.id (received channel p.mtype p.text ∷ []) ≡ came stage p.text
  came_lem mom {channel = channel} {mtype = mtype} p u v kept (takes_request c t) got =
      let same : mtype ≡ client.id = t ∙ ap (λ (x : Channel). x.id) kept.same_client in
      let asked : p.mtype ≡ mtype =
        asked_parcel k laws channel mtype p u v (ap (λ (i : ℕ). is_positive i) same ∙ positive)
          got in
      rw (asked, same, c, kept.same_client, request_comes_in) refl
  came_lem mom p u v kept (takes_response request c t) got =
      rw (c, response_comes_elsewhere mom p.mtype kept) refl

  response_sent :
      (mom : Mom) (log : List Passed) {stage : Stage} {channel : Channel} {m : Message}
      → IsKept client cinema mom
      → Sending mom channel m stage
      → responses_sent (log ++ passes stage)
        ≡ responses_sent log ++ sent_to (out_queue client) client.id (sent channel m ∷ [])
  unfolding passes
  response_sent mom log {m = m} kept (sends_request c) =
      rw (append-nil log, c, cinema_goes_elsewhere mom m kept)
        (sym (append-nil (responses_sent log)))
  response_sent mom log {m = m} kept (sends_response request c) =
      rw (c, kept.same_client, response_goes_out m)
        (map-append (λ (x : Passed). (send_message client x.response).message) log
          (record { request = request; response = m } ∷ []))

  pub record Holds (s : Relay k) (seen : List Message) : Type 0 where
    pub kept : IsKept client cinema s.mom
    pub passing : Passing s.stage seen s.log

  pub record Traffic (s : Relay k) (events : List Event) (t : Relay k) : Type 0 where
    pub ran : Run k s.queues events t.queues
    pub holds :
        (seen : List Message)
        → Holds s seen
        → Holds t (seen ++ received_from in_queue client.id events)
    pub answered :
        responses_sent t.log ≡ responses_sent s.log ++ sent_to (out_queue client) client.id events

  worked :
      (pid : ℕ) (s t : Relay k) (stage : Stage) (seen : List Message)
      → work k pid s stage ≡ some t
      → IsKept client cinema s.mom
      → Passing stage seen s.log
      → Holds t seen × (t.log ≡ s.log) × (t.queues ≡ s.queues)
  unfolding work
  worked pid s t (processes m) seen h kept v =
      subst (λ (t : Relay k). Holds t seen × (t.log ≡ s.log) × (t.queues ≡ s.queues))
        (some-injective _ _ h)
        (
          record {
            kept = process_message-IsKept client cinema s.mom m pid kept;
            passing =
                decides-Passing (process_message s.mom m pid).2 m seen s.log (exits_at s.mom m pid)
                  v;
          },
          refl,
          refl,
        )
  worked pid s t waits_request seen h kept v = cc
  worked pid s t (forwards m) seen h kept v = cc
  worked pid s t (waits_response m) seen h kept v = cc
  worked pid s t (answers m r) seen h kept v = cc
  worked pid s t ended seen h kept v = cc
  worked pid s t died seen h kept v = cc

  pub traffic :
      {s t : Relay k} {events : List Event} (step : Step k s events t)
      → KeepsOff step
      → IsKept client cinema s.mom
      → (seen : List Message) → Passing s.stage seen s.log
      → Traffic s events t
  traffic {s = s} (relay_sends channel m h called) off kept seen v =
      let view = to_send_view s.mom s.stage channel m h in
      record {
        ran = sends channel m called (here _);
        holds = λ seen v.
            rw (append-nil seen)
              (record { kept = v.kept; passing = sends-Passing s.mom seen s.log view v.passing });
        answered = response_sent s.mom s.log kept view;
      }
  traffic {s = s} (relay_receives channel mtype p h called) off kept seen v =
      let view = to_receive_view s.mom s.stage channel mtype h in
      record {
        ran =
            receives channel mtype p (sym (receives_by_kernel s.mom s.queues kept view) ∙ called)
              (here _);
        holds = λ seen v.
            rw
              (came_lem s.mom p s.queues _ kept view
                (sym (receives_by_kernel s.mom s.queues kept view) ∙ called))
              (record {
                kept = v.kept;
                passing = receives-Passing s.mom seen s.log p.text view v.passing;
              });
        answered = sym (append-nil (responses_sent s.log));
      }
  traffic {s = s} (cannot_send channel m h called) off kept seen v = record {
    ran = fails_to_send channel m called (here _);
    holds = λ seen v.
        rw (append-nil seen)
          (record { kept = v.kept; passing = dies-Passing s.stage seen s.log v.passing });
    answered = sym (append-nil (responses_sent s.log));
  }
  traffic {s = s} (cannot_receive channel mtype h called) off kept seen v =
      let view = to_receive_view s.mom s.stage channel mtype h in
      record {
        ran =
            fails_to_receive channel mtype
              (sym (receives_by_kernel s.mom s.queues kept view) ∙ called) (here _);
        holds = λ seen v.
            rw (append-nil seen)
              (record { kept = v.kept; passing = dies-Passing s.stage seen s.log v.passing });
        answered = sym (append-nil (responses_sent s.log));
      }
  traffic {s = s} {t = t} (works pid h) off kept seen v =
      let (now, same_log, same_queues) = worked pid s t s.stage seen h kept v in
      record {
        ran = subst (λ (q : k.State). Run k s.queues [] q) (sym same_queues) (here s.queues);
        holds = λ seen v. rw (append-nil seen) ((worked pid s t s.stage seen h v.kept v.passing).0);
        answered = rw same_log (sym (append-nil (responses_sent s.log)));
      }
  traffic {s = s} (others_call events h) off kept seen v = record {
    ran = h;
    holds = λ seen v. rw (off.0, append-nil seen) (record { kept = v.kept; passing = v.passing });
    answered = rw off.1 (sym (append-nil (responses_sent s.log)));
  }
