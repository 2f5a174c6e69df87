-- ===== src/Channel/Delivery.antt =====
-- What the queues deliver over any sequence of sends and receives, of any processes.
use sist_distrib2c.Base.{
  ℕ, ◌≡◌, refl, ap, ◌∙◌, ◌&&◌, List, [], ◌∷◌, ◌++◌, append_assoc, append-nil, ◌==◌, if◌then◌else◌,
  arith, Bool-cases, inl, inr, sym,
}
use sist_distrib2c.Message.{Message}
use sist_distrib2c.Channel.{Channel, out_queue, send_message, receive_message_of}
use sist_distrib2c.Channel.Routing.{AreOpposite}
use sist_distrib2c.Channel.Queues.{
  Parcel, MessageQueues, QueueLaws, returns, exits, of_type, send_on, parcel_of, queue_send,
  receive_msgbuf, size_of_message,
}
use sist_distrib2c.Channel.Parcels.{
  appended_view, taken_view, after_msgsnd-returns, after_msgsnd-exits, after_msgrcv-returns,
  after_msgrcv-exits,
}

-- A call of some process that has ended: `sent` returned, `received` returned with a message of the
-- type and the text given, whatever type it asked for, and the others ended their process.
pub data Event : Type 0 where
  sent : Channel → Message → Event
  received : Channel → ℕ → Message → Event
  send_failed : Channel → Message → Event
  receive_failed : Channel → ℕ → Event

-- What is sent to a queue with a type, in order.
abbrev pub sent_to : ℕ → ℕ → List Event → List Message
sent_to queue mtype [] = []
sent_to queue mtype (sent channel m ∷ events) =
    let call = send_message channel m in
    let rest = sent_to queue mtype events in
    if call.queue == queue && call.mtype == mtype then call.message ∷ rest else rest
sent_to queue mtype (received channel m_type m ∷ events) = sent_to queue mtype events
sent_to queue mtype (send_failed channel m ∷ events) = sent_to queue mtype events
sent_to queue mtype (receive_failed channel m_type ∷ events) = sent_to queue mtype events

-- What is received from a queue of the messages of a type, in order, whatever types the receives
-- ask for.
abbrev pub received_from : ℕ → ℕ → List Event → List Message
received_from queue mtype [] = []
received_from queue mtype (sent channel m ∷ events) = received_from queue mtype events
received_from queue mtype (received channel of_m m ∷ events) =
    let call = receive_message_of channel of_m in
    let rest = received_from queue mtype events in
    if call.queue == queue && of_m == mtype then m ∷ rest else rest
received_from queue mtype (send_failed channel m ∷ events) = received_from queue mtype events
received_from queue mtype (receive_failed channel m_type ∷ events) =
    received_from queue mtype events

module _ (k : MessageQueues) where
  -- The calls that have ended, one after another, whichever processes make them.
  pub data Run : k.State → List Event → k.State → Type 0 where
    here : (s : k.State) → Run s [] s
    sends :
        {s t u : k.State} {events : List Event} (channel : Channel) (m : Message)
        → send_on k channel m s ≡ returns tt t
        → Run t events u
        → Run s (sent channel m ∷ events) u
    receives :
        {s t u : k.State} {events : List Event} (channel : Channel) (m_type : ℕ) (p : Parcel)
        → parcel_of k channel m_type s ≡ returns p t
        → Run t events u
        → Run s (received channel p.mtype p.text ∷ events) u
    fails_to_send :
        {s t u : k.State} {events : List Event} (channel : Channel) (m : Message)
        → send_on k channel m s ≡ exits t
        → Run t events u
        → Run s (send_failed channel m ∷ events) u
    fails_to_receive :
        {s t u : k.State} {events : List Event} (channel : Channel) (m_type : ℕ)
        → parcel_of k channel m_type s ≡ exits t
        → Run t events u
        → Run s (receive_failed channel m_type ∷ events) u

  module _ (laws : QueueLaws k) where
    open laws use {contents}

    pub sent_view :
        (channel : Channel) (m : Message) (s t : k.State) (q u : ℕ)
        → send_on k channel m s ≡ returns tt t
        → of_type u (contents t q) ≡ of_type u (contents s q) ++ sent_to q u (sent channel m ∷ [])
    unfolding send_on queue_send
    sent_view channel m s t q u h =
        let call = send_message channel m in
        let (r, called, worked) =
          after_msgsnd-returns k (k.msgsnd call.queue size_of_message call.mtype call.message s)
            h in
        appended_view call.queue q call.mtype u call.message (contents s q) (contents t q)
          (laws.appended call.queue size_of_message call.mtype r call.message s t called worked q)

    pub received_view :
        (channel : Channel) (m_type : ℕ) (p : Parcel) (s t : k.State) (q u : ℕ)
        → parcel_of k channel m_type s ≡ returns p t
        → of_type u (contents s q)
          ≡ received_from q u (received channel p.mtype p.text ∷ []) ++ of_type u (contents t q)
    unfolding parcel_of receive_msgbuf receive_message_of
    received_view channel m_type p s t q u h =
        let call = receive_message_of channel m_type in
        let (r, called, worked) =
          after_msgrcv-returns k (k.msgrcv call.queue size_of_message m_type s) h in
        let (before, after, others, split, now) =
          laws.taken call.queue size_of_message m_type r p s t called worked in
        let view =
          taken_view call.queue q u p before after (contents s call.queue) (contents s q)
            (contents t q) others split (λ e. rw e refl) (now q) in
        elim (Bool-cases (call.queue == q && p.mtype == u)) [
          | inl counted ↦ rw counted (rw counted at view)
          | inr not_counted ↦ rw not_counted (rw not_counted at view)
        ]

    failed_send_view :
        (channel : Channel) (m : Message) (s t : k.State) (q : ℕ)
        → send_on k channel m s ≡ exits t
        → contents t q ≡ contents s q
    unfolding send_on queue_send
    failed_send_view channel m s t q h =
        let call = send_message channel m in
        let (r, called, failed) =
          after_msgsnd-exits k (k.msgsnd call.queue size_of_message call.mtype call.message s) h in
        laws.refused call.queue size_of_message call.mtype r call.message s t called failed q

    failed_receive_view :
        (channel : Channel) (m_type : ℕ) (s t : k.State) (q : ℕ)
        → parcel_of k channel m_type s ≡ exits t
        → contents t q ≡ contents s q
    unfolding parcel_of receive_msgbuf receive_message_of
    failed_receive_view channel m_type s t q h =
        let call = receive_message_of channel m_type in
        let (r, p, called, failed) =
          after_msgrcv-exits k (k.msgrcv call.queue size_of_message m_type s) h in
        laws.kept call.queue size_of_message m_type r p s t called failed q

    run_view :
        {s t : k.State} {events : List Event} (q u : ℕ)
        → Run s events t
        → received_from q u events ++ of_type u (contents t q)
          ≡ of_type u (contents s q) ++ sent_to q u events
    run_view q u (here s) = sym (append-nil (of_type u (contents s q)))
    run_view q u (sends {s = s} {t = t} {events = events} channel m sent_ rest) =
        let ih = run_view q u rest in
        let view = sent_view channel m s t q u sent_ in
        let call = send_message channel m in
        elim (Bool-cases (call.queue == q && call.mtype == u)) [
          | inl counted ↦
              rw
                (
                  counted,
                  ← append_assoc (of_type u (contents s q)) (call.message ∷ [])
                      (sent_to q u events),
                  ← (rw counted at view),
                )
                ih
          | inr not_counted ↦
              let same : of_type u (contents t q) ≡ of_type u (contents s q) ++ [] =
                rw not_counted at view in
              rw (not_counted, ← (same ∙ append-nil (of_type u (contents s q)))) ih
        ]
    run_view q u (receives {s = s} {t = t} {events = events} channel m_type p got rest) =
        let ih = run_view q u rest in
        let view = received_view channel m_type p s t q u got in
        let call = receive_message_of channel p.mtype in
        elim (Bool-cases (call.queue == q && p.mtype == u)) [
          | inl counted ↦
              let more : of_type u (contents s q) ≡ p.text ∷ of_type u (contents t q) =
                rw counted at view in
              rw (counted, more) (ap (◌∷◌ p.text) ih)
          | inr not_counted ↦
              let same : of_type u (contents s q) ≡ of_type u (contents t q) =
                rw not_counted at view in
              rw (not_counted, same) ih
        ]
    run_view q u (fails_to_send {s = s} {t = t} {events = events} channel m failed rest) =
        rw (← failed_send_view channel m s t q failed) (run_view q u rest)
    run_view q u (fails_to_receive {s = s} {t = t} {events = events} channel m_type failed rest) =
        rw (← failed_receive_view channel m_type s t q failed) (run_view q u rest)

    -- What waits for a side under an id.
    abbrev pub waiting : Channel → ℕ → k.State → List Message
    waiting side id s = of_type id (contents s (receive_message_of side id).queue)

    -- In whatever order any processes send and receive on any channels, calls that fail included, and
    -- whatever types the receives ask for, 0 included: the messages under an id that anybody takes
    -- from the queue of one side of a channel, followed by those that still wait there, are those that
    -- waited at the start followed by those that were sent to that queue under the id, by the other
    -- side of the channel or on any other channel with that queue: nothing is lost, doubled, changed
    -- or overtaken.
    pub received_in_order :
        {s t : k.State} {events : List Event} (a b : Channel) (id : ℕ)
        → AreOpposite a b
        → Run s events t
        → received_from (receive_message_of b id).queue id events ++ waiting b id t
          ≡ waiting b id s ++ sent_to (out_queue a) id events
    unfolding receive_message_of
    received_in_order a b id sides run =
        let same : out_queue a ≡ (receive_message_of b id).queue = ground arith in
        rw same (run_view (receive_message_of b id).queue id run)
