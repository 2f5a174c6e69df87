-- ===== src/Channel/Waiting.antt =====
-- What the next receive returns.
use sist_distrib2c.Base.{
  ℕ, ◌≡◌, refl, ap, ◌∙◌, true, false, ◌&&◌, List, [], ◌∷◌, ◌++◌, some, ◌==◌, arith, sym,
}
use sist_distrib2c.Base.Words.{minus_one, is_positive}
use sist_distrib2c.Message.{Message}
use sist_distrib2c.Channel.{Channel, undefined_id, send_message, receive_message_of}
use sist_distrib2c.Channel.Routing.{AreOpposite}
use sist_distrib2c.Channel.Queues.{
  Parcel, MessageQueues, QueueLaws, returns, exits, of_type, text_of, send_on, receive_of,
  parcel_of, receive_on, queue_receive, receive_msgbuf, size_of_message,
}
use sist_distrib2c.Channel.Parcels.{after_msgrcv-returns, text_of-returns, text_of-exits}
use sist_distrib2c.Channel.Delivery.{waiting, sent_view, received_view}

module _ (k : MessageQueues) (laws : QueueLaws k) where
  open laws use {contents}

  receive_of-returns :
      (b : Channel) (id : ℕ) (p : Parcel) (r : ℕ) (t u : k.State)
      → k.msgrcv (receive_message_of b id).queue size_of_message id t ≡ some (r, p, u)
      → (r == minus_one) ≡ false
      → (receive_of k b id t ≡ returns p.text u) × (parcel_of k b id t ≡ returns p u)
  unfolding receive_of parcel_of queue_receive receive_msgbuf receive_message_of
  receive_of-returns b id p r t u called worked =
      (rw (called, worked) refl, rw (called, worked) refl)

  receive_of-parcel_of :
      (b : Channel) (id : ℕ) (t : k.State) → receive_of k b id t ≡ text_of (parcel_of k b id t)
  unfolding receive_of parcel_of queue_receive
  receive_of-parcel_of b id t = refl

  pub asked_parcel :
      (b : Channel) (id : ℕ) (p : Parcel) (t u : k.State)
      → is_positive id ≡ true
      → parcel_of k b id t ≡ returns p u
      → p.mtype ≡ id
  unfolding parcel_of receive_msgbuf receive_message_of
  asked_parcel b id p t u positive h =
      let queue = (receive_message_of b id).queue in
      let (r, called, worked) = after_msgrcv-returns k (k.msgrcv queue size_of_message id t) h in
      laws.asked queue size_of_message id r p t u positive called worked

  -- A receive that asks for a positive type has taken a message of that type.
  pub receive_of_asked :
      (b : Channel) (id : ℕ) (m : Message) (t u : k.State)
      → is_positive id ≡ true
      → receive_of k b id t ≡ returns m u
      → parcel_of k b id t ≡ returns (record { mtype = id; text = m }) u
  receive_of_asked b id m t u positive h =
      let (p, got, text) =
        text_of-returns (parcel_of k b id t) (sym (receive_of-parcel_of b id t) ∙ h) in
      let same : p.mtype ≡ id = asked_parcel b id p t u positive got in
      let whole : p ≡ record { mtype = id; text = m } =
        λ i. record { mtype = same i; text = text i } in
      got ∙ ap (λ (p : Parcel). returns p u) whole

  pub receive_of_failed :
      (b : Channel) (id : ℕ) (t u : k.State)
      → receive_of k b id t ≡ exits u
      → parcel_of k b id t ≡ exits u
  receive_of_failed b id t u h =
      text_of-exits (parcel_of k b id t) (sym (receive_of-parcel_of b id t) ∙ h)

  -- A receive takes the oldest message that waits, without waiting and without a failure.
  pub oldest_received :
      (b : Channel) (id : ℕ) (m : Message) (rest : List Message) (t : k.State)
      → is_positive id ≡ true
      → waiting k laws b id t ≡ m ∷ rest
      → (u : k.State) × (receive_of k b id t ≡ returns m u) × (waiting k laws b id u ≡ rest)
  oldest_received b id m rest t positive full =
      let queue = (receive_message_of b id).queue in
      let (r, p, u, worked, called) =
        laws.ready queue size_of_message id m rest t positive (unfold receive_message_of in full) in
      let (got, taken) = receive_of-returns b id p r t u called worked in
      let view = received_view k laws b id p t u queue id taken in
      let asked = asked_parcel b id p t u positive taken in
      let counted : (queue == queue && p.mtype == id) ≡ true = ground arith in
      let split : of_type id (contents t queue) ≡ p.text ∷ of_type id (contents u queue) =
        unfold receive_message_of in rw counted at view in
      let same : m ∷ rest ≡ p.text ∷ of_type id (contents u queue) = sym full ∙ split in (u, cc, cc)

  goes_there :
      (a b : Channel) (m : Message)
      → AreOpposite a b
      → is_positive a.id ≡ true
      → ((send_message a m).queue == (receive_message_of b a.id).queue
          && (send_message a m).mtype == a.id)
        ≡ true
  unfolding send_message receive_message_of
  goes_there a b m sides positive = ground arith

  pub receive_on-defined :
      (b : Channel) (id : ℕ) (t : k.State)
      → b.id ≡ id
      → is_positive id ≡ true
      → receive_on k b t ≡ receive_of k b id t
  unfolding receive_on
  receive_on-defined b id t same positive =
      let defined : (b.id == undefined_id) ≡ false = ground arith in
      rw defined (ap (λ (i : ℕ). receive_of k b i t) same)

  -- If nothing waits for a side of a channel under its id, a positive int, and the other side sends
  -- a message under the same id without a failure, then the next receive of the first side neither
  -- waits nor fails: it returns that message, its type set to the id unless it is a connection
  -- request, and nothing waits under the id afterwards.
  pub receive_on-send_on :
      (a b : Channel) (m : Message) (s t : k.State)
      → AreOpposite a b
      → is_positive a.id ≡ true
      → b.id ≡ a.id
      → waiting k laws b a.id s ≡ []
      → send_on k a m s ≡ returns tt t
      → (u : k.State) × (receive_on k b t ≡ returns (send_message a m).message u)
        × (waiting k laws b a.id u ≡ [])
  receive_on-send_on a b m s t sides positive same empty sent_ =
      let queue = (receive_message_of b a.id).queue in
      let view = sent_view k laws a m s t queue a.id sent_ in
      let call = send_message a m in
      let counted : (call.queue == queue && call.mtype == a.id) ≡ true =
        goes_there a b m sides positive in
      let one : waiting k laws b a.id t ≡ call.message ∷ [] =
        (rw counted at view) ∙ ap (λ (l : List Message). l ++ (call.message ∷ [])) empty in
      let (u, got, left) = oldest_received b a.id call.message [] t positive one in
      (u, receive_on-defined b a.id t same positive ∙ got, left)
