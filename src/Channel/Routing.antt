-- ===== src/Channel/Routing.antt =====
-- Where a message that one side sends can be received.
use sist_distrib2c.Base.{◌≡◌, ◌≢◌, ◌⊎◌, sym, some, arith}
use sist_distrib2c.Message.{Message}
use sist_distrib2c.Channel.{
  Channel, undefined_id, send_message, receive_message_of, receive_message,
}

-- The two sides of one channel: the queues in the same roles, opposite orientations.
pub record AreOpposite (a b : Channel) : Type 0 where
  pub first : a.id_firstqueue ≡ b.id_firstqueue
  pub second : a.id_secondqueue ≡ b.id_secondqueue
  pub sides : (a.orientation ≡ 0) × (b.orientation ≢ 0) ⊎ (a.orientation ≢ 0) × (b.orientation ≡ 0)

pub opposite : {a b : Channel} → AreOpposite a b → AreOpposite b a
opposite s = record { first = sym s.first; second = sym s.second; sides = ground arith }

-- Between the two sides of a channel, in both directions, what one side sends under an id other
-- than -1 is what the other side waits for under the same id, on the same queue; and a side
-- never waits on the queue that it sends to, for two queues that differ.
pub receive_message-send_message :
    (a b : Channel) (m : Message)
    → AreOpposite a b
    → a.id ≢ undefined_id
    → b.id ≡ a.id
    → a.id_firstqueue ≢ a.id_secondqueue
    → (receive_message b
        ≡ some (record { queue = (send_message a m).queue; mtype = (send_message a m).mtype }))
      × ((send_message a m).mtype ≡ a.id)
      × ((receive_message_of a a.id).queue ≢ (send_message a m).queue)
unfolding receive_message send_message
receive_message-send_message a b m sides defined same differ = ground arith
