-- ===== src/Channel.antt =====
-- src/ipc/communicationqueue.cpp: a channel is two System V queues and a side. Here a
-- send is the `msgsnd` call that it makes, a receive the queue and the type that `msgrcv` is asked
-- for; what the kernel does with these calls is in Queues and its clients.
pub mod Routing
pub mod Queues
pub mod Parcels
pub mod Delivery
pub mod Waiting
pub mod Events
use sist_distrib2c.Base.{ℕ, Option, none, some, ◌==◌, if◌then◌else◌}
use sist_distrib2c.Base.Words.{minus_one}
use sist_distrib2c.Message.{Message, type_connection_cinema_request}

abbrev pub undefined_id : ℕ
undefined_id = minus_one

abbrev pub commqueue_as_server : ℕ
commqueue_as_server = 0

abbrev pub commqueue_as_client : ℕ
commqueue_as_client = 1

-- The struct `commqueue`.
pub record Channel : Type 0 where
  pub id_firstqueue : ℕ
  pub id_secondqueue : ℕ
  pub orientation : ℕ
  pub id : ℕ

-- A call `queue_send(queue, &message, sizeof(message), mtype)`.
pub record Sent : Type 0 where
  pub queue : ℕ
  pub message : Message
  pub mtype : ℕ

-- A call `queue_receive(queue, &received_msg, sizeof(q_message), mtype)`.
pub record Wanted : Type 0 where
  pub queue : ℕ
  pub mtype : ℕ

-- What a process does with its queues, in order.
pub data Action : Type 0 where
  sends : Sent → Action
  waits : Wanted → Action

-- The queue that a side sends to.
abbrev pub out_queue : Channel → ℕ
out_queue channel =
    if channel.orientation == 0 then channel.id_firstqueue else channel.id_secondqueue

unfoldable pub send_message : Channel → Message → Sent
send_message channel input =
    let mtype = if channel.id == undefined_id then input.message_type else channel.id in
    record {
      queue = out_queue channel;
      message =
          if input.message_type == type_connection_cinema_request
          then input
          else record input { message_type = mtype };
      mtype = mtype;
    }

-- `receive_message(channel, m_type)`.
unfoldable pub receive_message_of : Channel → ℕ → Wanted
receive_message_of channel m_type = record {
  queue = if channel.orientation == 0 then channel.id_secondqueue else channel.id_firstqueue;
  mtype = m_type;
}

-- `receive_message(channel)`; `none` is the exit of `THROW_UTIL`.
unfoldable pub receive_message : Channel → Option Wanted
unfolding receive_message_of
receive_message channel =
    if channel.id == undefined_id then none else some (receive_message_of channel channel.id)
