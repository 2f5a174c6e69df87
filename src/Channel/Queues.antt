-- ===== src/Channel/Queues.antt =====
-- `queue_send` and `queue_receive` of src/ipc/queue.cpp and the calls of them in
-- src/ipc/communicationqueue.cpp, over the System V message queues of the kernel, a parameter.
-- `exits` is the exit of `THROW_UTIL`, with what the process leaves behind.
use sist_distrib2c.Base.{
  ℕ, ◌≡◌, true, false, List, [], ◌∷◌, ◌++◌, Option, none, some, ◌==◌, if◌then◌else◌, All,
}
use sist_distrib2c.Base.Words.{minus_one, is_positive}
use sist_distrib2c.Message.{Message}
use sist_distrib2c.Channel.{Channel, undefined_id, send_message, receive_message_of}

-- What a queue holds of a message, and what `msgrcv` fills in a `struct msgbuf`: its type and its text.
pub record Parcel : Type 0 where
  pub mtype : ℕ
  pub text : Message

-- `none` while the call waits. The result of a call is an int; `msgrcv` fills a `struct msgbuf`.
pub record MessageQueues : Type 1 where
  pub State : Type 0
  pub msgsnd : (queue size mtype : ℕ) (text : Message) → State → Option (ℕ × State)
  pub msgrcv : (queue size mtype : ℕ) → State → Option (ℕ × Parcel × State)

-- The parcels of one type, in order.
abbrev pub of_type : ℕ → List Parcel → List Message
of_type mtype [] = []
of_type mtype (p ∷ parcels) =
    if p.mtype == mtype then p.text ∷ of_type mtype parcels else of_type mtype parcels

abbrev pub IsOther : ℕ → Parcel → Type 0
IsOther mtype p = (p.mtype == mtype) ≡ false

-- The documented behaviour of the calls: a message is appended to its queue; a receive takes a message
-- that is the first of its type, whatever type it asks for (0 asks for the first message of all, a
-- negative one for the first of the lowest type); one that asks for a positive type takes that type,
-- and does not wait when there is a message of it; other queues stay as they are, and a call that
-- fails changes none.
pub record QueueLaws (k : MessageQueues) : Type 0 where
  pub contents : k.State → ℕ → List Parcel
  pub appended :
      (id size mtype r : ℕ) (text : Message) (s s' : k.State)
      → k.msgsnd id size mtype text s ≡ some (r, s')
      → (r == minus_one) ≡ false
      → (q : ℕ)
      → contents s' q ≡ (
          if id == q
          then contents s q ++ (record { mtype = mtype; text = text } ∷ [])
          else contents s q)
  pub refused :
      (id size mtype r : ℕ) (text : Message) (s s' : k.State)
      → k.msgsnd id size mtype text s ≡ some (r, s')
      → (r == minus_one) ≡ true
      → (q : ℕ) → contents s' q ≡ contents s q
  pub taken :
      (id size mtype r : ℕ) (p : Parcel) (s s' : k.State)
      → k.msgrcv id size mtype s ≡ some (r, p, s')
      → (r == minus_one) ≡ false
      → (before after : List Parcel) × All (IsOther p.mtype) before
        × (contents s id ≡ before ++ (p ∷ after))
        × ((q : ℕ) → contents s' q ≡ (if id == q then before ++ after else contents s q))
  pub asked :
      (id size mtype r : ℕ) (p : Parcel) (s s' : k.State)
      → is_positive mtype ≡ true
      → k.msgrcv id size mtype s ≡ some (r, p, s')
      → (r == minus_one) ≡ false
      → p.mtype ≡ mtype
  pub kept :
      (id size mtype r : ℕ) (p : Parcel) (s s' : k.State)
      → k.msgrcv id size mtype s ≡ some (r, p, s')
      → (r == minus_one) ≡ true
      → (q : ℕ) → contents s' q ≡ contents s q
  -- The buffer is large enough for every message of the program.
  pub ready :
      (id size mtype : ℕ) (m : Message) (rest : List Message) (s : k.State)
      → is_positive mtype ≡ true
      → of_type mtype (contents s id) ≡ m ∷ rest
      → (r : ℕ) × (p : Parcel) × (s' : k.State) × ((r == minus_one) ≡ false)
        × (k.msgrcv id size mtype s ≡ some (r, p, s'))

pub data QueueCall {ℓ κ} (S : Type ℓ) (A : Type κ) : Type (ℓ ⊔ κ) where
  returns : A → S → QueueCall S A
  blocks : QueueCall S A
  exits : S → QueueCall S A

-- `memcpy(buf, msg->mtext, ...)` out of the `struct msgbuf`.
abbrev pub text_of {ℓ} : {S : Type ℓ} → QueueCall S Parcel → QueueCall S Message
text_of (returns p s) = returns p.text s
text_of blocks = blocks
text_of (exits s) = exits s

-- `sizeof(q_message)`: three ints, and a union whose largest member has an int and 500 pairs of ints.
abbrev pub size_of_message : ℕ
size_of_message = 4016

module _ (k : MessageQueues) where
  open k use {State}

  abbrev pub after_msgsnd : Option (ℕ × State) → QueueCall State (Unit {0})
  after_msgsnd none = blocks
  after_msgsnd (some (status, s)) = if status == minus_one then exits s else returns tt s

  -- The int `msgType` becomes the long `mtype`; a type that is not positive is refused by `msgsnd`.
  unfoldable pub queue_send : ℕ → Message → ℕ → ℕ → State → QueueCall State (Unit {0})
  queue_send queue_id buf bufsize msg_type s =
      after_msgsnd (k.msgsnd queue_id bufsize msg_type buf s)

  abbrev pub after_msgrcv : Option (ℕ × Parcel × State) → QueueCall State Parcel
  after_msgrcv none = blocks
  after_msgrcv (some (status, p, s)) = if status == minus_one then exits s else returns p s

  -- `queue_receive`, with all that is in its `struct msgbuf`.
  unfoldable pub receive_msgbuf : ℕ → ℕ → ℕ → State → QueueCall State Parcel
  receive_msgbuf queue_id bufsize msg_type s = after_msgrcv (k.msgrcv queue_id bufsize msg_type s)

  unfoldable pub queue_receive : ℕ → ℕ → ℕ → State → QueueCall State Message
  unfolding receive_msgbuf
  queue_receive queue_id bufsize msg_type s = text_of (receive_msgbuf queue_id bufsize msg_type s)

  -- `send_message(channel, input)` with what the queue does.
  unfoldable pub send_on : Channel → Message → State → QueueCall State (Unit {0})
  unfolding queue_send
  send_on channel input =
      let call = send_message channel input in
      queue_send call.queue call.message size_of_message call.mtype

  -- The `struct msgbuf` that `receive_message(channel, m_type)` takes its message from.
  unfoldable pub parcel_of : Channel → ℕ → State → QueueCall State Parcel
  unfolding receive_msgbuf
  parcel_of channel m_type =
      let call = receive_message_of channel m_type in
      receive_msgbuf call.queue size_of_message call.mtype

  -- `receive_message(channel, m_type)` with what the queue does.
  unfoldable pub receive_of : Channel → ℕ → State → QueueCall State Message
  unfolding queue_receive
  receive_of channel m_type =
      let call = receive_message_of channel m_type in
      queue_receive call.queue size_of_message call.mtype

  -- `receive_message(channel)` with what the queue does.
  unfoldable pub receive_on : Channel → State → QueueCall State Message
  unfolding receive_of
  receive_on channel s =
      if channel.id == undefined_id then exits s else receive_of channel channel.id s

  -- The `struct msgbuf` that `receive_message(channel)` takes its message from.
  unfoldable pub parcel_on : Channel → State → QueueCall State Parcel
  unfolding parcel_of
  parcel_on channel s =
      if channel.id == undefined_id then exits s else parcel_of channel channel.id s
