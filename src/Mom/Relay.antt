-- ===== src/Mom/Relay.antt =====
-- The process that `fork_client` of src/middleware/mom.cpp forks for a client, over the queues of the
-- kernel: a step is one call of it, or of another process. Forking the listener for seat updates
-- and killing it are recorded as effects.
pub mod Views
pub mod Stages
pub mod Calls
pub mod Passing
use sist_distrib2c.Base.{
  ℕ, ◌≡◌, Bool, true, false, List, [], ◌∷◌, ◌++◌, Option, none, some, ◌==◌, if◌then◌else◌,
}
use sist_distrib2c.Message.{Message}
use sist_distrib2c.Channel.{Channel}
use sist_distrib2c.Channel.Queues.{
  Parcel, MessageQueues, QueueCall, returns, blocks, exits, send_on, parcel_of, parcel_on,
}
use sist_distrib2c.Channel.Delivery.{Event, sent, received, send_failed, receive_failed, Run}
use sist_distrib2c.Mom.{Mom, Effect, undefined_cinema_client_id, process_message, client_process}

-- Where the process stands in its loop, with what it holds.
pub data Stage : Type 0 where
  waits_request : Stage
  forwards waits_response : Message → Stage
  answers : (request response : Message) → Stage
  processes : Message → Stage
  ended died : Stage

pub record Passed : Type 0 where
  pub request : Message
  pub response : Message

-- `log` records what the process has answered.
pub record Relay (k : MessageQueues) : Type 0 where
  pub queues : k.State
  pub mom : Mom
  pub stage : Stage
  pub log : List Passed
  pub effects : List Effect

unfoldable pub to_send : Mom → Stage → Option (Channel × Message)
to_send mom (forwards request) = some (mom.cinema_queue, request)
to_send mom (answers request response) = some (mom.client_queue, response)
to_send mom _ = none

-- The channel and the type of the next receive.
unfoldable pub to_receive : Mom → Stage → Option (Channel × ℕ)
to_receive mom waits_request = some (mom.client_queue, mom.client_queue.id)
to_receive mom (waits_response request) = some (
  mom.cinema_queue,
  if mom.client_cinema_id == undefined_cinema_client_id
      then mom.client_local_id
      else mom.cinema_queue.id,
)
to_receive mom _ = none

unfoldable pub after_send : Stage → Stage
after_send (forwards request) = waits_response request
after_send (answers request response) = processes response
after_send other = other

unfoldable pub passes : Stage → List Passed
passes (answers request response) = record { request = request; response = response } ∷ []
passes _ = []

unfoldable pub after_receive : Message → Stage → Stage
after_receive m waits_request = forwards m
after_receive m (waits_response request) = answers request m
after_receive m other = other

module _ (k : MessageQueues) where
  -- The receive itself, with the type of the message taken: only the call with a type of its own does
  -- not look at the channel's id.
  unfoldable pub receive_next : Mom → Stage → k.State → QueueCall k.State Parcel
  receive_next mom waits_request s = parcel_on k mom.client_queue s
  receive_next mom (waits_response request) s =
      if mom.client_cinema_id == undefined_cinema_client_id
      then parcel_of k mom.cinema_queue mom.client_local_id s
      else parcel_on k mom.cinema_queue s
  receive_next mom _ s = blocks

  -- `process_message`, with the pid that a fork returns.
  unfoldable pub work : ℕ → Relay k → Stage → Option (Relay k)
  work pid s (processes response) =
      let after = process_message s.mom response pid in
      some (record s {
        mom = after.0;
        effects = s.effects ++ after.1;
        stage = if after.2 then ended else waits_request;
      })
  work pid s _ = none

  pub data Step (s : Relay k) : List Event → Relay k → Type 0 where
    sends :
        (channel : Channel) (m : Message) {q : k.State}
        → to_send s.mom s.stage ≡ some (channel, m)
        → send_on k channel m s.queues ≡ returns tt q
        → Step s
            (sent channel m ∷ [])
            (record s { queues = q; stage = after_send s.stage; log = s.log ++ passes s.stage })
    receives :
        (channel : Channel) (mtype : ℕ) (p : Parcel) {q : k.State}
        → to_receive s.mom s.stage ≡ some (channel, mtype)
        → receive_next s.mom s.stage s.queues ≡ returns p q
        → Step s
            (received channel p.mtype p.text ∷ [])
            (record s { queues = q; stage = after_receive p.text s.stage })
    cannot_send :
        (channel : Channel) (m : Message) {q : k.State}
        → to_send s.mom s.stage ≡ some (channel, m)
        → send_on k channel m s.queues ≡ exits q
        → Step s (send_failed channel m ∷ []) (record s { queues = q; stage = died })
    cannot_receive :
        (channel : Channel) (mtype : ℕ) {q : k.State}
        → to_receive s.mom s.stage ≡ some (channel, mtype)
        → receive_next s.mom s.stage s.queues ≡ exits q
        → Step s (receive_failed channel mtype ∷ []) (record s { queues = q; stage = died })
    works : (pid : ℕ) {t : Relay k} → work pid s s.stage ≡ some t → Step s [] t
    others_call :
        (events : List Event) {q : k.State}
        → Run k s.queues events q
        → Step s events (record s { queues = q })

  -- The child of `fork_client` before its loop.
  unfoldable pub start_relay : k.State → Mom → ℕ → Relay k
  unfolding client_process
  start_relay queues mom local_id = record {
    queues = queues;
    mom = client_process mom local_id;
    stage = waits_request;
    log = [];
    effects = [];
  }

  pub data Reach (s : Relay k) : List Event → Relay k → Type 0 where
    start : Reach s [] s
    later :
        {t u : Relay k} {before events : List Event}
        → Reach s before t
        → Step t events u
        → Reach s (before ++ events) u
