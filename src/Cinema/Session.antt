-- ===== src/Cinema/Session.antt =====
-- `cinema_listen_client`, `start_timer` and `cinema_handle` of src/cinema as two processes that run
-- at the same time, the listener of a client and its inactivity timer, over the queues of the kernel
-- and the timestamps in shared memory. A step is one call of one of them. The semaphore makes an
-- access to a timestamp one step; `shm_dettach` and what is printed are left out.
pub mod Views
pub mod Log
pub mod Warnings
pub mod Answers
pub mod Requests
pub mod Steps
pub mod Traffic
pub mod Race
use sist_distrib2c.Base.{
  ℕ, ◌≡◌, ◌≤◌, ◌%◌, suc, Bool, true, false, List, [], ◌∷◌, ◌++◌, Option, none, some, ◌==◌,
  if◌then◌else◌,
}
use sist_distrib2c.Message.{Message, zero_message, max_clients, choice_exit, choice_invalid_request}
use sist_distrib2c.Channel.{Channel, commqueue_as_client}
use sist_distrib2c.Channel.Queues.{MessageQueues, returns, exits, send_on, receive_on}
use sist_distrib2c.Channel.Delivery.{
  Event, sent, received, send_failed, receive_failed, Run, received_from,
}
use sist_distrib2c.Cinema.{Cinema, is_forwarded}
use sist_distrib2c.Cinema.Timer.{
  Poll, closes, times_out, goes_on, timer_poll, exit_message, connection_timedout, timer_close,
}
use sist_distrib2c.Cinema.Start.{update_timestamp, get_timestamp}

-- Where the listener stands in its loop and after it, with the request in hand.
pub data Listener : Type 0 where
  waits_request : Listener
  checks_stamp updates_stamp handles awaits_reply : Message → Listener
  -- The answer to a request, and `exit`.
  answers : (request answer : Message) → Bool → Listener
  kills_timer reads_stamp awaits_last closes_timer ended died : Listener

-- Where the timer stands; `compares` has read the timestamp.
pub data Timer : Type 0 where
  sleeps : Timer
  compares : ℕ → Timer
  warns marks stopped killed : Timer

pub record Exchange : Type 0 where
  pub request : Message
  pub answer : Message

-- `log`, `replies` and `warnings` record what the listener has answered, what it has received from
-- the admin, and how many messages the timer has sent.
pub record Session (k : MessageQueues) : Type 0 where
  pub queues : k.State
  pub stamps : ℕ → ℕ
  pub now : ℕ
  pub listener : Listener
  pub timer : Timer
  pub log : List Exchange
  pub replies : List Message
  pub warnings : ℕ

module _ (cinema : Cinema) where
  -- `cinema.client_comm` after the first line of `cinema_listen_client`.
  abbrev pub client_channel : Channel
  client_channel = record cinema.client_comm { id = cinema.client_id }

  -- The copy that the timer uses, "as client".
  abbrev pub timer_channel : Channel
  timer_channel = record client_channel { orientation = commqueue_as_client }

  -- Where `cinema_handle` waits for the admin.
  abbrev pub reply_channel : Channel
  reply_channel = record cinema.admin_comm { id = cinema.client_id }

  abbrev pub position : ℕ
  position = cinema.client_id % max_clients

  abbrev pub forwards_to_admin : Message → Option (Channel × Message)
  forwards_to_admin m =
      let call = some (cinema.admin_comm, record m { client_id = cinema.client_id }) in
      if is_forwarded m.message_choice_number
      then call
      else if m.message_choice_number == choice_exit
      then call
      else none

  -- The message that the listener sends next.
  unfoldable pub to_send : Listener → Option (Channel × Message)
  to_send (handles m) = forwards_to_admin m
  to_send (answers request answer exit) = some (client_channel, answer)
  to_send _ = none

  -- The channel that the listener receives from next.
  unfoldable pub to_receive : Listener → Option Channel
  to_receive waits_request = some client_channel
  to_receive (awaits_reply m) = some reply_channel
  to_receive awaits_last = some client_channel
  to_receive _ = none

abbrev pub exit_answer : Message
exit_answer = record zero_message { message_choice_number = choice_exit }

abbrev pub invalid_answer : Message
invalid_answer = record zero_message { message_choice_number = choice_invalid_request }

unfoldable pub after_send : Listener → Listener
after_send (handles m) =
    if is_forwarded m.message_choice_number then awaits_reply m else answers m exit_answer true
after_send (answers request answer true) = kills_timer
after_send (answers request answer false) = waits_request
after_send other = other

unfoldable pub logs : Listener → List Exchange
logs (answers request answer exit) = record { request = request; answer = answer } ∷ []
logs _ = []

unfoldable pub after_receive : Message → Listener → Listener
after_receive m waits_request = checks_stamp m
after_receive m (awaits_reply request) = answers request m false
after_receive m awaits_last = ended
after_receive m other = other

unfoldable pub replied : Message → Listener → List Message
replied m (awaits_reply request) = m ∷ []
replied m _ = []

-- `kill(timer_pid, SIGKILL)`: a timer that has stopped is left as it is.
unfoldable pub kill_timer : Timer → Timer
kill_timer stopped = stopped
kill_timer _ = killed

module _ (k : MessageQueues) (cinema : Cinema) where
  -- The steps of the listener that make no call on a queue.
  unfoldable pub listener_work : Session k → Listener → Option (Session k)
  unfolding update_timestamp get_timestamp kill_timer
  listener_work s (checks_stamp m) = some (record s {
    listener =
        if get_timestamp s.stamps (position cinema) == connection_timedout
        then handles m
        else updates_stamp m;
  })
  listener_work s (updates_stamp m) = some (record s {
    stamps = update_timestamp s.stamps (position cinema) s.now;
    listener = handles m;
  })
  listener_work s (handles m) =
      if is_forwarded m.message_choice_number
      then none
      else if m.message_choice_number == choice_exit
      then none
      else some (record s { listener = answers m invalid_answer false })
  listener_work s kills_timer =
      some (record s { listener = reads_stamp; timer = kill_timer s.timer })
  listener_work s reads_stamp = some (record s {
    listener =
        if get_timestamp s.stamps (position cinema) == connection_timedout
        then awaits_last
        else closes_timer;
  })
  listener_work s closes_timer = some (record s {
    stamps = update_timestamp s.stamps (position cinema) timer_close;
    listener = ended;
  })
  listener_work s _ = none

  abbrev pub next_timer : Poll → Timer
  next_timer closes = stopped
  next_timer (times_out message) = warns
  next_timer goes_on = sleeps

  -- The steps of the timer that make no call on a queue.
  unfoldable pub timer_work : Session k → Timer → Option (Session k)
  unfolding update_timestamp get_timestamp
  timer_work s sleeps =
      some (record s { timer = compares (get_timestamp s.stamps (position cinema)) })
  timer_work s (compares last) =
      some (record s { timer = next_timer (timer_poll (client_channel cinema) last s.now) })
  timer_work s marks = some (record s {
    stamps = update_timestamp s.stamps (position cinema) connection_timedout;
    timer = stopped;
  })
  timer_work s _ = none

  -- A step, with the calls on the queues that it makes.
  pub data Step (s : Session k) : List Event → Session k → Type 0 where
    listener_sends :
        (channel : Channel) (m : Message) {q : k.State}
        → to_send cinema s.listener ≡ some (channel, m)
        → send_on k channel m s.queues ≡ returns tt q
        → Step s (sent channel m ∷ []) (record s {
          queues = q;
          listener = after_send s.listener;
          log = s.log ++ logs s.listener;
        })
    listener_receives :
        (channel : Channel) (m : Message) {q : k.State}
        → to_receive cinema s.listener ≡ some channel
        → receive_on k channel s.queues ≡ returns m q
        → Step s (received channel channel.id m ∷ []) (record s {
          queues = q;
          listener = after_receive m s.listener;
          replies = s.replies ++ replied m s.listener;
        })
    listener_cannot_send :
        (channel : Channel) (m : Message) {q : k.State}
        → to_send cinema s.listener ≡ some (channel, m)
        → send_on k channel m s.queues ≡ exits q
        → Step s (send_failed channel m ∷ []) (record s { queues = q; listener = died })
    listener_cannot_receive :
        (channel : Channel) {q : k.State}
        → to_receive cinema s.listener ≡ some channel
        → receive_on k channel s.queues ≡ exits q
        → Step s (receive_failed channel channel.id ∷ []) (record s { queues = q; listener = died })
    listener_works : {t : Session k} → listener_work s s.listener ≡ some t → Step s [] t
    timer_warns :
        {q : k.State}
        → s.timer ≡ warns
        → send_on k (timer_channel cinema) exit_message s.queues ≡ returns tt q
        → Step s
            (sent (timer_channel cinema) exit_message ∷ [])
            (record s { queues = q; timer = marks; warnings = suc s.warnings })
    timer_cannot_warn :
        {q : k.State}
        → s.timer ≡ warns
        → send_on k (timer_channel cinema) exit_message s.queues ≡ exits q
        → Step s
            (send_failed (timer_channel cinema) exit_message ∷ [])
            (record s { queues = q; timer = stopped })
    timer_works : {t : Session k} → timer_work s s.timer ≡ some t → Step s [] t
    -- Time passes, other processes use the queues and write timestamps.
    clock : (later : ℕ) → s.now ≤ later → Step s [] (record s { now = later })
    others_call :
        (events : List Event) {q : k.State}
        → Run k s.queues events q
        → Step s events (record s { queues = q })
    others_stamp : (stamps : ℕ → ℕ) → Step s [] (record s { stamps = stamps })

  -- `start_timer`, and what `cinema_listen_client` begins with.
  unfoldable pub start_session : k.State → (ℕ → ℕ) → ℕ → Session k
  unfolding update_timestamp
  start_session queues stamps now = record {
    queues = queues;
    stamps = update_timestamp stamps (position cinema) now;
    now = now;
    listener = waits_request;
    timer = sleeps;
    log = [];
    replies = [];
    warnings = 0;
  }

  -- The states reached, with all the calls on the queues.
  pub data Reach (s : Session k) : List Event → Session k → Type 0 where
    start : Reach s [] s
    later :
        {t u : Session k} {before events : List Event}
        → Reach s before t
        → Step t events u
        → Reach s (before ++ events) u
