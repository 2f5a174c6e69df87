-- ===== src/Cinema/Session/Requests.antt =====
-- What the listener has taken from the client's queue, step by step.
use mathlib.Core.List.{map-append}
use sist_distrib2c.Base.{
  ℕ, ◌≡◌, ◌≤◌, refl, sym, ap, ◌∙◌, subst, Bool, true, false, List, [], ◌∷◌, ◌++◌, map, none, some,
  ◌==◌, if◌then◌else◌, length, arith, append-nil, some-injective,
}
use sist_distrib2c.Message.{Message}
use sist_distrib2c.Channel.{Channel, receive_message_of}
use sist_distrib2c.Channel.Queues.{MessageQueues}
use sist_distrib2c.Cinema.{Cinema}
use sist_distrib2c.Cinema.Timer.{connection_timedout}
use sist_distrib2c.Cinema.Start.{get_timestamp}
use sist_distrib2c.Cinema.Session.Views.{
  Sending, sends_request, sends_exit, sends_answer, Receiving, takes_request, takes_reply,
  takes_last, goes_to_admin, is_exit,
}
use sist_distrib2c.Cinema.Session.{
  Listener, waits_request, checks_stamp, updates_stamp, handles, awaits_reply, answers, kills_timer,
  reads_stamp, awaits_last, closes_timer, ended, died, position, invalid_answer, Timer, compares,
  marks, warns, sleeps, stopped, killed, Exchange, Session, client_channel, after_send, logs,
  after_receive, listener_work, timer_work,
}

-- The request in hand.
abbrev pub in_hand : Listener → List Message
in_hand (checks_stamp m) = m ∷ []
in_hand (updates_stamp m) = m ∷ []
in_hand (handles m) = m ∷ []
in_hand (awaits_reply m) = m ∷ []
in_hand (answers request answer exit) = request ∷ []
in_hand _ = []

abbrev requests : List Exchange → List Message
requests = map (λ (x : Exchange). x.request)

-- What has come from the client is answered, in hand, or, after the loop or a failure, at most one
-- message that is not answered.
abbrev pub Got : Listener → List Message → List Exchange → Type 0
Got ended came log =
    (extra : List Message) × (length extra ≤ 1)
    × (came ≡ map (λ (x : Exchange). x.request) log ++ extra)
Got died came log =
    (extra : List Message) × (length extra ≤ 1)
    × (came ≡ map (λ (x : Exchange). x.request) log ++ extra)
Got l came log = came ≡ map (λ (x : Exchange). x.request) log ++ in_hand l

pub Got-any :
    (l : Listener) (seen : List Message) (log : List Exchange) → Got l seen log → Got died seen log
Got-any ended seen log h = h
Got-any died seen log h = h
Got-any (checks_stamp m) seen log h = (m ∷ [], omega arith, h)
Got-any (updates_stamp m) seen log h = (m ∷ [], omega arith, h)
Got-any (handles m) seen log h = (m ∷ [], omega arith, h)
Got-any (awaits_reply m) seen log h = (m ∷ [], omega arith, h)
Got-any (answers request answer exit) seen log h = (request ∷ [], omega arith, h)
Got-any _ seen log h = ([], omega arith, h)

one_more :
    (seen : List Message) (log : List Exchange) (x : Exchange)
    → seen ≡ requests log ++ (x.request ∷ [])
    → seen ≡ requests (log ++ (x ∷ [])) ++ []
one_more seen log x h =
    h ∙ sym (append-nil _ ∙ map-append (λ (x : Exchange). x.request) log (x ∷ []))

module _ (cinema : Cinema) where
  -- Where requests come from and answers go.
  abbrev pub in_queue : ℕ
  in_queue = (receive_message_of (client_channel cinema) cinema.client_id).queue

  -- What a receive of the listener takes from the client's queue.
  abbrev pub came : Listener → Message → List Message
  came waits_request m = m ∷ []
  came awaits_last m = m ∷ []
  came _ m = []

  pub Receiving-id :
      {l : Listener} {channel : Channel}
      → Receiving cinema channel l
      → channel.id ≡ cinema.client_id
  Receiving-id (takes_request c) = ap (λ (x : Channel). x.id) c
  Receiving-id (takes_reply r c) = ap (λ (x : Channel). x.id) c
  Receiving-id (takes_last c) = ap (λ (x : Channel). x.id) c

  pub got_sends :
      {l : Listener} (seen : List Message) (log : List Exchange) {channel : Channel} {m : Message}
      → Sending cinema channel m l
      → Got l seen log
      → Got (after_send l) seen (log ++ logs l)
  unfolding after_send logs
  got_sends seen log (sends_request r e c) h = rw (e, append-nil log) h
  got_sends seen log (sends_exit r e leaves c) h = rw (e, append-nil log) h
  got_sends seen log {m = a} (sends_answer request true c) h =
      one_more seen log (record { request = request; answer = a }) h
  got_sends seen log {m = a} (sends_answer request false c) h =
      one_more seen log (record { request = request; answer = a }) h

  pub got_receives :
      {l : Listener} (seen : List Message) (log : List Exchange) (m : Message) {channel : Channel}
      → Receiving cinema channel l
      → Got l seen log
      → Got (after_receive m l) (seen ++ came l m) log
  unfolding after_receive
  got_receives seen log m (takes_request c) h =
      ap (λ (x : List Message). x ++ (m ∷ [])) (h ∙ append-nil (requests log))
  got_receives seen log m (takes_reply r c) h = append-nil seen ∙ h
  got_receives seen log m (takes_last c) h = (
    m ∷ [],
    omega arith,
    ap (λ (x : List Message). x ++ (m ∷ [])) (h ∙ append-nil (requests log)),
  )

  got_rejects :
      (k : MessageQueues) (forwarded leaves : Bool) (m : Message) (s t : Session k)
      (seen : List Message)
      → (if forwarded
          then none
          else if leaves
          then none
          else some (record s { listener = answers m invalid_answer false }))
        ≡ some t
      → seen ≡ requests s.log ++ (m ∷ [])
      → Got t.listener seen t.log
  got_rejects k true leaves m s t seen h v = cc
  got_rejects k false true m s t seen h v = cc
  got_rejects k false false m s t seen h v =
      subst (λ (t : Session k). Got t.listener seen t.log) (some-injective _ _ h) v

  got_checks :
      (stamped : Bool) (m : Message) (seen : List Message) (log : List Exchange)
      → seen ≡ requests log ++ (m ∷ [])
      → Got (if stamped then handles m else updates_stamp m) seen log
  got_checks true m seen log h = h
  got_checks false m seen log h = h

  got_finishes :
      (stamped : Bool) (seen : List Message) (log : List Exchange)
      → seen ≡ requests log ++ []
      → Got (if stamped then awaits_last else closes_timer) seen log
  got_finishes true seen log h = h
  got_finishes false seen log h = h

  pub got_works :
      (k : MessageQueues) (s t : Session k) (l : Listener) (seen : List Message)
      → listener_work k cinema s l ≡ some t
      → Got l seen s.log
      → Got t.listener seen t.log
  unfolding listener_work
  got_works k s t (checks_stamp m) seen h v =
      subst (λ (t : Session k). Got t.listener seen t.log) (some-injective _ _ h)
        (got_checks (get_timestamp s.stamps (position cinema) == connection_timedout) m seen s.log
          v)
  got_works k s t (updates_stamp m) seen h v =
      subst (λ (t : Session k). Got t.listener seen t.log) (some-injective _ _ h) v
  got_works k s t (handles m) seen h v = got_rejects k (goes_to_admin m) (is_exit m) m s t seen h v
  got_works k s t kills_timer seen h v =
      subst (λ (t : Session k). Got t.listener seen t.log) (some-injective _ _ h) v
  got_works k s t reads_stamp seen h v =
      subst (λ (t : Session k). Got t.listener seen t.log) (some-injective _ _ h)
        (got_finishes (get_timestamp s.stamps (position cinema) == connection_timedout) seen s.log
          v)
  got_works k s t closes_timer seen h v =
      subst (λ (t : Session k). Got t.listener seen t.log) (some-injective _ _ h)
        ([], omega arith, v)
  got_works k s t waits_request seen h v = cc
  got_works k s t (awaits_reply m) seen h v = cc
  got_works k s t (answers request answer exit) seen h v = cc
  got_works k s t awaits_last seen h v = cc
  got_works k s t ended seen h v = cc
  got_works k s t died seen h v = cc

  -- What a step that makes no call on a queue leaves alone.
  abbrev pub LeavesAlone : (k : MessageQueues) → Session k → Session k → Type 0
  LeavesAlone k s t = (t.log ≡ s.log) × (t.queues ≡ s.queues)

  left_alone :
      (k : MessageQueues) (s : Session k) {next t : Session k}
      → some next ≡ some t
      → LeavesAlone k s next
      → LeavesAlone k s t
  left_alone k s h = subst (LeavesAlone k s) (some-injective _ _ h)

  reject_leaves :
      (k : MessageQueues) (forwarded leaves : Bool) (s next t : Session k)
      → (if forwarded then none else if leaves then none else some next) ≡ some t
      → LeavesAlone k s next
      → LeavesAlone k s t
  reject_leaves k true leaves s next t h v = cc
  reject_leaves k false true s next t h v = cc
  reject_leaves k false false s next t h v = left_alone k s h v

  pub works_leave :
      (k : MessageQueues) (s t : Session k) (l : Listener)
      → listener_work k cinema s l ≡ some t
      → LeavesAlone k s t
  unfolding listener_work
  works_leave k s t (checks_stamp m) h = left_alone k s h (refl, refl)
  works_leave k s t (updates_stamp m) h = left_alone k s h (refl, refl)
  works_leave k s t (handles m) h =
      reject_leaves k (goes_to_admin m) (is_exit m) s
        (record s { listener = answers m invalid_answer false }) t h (refl, refl)
  works_leave k s t kills_timer h = left_alone k s h (refl, refl)
  works_leave k s t reads_stamp h = left_alone k s h (refl, refl)
  works_leave k s t closes_timer h = left_alone k s h (refl, refl)
  works_leave k s t waits_request h = cc
  works_leave k s t (awaits_reply m) h = cc
  works_leave k s t (answers request answer exit) h = cc
  works_leave k s t awaits_last h = cc
  works_leave k s t ended h = cc
  works_leave k s t died h = cc

  -- The timer leaves the listener alone, too.
  abbrev pub TimerLeaves : (k : MessageQueues) → Session k → Session k → Type 0
  TimerLeaves k s t = (t.listener ≡ s.listener) × LeavesAlone k s t

  timer_left :
      (k : MessageQueues) (s : Session k) {next t : Session k}
      → some next ≡ some t
      → TimerLeaves k s next
      → TimerLeaves k s t
  timer_left k s h = subst (TimerLeaves k s) (some-injective _ _ h)

  pub timer_leaves :
      (k : MessageQueues) (s t : Session k) (timer : Timer)
      → timer_work k cinema s timer ≡ some t
      → TimerLeaves k s t
  unfolding timer_work
  timer_leaves k s t sleeps h = timer_left k s h (refl, (refl, refl))
  timer_leaves k s t (compares last) h = timer_left k s h (refl, (refl, refl))
  timer_leaves k s t marks h = timer_left k s h (refl, (refl, refl))
  timer_leaves k s t warns h = cc
  timer_leaves k s t stopped h = cc
  timer_leaves k s t killed h = cc
