-- ===== src/Cinema/Session/Answers.antt =====
-- What the listener has answered and what the timer has sent, in every state that the two reach.
use sist_distrib2c.Base.{
  ℕ, suc, ◌≡◌, refl, sym, ap, subst, Bool, true, false, List, none, some, ◌==◌, if◌then◌else◌, All,
  arith, inr, some-injective,
}
use sist_distrib2c.Message.{Message}
use sist_distrib2c.Channel.Queues.{MessageQueues}
use sist_distrib2c.Channel.Delivery.{Event}
use sist_distrib2c.Cinema.{Cinema}
use sist_distrib2c.Cinema.Timer.{Poll, closes, times_out, goes_on, timer_poll, connection_timedout}
use sist_distrib2c.Cinema.Start.{get_timestamp}
use sist_distrib2c.Cinema.Session.{
  Listener, waits_request, checks_stamp, updates_stamp, handles, awaits_reply, answers, kills_timer,
  reads_stamp, awaits_last, closes_timer, ended, died, Timer, sleeps, compares, warns, marks,
  stopped, killed, position, Exchange, Session, next_timer, client_channel, invalid_answer,
  listener_work, timer_work, Step, listener_sends, listener_receives, listener_cannot_send,
  listener_cannot_receive, listener_works, timer_warns, timer_cannot_warn, timer_works, clock,
  others_call, others_stamp, start_session, Reach, start, later,
}
use sist_distrib2c.Cinema.Session.Views.{is_exit, goes_to_admin, to_send_view, to_receive_view}
use sist_distrib2c.Cinema.Session.Log.{
  IsRight, LoopsTo, Uses, LogInv, log_sends, log_receives, log_dies, idle_after,
}
use sist_distrib2c.Cinema.Session.Warnings.{
  HasWarned, IsDead, Outlives, kill_timer-IsDead, kill_timer-HasWarned, alive-Outlives,
  send-Outlives, receive-Outlives,
}

-- What holds of the listener, its log, the replies, the timer and its warnings.
record Holds (l : Listener) (log : List Exchange) (replies : List Message) (timer : Timer)
    (warnings : ℕ) : Type 0 where
  served : LogInv l log replies
  warned : HasWarned timer warnings
  outlived : Outlives l timer

module _ (k : MessageQueues) (cinema : Cinema) where
  abbrev HoldsAt : Session k → Type 0
  HoldsAt s = Holds s.listener s.log s.replies s.timer s.warnings

  reaches : (s : Session k) {t : Session k} → some s ≡ some t → HoldsAt s → HoldsAt t
  reaches s h = subst HoldsAt (some-injective _ _ h)

  checked :
      (stamped : Bool) (m : Message) (log : List Exchange) (replies : List Message) (timer : Timer)
      (n : ℕ)
      → Holds (checks_stamp m) log replies timer n
      → Holds (if stamped then handles m else updates_stamp m) log replies timer n
  checked true m log replies timer n v = record {
    served = idle_after log replies (checks_stamp m) (handles m) tt (λ u. u) (λ u. u) v.served;
    warned = v.warned;
    outlived = tt;
  }
  checked false m log replies timer n v = record {
    served =
        idle_after log replies (checks_stamp m) (updates_stamp m) tt (λ u. u) (λ u. u) v.served;
    warned = v.warned;
    outlived = tt;
  }

  finishes :
      (stamped : Bool) (log : List Exchange) (replies : List Message) (timer : Timer) (n : ℕ)
      → Holds reads_stamp log replies timer n
      → Holds (if stamped then awaits_last else closes_timer) log replies timer n
  finishes true log replies timer n v = record {
    served = idle_after log replies reads_stamp awaits_last tt (λ u. u) (λ u. u) v.served;
    warned = v.warned;
    outlived = v.outlived;
  }
  finishes false log replies timer n v = record {
    served = idle_after log replies reads_stamp closes_timer tt (λ u. u) (λ u. u) v.served;
    warned = v.warned;
    outlived = v.outlived;
  }

  rejected :
      (forwarded leaves : Bool) (m : Message) (s t : Session k)
      → goes_to_admin m ≡ forwarded
      → is_exit m ≡ leaves
      → (if forwarded
          then none
          else if leaves
          then none
          else some (record s { listener = answers m invalid_answer false }))
        ≡ some t
      → Holds (handles m) s.log s.replies s.timer s.warnings
      → HoldsAt t
  rejected true leaves m s t e f h v = cc
  rejected false true m s t e f h v = cc
  rejected false false m s t e f h v = reaches _ h (record {
    served = record {
      right = v.served.right;
      hand = (inr (rw f refl), sym f);
      used = rw e v.served.used;
      loops = v.served.loops;
    };
    warned = v.warned;
    outlived = tt;
  })

  listener_works_Holds :
      (s t : Session k) (l : Listener)
      → listener_work k cinema s l ≡ some t
      → Holds l s.log s.replies s.timer s.warnings
      → HoldsAt t
  unfolding listener_work
  listener_works_Holds s t (checks_stamp m) h v = reaches _ h (
      checked (get_timestamp s.stamps (position cinema) == connection_timedout) m s.log s.replies
        s.timer s.warnings v)
  listener_works_Holds s t (updates_stamp m) h v = reaches _ h (record {
    served = idle_after s.log s.replies (updates_stamp m) (handles m) tt (λ u. u) (λ u. u) v.served;
    warned = v.warned;
    outlived = tt;
  })
  listener_works_Holds s t (handles m) h v =
      rejected (goes_to_admin m) (is_exit m) m s t refl refl h v
  listener_works_Holds s t kills_timer h v = reaches _ h (record {
    served = idle_after s.log s.replies kills_timer reads_stamp tt (λ u. u) (λ u. u) v.served;
    warned = kill_timer-HasWarned s.timer s.warnings v.warned;
    outlived = kill_timer-IsDead s.timer;
  })
  listener_works_Holds s t reads_stamp h v = reaches _ h (
      finishes (get_timestamp s.stamps (position cinema) == connection_timedout) s.log s.replies
        s.timer s.warnings v)
  listener_works_Holds s t closes_timer h v = reaches _ h (record {
    served = idle_after s.log s.replies closes_timer ended tt (λ u. u) (λ u. u) v.served;
    warned = v.warned;
    outlived = v.outlived;
  })
  listener_works_Holds s t waits_request h v = cc
  listener_works_Holds s t (awaits_reply m) h v = cc
  listener_works_Holds s t (answers request answer exit) h v = cc
  listener_works_Holds s t awaits_last h v = cc
  listener_works_Holds s t ended h v = cc
  listener_works_Holds s t died h v = cc

  polled : (poll : Poll) (n : ℕ) → n ≡ 0 → HasWarned (next_timer k cinema poll) n
  polled closes n h = omega (arith, h)
  polled (times_out message) n h = h
  polled goes_on n h = h

  timer_works_Holds :
      (s t : Session k) (timer : Timer)
      → timer_work k cinema s timer ≡ some t
      → Holds s.listener s.log s.replies timer s.warnings
      → HoldsAt t
  unfolding timer_work
  timer_works_Holds s t sleeps h v = reaches _ h (record {
    served = v.served;
    warned = v.warned;
    outlived = alive-Outlives s.listener sleeps _ (λ (d : IsDead sleeps). ground arith) v.outlived;
  })
  timer_works_Holds s t (compares last) h v = reaches _ h (record {
    served = v.served;
    warned = polled (timer_poll (client_channel cinema) last s.now) s.warnings v.warned;
    outlived =
        alive-Outlives s.listener (compares last) _ (λ (d : IsDead (compares last)). ground arith)
          v.outlived;
  })
  timer_works_Holds s t marks h v = reaches _ h (record {
    served = v.served;
    warned = omega (arith, v.warned);
    outlived = alive-Outlives s.listener marks _ (λ (d : IsDead marks). ground arith) v.outlived;
  })
  timer_works_Holds s t warns h v = cc
  timer_works_Holds s t stopped h v = cc
  timer_works_Holds s t killed h v = cc

  step_Holds :
      {s t : Session k} {events : List Event} → Step k cinema s events t → HoldsAt s → HoldsAt t
  step_Holds {s = s} (listener_sends channel m h called) v = record {
    served = log_sends cinema s.log s.replies (to_send_view cinema s.listener channel m h) v.served;
    warned = v.warned;
    outlived = send-Outlives cinema s.timer (to_send_view cinema s.listener channel m h);
  }
  step_Holds {s = s} (listener_receives channel m h called) v = record {
    served =
        log_receives cinema s.log s.replies m (to_receive_view cinema s.listener channel h)
          v.served;
    warned = v.warned;
    outlived =
        receive-Outlives cinema s.timer m (to_receive_view cinema s.listener channel h) v.outlived;
  }
  step_Holds {s = s} (listener_cannot_send channel m h called) v = record {
    served = log_dies s.listener s.log s.replies v.served;
    warned = v.warned;
    outlived = tt;
  }
  step_Holds {s = s} (listener_cannot_receive channel h called) v = record {
    served = log_dies s.listener s.log s.replies v.served;
    warned = v.warned;
    outlived = tt;
  }
  step_Holds {s = s} (listener_works h) v = listener_works_Holds s _ s.listener h v
  step_Holds {s = s} (timer_warns h called) v = record {
    served = v.served;
    warned = ap suc (subst (λ (x : Timer). HasWarned x s.warnings) h v.warned);
    outlived =
        alive-Outlives s.listener warns _ (λ (d : IsDead warns). ground arith)
          (subst (Outlives s.listener) h v.outlived);
  }
  step_Holds {s = s} (timer_cannot_warn h called) v = record {
    served = v.served;
    warned = omega (arith, subst (λ (x : Timer). HasWarned x s.warnings) h v.warned);
    outlived =
        alive-Outlives s.listener warns _ (λ (d : IsDead warns). ground arith)
          (subst (Outlives s.listener) h v.outlived);
  }
  step_Holds {s = s} (timer_works h) v = timer_works_Holds s _ s.timer h v
  step_Holds (clock now h) v = v
  step_Holds (others_call events h) v = v
  step_Holds (others_stamp stamps) v = v

  Reach-Holds :
      {s t : Session k} {events : List Event} → Reach k cinema s events t → HoldsAt s → HoldsAt t
  Reach-Holds start v = v
  Reach-Holds (later r step) v = step_Holds step (Reach-Holds r v)

  -- However the listener of a client, its timer and all other processes are interleaved, whatever they
  -- send, receive and store, and also when a call has failed and ended the listener or the timer:
  -- each answer given so far is the admin's reply if the request goes to the admin, CHOICE_EXIT for
  -- CHOICE_EXIT and CHOICE_INVALID_REQUEST for any other; the replies of the admin are passed on in
  -- order, but for one in hand (after a failure at most the last part is missing); no CHOICE_EXIT
  -- is answered before the end of the loop, and after it exactly one, the last; the timer has sent
  -- at most one message, none before it finds the client idle and one when it is about to store
  -- CONNECTION_TIMEDOUT; and once the listener is past its kill the timer runs no more.
  pub Reach-answers :
      {t : Session k} {events : List Event} (queues : k.State) (stamps : ℕ → ℕ) (now : ℕ)
      → Reach k cinema (start_session k cinema queues stamps now) events t
      → All IsRight t.log
        × Uses t.listener t.log t.replies
        × LoopsTo t.listener t.log
        × HasWarned t.timer t.warnings
        × Outlives t.listener t.timer
  unfolding start_session
  Reach-answers queues stamps now r =
      let v = Reach-Holds r (record {
        served = record { right = tt; hand = tt; used = refl; loops = refl };
        warned = refl;
        outlived = tt;
      }) in
      (v.served.right, v.served.used, v.served.loops, v.warned, v.outlived)
