-- ===== src/Cinema/Timer.antt =====
-- The inactivity timer of src/cinema/cinema.cpp: the loop of the process that `start_timer` forks.
use sist_distrib2c.Base.{
  ℕ, ◌+◌, ◌-◌, ◌%◌, ◌^◌, ◌≤◌, ◌<◌, ◌≡◌, ◌≢◌, refl, Bool, true, false, ◌&&◌, List, [], ◌∷◌, ◌++◌,
  some, ◌==◌, ltb, if◌then◌else◌, arith, All,
}
use sist_distrib2c.Base.Words.{minus_one}
use sist_distrib2c.Message.{Message, zero_message, choice_exit}
use sist_distrib2c.Channel.{
  Channel, Sent, commqueue_as_client, commqueue_as_server, undefined_id, send_message,
  receive_message,
}

abbrev pub timer_close : ℕ
timer_close = 2 ^ 32 - 134

abbrev pub max_time_to_wait_seconds : ℕ
max_time_to_wait_seconds = 100

abbrev pub connection_timedout : ℕ
connection_timedout = minus_one

-- What one round of the loop does; `times_out` also stores CONNECTION_TIMEDOUT.
pub data Poll : Type 0 where
  closes : Poll
  times_out : Sent → Poll
  goes_on : Poll

abbrev pub exit_message : Message
exit_message = record zero_message { message_choice_number = choice_exit }

-- `last` is what `get_timestamp` reads, `now` is `(int)time(nullptr)`. `difference` is an int.
unfoldable pub timer_poll : Channel → ℕ → ℕ → Poll
timer_poll communication last now =
    let difference = (now + 2 ^ 32 - last) % 2 ^ 32 in
    if now == timer_close
    then closes
    else if ltb max_time_to_wait_seconds difference && ltb difference (2 ^ 31)
    then times_out
        (send_message (record communication { orientation = commqueue_as_client }) exit_message)
    else goes_on

abbrev after_poll : Poll → List Sent × Bool → List Sent × Bool
after_poll closes rest = ([], true)
after_poll (times_out message) rest = (message ∷ [], true)
after_poll goes_on rest = rest

-- The loop over the pairs of `last` and `now` that its rounds read: the messages sent, and whether
-- the process has stopped.
unfoldable pub timer_loop : Channel → List (ℕ × ℕ) → List Sent × Bool
timer_loop communication [] = ([], false)
timer_loop communication ((last, now) ∷ polls) =
    let rest = timer_loop communication polls in after_poll (timer_poll communication last now) rest

-- Times of the clock: `time` gives an int that is not negative and does not run backwards.
abbrev pub IsClock : ℕ × ℕ → Type 0
IsClock (last, now) = (last ≤ now) × (now < 2 ^ 31)

abbrev pub IsIdle : ℕ × ℕ → Type 0
IsIdle (last, now) = (last ≤ now) × (now < 2 ^ 31) × (now ≤ last + max_time_to_wait_seconds)

idle_goes_on :
    (communication : Channel) (last now : ℕ)
    → IsIdle (last, now)
    → timer_poll communication last now ≡ goes_on
unfolding timer_poll
idle_goes_on communication last now h = ground arith

late_times_out :
    (communication : Channel) (last now : ℕ)
    → IsClock (last, now)
    → last + max_time_to_wait_seconds < now
    → timer_poll communication last now
      ≡ times_out
          (send_message (record communication { orientation = commqueue_as_client }) exit_message)
unfolding timer_poll
late_times_out communication last now h late = ground arith

-- As long as at most 100 seconds have passed since the client's last message the timer sends
-- nothing and goes on; at the first round that finds more than 100 seconds it sends one CHOICE_EXIT
-- as the client would, and stops, whatever would come after.
pub timer_loop_lem :
    (communication : Channel) (idle after : List (ℕ × ℕ)) (last now : ℕ)
    → All IsIdle idle
    → IsClock (last, now)
    → last + max_time_to_wait_seconds < now
    → (timer_loop communication idle ≡ ([], false))
      × (timer_loop communication (idle ++ ((last, now) ∷ after)) ≡ (
        send_message (record communication { orientation = commqueue_as_client }) exit_message ∷ [],
        true,
      ))
unfolding timer_loop
timer_loop_lem communication [] after last now h clock late =
    (refl, rw (late_times_out communication last now clock late) refl)
timer_loop_lem communication ((l, n) ∷ idle) after last now (h, hs) clock late =
    let (quiet, stops) = timer_loop_lem communication idle after last now hs clock late in
    (rw (idle_goes_on communication l n h) quiet, rw (idle_goes_on communication l n h) stops)

-- The CHOICE_EXIT of the timer goes to the queue and under the id on which the server's side of the
-- same channel waits for the client.
pub timeout_reaches_listener :
    (communication : Channel) (last now : ℕ)
    → communication.orientation ≡ commqueue_as_server
    → communication.id ≢ undefined_id
    → IsClock (last, now)
    → last + max_time_to_wait_seconds < now
    → (s : Sent) × (timer_poll communication last now ≡ times_out s)
      × (s.message.message_choice_number ≡ choice_exit)
      × (receive_message communication ≡ some (record { queue = s.queue; mtype = s.mtype }))
unfolding send_message receive_message
timeout_reaches_listener communication last now server defined clock late = (
  send_message (record communication { orientation = commqueue_as_client }) exit_message,
  late_times_out communication last now clock late,
  ground arith,
  ground arith,
)

-- The branch for TIMER_CLOSE looks at the clock, not at the stored timestamp: with TIMER_CLOSE
-- stored, no time of the clock, up to 134 seconds before its end, makes the timer close quietly; it
-- sends CHOICE_EXIT instead.
pub timer_close_unseen :
    (communication : Channel) (now : ℕ)
    → now + 134 < 2 ^ 31
    → timer_poll communication timer_close now
      ≡ times_out
          (send_message (record communication { orientation = commqueue_as_client }) exit_message)
unfolding timer_poll
timer_close_unseen communication now h = ground arith
