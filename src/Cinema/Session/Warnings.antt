-- ===== src/Cinema/Session/Warnings.antt =====
-- What the timer of a session has sent, and how long it runs.
use sist_distrib2c.Base.{ℕ, ◌≡◌, ◌≤◌, ◌⊎◌, refl, true, false, arith, inl, inr}
use sist_distrib2c.Message.{Message}
use sist_distrib2c.Channel.{Channel}
use sist_distrib2c.Cinema.{Cinema}
use sist_distrib2c.Cinema.Session.{
  Listener, waits_request, checks_stamp, updates_stamp, handles, awaits_reply, answers, kills_timer,
  reads_stamp, awaits_last, closes_timer, ended, died, Timer, sleeps, compares, warns, marks,
  stopped, killed, after_send, after_receive, kill_timer,
}
use sist_distrib2c.Cinema.Session.Views.{
  Sending, sends_request, sends_exit, sends_answer, Receiving, takes_request, takes_reply,
  takes_last,
}

-- What the timer has sent.
abbrev pub HasWarned : Timer → ℕ → Type 0
HasWarned marks n = n ≡ 1
HasWarned stopped n = n ≤ 1
HasWarned killed n = n ≤ 1
HasWarned _ n = n ≡ 0

abbrev pub IsDead : Timer → Type 0
IsDead timer = (timer ≡ stopped) ⊎ (timer ≡ killed)

-- After its loop the listener has killed the timer.
abbrev pub Outlives : Listener → Timer → Type 0
Outlives reads_stamp timer = IsDead timer
Outlives awaits_last timer = IsDead timer
Outlives closes_timer timer = IsDead timer
Outlives ended timer = IsDead timer
Outlives _ timer = Unit {0}

pub kill_timer-IsDead : (timer : Timer) → IsDead (kill_timer timer)
unfolding kill_timer
kill_timer-IsDead stopped = inl refl
kill_timer-IsDead sleeps = inr refl
kill_timer-IsDead (compares last) = inr refl
kill_timer-IsDead warns = inr refl
kill_timer-IsDead marks = inr refl
kill_timer-IsDead killed = inr refl

pub kill_timer-HasWarned :
    (timer : Timer) (n : ℕ) → HasWarned timer n → HasWarned (kill_timer timer) n
unfolding kill_timer
kill_timer-HasWarned stopped n h = h
kill_timer-HasWarned sleeps n h = omega (arith, h)
kill_timer-HasWarned (compares last) n h = omega (arith, h)
kill_timer-HasWarned warns n h = omega (arith, h)
kill_timer-HasWarned marks n h = omega (arith, h)
kill_timer-HasWarned killed n h = h

pub alive-Outlives :
    (l : Listener) (timer timer' : Timer)
    → (IsDead timer → ⊥)
    → Outlives l timer
    → Outlives l timer'
alive-Outlives reads_stamp timer timer' alive h = absurd (alive h)
alive-Outlives awaits_last timer timer' alive h = absurd (alive h)
alive-Outlives closes_timer timer timer' alive h = absurd (alive h)
alive-Outlives ended timer timer' alive h = absurd (alive h)
alive-Outlives waits_request timer timer' alive h = tt
alive-Outlives (checks_stamp m) timer timer' alive h = tt
alive-Outlives (updates_stamp m) timer timer' alive h = tt
alive-Outlives (handles m) timer timer' alive h = tt
alive-Outlives (awaits_reply m) timer timer' alive h = tt
alive-Outlives (answers request answer exit) timer timer' alive h = tt
alive-Outlives kills_timer timer timer' alive h = tt
alive-Outlives died timer timer' alive h = tt

pub send-Outlives :
    (cinema : Cinema) {l : Listener} (timer : Timer) {channel : Channel} {m : Message}
    → Sending cinema channel m l
    → Outlives (after_send l) timer
unfolding after_send
send-Outlives cinema timer (sends_request r e c) = rw e tt
send-Outlives cinema timer (sends_exit r e leaves c) = rw e tt
send-Outlives cinema timer (sends_answer request true c) = tt
send-Outlives cinema timer (sends_answer request false c) = tt

pub receive-Outlives :
    (cinema : Cinema) {l : Listener} (timer : Timer) (m : Message) {channel : Channel}
    → Receiving cinema channel l
    → Outlives l timer
    → Outlives (after_receive m l) timer
unfolding after_receive
receive-Outlives cinema timer m (takes_request c) v = tt
receive-Outlives cinema timer m (takes_reply r c) v = tt
receive-Outlives cinema timer m (takes_last c) v = v
