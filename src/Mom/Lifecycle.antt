-- ===== src/Mom/Lifecycle.antt =====
-- The seat listener over a session of a client: when it is started, and what ends it.
use sist_distrib2c.Base.{
  ℕ, suc, ◌+◌, ◌≡◌, ◌≢◌, true, List, [], ◌∷◌, ◌++◌, ◌==◌, if◌then◌else◌, arith, All, Bool-cases,
  inl, inr,
}
use sist_distrib2c.Message.{Message}
use sist_distrib2c.Mom.{
  Mom, Effect, forks_listener, kills, sigkill, listener_not_initialized, process_message,
}

-- The loop of `fork_client`, as far as processes go: the cinema's answers with the pids that `fork`
-- would return, up to the first that sets `*exit`.
pub session : Mom → List (Message × ℕ) → Mom × List Effect
session mom [] = (mom, [])
session mom ((m, pid) ∷ answers) =
    let after = process_message mom m pid in
    let rest = session after.0 answers in
    if after.2 then (after.0, after.1) else (rest.0, after.1 ++ rest.1)

abbrev pub forks : List Effect → ℕ
forks [] = 0
forks (forks_listener ∷ effects) = suc (forks effects)
forks (kills pid signal ∷ effects) = forks effects

abbrev pub kill_calls : List Effect → ℕ
kill_calls [] = 0
kill_calls (forks_listener ∷ effects) = kill_calls effects
kill_calls (kills pid signal ∷ effects) = suc (kill_calls effects)

-- 1 while a listener is recorded.
abbrev pub recorded : Mom → ℕ
recorded mom = if mom.listener_pid == listener_not_initialized then 0 else 1

abbrev pub IsPid : Message × ℕ → Type 0
IsPid (m, pid) = pid ≢ listener_not_initialized

-- A `kill` of process SIGKILL.
abbrev pub IsToSigkill : Effect → Type 0
IsToSigkill forks_listener = Unit {0}
IsToSigkill (kills pid signal) = (pid ≡ sigkill) × (signal ≢ listener_not_initialized)

forks-append : (xs ys : List Effect) → forks (xs ++ ys) ≡ forks xs + forks ys
forks-append [] ys = omega arith
forks-append (forks_listener ∷ xs) ys = omega (arith, forks-append xs ys)
forks-append (kills pid signal ∷ xs) ys = forks-append xs ys

kill_calls-append : (xs ys : List Effect) → kill_calls (xs ++ ys) ≡ kill_calls xs + kill_calls ys
kill_calls-append [] ys = omega arith
kill_calls-append (forks_listener ∷ xs) ys = kill_calls-append xs ys
kill_calls-append (kills pid signal ∷ xs) ys = omega (arith, kill_calls-append xs ys)

All-append :
    (xs ys : List Effect) → All IsToSigkill xs → All IsToSigkill ys → All IsToSigkill (xs ++ ys)
All-append [] ys h k = k
All-append (x ∷ xs) ys h k = (h.0, All-append xs ys h.1 k)

process_message_balance :
    (mom : Mom) (m : Message) (pid : ℕ)
    → pid ≢ listener_not_initialized
    → let (mom', effects, exit) = process_message mom m pid in
      (forks effects + recorded mom ≡ kill_calls effects + recorded mom')
      × All IsToSigkill effects
      × (exit ≡ true → recorded mom' ≡ 0)
unfolding process_message
process_message_balance mom m pid h = ground arith

recorded_none : (mom : Mom) → mom.listener_pid ≡ listener_not_initialized → recorded mom ≡ 0
recorded_none mom h = ground arith

session_balance_any :
    (mom : Mom) (answers : List (Message × ℕ))
    → All IsPid answers
    → (forks (session mom answers).1 + recorded mom
        ≡ kill_calls (session mom answers).1 + recorded (session mom answers).0)
      × All IsToSigkill (session mom answers).1
unfolding session
session_balance_any mom [] pids = (omega arith, tt)
session_balance_any mom ((m, pid) ∷ answers) (h, hs) =
    let after = process_message mom m pid in
    let rest = session after.0 answers in
    let (balance, misdirected, _) = process_message_balance mom m pid h in
    let (rest_balance, rest_misdirected) = session_balance_any after.0 answers hs in
    elim (Bool-cases after.2) [
      | inl stops ↦ rw stops (balance, misdirected)
      | inr runs ↦ rw runs (
        omega (arith, forks-append after.1 rest.1, kill_calls-append after.1 rest.1),
        All-append after.1 rest.1 misdirected rest_misdirected,
      )
    ]

-- Over the session of a client that starts with no listener recorded, a listener is forked only
-- when none is recorded, so that the forks outnumber the `kill` calls by one while a listener is
-- recorded, and equal them otherwise. But every one of those calls is `kill(SIGKILL, pid)`: it names
-- process 9, with the listener's pid as the signal, so it is never the listener that is killed
-- (unless its pid is 9).
pub session_balance :
    (mom : Mom) (answers : List (Message × ℕ))
    → mom.listener_pid ≡ listener_not_initialized
    → All IsPid answers
    → (forks (session mom answers).1
        ≡ kill_calls (session mom answers).1 + recorded (session mom answers).0)
      × All IsToSigkill (session mom answers).1
session_balance mom answers fresh pids =
    let (balance, misdirected) = session_balance_any mom answers pids in
    (omega (arith, recorded_none mom fresh), misdirected)
