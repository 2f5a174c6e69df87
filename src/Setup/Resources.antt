-- ===== src/Setup/Resources.antt =====
-- src/utils/initializer.cpp and src/utils/destructor.cpp: the queues, the shared memory and the
-- semaphores under their configured names, over the kernel. `none` is the exit of `THROW_UTIL`.
use sist_distrib2c.Base.{
  subst, inl, inr, some-injective, ℕ, ◌*◌, ◌≡◌, Option, some, ◌>>=◌, >>=-eq-some, String,
}
use sist_distrib2c.Message.{max_clients, max_clients_host}
use sist_distrib2c.Channel.{Channel}
use sist_distrib2c.Ipc.Kernel.{Kernel, SemaphoreLaws}
use sist_distrib2c.Ipc.Mutex.{start, Reach-inside}
use sist_distrib2c.Ipc.Wrappers.{
  create_commqueue, delete_queue, semaphore_get, semaphore_create, semaphore_delete, shm_create,
  shm_remove, semaphore_wait, goes_on,
}

abbrev queue_communication_file : String
queue_communication_file = "/bin/bash"

abbrev queue_communication_char : ℕ
queue_communication_char = b'a'

abbrev queue_activity_file : String
queue_activity_file = "/bin/bash"

abbrev queue_activity_char : ℕ
queue_activity_char = b'h'

abbrev queue_cinema_admin_file : String
queue_cinema_admin_file = "/bin/bash"

abbrev queue_cinema_admin_char : ℕ
queue_cinema_admin_char = b'e'

abbrev queue_mom_file : String
queue_mom_file = "/bin/ls"

abbrev queue_mom_char : ℕ
queue_mom_char = b'a'

abbrev shm_cinema_timer_file : String
shm_cinema_timer_file = "/bin/bash"

abbrev shm_cinema_timer_char : ℕ
shm_cinema_timer_char = b't'

-- `sizeof(int) * MAX_CLIENTS`.
abbrev shm_cinema_timer_size : ℕ
shm_cinema_timer_size = 4 * max_clients

abbrev shm_client_file : String
shm_client_file = "/bin/ls"

abbrev shm_client_char : ℕ
shm_client_char = b'c'

-- `sizeof(Seats_update) * MAX_CLIENTS_HOST`: a char, an int and 50 seats of 12 bytes, aligned.
abbrev shm_client_size : ℕ
shm_client_size = 608 * max_clients_host

abbrev pub mutex_cinema_file : String
mutex_cinema_file = "/bin/bash"

abbrev pub mutex_cinema_char : ℕ
mutex_cinema_char = b'x'

abbrev pub mutex_client_file : String
mutex_client_file = "/bin/bash"

abbrev pub mutex_client_char : ℕ
mutex_client_char = b'v'

-- What the initializer prints.
pub record Resources : Type 0 where
  pub communication : Channel
  pub activity : Channel
  pub cinema_admin : Channel
  pub mom : Channel
  pub shm_timer : ℕ
  pub mutex_cinema : ℕ
  pub shm_client : ℕ
  pub mutex_client : ℕ

module _ (k : Kernel) where
  open k use {State}

  -- The orientation of a new channel is what the memory holds.
  unfoldable pub initializer : ℕ → State → Option (Resources × State)
  initializer orientation s0 = do
    (communication, s1) ←
        create_commqueue k orientation queue_communication_file queue_communication_char s0
    (activity, s2) ← create_commqueue k orientation queue_activity_file queue_activity_char s1
    (cinema_admin, s3) ←
        create_commqueue k orientation queue_cinema_admin_file queue_cinema_admin_char s2
    (mom, s4) ← create_commqueue k orientation queue_mom_file queue_mom_char s3
    (shm_timer, s5) ←
        shm_create k shm_cinema_timer_file shm_cinema_timer_char shm_cinema_timer_size s4
    (mutex_cinema, s6) ← semaphore_create k mutex_cinema_file mutex_cinema_char 1 s5
    (shm_client, s7) ← shm_create k shm_client_file shm_client_char shm_client_size s6
    (mutex_client, s8) ← semaphore_create k mutex_client_file mutex_client_char 1 s7
    some (
      record {
        communication = communication;
        activity = activity;
        cinema_admin = cinema_admin;
        mom = mom;
        shm_timer = shm_timer;
        mutex_cinema = mutex_cinema;
        shm_client = shm_client;
        mutex_client = mutex_client;
      },
      s8,
    )

  -- `delete_queue(create_commqueue(filename, key_char))`.
  unfoldable pub destroy_queue : ℕ → String → ℕ → State → Option State
  destroy_queue orientation filename key_char s = do
    (channel, got) ← create_commqueue k orientation filename key_char s
    delete_queue k channel got

  -- `shm_remove(shm_create(file, letter, size))`.
  unfoldable pub destroy_shm : String → ℕ → ℕ → State → Option State
  destroy_shm file letter size s = do
    (id, got) ← shm_create k file letter size s
    shm_remove k id got

  -- `semaphore_delete(semaphore_get(file, letter))`.
  unfoldable pub destroy_semaphore : String → ℕ → State → Option State
  destroy_semaphore file letter s = do
    (id, got) ← semaphore_get k file letter s
    semaphore_delete k id got

  unfoldable pub destructor : ℕ → State → Option State
  destructor orientation s0 = do
    s1 ← destroy_queue orientation queue_communication_file queue_communication_char s0
    s2 ← destroy_queue orientation queue_activity_file queue_activity_char s1
    s3 ← destroy_queue orientation queue_cinema_admin_file queue_cinema_admin_char s2
    s4 ← destroy_queue orientation queue_mom_file queue_mom_char s3
    s5 ← destroy_shm shm_cinema_timer_file shm_cinema_timer_char shm_cinema_timer_size s4
    s6 ← destroy_semaphore mutex_client_file mutex_client_char s5
    s7 ← destroy_shm shm_client_file shm_client_char shm_client_size s6
    destroy_semaphore mutex_cinema_file mutex_cinema_char s7

  free_after :
      (file : String) (letter id : ℕ) (s s' : State)
      → SemaphoreLaws k id
      → semaphore_create k file letter 1 s ≡ some (id, s')
      → (p : ℕ) → (after : State) × (semaphore_wait k p id s' ≡ goes_on after)
  free_after file letter id s s' laws made p = elim (Reach-inside k id laws (start s made)) [
    | inl (nobody, free) ↦ free p
    | inr (q, somebody) ↦ absurd (cc)
  ]

  -- When the initializer returns, the mutex of the seat updates is free: any process that waits for it
  -- next goes on at once.
  pub initializer-free :
      ((id : ℕ) → SemaphoreLaws k id)
      → (orientation : ℕ) (s s' : State) (made : Resources)
      → initializer orientation s ≡ some (made, s')
      → (p : ℕ) → (after : State) × (semaphore_wait k p made.mutex_client s' ≡ goes_on after)
  unfolding initializer
  initializer-free laws orientation s s' made h p =
      let (a, _, ha) =
        >>=-eq-some
          (create_commqueue k orientation queue_communication_file queue_communication_char s) _
          h in
      let (b, _, hb) =
        >>=-eq-some (create_commqueue k orientation queue_activity_file queue_activity_char a.1) _
          ha in
      let (c, _, hc) =
        >>=-eq-some
          (create_commqueue k orientation queue_cinema_admin_file queue_cinema_admin_char b.1) _
          hb in
      let (d, _, hd) =
        >>=-eq-some (create_commqueue k orientation queue_mom_file queue_mom_char c.1) _ hc in
      let (e, _, he) =
        >>=-eq-some
          (shm_create k shm_cinema_timer_file shm_cinema_timer_char shm_cinema_timer_size d.1) _
          hd in
      let (f, _, hf) =
        >>=-eq-some (semaphore_create k mutex_cinema_file mutex_cinema_char 1 e.1) _ he in
      let (g, _, hg) =
        >>=-eq-some (shm_create k shm_client_file shm_client_char shm_client_size f.1) _ hf in
      let (m, made_it, hm) =
        >>=-eq-some (semaphore_create k mutex_client_file mutex_client_char 1 g.1) _ hg in
      let same = some-injective _ _ hm in
      let (after, went) =
        free_after mutex_client_file mutex_client_char m.0 g.1 m.1 (laws m.0) made_it p in
      (
        after,
        subst (λ (r : Resources × State). semaphore_wait k p r.0.mutex_client r.1 ≡ goes_on after)
            same went,
      )
