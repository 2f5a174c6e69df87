-- ===== src/Ipc/Kernel.antt =====
-- The system calls that src/ipc makes, and what the program relies on of semaphores.
use sist_distrib2c.Base.{
  ℕ, suc, ◌+◌, ◌-◌, ◌^◌, ◌≡◌, ◌≢◌, false, Option, some, ◌==◌, if◌then◌else◌, String,
}
use sist_distrib2c.Base.Words.{is_negative}

abbrev pub sem_undo : ℕ
sem_undo = 0x1000

abbrev pub ipc_creat : ℕ
ipc_creat = 512

-- The result of a call is an int.
pub record Kernel : Type 1 where
  pub State : Type 0
  pub ftok : String → ℕ → ℕ
  pub msgget : (key flags : ℕ) → State → ℕ × State
  -- `msgctl(id, IPC_RMID, 0)`.
  pub msgctl_rmid : ℕ → State → ℕ × State
  pub semget : (key count flags : ℕ) → State → ℕ × State
  -- `semctl(id, 0, SETVAL, value)`.
  pub semctl_setval : (id value : ℕ) → State → ℕ × State
  pub semctl_rmid : ℕ → State → ℕ × State
  -- One operation on the semaphore 0 of the set, by a process; `none` while it waits.
  pub semop : (pid id sem_op sem_flg : ℕ) → State → Option (ℕ × State)
  pub shmget : (key size flags : ℕ) → State → ℕ × State
  pub shmat : ℕ → State → ℕ × State
  pub shmdt : ℕ → State → ℕ × State
  pub shmctl_rmid : ℕ → State → ℕ × State
  -- The end of a process.
  pub exit : ℕ → State → State

-- The bit pattern of (short)-1.
abbrev pub short_minus_one : ℕ
short_minus_one = 2 ^ 16 - 1

-- The documented behaviour of a semaphore whose operations have SEM_UNDO: the kernel keeps for each
-- process what its operations took, and gives it back when the process ends.
pub record SemaphoreLaws (k : Kernel) (id : ℕ) : Type 0 where
  pub value : k.State → ℕ
  pub taken : k.State → ℕ → ℕ
  -- SETVAL clears what is kept for the processes.
  pub set :
      (v : ℕ) (s : k.State)
      → is_negative (k.semctl_setval id v s).0 ≡ false
      → (value (k.semctl_setval id v s).1 ≡ v) × ((q : ℕ) → taken (k.semctl_setval id v s).1 q ≡ 0)
  pub decremented :
      (p r : ℕ) (s s' : k.State)
      → k.semop p id short_minus_one sem_undo s ≡ some (r, s')
      → is_negative r ≡ false
      → (value s ≡ suc (value s'))
        × ((q : ℕ) → taken s' q ≡ (if p == q then suc (taken s q) else taken s q))
  pub incremented :
      (p r n : ℕ) (s s' : k.State)
      → taken s p ≡ suc n
      → k.semop p id 1 sem_undo s ≡ some (r, s')
      → is_negative r ≡ false
      → (value s' ≡ suc (value s)) × ((q : ℕ) → taken s' q ≡ (if p == q then n else taken s q))
  pub exited :
      (p : ℕ) (s : k.State)
      → (value (k.exit p s) ≡ value s + taken s p)
        × ((q : ℕ) → taken (k.exit p s) q ≡ (if p == q then 0 else taken s q))
  -- A positive value lets a process pass at once.
  pub free :
      (p : ℕ) (s : k.State)
      → value s ≢ 0
      → (s' : k.State) × (k.semop p id short_minus_one sem_undo s ≡ some (0, s'))
