-- ===== src/Ipc/Wrappers.antt =====
-- queue.cpp, semaphore.cpp, sharedmemory.cpp, and `create_commqueue` and `delete_queue` of
-- communicationqueue.cpp.
use sist_distrib2c.Base.{
  ℕ, suc, ◌+◌, ◌-◌, ◌%◌, ◌^◌, Option, none, some, ◌>>=◌, ◌==◌, if◌then◌else◌, String,
}
use sist_distrib2c.Base.Words.{is_negative, minus_one}
use sist_distrib2c.Channel.{Channel, undefined_id}
use sist_distrib2c.Ipc.Kernel.{Kernel, sem_undo, ipc_creat}

-- An operation on a semaphore goes on, waits, or ends the program.
pub data Operated {ℓ} (S : Type ℓ) : Type ℓ where
  goes_on : S → Operated S
  waits : Operated S
  ends : Operated S

module _ (k : Kernel) where
  open k use {State}

  unfoldable pub queue_create : String → ℕ → State → Option (ℕ × State)
  queue_create file letter s =
      let key = k.ftok file letter in
      let (queue_id, after) = k.msgget key (ipc_creat + 432) s in
      if key == minus_one
      then none
      else if queue_id == minus_one
      then none
      else some (queue_id, after)

  unfoldable pub queue_destroy : ℕ → State → Option State
  queue_destroy queue_id s =
      let (status, after) = k.msgctl_rmid queue_id s in
      if status == minus_one then none else some after

  -- `orientation` is left unset: what the memory holds is a parameter.
  unfoldable pub create_commqueue : ℕ → String → ℕ → State → Option (Channel × State)
  unfolding queue_create
  create_commqueue orientation filename key_char s = do
    (first, one) ← queue_create filename key_char s
    (second, two) ← queue_create filename (suc key_char) one
    some (
      record {
        id_firstqueue = first;
        id_secondqueue = second;
        orientation = orientation;
        id = undefined_id;
      },
      two,
    )

  unfoldable pub delete_queue : Channel → State → Option State
  unfolding queue_destroy
  delete_queue channel s = do
    one ← queue_destroy channel.id_firstqueue s
    queue_destroy channel.id_secondqueue one

  unfoldable pub sem_init : ℕ → ℕ → State → Option State
  sem_init sem_id init_value s =
      let (result, after) = k.semctl_setval sem_id init_value s in
      if is_negative result then none else some after

  -- The result of `ftok` is not looked at.
  unfoldable pub semaphore_get : String → ℕ → State → Option (ℕ × State)
  semaphore_get file letter s =
      let (sem_id, after) = k.semget (k.ftok file letter) 1 (438 + ipc_creat) s in
      if is_negative sem_id then none else some (sem_id, after)

  unfoldable pub semaphore_create : String → ℕ → ℕ → State → Option (ℕ × State)
  unfolding sem_init semaphore_get
  semaphore_create file letter init_value s = do
    (sem_id, got) ← semaphore_get file letter s
    after ← sem_init sem_id init_value got
    some (sem_id, after)

  abbrev pub operated : Option (ℕ × State) → Operated State
  operated none = waits
  operated (some (result, after)) = if is_negative result then ends else goes_on after

  -- `value` becomes a short.
  unfoldable pub sem_op : ℕ → ℕ → ℕ → State → Operated State
  sem_op pid sem_id value s = operated (k.semop pid sem_id (value % 2 ^ 16) sem_undo s)

  unfoldable pub semaphore_signal : ℕ → ℕ → State → Operated State
  semaphore_signal pid sem_id = sem_op pid sem_id 1

  unfoldable pub semaphore_wait : ℕ → ℕ → State → Operated State
  semaphore_wait pid sem_id = sem_op pid sem_id minus_one

  unfoldable pub semaphore_delete : ℕ → State → Option State
  semaphore_delete sem_id s =
      let (result, after) = k.semctl_rmid sem_id s in
      if is_negative result then none else some after

  unfoldable pub shm_create : String → ℕ → ℕ → State → Option (ℕ × State)
  shm_create file letter data_size s =
      let key = k.ftok file letter in
      let (shm_id, after) = k.shmget key data_size (ipc_creat + 432) s in
      if key == minus_one then none else if shm_id == minus_one then none else some (shm_id, after)

  -- The address, as a number; (void*)-1 is a failure.
  unfoldable pub shm_get_data : String → ℕ → ℕ → State → Option (ℕ × State)
  unfolding shm_create
  shm_get_data file letter data_size s = do
    (shm_id, made) ← shm_create file letter data_size s
    let (address, after) = k.shmat shm_id made
    if address == 2 ^ 64 - 1 then none else some (address, after)

  unfoldable pub shm_dettach : ℕ → State → Option State
  shm_dettach address s =
      let (result, after) = k.shmdt address s in if result == minus_one then none else some after

  unfoldable pub shm_remove : ℕ → State → Option State
  shm_remove shm_id s =
      let (result, after) = k.shmctl_rmid shm_id s in
      if result == minus_one then none else some after
