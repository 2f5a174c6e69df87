-- ===== src/Examples/Ipc.antt =====
-- A kernel with one semaphore, and a process that is killed while it is inside.
use sist_distrib2c.Base.{
  ℕ, suc, ◌+◌, ◌-◌, ◌≡◌, ◌≢◌, ◌⊎◌, refl, Bool, false, Option, some, none, [], ◌∷◌, ◌==◌,
  if◌then◌else◌, arith, subst, ap, some-injective, true, ==→eq,
}
use sist_distrib2c.Ipc.Kernel.{Kernel, SemaphoreLaws, short_minus_one}
use sist_distrib2c.Ipc.Wrappers.{
  goes_on, semaphore_wait, semaphore_create, semaphore_get, sem_init, sem_op,
}
use sist_distrib2c.Ipc.Mutex.{Guarded, enters, dies, Reach, start, later, Reach-inside}

record Semaphore : Type 0 where
  value : ℕ
  taken : ℕ → ℕ

abbrev change : ℕ → (ℕ → ℕ) → (ℕ → ℕ) → ℕ → ℕ
change p f taken q = if p == q then f (taken q) else taken q

abbrev finished : Semaphore → Option (ℕ × Semaphore)
finished s = some (0, s)

abbrev less : ℕ → Semaphore → Semaphore
less p s = record { value = s.value - 1; taken = change p suc s.taken }

abbrev wait_or_signal : ℕ → ℕ → Semaphore → Option (ℕ × Semaphore)
wait_or_signal p sem_op s =
    if sem_op == short_minus_one
    then if s.value == 0 then none else finished (less p s)
    else finished (record { value = suc s.value; taken = change p (λ n. n - 1) s.taken })

abbrev kernel : Kernel
kernel = record {
  State = Semaphore;
  ftok = λ file letter. letter;
  msgget = λ key flags s. (key, s);
  msgctl_rmid = λ id s. (0, s);
  semget = λ key count flags s. (5, s);
  semctl_setval = λ id v s. (0, record { value = v; taken = λ q. 0 });
  semctl_rmid = λ id s. (0, s);
  semop = λ p id op flags s. wait_or_signal p op s;
  shmget = λ key size flags s. (key, s);
  shmat = λ id s. (id, s);
  shmdt = λ address s. (0, s);
  shmctl_rmid = λ id s. (0, s);
  exit = λ p s. record { value = s.value + s.taken p; taken = change p (λ n. 0) s.taken };
}

by_result :
    (P : Semaphore → Type 0) {r : ℕ} {s s' : Semaphore} → finished s ≡ some (r, s') → P s → P s'
by_result P h = subst P (ap (λ x. x.1) (some-injective _ _ h))

abbrev IsDecremented : ℕ → Semaphore → Semaphore → Type 0
IsDecremented p s s' =
    (s.value ≡ suc s'.value)
    × ((q : ℕ) → s'.taken q ≡ (if p == q then suc (s.taken q) else s.taken q))

decremented :
    (zero : Bool) (p r : ℕ) (s s' : Semaphore)
    → (s.value == 0) ≡ zero
    → (if zero then none else finished (less p s)) ≡ some (r, s')
    → IsDecremented p s s'
decremented true p r s s' e h = cc
decremented false p r s s' e h = by_result (IsDecremented p s) h (ground (arith, e), λ q. refl)

one_less :
    (same : Bool) (p q n : ℕ) (taken : ℕ → ℕ)
    → (p == q) ≡ same
    → taken p ≡ suc n
    → (if same then taken q - 1 else taken q) ≡ (if same then n else taken q)
one_less true p q n taken e mine =
    let its : taken q ≡ suc n = subst (λ x. taken x ≡ suc n) (==→eq p q e) mine in
    omega (arith, its)
one_less false p q n taken e mine = refl

free_lem :
    (zero : Bool) (p : ℕ) (s : Semaphore)
    → (s.value == 0) ≡ zero
    → s.value ≢ 0
    → (s' : Semaphore) × ((if zero then none else finished (less p s)) ≡ finished s')
free_lem true p s e positive = absurd (positive (==→eq s.value 0 e))
free_lem false p s e positive = (_, refl)

laws : SemaphoreLaws kernel 5
laws = record {
  value = λ s. s.value;
  taken = λ s. s.taken;
  set = λ v s h. (refl, λ q. refl);
  decremented = λ p r s s' h fine. decremented (s.value == 0) p r s s' refl h;
  incremented = λ p r n s s' mine h fine.
      by_result
        (λ x. (x.value ≡ suc s.value) × ((q : ℕ) → x.taken q ≡ (if p == q then n else s.taken q))) h
        (refl, λ q. one_less (p == q) p q n s.taken refl mine);
  exited = λ p s. (refl, λ q. refl);
  free = λ p s positive. free_lem (s.value == 0) p s refl positive;
}

-- Process 8 enters and is killed, process 9 enters.
abbrev begun : Guarded kernel
begun = record { state = record { value = 1; taken = λ q. 0 }; inside = [] }

killed : (g : Guarded kernel) × Reach kernel "/bin/bash" 120 5 g
unfolding semaphore_create semaphore_get sem_init semaphore_wait sem_op
killed =
    (_, later (later (later (start begun.state refl) (enters 8 refl)) (dies 8)) (enters 9 refl))

killed_inside : killed.0.inside ≡ 9 ∷ []
unfolding killed
killed_inside = refl

Reach-inside_example :
    ((killed.0.inside ≡ [])
      × ((p : ℕ) → (s : Semaphore) × (semaphore_wait kernel p 5 killed.0.state ≡ goes_on s)))
    ⊎ ((p : ℕ) × (killed.0.inside ≡ p ∷ []))
Reach-inside_example = Reach-inside kernel 5 laws killed.1
