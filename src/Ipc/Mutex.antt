-- ===== src/Ipc/Mutex.antt =====
-- A semaphore of initial value 1 as the mutex that `flag_update_read` of src/middleware/mom.cpp,
-- `update_timestamp` of src/cinema/cinema.cpp and `_listener_thread` of
-- src/middleware/client_interface.cpp use it: wait, work on the shared memory, signal.
use sist_distrib2c.Base.{
  ℕ, suc, ◌+◌, ◌⊎◌, ◌≡◌, ◌≢◌, refl, sym, ◌∙◌, ap, subst, Bool, true, false, not, List, [], ◌∷◌,
  ◌++◌, Option, none, some, ◌==◌, if◌then◌else◌, length, count, keep, arith, Bool-cases, inl, inr,
  String, some-injective, >>=-eq-some, ==→eq,
}
use sist_distrib2c.Base.Words.{is_negative}
use sist_distrib2c.Ipc.Kernel.{Kernel, SemaphoreLaws, sem_undo, short_minus_one}
use sist_distrib2c.Ipc.Wrappers.{
  operated, goes_on, ends, sem_init, semaphore_get, semaphore_create, sem_op, semaphore_signal,
  semaphore_wait,
}

-- The processes between their wait and their signal.
pub record Guarded (k : Kernel) : Type 0 where
  pub state : k.State
  pub inside : List ℕ

pub data Step (k : Kernel) (id : ℕ) (g : Guarded k) : Guarded k → Type 0 where
  enters :
      (p : ℕ) {s : k.State}
      → semaphore_wait k p id g.state ≡ goes_on s
      → Step k id g (record { state = s; inside = p ∷ g.inside })
  leaves :
      (before after : List ℕ) (p : ℕ) {s : k.State}
      → g.inside ≡ before ++ (p ∷ after)
      → semaphore_signal k p id g.state ≡ goes_on s
      → Step k id g (record { state = s; inside = before ++ after })
  -- A process ends wherever it is, killed or not.
  dies :
      (p : ℕ)
      → Step k id g
          (record { state = k.exit p g.state; inside = keep (λ q. not (p == q)) g.inside })

-- The states after `semaphore_create` with the initial value 1.
pub data Reach (k : Kernel) (file : String) (letter : ℕ) (id : ℕ) : Guarded k → Type 0 where
  start :
      (s : k.State) {s' : k.State}
      → semaphore_create k file letter 1 s ≡ some (id, s')
      → Reach k file letter id (record { state = s'; inside = [] })
  later : {g h : Guarded k} → Reach k file letter id g → Step k id g h → Reach k file letter id h

count-append :
    (q p : ℕ) (before after : List ℕ)
    → count q (before ++ (p ∷ after))
      ≡ (if p == q then suc (count q (before ++ after)) else count q (before ++ after))
count-append q p [] after = ground arith
count-append q p (x ∷ before) after = ground (arith, count-append q p before after)

length-insert :
    (p : ℕ) (before after : List ℕ)
    → length (before ++ (p ∷ after)) ≡ suc (length (before ++ after))
length-insert p [] after = refl
length-insert p (x ∷ before) after = ap suc (length-insert p before after)

count-keep :
    (q p : ℕ) (xs : List ℕ)
    → count q (keep (λ x. not (p == x)) xs) ≡ (if p == q then 0 else count q xs)
count-keep q p [] = ground arith
count-keep q p (x ∷ xs) = ground (arith, count-keep q p xs)

length-keep : (p : ℕ) (xs : List ℕ) → length xs ≡ length (keep (λ x. not (p == x)) xs) + count p xs
length-keep p [] = refl
length-keep p (x ∷ xs) = ground (arith, length-keep p xs)

own_entered :
    (p q : ℕ) (inside : List ℕ) {t t' : ℕ}
    → t' ≡ (if p == q then suc t else t)
    → t ≡ count q inside
    → t' ≡ count q (p ∷ inside)
own_entered p q inside h k = ground (arith, h, k)

count-once :
    (p : ℕ) (before after : List ℕ)
    → count p (before ++ (p ∷ after)) ≡ suc (count p (before ++ after))
count-once p before after = ground (arith, count-append p p before after)

own_left :
    (p q : ℕ) (before after : List ℕ) {t t' : ℕ}
    → t' ≡ (if p == q then count p (before ++ after) else t)
    → t ≡ count q (before ++ (p ∷ after))
    → t' ≡ count q (before ++ after)
own_left p q before after {t' = t'} h k = elim (Bool-cases (p == q)) [
  | inl same ↦
      let reads : t' ≡ count p (before ++ after) = h ∙ rw same refl in
      subst (λ x. t' ≡ count x (before ++ after)) (==→eq p q same) reads
  | inr other ↦ ground (arith, h, k, other, count-append q p before after)
]

own_died :
    (p q : ℕ) (inside : List ℕ) {t t' : ℕ}
    → t' ≡ (if p == q then 0 else t)
    → t ≡ count q inside
    → t' ≡ count q (keep (λ x. not (p == x)) inside)
own_died p q inside h k = ground (arith, h, k, count-keep q p inside)

passed_test {ℓ} :
    {S : Type ℓ} (bad : Bool) (s : S) {s' : S}
    → (if bad then ends else goes_on s) ≡ goes_on s'
    → (s ≡ s') × (bad ≡ false)
passed_test true s h = cc
passed_test false s h = (cc, refl)

done_test {ℓ} :
    {S : Type ℓ} (bad : Bool) (s : S) {s' : S}
    → (if bad then none else some s) ≡ some s'
    → (s ≡ s') × (bad ≡ false)
done_test true s h = cc
done_test false s h = (some-injective _ _ h, refl)

one_inside :
    (inside : List ℕ) {value : ℕ}
    → value + length inside ≡ 1
    → ((inside ≡ []) × (value ≢ 0)) ⊎ ((p : ℕ) × (inside ≡ p ∷ []))
one_inside [] h = inl (refl, λ zero. omega (arith, h, zero))
one_inside (p ∷ []) h = inr (p, refl)
one_inside (p ∷ (q ∷ others)) h = absurd (omega (arith, h))

module _ (k : Kernel) (id : ℕ) (laws : SemaphoreLaws k id) where
  -- The value and the processes inside make one, and what the kernel keeps for a process is how often it
  -- is inside.
  abbrev IsBalanced : Guarded k → Type 0
  IsBalanced g =
      (laws.value g.state + length g.inside ≡ 1)
      × ((q : ℕ) → laws.taken g.state q ≡ count q g.inside)

  -- An operation that goes on is a call that did not fail.
  passed :
      (o : Option (ℕ × k.State)) {s : k.State}
      → operated k o ≡ goes_on s
      → (r : ℕ) × (o ≡ some (r, s)) × (is_negative r ≡ false)
  passed none h = cc
  passed (some (r, s)) h =
      let (same, fine) = passed_test (is_negative r) s h in (r, ap (λ x. some (r, x)) same, fine)

  entered :
      (p : ℕ) (g : Guarded k) (s : k.State)
      → semaphore_wait k p id g.state ≡ goes_on s
      → IsBalanced g
      → IsBalanced (record { state = s; inside = p ∷ g.inside })
  unfolding semaphore_wait sem_op
  entered p g s went (one, own) =
      let (r, done, fine) = passed (k.semop p id short_minus_one sem_undo g.state) went in
      let (less, kept) = laws.decremented p r g.state s done fine in
      (omega (arith, one, less), λ q. own_entered p q g.inside (kept q) (own q))

  left :
      (before after : List ℕ) (p : ℕ) (g : Guarded k) (s : k.State)
      → g.inside ≡ before ++ (p ∷ after)
      → semaphore_signal k p id g.state ≡ goes_on s
      → IsBalanced g
      → IsBalanced (record { state = s; inside = before ++ after })
  unfolding semaphore_signal sem_op
  left before after p g s split went (one, own) =
      let (r, done, fine) = passed (k.semop p id 1 sem_undo g.state) went in
      let mine : laws.taken g.state p ≡ suc (count p (before ++ after)) =
        own p ∙ ap (count p) split ∙ count-once p before after in
      let (more, kept) =
        laws.incremented p r (count p (before ++ after)) g.state s mine done fine in
      (
        omega (arith, one, more, ap length split, length-insert p before after),
        λ q. own_left p q before after (kept q) (own q ∙ ap (count q) split),
      )

  died :
      (p : ℕ) (g : Guarded k)
      → IsBalanced g
      → IsBalanced (record { state = k.exit p g.state; inside = keep (λ q. not (p == q)) g.inside })
  died p g (one, own) =
      let (back, kept) = laws.exited p g.state in
      (
        omega (arith, one, back, own p, length-keep p g.inside),
        λ q. own_died p q g.inside (kept q) (own q),
      )

  step-IsBalanced : {g h : Guarded k} → IsBalanced g → Step k id g h → IsBalanced h
  step-IsBalanced {g} balanced (enters p {s} went) = entered p g s went balanced
  step-IsBalanced {g} balanced (leaves before after p {s} split went) =
      left before after p g s split went balanced
  step-IsBalanced {g} balanced (dies p) = died p g balanced

  initialized :
      (s s' : k.State)
      → sem_init k id 1 s ≡ some s'
      → IsBalanced (record { state = s'; inside = [] })
  unfolding sem_init
  initialized s s' h =
      let (same, fine) = done_test (is_negative (k.semctl_setval id 1 s).0) _ h in
      let (one, nothing) = laws.set 1 s fine in
      (
        omega (arith, ap laws.value (sym same), one),
        λ q. ap (λ x. laws.taken x q) (sym same) ∙ nothing q,
      )

  Reach-IsBalanced :
      {file : String} {letter : ℕ} {g : Guarded k} → Reach k file letter id g → IsBalanced g
  unfolding semaphore_create sem_init
  Reach-IsBalanced {file = file} {letter = letter} (start s made) =
      let (created, _, f) = >>=-eq-some (semaphore_get k file letter s) _ made in
      let (state, set, g) = >>=-eq-some (sem_init k created.0 1 created.1) _ f in
      let same = some-injective _ _ g in
      initialized created.1 _ (
        ap (λ x. sem_init k x 1 created.1) (sym (ap (λ x. x.0) same))
        ∙ set
        ∙ ap (λ x. some x.1) same)
  Reach-IsBalanced (later r step) = step-IsBalanced (Reach-IsBalanced r) step

  -- From the creation of the semaphore with the value 1 on, whatever processes wait, signal and end in
  -- whatever order: either nobody is between its wait and its signal, and any process that waits
  -- goes on at once, or exactly one process is. A process that ends between the two counts as one
  -- that has left.
  pub Reach-inside :
      {file : String} {letter : ℕ} {g : Guarded k}
      → Reach k file letter id g
      → ((g.inside ≡ []) × ((p : ℕ) → (s : k.State) × (semaphore_wait k p id g.state ≡ goes_on s)))
        ⊎ ((p : ℕ) × (g.inside ≡ p ∷ []))
  unfolding semaphore_wait sem_op
  Reach-inside {g = g} r =
      let (one, own) = Reach-IsBalanced r in
      elim (one_inside g.inside one) [
        | inl (nobody, positive) ↦ inl (
          nobody,
          λ p. let (s, done) = laws.free p g.state positive in (s, rw (done, sem_op) refl),
        )
        | inr somebody ↦ inr somebody
      ]
