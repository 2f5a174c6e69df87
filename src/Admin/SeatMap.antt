-- ===== src/Admin/SeatMap.antt =====
-- The seat map that the handler computes from the seats of a room and its reservations.
use sist_distrib2c.Base.{
  ℕ, zero, suc, ◌≤◌, ◌<◌, ◌≡◌, refl, ap, ◌∙◌, sym, Bool, List, [], ◌∷◌, ◌++◌, some, none, ◌==◌,
  ◌>>=◌, if◌then◌else◌, any, All, arith, length, get_elem?, replicate, length-replicate,
  Option-cases, >>=-eq-some, ◌⊎◌, inl, inr, subst,
}
use sist_distrib2c.Message.{seat_status_free, seat_status_occuped}
use sist_distrib2c.Admin.{occupy, occupy_all, seat_status}

-- The seat that stands for `seat_status[index]` is index + 1.
abbrev pub is_taken : List ℕ → ℕ → Bool
is_taken taken seat = any (λ t. seat == t) taken

abbrev pub IsSeatOf : ℕ → ℕ → Type 0
IsSeatOf n index = (1 ≤ index) × (index ≤ n)

occupy_lem :
    (status : List ℕ) (index : ℕ)
    → IsSeatOf (length status) index
    → (next : List ℕ) × (occupy status index ≡ some next)
      × (length next ≡ length status)
      × ((i : ℕ)
          → i < length status
          → get_elem? next i
            ≡ (if suc i == index then some seat_status_occuped else get_elem? status i))
unfolding occupy
occupy_lem status zero h = absurd (omega arith)
occupy_lem [] (suc index) h = absurd (omega arith)
occupy_lem (s ∷ status) (suc zero) h = (seat_status_occuped ∷ status, refl, refl, cells)
  where
    cells :
        (i : ℕ)
        → i < suc (length status)
        → get_elem? (seat_status_occuped ∷ status) i
          ≡ (if suc i == 1 then some seat_status_occuped else get_elem? (s ∷ status) i)
    cells zero k = refl
    cells (suc i) k = ground arith
occupy_lem (s ∷ status) (suc (suc index)) h =
    go (occupy_lem status (suc index) (omega arith, omega arith))
  where
    go :
        (next : List ℕ) × (occupy status (suc index) ≡ some next)
          × (length next ≡ length status)
          × ((i : ℕ)
              → i < length status
              → get_elem? next i
                ≡ (if suc i == suc index then some seat_status_occuped else get_elem? status i))
        → (next : List ℕ) × ((occupy status (suc index) >>= λ rest. some (s ∷ rest)) ≡ some next)
          × (length next ≡ suc (length status))
          × ((i : ℕ)
              → i < suc (length status)
              → get_elem? next i ≡ (
                  if suc i == suc (suc index)
                  then some seat_status_occuped
                  else get_elem? (s ∷ status) i))
    go (next, e, size, cells) = (s ∷ next, rw e refl, ap suc size, shifted)
      where
        shifted :
            (i : ℕ)
            → i < suc (length status)
            → get_elem? (s ∷ next) i ≡ (
                if suc i == suc (suc index)
                then some seat_status_occuped
                else get_elem? (s ∷ status) i)
        shifted zero k = ground arith
        shifted (suc i) k = ground (arith, cells i (omega arith))

-- No cell of the vector: the write is undefined.
abbrev pub IsOutside : ℕ → ℕ → Type 0
IsOutside n index = (index ≡ 0) ⊎ (n < index)

occupy_outside :
    (status : List ℕ) (index : ℕ) → IsOutside (length status) index → occupy status index ≡ none
unfolding occupy
occupy_outside status zero h = refl
occupy_outside [] (suc index) h = refl
occupy_outside (s ∷ status) (suc zero) h = absurd (omega arith)
occupy_outside (s ∷ status) (suc (suc index)) h =
    rw (occupy_outside status (suc index) (inr (omega arith))) refl

occupy_all_lem :
    (status taken : List ℕ)
    → All (IsSeatOf (length status)) taken
    → (final : List ℕ) × (occupy_all status taken ≡ some final)
      × (length final ≡ length status)
      × ((i : ℕ)
          → i < length status
          → get_elem? final i
            ≡ (if is_taken taken (suc i) then some seat_status_occuped else get_elem? status i))
unfolding occupy_all
occupy_all_lem status [] h = (status, refl, refl, λ i k. refl)
occupy_all_lem status (t ∷ taken) (h, hs) =
    let (next, written, size, cells) = occupy_lem status t h in
    let (final, rest, final_size, final_cells) =
      occupy_all_lem next taken (subst (λ n. All (IsSeatOf n) taken) (sym size) hs) in
    (
      final,
      rw written rest,
      final_size ∙ size,
      λ i k. ground (arith, final_cells i (omega arith), cells i k),
    )

occupy_size :
    (status : List ℕ) (index : ℕ) (next : List ℕ)
    → occupy status index ≡ some next
    → length status ≡ length next
unfolding occupy
occupy_size status zero next h = cc
occupy_size [] (suc index) next h = cc
occupy_size (s ∷ status) (suc zero) next h = ground arith
occupy_size (s ∷ status) (suc (suc index)) next h =
    let (rest, e, f) = >>=-eq-some (occupy status (suc index)) (λ r. some (s ∷ r)) h in
    ground (arith, occupy_size status (suc index) rest e)

occupy_all_outside :
    (status before after : List ℕ) (t : ℕ)
    → IsOutside (length status) t
    → occupy_all status (before ++ (t ∷ after)) ≡ none
unfolding occupy_all
occupy_all_outside status [] after t h = rw (occupy_outside status t h) refl
occupy_all_outside status (b ∷ before) after t h = elim (Option-cases (occupy status b)) [
  | inl e ↦ rw e refl
  | inr (next, e) ↦ rw e (
      occupy_all_outside next before after t
        (subst (λ n. IsOutside n t) (occupy_size status b next e) h))
]

get_elem?-replicate : (n i v : ℕ) → i < n → get_elem? (replicate n v) i ≡ some v
get_elem?-replicate zero i v h = absurd (omega arith)
get_elem?-replicate (suc n) zero v h = refl
get_elem?-replicate (suc n) (suc i) v h = get_elem?-replicate n i v (omega arith)

-- Where every taken seat is a number from 1 to the number of seats, the vector of statuses is
-- computed, has one cell for each seat, and cell i is OCCUPED exactly if seat i + 1 is taken, and
-- FREE otherwise.
pub seat_status_lem :
    (seats taken : List ℕ)
    → All (IsSeatOf (length seats)) taken
    → (status : List ℕ) × (seat_status seats taken ≡ some status)
      × (length status ≡ length seats)
      × ((i : ℕ)
          → i < length seats
          → get_elem? status i
            ≡ some (if is_taken taken (suc i) then seat_status_occuped else seat_status_free))
unfolding seat_status
seat_status_lem seats taken h =
    let free = replicate (length seats) seat_status_free in
    let size : length free ≡ length seats = length-replicate (length seats) seat_status_free in
    let (status, computed, status_size, cells) =
      occupy_all_lem free taken (subst (λ n. All (IsSeatOf n) taken) (sym size) h) in
    (
      status,
      computed,
      status_size ∙ size,
      λ i k.
          ground
            (arith, cells i (omega arith), get_elem?-replicate (length seats) i seat_status_free k),
    )

-- A single taken seat outside that range, wherever it stands in the list, makes the computation
-- undefined: `seat_status[index-1]` is written past the end of the vector.
pub seat_status_outside :
    (seats before after : List ℕ) (t : ℕ)
    → IsOutside (length seats) t
    → seat_status seats (before ++ (t ∷ after)) ≡ none
unfolding seat_status
seat_status_outside seats before after t h =
    occupy_all_outside (replicate (length seats) seat_status_free) before after t
      (subst (λ n. IsOutside n t) (sym (length-replicate (length seats) seat_status_free)) h)
