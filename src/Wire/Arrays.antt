-- ===== src/Wire/Arrays.antt =====
-- The array helpers of socket.cpp: each reader fills the first cells with what its writer read.
use sist_distrib2c.Base.{
  ℕ, zero, suc, ◌*◌, ◌≤◌, ◌≡◌, refl, List, [], ◌∷◌, ◌++◌, Option, some, arith, append_assoc, length,
  take, drop, All, length-append,
}
use sist_distrib2c.Base.Words.{IsWord}
use sist_distrib2c.Message.{Reservation}
use sist_distrib2c.Wire.Memory.{store_int, htonl, htonl-htonl, load_int-htonl, length-store_int}
use sist_distrib2c.Wire.Encode.{serialize_chars, serialize_ints, serialize_reservation}
use sist_distrib2c.Wire.Decode.{deserialize_chars, deserialize_ints, deserialize_reservations}

abbrev pub IsWordPair : Reservation → Type 0
IsWordPair r = IsWord r.room × IsWord r.seat_num

-- What the receiver's array holds: `n` cells of the sender's, and the rest of its own.
abbrev pub overlay {ℓ} : {A : Type ℓ} → ℕ → List A → List A → List A
overlay n cells old = take n cells ++ drop n old

-- The bytes that a writer gives for `n` cells, and what the reader makes of them.
abbrev pub Carries {ℓ} :
    {A : Type ℓ}
    → (List A → ℕ → Option (List ℕ))
    → (ℕ → List A → List ℕ → Option (List A × List ℕ))
    → ℕ
    → ℕ
    → List A
    → List A
    → Type ℓ
Carries write read width n cells old =
    (bytes : List ℕ) × (write cells n ≡ some bytes)
    × (length bytes ≡ n * width)
    × ((rest : List ℕ) → read n old (bytes ++ rest) ≡ some (overlay n cells old, rest))

pub chars_carried :
    (n : ℕ) (cells old : List ℕ)
    → n ≤ length cells
    → n ≤ length old
    → Carries serialize_chars deserialize_chars 1 n cells old
unfolding serialize_chars deserialize_chars
chars_carried zero cells old h k = ([], refl, omega arith, λ rest. refl)
chars_carried (suc n) [] old h k = absurd (omega arith)
chars_carried (suc n) (c ∷ cells) [] h k = absurd (omega arith)
chars_carried (suc n) (c ∷ cells) (d ∷ old) h k =
    let (bytes, written, size, reads) = chars_carried n cells old (omega arith) (omega arith) in
    (c ∷ bytes, rw written refl, omega arith, λ rest. rw (reads rest) refl)

pub ints_carried :
    (n : ℕ) (cells old : List ℕ)
    → n ≤ length cells
    → n ≤ length old
    → All IsWord cells
    → Carries serialize_ints deserialize_ints 4 n cells old
unfolding serialize_ints deserialize_ints
ints_carried zero cells old h k ws = ([], refl, omega arith, λ rest. refl)
ints_carried (suc n) [] old h k ws = absurd (omega arith)
ints_carried (suc n) (c ∷ cells) [] h k ws = absurd (omega arith)
ints_carried (suc n) (c ∷ cells) (d ∷ old) h k (w, ws) =
    let (bytes, written, size, reads) = ints_carried n cells old (omega arith) (omega arith) ws in
    (
      store_int (htonl c) ++ bytes,
      rw written refl,
      omega (arith, length-append (store_int (htonl c)) bytes, length-store_int (htonl c)),
      λ rest. simp (append_assoc, load_int-htonl, reads, htonl-htonl c w),
    )

pub reservations_carried :
    (n : ℕ) (cells old : List Reservation)
    → n ≤ length cells
    → n ≤ length old
    → All IsWordPair cells
    → Carries serialize_reservation deserialize_reservations 8 n cells old
unfolding serialize_reservation deserialize_reservations
reservations_carried zero cells old h k ws = ([], refl, omega arith, λ rest. refl)
reservations_carried (suc n) [] old h k ws = absurd (omega arith)
reservations_carried (suc n) (c ∷ cells) [] h k ws = absurd (omega arith)
reservations_carried (suc n) (c ∷ cells) (d ∷ old) h k ((w, v), ws) =
    let (bytes, written, size, reads) =
      reservations_carried n cells old (omega arith) (omega arith) ws in
    (
      store_int (htonl c.room) ++ (store_int (htonl c.seat_num) ++ bytes),
      rw written refl,
      omega (
        arith,
        length-append (store_int (htonl c.room)) (store_int (htonl c.seat_num) ++ bytes),
        length-append (store_int (htonl c.seat_num)) bytes,
        length-store_int (htonl c.room),
        length-store_int (htonl c.seat_num),
      ),
      λ rest.
          simp
            (append_assoc, load_int-htonl, reads, htonl-htonl c.room w, htonl-htonl c.seat_num v),
    )
