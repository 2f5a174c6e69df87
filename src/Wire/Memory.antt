-- ===== src/Wire/Memory.antt =====
-- Ints in a byte buffer on a little-endian host, and the byte swaps `htonl`, `ntohl` and `ntohs`.
use sist_distrib2c.Base.{
  ℕ, ◌+◌, ◌*◌, ◌/◌, ◌%◌, ◌^◌, ◌≡◌, refl, List, [], ◌∷◌, ◌++◌, Option, none, some, arith, length,
}
use sist_distrib2c.Base.Words.{IsWord}

-- `*p = w` for `int* p`.
unfoldable pub store_int : ℕ → List ℕ
store_int w = (w % 2 ^ 8) ∷ (w / 2 ^ 8 % 2 ^ 8) ∷ (w / 2 ^ 16 % 2 ^ 8) ∷ (w / 2 ^ 24 % 2 ^ 8) ∷ []

-- `*p`, and the bytes behind it; `none` past the end of the buffer.
unfoldable pub load_int : List ℕ → Option (ℕ × List ℕ)
load_int (a ∷ b ∷ c ∷ d ∷ rest) = some (a + 2 ^ 8 * b + 2 ^ 16 * c + 2 ^ 24 * d, rest)
load_int _ = none

-- `ntohl` is the same function.
unfoldable pub htonl : ℕ → ℕ
htonl w =
    w % 2 ^ 8 * 2 ^ 24
    + w / 2 ^ 8 % 2 ^ 8 * 2 ^ 16
    + w / 2 ^ 16 % 2 ^ 8 * 2 ^ 8
    + w / 2 ^ 24 % 2 ^ 8

-- The argument is converted to `uint16_t` first.
unfoldable pub ntohs : ℕ → ℕ
ntohs w = w % 2 ^ 8 * 2 ^ 8 + w / 2 ^ 8 % 2 ^ 8

pub htonl-IsWord : (w : ℕ) → IsWord (htonl w)
unfolding htonl
htonl-IsWord w = omega arith

pub htonl-htonl : (w : ℕ) → IsWord w → htonl (htonl w) ≡ w
unfolding htonl
htonl-htonl w h = omega arith

pub load_int-store_int :
    (w : ℕ) (rest : List ℕ) → IsWord w → load_int (store_int w ++ rest) ≡ some (w, rest)
unfolding store_int load_int
load_int-store_int w rest h = ground arith

pub length-store_int : (w : ℕ) → length (store_int w) ≡ 4
unfolding store_int
length-store_int w = refl

-- An int in network order is read back whatever it is.
pub load_int-htonl :
    (w : ℕ) (rest : List ℕ) → load_int (store_int (htonl w) ++ rest) ≡ some (htonl w, rest)
load_int-htonl w rest = load_int-store_int (htonl w) rest (htonl-IsWord w)
