-- ===== src/Arrays.antt =====
-- `std::copy` of a vector into a C array, as admin.cpp and client_interface.cpp use it.
use sist_distrib2c.Base.{
  suc, ◌≤◌, ◌<◌, ◌≡◌, refl, ap, List, [], ◌∷◌, Option, none, some, ◌>>=◌, length, take, drop, arith,
}

-- `none`: the vector is longer than the array, and the copy writes past its end.
unfoldable pub copy_into {ℓ} : {A : Type ℓ} → List A → List A → Option (List A)
copy_into [] cells = some cells
copy_into (x ∷ xs) [] = none
copy_into (x ∷ xs) (_ ∷ cells) = do rest ← copy_into xs cells; some (x ∷ rest)

module _ {ℓ} {A : Type ℓ} where
  -- A vector that fits is copied to the front of the array, and the cells behind it stay.
  pub copy_into_lem :
      (xs cells : List A)
      → length xs ≤ length cells
      → (out : List A) × (copy_into xs cells ≡ some out)
        × (length out ≡ length cells)
        × (take (length xs) out ≡ xs)
        × (drop (length xs) out ≡ drop (length xs) cells)
  unfolding copy_into
  copy_into_lem [] cells h = (cells, refl, refl, refl, refl)
  copy_into_lem (x ∷ xs) [] h = absurd (omega arith)
  copy_into_lem (x ∷ xs) (c ∷ cells) h =
      let (out, copied, size, front, behind) = copy_into_lem xs cells (omega arith) in
      (x ∷ out, rw copied refl, ap suc size, ap (◌∷◌ x) front, behind)

  pub copy_into_overflow :
      (xs cells : List A) → length cells < length xs → copy_into xs cells ≡ none
  unfolding copy_into
  copy_into_overflow [] cells h = absurd (omega arith)
  copy_into_overflow (x ∷ xs) [] h = refl
  copy_into_overflow (x ∷ xs) (c ∷ cells) h = rw (copy_into_overflow xs cells (omega arith)) refl
