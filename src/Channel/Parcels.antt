-- ===== src/Channel/Parcels.antt =====
-- A queue's parcels of one type, when a parcel is appended or the first of its type is taken, and
-- what the results of `msgsnd` and `msgrcv` tell.
use sist_distrib2c.Base.{
  ℕ, ◌≡◌, refl, ap, ◌∙◌, true, false, ◌&&◌, List, [], ◌∷◌, ◌++◌, append-nil, Option, none, some,
  ◌==◌, if◌then◌else◌, arith, All, Bool-cases, inl, inr, sym, ==→eq,
}
use sist_distrib2c.Base.Words.{minus_one}
use sist_distrib2c.Message.{Message}
use sist_distrib2c.Channel.Queues.{
  Parcel, MessageQueues, QueueCall, returns, blocks, exits, of_type, IsOther, text_of, after_msgsnd,
  after_msgrcv,
}

pub of_type-append :
    (t : ℕ) (xs ys : List Parcel) → of_type t (xs ++ ys) ≡ of_type t xs ++ of_type t ys
of_type-append t [] ys = refl
of_type-append t (p ∷ xs) ys = elim (Bool-cases (p.mtype == t)) [
  | inl e ↦ rw e (ap (◌∷◌ p.text) (of_type-append t xs ys))
  | inr e ↦ rw e (of_type-append t xs ys)
]

-- The first parcel of its type, taken out.
pub of_type-taken :
    (t : ℕ) (taken : Parcel) (before after : List Parcel)
    → taken.mtype ≡ t
    → All (IsOther t) before
    → of_type t (before ++ (taken ∷ after)) ≡ taken.text ∷ of_type t (before ++ after)
of_type-taken t taken [] after same h = ground arith
of_type-taken t taken (p ∷ before) after same (h, hs) =
    rw h (of_type-taken t taken before after same hs)

-- Another parcel, taken out.
pub of_type-other :
    (t : ℕ) (taken : Parcel) (before after : List Parcel)
    → (taken.mtype == t) ≡ false
    → of_type t (before ++ (taken ∷ after)) ≡ of_type t (before ++ after)
of_type-other t taken [] after h = rw h refl
of_type-other t taken (p ∷ before) after h = elim (Bool-cases (p.mtype == t)) [
  | inl e ↦ rw e (ap (◌∷◌ p.text) (of_type-other t taken before after h))
  | inr e ↦ rw e (of_type-other t taken before after h)
]

pub appended_view :
    (id q mtype u : ℕ) (text : Message) (old new : List Parcel)
    → new ≡ (if id == q then old ++ (record { mtype = mtype; text = text } ∷ []) else old)
    → of_type u new ≡ of_type u old ++ (if id == q && mtype == u then text ∷ [] else [])
appended_view id q mtype u text old new h = elim (Bool-cases (id == q)) [
  | inl here_ ↦
      let new_is : new ≡ old ++ (record { mtype = mtype; text = text } ∷ []) = rw here_ at h in
      rw (here_, new_is) (of_type-append u old (record { mtype = mtype; text = text } ∷ []))
  | inr elsewhere ↦
      let new_is : new ≡ old = rw elsewhere at h in
      rw (elsewhere, new_is) (sym (append-nil (of_type u old)))
]

pub taken_view :
    (id q u : ℕ) (p : Parcel) (before after at_id old new : List Parcel)
    → All (IsOther p.mtype) before
    → at_id ≡ before ++ (p ∷ after)
    → (id ≡ q → old ≡ at_id)
    → new ≡ (if id == q then before ++ after else old)
    → of_type u old ≡ (if id == q && p.mtype == u then p.text ∷ of_type u new else of_type u new)
taken_view id q u p before after at_id old new others split same h = elim (Bool-cases (id == q)) [
  | inl here_ ↦
      let new_is : new ≡ before ++ after = rw here_ at h in
      let old_is : old ≡ before ++ (p ∷ after) = same (==→eq id q here_) ∙ split in
      elim (Bool-cases (p.mtype == u)) [
        | inl this ↦
            rw (here_, this, old_is, new_is, ← ==→eq p.mtype u this)
              (of_type-taken p.mtype p before after refl others)
        | inr other ↦ rw (here_, other, old_is, new_is) (of_type-other u p before after other)
      ]
  | inr elsewhere ↦ let new_is : new ≡ old = rw elsewhere at h in rw (elsewhere, new_is) refl
]

pub after_msgsnd-returns :
    (k : MessageQueues) (o : Option (ℕ × k.State)) {s' : k.State}
    → after_msgsnd k o ≡ returns tt s'
    → (r : ℕ) × (o ≡ some (r, s')) × ((r == minus_one) ≡ false)
after_msgsnd-returns k none h = cc
after_msgsnd-returns k (some (r, s)) h = elim (Bool-cases (r == minus_one)) [
  | inl e ↦ let no : exits s ≡ returns tt _ = rw e at h in cc
  | inr e ↦ let yes_ : returns tt s ≡ returns tt _ = rw e at h in (r, cc, e)
]

pub after_msgsnd-exits :
    (k : MessageQueues) (o : Option (ℕ × k.State)) {s' : k.State}
    → after_msgsnd k o ≡ exits s'
    → (r : ℕ) × (o ≡ some (r, s')) × ((r == minus_one) ≡ true)
after_msgsnd-exits k none h = cc
after_msgsnd-exits k (some (r, s)) h = elim (Bool-cases (r == minus_one)) [
  | inl e ↦ let failed : exits s ≡ exits _ = rw e at h in (r, cc, e)
  | inr e ↦ let no : returns tt s ≡ exits _ = rw e at h in cc
]

pub after_msgrcv-returns :
    (k : MessageQueues) (o : Option (ℕ × Parcel × k.State)) {p : Parcel} {s' : k.State}
    → after_msgrcv k o ≡ returns p s'
    → (r : ℕ) × (o ≡ some (r, p, s')) × ((r == minus_one) ≡ false)
after_msgrcv-returns k none h = cc
after_msgrcv-returns k (some (r, p, s)) h = elim (Bool-cases (r == minus_one)) [
  | inl e ↦ let no : exits s ≡ returns _ _ = rw e at h in cc
  | inr e ↦ let got : returns p s ≡ returns _ _ = rw e at h in (r, cc, e)
]

pub after_msgrcv-exits :
    (k : MessageQueues) (o : Option (ℕ × Parcel × k.State)) {s' : k.State}
    → after_msgrcv k o ≡ exits s'
    → (r : ℕ) × (p : Parcel) × (o ≡ some (r, p, s')) × ((r == minus_one) ≡ true)
after_msgrcv-exits k none h = cc
after_msgrcv-exits k (some (r, p, s)) h = elim (Bool-cases (r == minus_one)) [
  | inl e ↦ let failed : exits s ≡ exits _ = rw e at h in (r, p, cc, e)
  | inr e ↦ let no : returns p s ≡ exits _ = rw e at h in cc
]

-- The parcel of a message that is received, and the failure of one that is not.
pub text_of-returns :
    {S : Type 0} (c : QueueCall S Parcel) {m : Message} {s : S}
    → text_of c ≡ returns m s
    → (p : Parcel) × (c ≡ returns p s) × (p.text ≡ m)
text_of-returns (returns p s) h = (p, cc, cc)
text_of-returns blocks h = cc
text_of-returns (exits s) h = cc

pub text_of-exits :
    {S : Type 0} (c : QueueCall S Parcel) {s : S} → text_of c ≡ exits s → c ≡ exits s
text_of-exits (returns p s) h = cc
text_of-exits blocks h = cc
text_of-exits (exits s) h = cc
