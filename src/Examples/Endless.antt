-- ===== src/Examples/Endless.antt =====
-- Message queues of a kernel that never fills them, and their laws.
use sist_distrib2c.Base.{
  ℕ, ◌≡◌, refl, ap, inl, inr, Bool-cases, true, false, List, [], ◌∷◌, ◌++◌, Option, none, some,
  ◌==◌, if◌then◌else◌, arith, All, ==→eq, ◌>>=◌, subst, >>=-eq-some, sym, ◌∙◌,
}
use sist_distrib2c.Base.Words.{minus_one, is_positive}
use sist_distrib2c.Message.{Message, zero_message}
use sist_distrib2c.Channel.Queues.{Parcel, MessageQueues, QueueLaws, of_type, IsOther}

abbrev pub Stored : Type 0
Stored = ℕ → List Parcel

-- The first parcel, and the others.
abbrev pub take_any : List Parcel → Option (Parcel × List Parcel)
take_any [] = none
take_any (p ∷ parcels) = some (p, parcels)

-- The first parcel of a type, and the others.
abbrev pub take_first : ℕ → List Parcel → Option (Parcel × List Parcel)
take_first t [] = none
take_first t (p ∷ parcels) =
    let later = take_first t parcels >>= λ r. some (r.0, p ∷ r.1) in
    if p.mtype == t then some (p, parcels) else later

abbrev pub stored_send : ℕ → ℕ → ℕ → Message → Stored → Option (ℕ × Stored)
stored_send id size t text s =
    if is_positive t
    then some (0, λ q. if id == q then s q ++ (record { mtype = t; text = text } ∷ []) else s q)
    else some (minus_one, s)

abbrev pub stored_result : ℕ → Stored → Option (Parcel × List Parcel) → Option (ℕ × Parcel × Stored)
stored_result id s none = none
stored_result id s (some (p, rest)) = some (0, p, λ q. if id == q then rest else s q)

-- Type 0 asks for the first parcel of all; a negative type is refused.
abbrev pub stored_receive : ℕ → ℕ → ℕ → Stored → Option (ℕ × Parcel × Stored)
stored_receive id size t s =
    if is_positive t
    then stored_result id s (take_first t (s id))
    else if t == 0
    then stored_result id s (take_any (s id))
    else some (minus_one, record { mtype = 0; text = zero_message }, s)

abbrev pub endless : MessageQueues
endless = record { State = Stored; msgsnd = stored_send; msgrcv = stored_receive }

abbrev pub Taken : Type 0
Taken = Parcel × List Parcel

take_first-taken :
    (t : ℕ) (parcels : List Parcel) (q : Parcel) (rest : List Parcel)
    → take_first t parcels ≡ some (q, rest)
    → (before after : List Parcel) × All (IsOther t) before
      × (parcels ≡ before ++ (q ∷ after))
      × (rest ≡ before ++ after)
      × (q.mtype ≡ t)
take_first-taken t [] q rest h = cc
take_first-taken t (p ∷ parcels) q rest h = elim (Bool-cases (p.mtype == t)) [
  | inl e ↦
      let same : ◌≡◌ {A = Option Taken} (some (p, parcels)) (some (q, rest)) = rw e at h in
      let parts : (p ≡ q) × (parcels ≡ rest) = (cc, cc) in
      (
        [],
        parcels,
        tt,
        ap (λ (x : Parcel). x ∷ parcels) parts.0,
        sym parts.1,
        ap (λ (x : Parcel). x.mtype) (sym parts.0) ∙ ==→eq p.mtype t e,
      )
  | inr e ↦
      let (r, first, same) =
        >>=-eq-some (take_first t parcels) (λ (r : Taken). some (r.0, p ∷ r.1)) {b = (q, rest)}
          (rw e at h) in
      let parts : (r.0 ≡ q) × (p ∷ r.1 ≡ rest) = (cc, cc) in
      let (before, after, others, split, left, same) = take_first-taken t parcels r.0 r.1 first in
      (
        p ∷ before,
        after,
        (e, others),
        ap (◌∷◌ p) (rw (← parts.0) split),
        sym parts.1 ∙ ap (◌∷◌ p) left,
        ap (λ (x : Parcel). x.mtype) (sym parts.0) ∙ same,
      )
]

pub take_first-ready :
    (t : ℕ) (parcels : List Parcel) (m : Message) (rest : List Message)
    → of_type t parcels ≡ m ∷ rest
    → (r : Taken) × (take_first t parcels ≡ some r)
take_first-ready t [] m rest h = cc
take_first-ready t (p ∷ parcels) m rest h = elim (Bool-cases (p.mtype == t)) [
  | inl e ↦ ((p, parcels), rw e refl)
  | inr e ↦
      let (r, first) = take_first-ready t parcels m rest (rw e at h) in
      ((r.0, p ∷ r.1), rw (e, first) refl)
]

stored_result-taken :
    (id : ℕ) (s s' : Stored) (o : Option Taken) (r : ℕ) (p : Parcel)
    → stored_result id s o ≡ some (r, p, s')
    → (rest : List Parcel) × (o ≡ some (p, rest))
      × (r ≡ 0)
      × ((λ q. if id == q then rest else s q) ≡ s')
stored_result-taken id s s' none r p h = cc
stored_result-taken id s s' (some (m, rest)) r p h =
    let parts : (0 ≡ r) × (m ≡ p) = (cc, cc) in (rest, rw parts.1 refl, sym parts.0, cc)

refused_receive :
    (r : ℕ) (p q : Parcel) (s s' : Stored)
    → ◌≡◌ {A = Option (ℕ × Parcel × Stored)} (some (minus_one, q, s)) (some (r, p, s'))
    → (r ≡ minus_one) × (s ≡ s')
refused_receive r p q s s' h = (cc, cc)

-- A receive of a positive type.
pub asks_type :
    (id size t r : ℕ) (p : Parcel) (s s' : Stored)
    → is_positive t ≡ true
    → stored_receive id size t s ≡ some (r, p, s')
    → (r ≡ 0)
      × (p.mtype ≡ t)
      × (before after : List Parcel) × All (IsOther t) before
      × (s id ≡ before ++ (p ∷ after))
      × ((q : ℕ) → s' q ≡ (if id == q then before ++ after else s q))
asks_type id size t r p s s' positive h =
    let (rest, first, code, now) =
      stored_result-taken id s s' (take_first t (s id)) r p (rw positive at h) in
    let (before, after, others, split, left, same) = take_first-taken t (s id) p rest first in
    (code, same, before, after, others, split, λ q. rw (← now, left) refl)

take_any-taken :
    (parcels : List Parcel) (p : Parcel) (rest : List Parcel)
    → take_any parcels ≡ some (p, rest)
    → parcels ≡ p ∷ rest
take_any-taken [] p rest h = cc
take_any-taken (x ∷ parcels) p rest h = let parts : (x ≡ p) × (parcels ≡ rest) = (cc, cc) in cc

-- A receive of type 0.
asks_any :
    (id size t r : ℕ) (p : Parcel) (s s' : Stored)
    → is_positive t ≡ false
    → (t == 0) ≡ true
    → stored_receive id size t s ≡ some (r, p, s')
    → (r ≡ 0)
      × (rest : List Parcel) × (s id ≡ p ∷ rest)
      × ((q : ℕ) → s' q ≡ (if id == q then rest else s q))
asks_any id size t r p s s' other any_ h =
    let (rest, first, code, now) =
      stored_result-taken id s s' (take_any (s id)) r p (rw (other, any_) at h) in
    (code, rest, take_any-taken (s id) p rest first, λ q. rw (← now) refl)

-- A receive of a negative type fails.
asks_negative :
    (id size t r : ℕ) (p : Parcel) (s s' : Stored)
    → is_positive t ≡ false
    → (t == 0) ≡ false
    → stored_receive id size t s ≡ some (r, p, s')
    → (r ≡ minus_one) × (s ≡ s')
asks_negative id size t r p s s' other some_ h =
    refused_receive r p (record { mtype = 0; text = zero_message }) s s' (rw (other, some_) at h)

pub endless_taken :
    (id size t r : ℕ) (p : Parcel) (s s' : Stored)
    → stored_receive id size t s ≡ some (r, p, s')
    → (r == minus_one) ≡ false
    → (before after : List Parcel) × All (IsOther p.mtype) before
      × (s id ≡ before ++ (p ∷ after))
      × ((q : ℕ) → s' q ≡ (if id == q then before ++ after else s q))
endless_taken id size t r p s s' h worked = elim (Bool-cases (is_positive t)) [
  | inl positive ↦
      let (_, same, before, after, others, split, now) = asks_type id size t r p s s' positive h in
      (before, after, subst (λ (u : ℕ). All (IsOther u) before) (sym same) others, split, now)
  | inr other ↦ elim (Bool-cases (t == 0)) [
    | inl any_ ↦
        let (_, rest, split, now) = asks_any id size t r p s s' other any_ h in
        ([], rest, tt, split, now)
    | inr some_ ↦
        let (code, _) = asks_negative id size t r p s s' other some_ h in absurd (ground arith)
  ]
]

-- `State × result` of a call, compared part by part.
pair_parts :
    (r r' : ℕ) (s s' : Stored)
    → ◌≡◌ {A = Option (ℕ × Stored)} (some (r, s)) (some (r', s'))
    → (r ≡ r') × (s ≡ s')
pair_parts r r' s s' h = (cc, cc)

pub endless_sent :
    (id size t r : ℕ) (text : Message) (s s' : Stored)
    → stored_send id size t text s ≡ some (r, s')
    → ((r == minus_one) ≡ false
        → (q : ℕ)
        → s' q ≡ (if id == q then s q ++ (record { mtype = t; text = text } ∷ []) else s q))
      × ((r == minus_one) ≡ true → (q : ℕ) → s' q ≡ s q)
endless_sent id size t r text s s' h = elim (Bool-cases (is_positive t)) [
  | inl positive ↦
      let grown : Stored =
        λ q. if id == q then s q ++ (record { mtype = t; text = text } ∷ []) else s q in
      let (code, now) = pair_parts 0 r grown s' (rw positive at h) in
      (λ worked q. rw (← now) refl, λ failed. absurd (ground arith))
  | inr other ↦
      let (code, now) = pair_parts minus_one r s s' (rw other at h) in
      (λ worked. absurd (ground arith), λ failed q. rw now refl)
]

pub endless_kept :
    (id size t r : ℕ) (p : Parcel) (s s' : Stored)
    → stored_receive id size t s ≡ some (r, p, s')
    → (r == minus_one) ≡ true
    → (q : ℕ) → s' q ≡ s q
endless_kept id size t r p s s' h failed q = elim (Bool-cases (is_positive t)) [
  | inl positive ↦ let code = (asks_type id size t r p s s' positive h).0 in absurd (ground arith)
  | inr other ↦ elim (Bool-cases (t == 0)) [
    | inl any_ ↦ let code = (asks_any id size t r p s s' other any_ h).0 in absurd (ground arith)
    | inr some_ ↦ let (_, now) = asks_negative id size t r p s s' other some_ h in rw now refl
  ]
]

abbrev pub endless_laws : QueueLaws endless
endless_laws = record {
  contents = λ s. s;
  appended = λ id size t r text s s' h. (endless_sent id size t r text s s' h).0;
  refused = λ id size t r text s s' h. (endless_sent id size t r text s s' h).1;
  taken = λ id size t r p s s' h worked. endless_taken id size t r p s s' h worked;
  asked = λ id size t r p s s' positive h worked. (asks_type id size t r p s s' positive h).1;
  kept = λ id size t r p s s' h failed. endless_kept id size t r p s s' h failed;
  ready = λ id size t m rest s positive full.
      let (r, first) = take_first-ready t (s id) m rest full in
      (0, r.0, λ q. if id == q then r.1 else s q, refl, rw (positive, first) refl);
}
