-- ===== src/Cinema/Session/Log.antt =====
-- The answers that the listener has given, step by step.
use sist_distrib2c.Base.{
  ◌≡◌, ◌⊎◌, refl, sym, ap, ◌∙◌, Bool, true, false, List, [], ◌∷◌, ◌++◌, if◌then◌else◌, All, any,
  arith, inl, inr, Bool-cases, append-nil,
}
use sist_distrib2c.Message.{Message}
use sist_distrib2c.Channel.{Channel}
use sist_distrib2c.Cinema.{Cinema}
use sist_distrib2c.Cinema.Session.{
  Listener, awaits_reply, answers, kills_timer, reads_stamp, awaits_last, closes_timer, ended, died,
  Exchange, exit_answer, invalid_answer, after_send, logs, after_receive, replied,
}
use sist_distrib2c.Cinema.Session.Views.{
  is_exit, goes_to_admin, Sending, sends_request, sends_exit, sends_answer, Receiving,
  takes_request, takes_reply, takes_last,
}

-- The answer to what does not go to the admin is the cinema's own.
abbrev pub IsRight : Exchange → Type 0
IsRight x =
    (goes_to_admin x.request ≡ true)
    ⊎ (x.answer ≡ (if is_exit x.request then exit_answer else invalid_answer))

-- The answers to what goes to the admin.
abbrev pub from_admin : List Exchange → List Message
from_admin [] = []
from_admin (x ∷ log) = if goes_to_admin x.request then x.answer ∷ from_admin log else from_admin log

-- A reply of the admin that is not yet passed on.
abbrev pub pending : Listener → List Message
pending (answers request answer exit) = if goes_to_admin request then answer ∷ [] else []
pending _ = []

abbrev pub HandIsRight : Listener → Type 0
HandIsRight (awaits_reply m) = goes_to_admin m ≡ true
HandIsRight (answers request answer exit) =
    IsRight (record { request = request; answer = answer }) × (exit ≡ is_exit request)
HandIsRight _ = Unit {0}

abbrev pub asks_exit : Exchange → Bool
asks_exit x = is_exit x.request

-- One CHOICE_EXIT is answered, the last of the answers.
abbrev pub EndsInExit : List Exchange → Type 0
EndsInExit log =
    (before : List Exchange) × (x : Exchange) × (log ≡ before ++ (x ∷ []))
    × (any asks_exit before ≡ false)
    × (asks_exit x ≡ true)

-- Before the end of its loop the listener has answered no CHOICE_EXIT.
abbrev pub LoopsTo : Listener → List Exchange → Type 0
LoopsTo kills_timer log = EndsInExit log
LoopsTo reads_stamp log = EndsInExit log
LoopsTo awaits_last log = EndsInExit log
LoopsTo closes_timer log = EndsInExit log
LoopsTo ended log = EndsInExit log
LoopsTo died log = Unit {0}
LoopsTo _ log = any asks_exit log ≡ false

-- What the admin has replied is passed on, in order, but for the reply in hand.
abbrev pub Uses : Listener → List Exchange → List Message → Type 0
Uses died log replies = (rest : List Message) × (from_admin log ++ rest ≡ replies)
Uses l log replies = from_admin log ++ pending l ≡ replies

pub record LogInv (l : Listener) (log : List Exchange) (replies : List Message) : Type 0 where
  pub right : All IsRight log
  pub hand : HandIsRight l
  pub used : Uses l log replies
  pub loops : LoopsTo l log

All-append :
    (P : Exchange → Type 0) (xs : List Exchange) (x : Exchange)
    → All P xs
    → P x
    → All P (xs ++ (x ∷ []))
All-append P [] x h p = (p, tt)
All-append P (y ∷ xs) x (h, hs) p = (h, All-append P xs x hs p)

any-append :
    (xs : List Exchange) (x : Exchange)
    → any asks_exit xs ≡ false
    → any asks_exit (xs ++ (x ∷ [])) ≡ asks_exit x
any-append [] x h = ground arith
any-append (y ∷ xs) x h = ground (arith, any-append xs x)

from_admin-append :
    (log : List Exchange) (x : Exchange)
    → from_admin (log ++ (x ∷ []))
      ≡ from_admin log ++ (if goes_to_admin x.request then x.answer ∷ [] else [])
from_admin-append [] x = refl
from_admin-append (y ∷ log) x = elim (Bool-cases (goes_to_admin y.request)) [
  | inl e ↦ rw e (ap (◌∷◌ y.answer) (from_admin-append log x))
  | inr e ↦ rw e (from_admin-append log x)
]

one_answered :
    (request answer : Message) (exit : Bool) (log : List Exchange) (replies : List Message)
    → LogInv (answers request answer exit) log replies
    → All IsRight (log ++ (record { request = request; answer = answer } ∷ []))
      × (from_admin (log ++ (record { request = request; answer = answer } ∷ [])) ≡ replies)
      × (any asks_exit (log ++ (record { request = request; answer = answer } ∷ [])) ≡ exit)
one_answered request answer exit log replies v =
    let x : Exchange = record { request = request; answer = answer } in
    (
      All-append IsRight log x v.right v.hand.0,
      from_admin-append log x ∙ v.used,
      any-append log x v.loops ∙ sym v.hand.1,
    )

pub log_sends :
    (cinema : Cinema) {l : Listener} (log : List Exchange) (replies : List Message)
    {channel : Channel} {m : Message}
    → Sending cinema channel m l
    → LogInv l log replies
    → LogInv (after_send l) (log ++ logs l) replies
unfolding after_send logs
log_sends cinema log replies (sends_request r e c) v =
    rw (e, append-nil log) (record { right = v.right; hand = e; used = v.used; loops = v.loops })
log_sends cinema log replies (sends_exit r e leaves c) v =
    rw (e, append-nil log)
      (record {
        right = v.right;
        hand = (inr (rw leaves refl), sym leaves);
        used = rw e v.used;
        loops = v.loops;
      })
log_sends cinema log replies {m = a} (sends_answer request true c) v =
    let (right, used, exit) = one_answered request a true log replies v in
    let x : Exchange = record { request = request; answer = a } in
    record {
      right = right;
      hand = tt;
      used = append-nil _ ∙ used;
      loops = (log, x, refl, v.loops, sym v.hand.1);
    }
log_sends cinema log replies {m = a} (sends_answer request false c) v =
    let (right, used, exit) = one_answered request a false log replies v in
    record { right = right; hand = tt; used = append-nil _ ∙ used; loops = exit }

pub log_receives :
    (cinema : Cinema) {l : Listener} (log : List Exchange) (replies : List Message) (m : Message)
    {channel : Channel}
    → Receiving cinema channel l
    → LogInv l log replies
    → LogInv (after_receive m l) log (replies ++ replied m l)
unfolding after_receive replied
log_receives cinema log replies m (takes_request c) v =
    rw (append-nil replies) (record { right = v.right; hand = tt; used = v.used; loops = v.loops })
log_receives cinema log replies m (takes_reply r c) v = record {
  right = v.right;
  hand = (inl v.hand, ground arith);
  used =
      rw v.hand
        (ap (λ (l : List Message). l ++ (m ∷ [])) (sym (append-nil (from_admin log)) ∙ v.used));
  loops = v.loops;
}
log_receives cinema log replies m (takes_last c) v =
    rw (append-nil replies) (record { right = v.right; hand = tt; used = v.used; loops = v.loops })

pub log_dies :
    (l : Listener) (log : List Exchange) (replies : List Message)
    → LogInv l log replies
    → LogInv died log replies
log_dies died log replies v = v
log_dies (answers request answer exit) log replies v = record {
  right = v.right;
  hand = tt;
  used = (_, v.used);
  loops = tt;
}
log_dies _ log replies v = record { right = v.right; hand = tt; used = ([], v.used); loops = tt }

pub idle_after :
    (log : List Exchange) (replies : List Message) (l l' : Listener)
    → HandIsRight l'
    → (Uses l log replies → Uses l' log replies)
    → (LoopsTo l log → LoopsTo l' log)
    → LogInv l log replies
    → LogInv l' log replies
idle_after log replies l l' hand uses loops v = record {
  right = v.right;
  hand = hand;
  used = uses v.used;
  loops = loops v.loops;
}
