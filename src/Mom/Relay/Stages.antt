-- ===== src/Mom/Relay/Stages.antt =====
-- The requests that the process of a client has taken and the answers it has given, stage by stage.
use mathlib.Core.List.{map-append}
use sist_distrib2c.Base.{
  ℕ, ◌≡◌, ◌≤◌, ◌⊎◌, refl, sym, ap, ◌∙◌, Bool, true, false, List, [], ◌∷◌, ◌++◌, map, ◌==◌,
  if◌then◌else◌, any, length, arith, append-nil,
}
use sist_distrib2c.Message.{Message, choice_exit}
use sist_distrib2c.Channel.{Channel}
use sist_distrib2c.Mom.{Mom, undefined_cinema_client_id, process_message}
use sist_distrib2c.Mom.Relay.{
  Stage, waits_request, forwards, waits_response, answers, processes, ended, died, Passed,
  after_send, passes, after_receive,
}
use sist_distrib2c.Mom.Relay.Views.{
  Sending, sends_request, sends_response, Receiving, takes_request, takes_response,
}

abbrev pub is_exit : Passed → Bool
is_exit x = x.response.message_choice_number == choice_exit

abbrev requests : List Passed → List Message
requests = map (λ (x : Passed). x.request)

-- The requests taken are those answered and the one in hand; after a failure one may be lost.
abbrev pub Took : Stage → List Message → List Passed → Type 0
Took died seen log =
    (extra : List Message) × (length extra ≤ 1)
    × (seen ≡ map (λ (x : Passed). x.request) log ++ extra)
Took (forwards m) seen log = seen ≡ map (λ (x : Passed). x.request) log ++ (m ∷ [])
Took (waits_response m) seen log = seen ≡ map (λ (x : Passed). x.request) log ++ (m ∷ [])
Took (answers m response) seen log = seen ≡ map (λ (x : Passed). x.request) log ++ (m ∷ [])
Took _ seen log = seen ≡ map (λ (x : Passed). x.request) log

Took-any :
    (stage : Stage) (seen : List Message) (log : List Passed)
    → Took stage seen log
    → Took died seen log
Took-any died seen log h = h
Took-any (forwards m) seen log h = (m ∷ [], omega arith, h)
Took-any (waits_response m) seen log h = (m ∷ [], omega arith, h)
Took-any (answers m response) seen log h = (m ∷ [], omega arith, h)
Took-any _ seen log h = ([], omega arith, h ∙ sym (append-nil (requests log)))

-- What the loop leaves of the struct: the channels keep their queues and sides, the client's channel also
-- its id, and the cinema's has the id that the cinema gave, once it gave one.
pub record IsKept (client cinema : Channel) (mom : Mom) : Type 0 where
  pub same_client : mom.client_queue ≡ client
  pub local_id : mom.client_local_id ≡ client.id
  pub same_first : mom.cinema_queue.id_firstqueue ≡ cinema.id_firstqueue
  pub same_second : mom.cinema_queue.id_secondqueue ≡ cinema.id_secondqueue
  pub same_side : mom.cinema_queue.orientation ≡ cinema.orientation
  pub known :
      (mom.client_cinema_id ≡ undefined_cinema_client_id)
      ⊎ (mom.cinema_queue.id ≡ mom.client_cinema_id)

pub process_message-IsKept :
    (client cinema : Channel) (mom : Mom) (m : Message) (pid : ℕ)
    → IsKept client cinema mom
    → IsKept client cinema (process_message mom m pid).0
unfolding process_message
process_message-IsKept client cinema mom m pid h = ground arith

-- A CHOICE_EXIT of the cinema is the last answer, and ends the loop.
abbrev pub Ends : Stage → List Passed → Type 0
Ends died log = Unit {0}
Ends (processes m) log =
    (before : List Passed) × (x : Passed) × (log ≡ before ++ (x ∷ []))
    × (any is_exit before ≡ false)
    × (x.response ≡ m)
Ends ended log =
    (before : List Passed) × (x : Passed) × (log ≡ before ++ (x ∷ []))
    × (any is_exit before ≡ false)
    × (is_exit x ≡ true)
Ends _ log = any is_exit log ≡ false

any-append :
    (xs : List Passed) (x : Passed)
    → any is_exit xs ≡ false
    → any is_exit (xs ++ (x ∷ [])) ≡ is_exit x
any-append [] x h = ground arith
any-append (y ∷ xs) x h = ground (arith, any-append xs x)

pub exits_at :
    (mom : Mom) (m : Message) (pid : ℕ)
    → (process_message mom m pid).2 ≡ (m.message_choice_number == choice_exit)
unfolding process_message
exits_at mom m pid = ground arith

-- The requests taken and the answers given, stage by stage.
pub record Passing (stage : Stage) (seen : List Message) (log : List Passed) : Type 0 where
  pub took : Took stage seen log
  pub ends : Ends stage log

one_more :
    (seen : List Message) (log : List Passed) (request response : Message)
    → seen ≡ requests log ++ (request ∷ [])
    → seen ≡ requests (log ++ (record { request = request; response = response } ∷ []))
one_more seen log request response h =
    h
    ∙ sym (
        map-append (λ (x : Passed). x.request) log
          (record { request = request; response = response } ∷ []))

pub sends-Passing :
    (mom : Mom) {stage : Stage} (seen : List Message) (log : List Passed) {channel : Channel}
    {m : Message}
    → Sending mom channel m stage
    → Passing stage seen log
    → Passing (after_send stage) seen (log ++ passes stage)
unfolding after_send passes
sends-Passing mom seen log (sends_request c) v =
    rw (append-nil log) (record { took = v.took; ends = v.ends })
sends-Passing mom seen log {m = m} (sends_response request c) v = record {
  took = one_more seen log request m v.took;
  ends = (log, record { request = request; response = m }, refl, v.ends, refl);
}

-- What a receive takes from the client.
abbrev pub came : Stage → Message → List Message
came waits_request m = m ∷ []
came _ m = []

pub receives-Passing :
    (mom : Mom) {stage : Stage} (seen : List Message) (log : List Passed) (m : Message)
    {channel : Channel} {mtype : ℕ}
    → Receiving mom channel mtype stage
    → Passing stage seen log
    → Passing (after_receive m stage) (seen ++ came stage m) log
unfolding after_receive
receives-Passing mom seen log m (takes_request c t) v = record {
  took = ap (λ (x : List Message). x ++ (m ∷ [])) v.took;
  ends = v.ends;
}
receives-Passing mom seen log m (takes_response request c t) v = record {
  took = append-nil seen ∙ v.took;
  ends = v.ends;
}

pub dies-Passing :
    (stage : Stage) (seen : List Message) (log : List Passed)
    → Passing stage seen log
    → Passing died seen log
dies-Passing stage seen log v = record { took = Took-any stage seen log v.took; ends = tt }

pub decides-Passing :
    (exit : Bool) (m : Message) (seen : List Message) (log : List Passed)
    → exit ≡ (m.message_choice_number == choice_exit)
    → Passing (processes m) seen log
    → Passing (if exit then ended else waits_request) seen log
decides-Passing true m seen log h v =
    let (before, x, split, quiet, same) = v.ends in
    record { took = v.took; ends = (before, x, split, quiet, rw same (sym h)) }
decides-Passing false m seen log h v =
    let (before, x, split, quiet, same) = v.ends in
    record { took = v.took; ends = rw split (any-append before x quiet ∙ rw same (sym h)) }
