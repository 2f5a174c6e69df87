-- ===== src/Cinema/Serving.antt =====
-- `cinema_listen_client` of src/cinema/cinema.cpp: the loop that serves one client.
use sist_distrib2c.Base.{
  ℕ, ◌%◌, ◌≡◌, ◌≢◌, refl, Bool, true, false, List, [], ◌∷◌, ◌++◌, map, Option, none, some, ◌>>=◌,
  ◌==◌, if◌then◌else◌, arith, any, Bool-cases, inl, inr,
}
use sist_distrib2c.Message.{Message, zero_message, max_clients, choice_exit, choice_invalid_request}
use sist_distrib2c.Channel.{
  Sent, Wanted, Action, sends, waits, undefined_id, out_queue, send_message, receive_message,
}
use sist_distrib2c.Cinema.{Cinema, cinema_handle, is_forwarded}
use sist_distrib2c.Cinema.Timer.{timer_close, connection_timedout}

-- What the environment gives one round: the client's message, the timestamp stored and the clock
-- when it arrives, and the admin's reply.
pub record Round : Type 0 where
  pub request : Message
  pub stamp : ℕ
  pub now : ℕ
  pub reply : Message

pub data Deed : Type 0 where
  on_queue : Action → Deed
  update_timestamp : (position value : ℕ) → Deed

-- Whether the loop still runs, ended by `exit`, or the process died in `THROW_UTIL`.
pub data Ending : Type 0 where
  serving exited died : Ending

abbrev pub client_position : Cinema → ℕ
client_position cinema = cinema.client_id % max_clients

-- "1-bis Update timer".
abbrev touch : Cinema → Round → List Deed
touch cinema r =
    if r.stamp == connection_timedout
    then []
    else update_timestamp (client_position cinema) r.now ∷ []

abbrev respond : Cinema → Option (Message × Bool) → List Deed × Ending → List Deed × Ending
respond cinema none rest = ([], died)
respond cinema (some (response, true)) rest =
    (on_queue (sends (send_message cinema.client_comm response)) ∷ [], exited)
respond cinema (some (response, false)) (deeds, ending) =
    (on_queue (sends (send_message cinema.client_comm response)) ∷ deeds, ending)

abbrev after_wait : Cinema → Option Wanted → Round → List Deed × Ending → List Deed × Ending
after_wait cinema none r rest = ([], died)
after_wait cinema (some wanted) r rest =
    let ran =
      cinema_handle cinema.admin_comm (record r.request { client_id = cinema.client_id }) r.reply in
    let (deeds, ending) = respond cinema ran.outcome rest in
    (on_queue (waits wanted) ∷ (touch cinema r ++ (map on_queue ran.actions ++ deeds)), ending)

unfoldable pub listen_loop : Cinema → List Round → List Deed × Ending
listen_loop cinema [] = ([], serving)
listen_loop cinema (r ∷ rounds) =
    let rest = listen_loop cinema rounds in
    after_wait cinema (receive_message cinema.client_comm) r rest

-- After the loop, and after the timer is killed: `stamp` is what the timestamp holds then.
unfoldable pub finish_client : Cinema → ℕ → Option (List Deed)
finish_client cinema stamp =
    if stamp == connection_timedout
    then (receive_message cinema.client_comm >>= λ w. some (on_queue (waits w) ∷ []))
    else some (update_timestamp (client_position cinema) timer_close ∷ [])

-- The first line of the function sets the channel's id to the client's.
unfoldable pub cinema_listen_client : Cinema → List Round → List Deed × Ending
unfolding listen_loop
cinema_listen_client cinema rounds =
    listen_loop
      (record cinema { client_comm = record cinema.client_comm { id = cinema.client_id } }) rounds

-- The answer that a client's request should have.
pub expected : Round → Message
expected r =
    if is_forwarded r.request.message_choice_number
    then r.reply
    else if r.request.message_choice_number == choice_exit
    then record zero_message { message_choice_number = choice_exit }
    else record zero_message { message_choice_number = choice_invalid_request }

abbrev pub asks_exit : Round → Bool
asks_exit r = r.request.message_choice_number == choice_exit

-- The rounds up to the first that asks to leave, that one included.
abbrev pub through_exit : List Round → List Round
through_exit [] = []
through_exit (r ∷ rounds) = if asks_exit r then r ∷ [] else r ∷ through_exit rounds

-- The messages sent to a queue.
abbrev pub sent_to : ℕ → List Deed → List Sent
sent_to queue [] = []
sent_to queue (on_queue (sends s) ∷ deeds) =
    if s.queue == queue then s ∷ sent_to queue deeds else sent_to queue deeds
sent_to queue (on_queue (waits w) ∷ deeds) = sent_to queue deeds
sent_to queue (update_timestamp position value ∷ deeds) = sent_to queue deeds

module _ (cinema : Cinema) (channel_defined : cinema.client_comm.id ≢ undefined_id)
    (client_defined : cinema.client_id ≢ undefined_id)
    (queues_differ : out_queue cinema.admin_comm ≢ out_queue cinema.client_comm) where
  listen_loop_step :
      (r : Round) (rounds : List Round)
      → (sent_to (out_queue cinema.client_comm) (listen_loop cinema (r ∷ rounds)).0
          ≡ send_message cinema.client_comm (expected r)
            ∷ (if asks_exit r
                then []
                else sent_to (out_queue cinema.client_comm) (listen_loop cinema rounds).0))
        × ((listen_loop cinema (r ∷ rounds)).1
            ≡ (if asks_exit r then exited else (listen_loop cinema rounds).1))
  unfolding listen_loop cinema_handle send_message receive_message expected
  listen_loop_step r rounds = ground arith

  listen_loop_answers :
      (rounds : List Round)
      → (sent_to (out_queue cinema.client_comm) (listen_loop cinema rounds).0
          ≡ map (λ r. send_message cinema.client_comm (expected r)) (through_exit rounds))
        × ((listen_loop cinema rounds).1 ≡ (if any asks_exit rounds then exited else serving))
  listen_loop_answers [] = unfold listen_loop in (refl, refl)
  listen_loop_answers (r ∷ rounds) =
      let (sent, ending) = listen_loop_step r rounds in
      let (rest_sent, rest_ending) = listen_loop_answers rounds in
      elim (Bool-cases (asks_exit r)) [
        | inl leaves ↦ (rw leaves (rw leaves at sent), rw leaves (rw leaves at ending))
        | inr stays ↦ (
          rw (stays, ← rest_sent) (rw stays at sent),
          rw (stays, ← rest_ending) (rw stays at ending),
        )
      ]

-- Over the requests of a client, on the queue that the cinema sends to clients there is exactly one
-- answer for each request up to the first CHOICE_EXIT, in order and under the client's id: the
-- admin's reply for what is forwarded, CHOICE_EXIT for it, CHOICE_INVALID_REQUEST for the rest.
-- The loop ends at the first CHOICE_EXIT, and runs on if there is none.
pub cinema_listen_client_answers :
    (cinema : Cinema) (rounds : List Round)
    → cinema.client_id ≢ undefined_id
    → out_queue cinema.admin_comm ≢ out_queue cinema.client_comm
    → let comm = record cinema.client_comm { id = cinema.client_id } in
      (sent_to (out_queue comm) (cinema_listen_client cinema rounds).0
        ≡ map (λ r. send_message comm (expected r)) (through_exit rounds))
      × ((cinema_listen_client cinema rounds).1
          ≡ (if any asks_exit rounds then exited else serving))
unfolding cinema_listen_client
cinema_listen_client_answers cinema rounds defined differ =
    listen_loop_answers
      (record cinema { client_comm = record cinema.client_comm { id = cinema.client_id } }) defined
      defined differ rounds
