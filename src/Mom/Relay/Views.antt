-- ===== src/Mom/Relay/Views.antt =====
-- The stages of the process that make a call on a queue.
use sist_distrib2c.Base.{ℕ, ◌≡◌, sym, subst, some, ◌==◌, if◌then◌else◌}
use sist_distrib2c.Message.{Message}
use sist_distrib2c.Channel.{Channel}
use sist_distrib2c.Mom.{Mom, undefined_cinema_client_id}
use sist_distrib2c.Mom.Relay.{
  Stage, waits_request, forwards, waits_response, answers, processes, ended, died, to_send,
  to_receive,
}

pub data Sending (mom : Mom) (channel : Channel) (m : Message) : Stage → Type 0 where
  sends_request : channel ≡ mom.cinema_queue → Sending mom channel m (forwards m)
  sends_response :
      (request : Message) → channel ≡ mom.client_queue → Sending mom channel m (answers request m)

pub data Receiving (mom : Mom) (channel : Channel) (mtype : ℕ) : Stage → Type 0 where
  takes_request :
      channel ≡ mom.client_queue
      → mtype ≡ mom.client_queue.id
      → Receiving mom channel mtype waits_request
  takes_response :
      (request : Message)
      → channel ≡ mom.cinema_queue
      → mtype ≡ (
          if mom.client_cinema_id == undefined_cinema_client_id
          then mom.client_local_id
          else mom.cinema_queue.id)
      → Receiving mom channel mtype (waits_response request)

pub to_send_view :
    (mom : Mom) (stage : Stage) (channel : Channel) (m : Message)
    → to_send mom stage ≡ some (channel, m)
    → Sending mom channel m stage
unfolding to_send
to_send_view mom (forwards r) channel m h =
    let same : r ≡ m = cc in
    subst (λ (x : Message). Sending mom channel m (forwards x)) (sym same) (sends_request (cc))
to_send_view mom (answers request r) channel m h =
    let same : r ≡ m = cc in
    subst (λ (x : Message). Sending mom channel m (answers request x)) (sym same)
      (sends_response request (cc))
to_send_view mom waits_request channel m h = cc
to_send_view mom (waits_response r) channel m h = cc
to_send_view mom (processes r) channel m h = cc
to_send_view mom ended channel m h = cc
to_send_view mom died channel m h = cc

pub to_receive_view :
    (mom : Mom) (stage : Stage) (channel : Channel) (mtype : ℕ)
    → to_receive mom stage ≡ some (channel, mtype)
    → Receiving mom channel mtype stage
unfolding to_receive
to_receive_view mom waits_request channel mtype h = takes_request (cc) (cc)
to_receive_view mom (waits_response r) channel mtype h = takes_response r (cc) (cc)
to_receive_view mom (forwards r) channel mtype h = cc
to_receive_view mom (answers request r) channel mtype h = cc
to_receive_view mom (processes r) channel mtype h = cc
to_receive_view mom ended channel mtype h = cc
to_receive_view mom died channel mtype h = cc
