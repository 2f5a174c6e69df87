-- ===== src/Cinema/Session/Views.antt =====
-- The listener's states that make a call on a queue.
use sist_distrib2c.Base.{
  ◌≡◌, refl, subst, Bool, true, false, Option, none, some, ◌==◌, if◌then◌else◌, sym,
}
use sist_distrib2c.Message.{Message, choice_exit}
use sist_distrib2c.Channel.{Channel}
use sist_distrib2c.Cinema.{Cinema, is_forwarded}
use sist_distrib2c.Cinema.Session.{
  Listener, waits_request, checks_stamp, updates_stamp, handles, awaits_reply, answers, kills_timer,
  reads_stamp, awaits_last, closes_timer, ended, died, client_channel, reply_channel, to_send,
  to_receive,
}

abbrev pub is_exit : Message → Bool
is_exit m = m.message_choice_number == choice_exit

abbrev pub goes_to_admin : Message → Bool
goes_to_admin m = is_forwarded m.message_choice_number

-- Who sends what: a request for the admin, CHOICE_EXIT, or an answer.
pub data Sending (cinema : Cinema) (channel : Channel) (m : Message) : Listener → Type 0 where
  sends_request :
      (r : Message)
      → goes_to_admin r ≡ true
      → channel ≡ cinema.admin_comm
      → Sending cinema channel m (handles r)
  sends_exit :
      (r : Message)
      → goes_to_admin r ≡ false
      → is_exit r ≡ true
      → channel ≡ cinema.admin_comm
      → Sending cinema channel m (handles r)
  sends_answer :
      (request : Message) (exit : Bool)
      → channel ≡ client_channel cinema
      → Sending cinema channel m (answers request m exit)

pub data Receiving (cinema : Cinema) (channel : Channel) : Listener → Type 0 where
  takes_request : channel ≡ client_channel cinema → Receiving cinema channel waits_request
  takes_reply :
      (r : Message) → channel ≡ reply_channel cinema → Receiving cinema channel (awaits_reply r)
  takes_last : channel ≡ client_channel cinema → Receiving cinema channel awaits_last

module _ (cinema : Cinema) where
  handles_view :
      (forwarded leaves : Bool) (r : Message) (channel : Channel) (m : Message)
      → goes_to_admin r ≡ forwarded
      → is_exit r ≡ leaves
      → (let call : Option (Channel × Message) =
            some (cinema.admin_comm, record r { client_id = cinema.client_id }) in
          if forwarded then call else if leaves then call else none)
        ≡ some (channel, m)
      → Sending cinema channel m (handles r)
  handles_view true leaves r channel m e f h = sends_request r e (cc)
  handles_view false true r channel m e f h = sends_exit r e f (cc)
  handles_view false false r channel m e f h = cc

  pub to_send_view :
      (l : Listener) (channel : Channel) (m : Message)
      → to_send cinema l ≡ some (channel, m)
      → Sending cinema channel m l
  unfolding to_send
  to_send_view (handles r) channel m h =
      handles_view (goes_to_admin r) (is_exit r) r channel m refl refl h
  to_send_view (answers request a exit) channel m h =
      let same : a ≡ m = cc in
      subst (λ (x : Message). Sending cinema channel m (answers request x exit)) (sym same)
        (sends_answer request exit (cc))
  to_send_view waits_request channel m h = cc
  to_send_view (checks_stamp r) channel m h = cc
  to_send_view (updates_stamp r) channel m h = cc
  to_send_view (awaits_reply r) channel m h = cc
  to_send_view kills_timer channel m h = cc
  to_send_view reads_stamp channel m h = cc
  to_send_view awaits_last channel m h = cc
  to_send_view closes_timer channel m h = cc
  to_send_view ended channel m h = cc
  to_send_view died channel m h = cc

  pub to_receive_view :
      (l : Listener) (channel : Channel)
      → to_receive cinema l ≡ some channel
      → Receiving cinema channel l
  unfolding to_receive
  to_receive_view waits_request channel h = takes_request (cc)
  to_receive_view (awaits_reply r) channel h = takes_reply r (cc)
  to_receive_view awaits_last channel h = takes_last (cc)
  to_receive_view (checks_stamp r) channel h = cc
  to_receive_view (updates_stamp r) channel h = cc
  to_receive_view (handles r) channel h = cc
  to_receive_view (answers request a exit) channel h = cc
  to_receive_view kills_timer channel h = cc
  to_receive_view reads_stamp channel h = cc
  to_receive_view closes_timer channel h = cc
  to_receive_view ended channel h = cc
  to_receive_view died channel h = cc
