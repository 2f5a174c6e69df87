-- ===== src/Channel/Events.antt =====
-- Sequences of calls, one after the other.
use sist_distrib2c.Base.{ℕ, ◌≡◌, refl, ap, ◌&&◌, List, [], ◌∷◌, ◌++◌, ◌==◌, inl, inr, Bool-cases}
use sist_distrib2c.Channel.{send_message, receive_message_of}
use sist_distrib2c.Channel.Queues.{MessageQueues}
use sist_distrib2c.Channel.Delivery.{
  Event, sent, received, send_failed, receive_failed, sent_to, received_from, Run, here, sends,
  receives, fails_to_send, fails_to_receive,
}

pub received_from-append :
    (q t : ℕ) (es fs : List Event)
    → received_from q t (es ++ fs) ≡ received_from q t es ++ received_from q t fs
received_from-append q t [] fs = refl
received_from-append q t (sent c m ∷ es) fs = received_from-append q t es fs
received_from-append q t (received c u m ∷ es) fs =
    elim (Bool-cases ((receive_message_of c u).queue == q && u == t)) [
      | inl e ↦ rw e (ap (◌∷◌ m) (received_from-append q t es fs))
      | inr e ↦ rw e (received_from-append q t es fs)
    ]
received_from-append q t (send_failed c m ∷ es) fs = received_from-append q t es fs
received_from-append q t (receive_failed c u ∷ es) fs = received_from-append q t es fs

pub sent_to-append :
    (q t : ℕ) (es fs : List Event) → sent_to q t (es ++ fs) ≡ sent_to q t es ++ sent_to q t fs
sent_to-append q t [] fs = refl
sent_to-append q t (sent c m ∷ es) fs =
    elim (Bool-cases ((send_message c m).queue == q && (send_message c m).mtype == t)) [
      | inl e ↦ rw e (ap (◌∷◌ (send_message c m).message) (sent_to-append q t es fs))
      | inr e ↦ rw e (sent_to-append q t es fs)
    ]
sent_to-append q t (received c u m ∷ es) fs = sent_to-append q t es fs
sent_to-append q t (send_failed c m ∷ es) fs = sent_to-append q t es fs
sent_to-append q t (receive_failed c u ∷ es) fs = sent_to-append q t es fs

pub run-append :
    (k : MessageQueues) {s t u : k.State} {es fs : List Event}
    → Run k s es t
    → Run k t fs u
    → Run k s (es ++ fs) u
run-append k (here s) r = r
run-append k (sends channel m h p) r = sends channel m h (run-append k p r)
run-append k (receives channel m_type q h p) r = receives channel m_type q h (run-append k p r)
run-append k (fails_to_send channel m h p) r = fails_to_send channel m h (run-append k p r)
run-append k (fails_to_receive channel m_type h p) r =
    fails_to_receive channel m_type h (run-append k p r)
