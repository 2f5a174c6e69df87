-- ===== src/Examples/Queues.antt =====
-- The theorems on delivery, at message queues that are never full.
use mathlib.Core.Path.{fun_ext}
use sist_distrib2c.Base.{
  ℕ, ◌≡◌, refl, ap, inl, inr, Bool-cases, List, [], ◌∷◌, ◌++◌, ◌==◌, if◌then◌else◌, arith,
}
use sist_distrib2c.Message.{Message, zero_message, choice_exit}
use sist_distrib2c.Channel.{Channel, out_queue, send_message, receive_message_of}
use sist_distrib2c.Channel.Routing.{AreOpposite}
use sist_distrib2c.Channel.Queues.{Parcel, returns, send_on, parcel_of, receive_on}
use sist_distrib2c.Channel.Delivery.{
  Run, here, sends, receives, Event, sent, received, sent_to, received_from, waiting,
  received_in_order,
}
use sist_distrib2c.Channel.Waiting.{receive_on-send_on}
use sist_distrib2c.Examples.Endless.{Stored, endless, endless_laws}

abbrev pub cinema_side : Channel
cinema_side = record { id_firstqueue = 10; id_secondqueue = 11; orientation = 0; id = 7 }

abbrev pub user_side : Channel
user_side = record { id_firstqueue = 10; id_secondqueue = 11; orientation = 1; id = 7 }

abbrev pub leaves : Message
leaves = record zero_message { message_choice_number = choice_exit }

abbrev pub no_messages : Stored
no_messages = λ q. []

pub sides_opposite : AreOpposite user_side cinema_side
sides_opposite = record { first = refl; second = refl; sides = inr (omega arith, refl) }

abbrev pub one_sent : Stored
one_sent = λ q.
    if 11 == q then record { mtype = 7; text = record leaves { message_type = 7 } } ∷ [] else []

receive_on-send_on_example :
    (u : Stored) × (receive_on endless cinema_side one_sent
      ≡ returns (send_message user_side leaves).message u)
    × (waiting endless endless_laws cinema_side 7 u ≡ [])
unfolding send_on send_message
receive_on-send_on_example =
    receive_on-send_on endless endless_laws user_side cinema_side leaves no_messages one_sent
      sides_opposite refl refl refl refl

-- The requests of two clients; that of client 9 is taken first, and then the first of all is.
abbrev pub queued : List Parcel → Stored
queued parcels = λ q. if 11 == q then parcels else []

abbrev other_side : Channel
other_side = record user_side { id = 9 }

abbrev pub of_7 : Parcel
of_7 = record { mtype = 7; text = record leaves { message_type = 7 } }

abbrev of_9 : Parcel
of_9 = record { mtype = 9; text = record leaves { message_type = 9 } }

abbrev exchange : List Event
exchange =
    sent user_side leaves
    ∷ sent other_side leaves
    ∷ sent user_side leaves
    ∷ received cinema_side 9 of_9.text
    ∷ received cinema_side 7 of_7.text
    ∷ []

-- The queue's parcels replaced.
requeued :
    (new old : List Parcel) (f : List Parcel → List Parcel)
    → f old ≡ new
    → ◌≡◌ {A = Stored} (λ q. if 11 == q then f (queued old q) else queued old q) (queued new)
requeued new old f h = fun_ext (λ (q : ℕ). elim (Bool-cases (11 == q)) [
  | inl here_ ↦ rw here_ h
  | inr elsewhere ↦ rw elsewhere refl
])

exchange-Run : Run endless no_messages exchange (queued (of_7 ∷ []))
unfolding send_on send_message parcel_of receive_message_of
exchange-Run = sends {t = queued (of_7 ∷ [])} user_side leaves refl (
    sends {t = queued (of_7 ∷ of_9 ∷ [])} other_side leaves
      (ap (returns tt) (requeued (of_7 ∷ of_9 ∷ []) (of_7 ∷ []) (λ l. l ++ (of_9 ∷ [])) refl))
      (sends {t = queued (of_7 ∷ of_9 ∷ of_7 ∷ [])} user_side leaves
        (ap (returns tt)
          (requeued (of_7 ∷ of_9 ∷ of_7 ∷ []) (of_7 ∷ of_9 ∷ []) (λ l. l ++ (of_7 ∷ [])) refl))
        (receives {t = queued (of_7 ∷ of_7 ∷ [])} cinema_side 9 of_9
          (ap (returns of_9)
            (requeued (of_7 ∷ of_7 ∷ []) (of_7 ∷ of_9 ∷ of_7 ∷ []) (λ l. of_7 ∷ of_7 ∷ []) refl))
          (receives {t = queued (of_7 ∷ [])} cinema_side 0 of_7
            (ap (returns of_7) (requeued (of_7 ∷ []) (of_7 ∷ of_7 ∷ []) (λ l. of_7 ∷ []) refl))
            (here _)))))

received_in_order_example :
    received_from (receive_message_of cinema_side 7).queue 7 exchange
      ++ waiting endless endless_laws cinema_side 7 (queued (of_7 ∷ []))
    ≡ waiting endless endless_laws cinema_side 7 no_messages
      ++ sent_to (out_queue user_side) 7 exchange
received_in_order_example =
    received_in_order endless endless_laws user_side cinema_side 7 sides_opposite exchange-Run
