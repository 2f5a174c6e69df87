-- ===== src/Client/Reserving.antt =====
-- Reservations at the client: what a selection adds, and what is sent to pay for them.
use sist_distrib2c.Base.{
  ltb, ltb→lt, ◌⊎◌, ◌<◌, ℕ, ◌≤◌, ◌<◌, ◌≡◌, ◌≢◌, ◌↔◌, refl, ◌∙◌, Bool, true, false, List, [], ◌∷◌,
  ◌++◌, none, some, ◌==◌, if◌then◌else◌, length, take, replicate, length-replicate, arith,
  Bool-cases, inl, inr, Option-cases, ne→==, codes, c_string,
}
use sist_distrib2c.Message.{
  Message, Seat, Reservation, as_m6, zero_message, m7, m5, choice_seat_select_request, first_word,
  max_length_string, no_reservation, success_code, choice_seat_select_response,
  choice_pay_reservation_request,
}
use sist_distrib2c.Arrays.{copy_into_lem, copy_into_overflow}
use sist_distrib2c.Channel.{
  Action, sends, waits, send_message, receive_message_of, undefined_id, receive_message,
}
use sist_distrib2c.Client.Registry.{
  Client, Clients, find, store, get_client, clean_error, with_error, end_listener_thread,
  error_general_error,
}
use sist_distrib2c.Client.Exchange.{Called, unexpected, closed_by_cinema, exchange, asking}
use sist_distrib2c.Client.Booking.{selection_answered, reserve_seat, payment_request}

pub find-store :
    (fd k : ℕ) (c : Client) (clients : Clients)
    → find (store fd c clients) k ≡ (if fd == k then some c else find clients k)
unfolding find store
find-store fd k c [] = refl
find-store fd k c ((j, old) ∷ clients) = ground (arith, find-store fd k c clients)

-- The client entered under `fd` is connected, and its channel has an id.
pub record IsSession (clients : Clients) (fd : ℕ) (c : Client) : Type 0 where
  pub found : find clients fd ≡ some c
  pub online : c.connected ≡ true
  pub channel : c.mom_queue.id ≢ undefined_id

pub get_client_found :
    (clients : Clients) (fd : ℕ) (c : Client)
    → IsSession clients fd c
    → get_client clients fd true ≡ some c
unfolding get_client
get_client_found clients fd c s = rw (s.found, s.online) refl

-- The answer is that the seat is reserved.
abbrev pub IsReserved : Message → Type 0
IsReserved m =
    (m.message_choice_number ≡ choice_seat_select_response)
    × (first_word m.message_choice ≡ success_code)

-- The answer can be read as the code reads it: a selection's answer carries its information.
abbrev pub IsReadable : Message → Type 0
IsReadable m = as_m6 m.message_choice ≢ none

-- What a selection leaves of the reservations.
abbrev pub reservations_after : Client → Seat → Bool → List Reservation
reservations_after c seat reserved =
    if reserved
    then c.reservations ++ (record { room = seat.room_id; seat_num = seat.id } ∷ [])
    else c.reservations

selection_answered_lem :
    (c : Client) (cancelled : Bool) (seat : Seat) (response : Message)
    → IsReadable response
    → (after : Client) × (value : Bool) × (selection_answered c cancelled seat response
        ≡ some (after, value))
      × (value ≡ true ↔ IsReserved response)
      × (after.reservations ≡ reservations_after c seat value)
unfolding unexpected closed_by_cinema
selection_answered_lem c cancelled seat response readable =
    elim (Bool-cases (response.message_choice_number == choice_seat_select_response)) [
      | inr other ↦ (
        unexpected c cancelled response (codes "Unexpected error when select seat"),
        false,
        rw other refl,
        ground arith,
        ground arith,
      )
      | inl answered ↦ elim (Bool-cases (first_word response.message_choice == success_code)) [
        | inl ok ↦ (
          record (end_listener_thread c cancelled) {
            reservations =
                c.reservations ++ (record { room = seat.room_id; seat_num = seat.id } ∷ []);
          },
          true,
          rw (answered, ok) refl,
          ground arith,
          refl,
        )
        | inr refused ↦ elim (Option-cases (as_m6 response.message_choice)) [
          | inl missing ↦ absurd (readable missing)
          | inr ((success, information), read) ↦ (
            with_error c error_general_error (c_string information),
            false,
            rw (answered, refused, read) refl,
            ground arith,
            refl,
          )
        ]
      ]
    ]

pub exchange_found :
    (c : Client) (m : Message)
    → c.mom_queue.id ≢ undefined_id
    → (actions : List Action) × (exchange c m ≡ some actions)
unfolding receive_message
exchange_found c m h = (
  sends (send_message c.mom_queue m) ∷ waits (receive_message_of c.mom_queue c.mom_queue.id) ∷ [],
  rw (ne→== _ _ h) refl,
)

-- For a connected client and an answer that carries its information, the call returns; it gives true exactly when
-- the answer is a selection's with SUCCESS, then the seat is appended to the client's reservations,
-- otherwise they stay, and no other client is touched.
pub reserve_seat_lem :
    (clients : Clients) (fd : ℕ) (c : Client) (seat : Seat) (cancelled : Bool) (response : Message)
    → IsSession clients fd c
    → IsReadable response
    → (called : Called Bool) × (after : Client) × (reserve_seat clients fd seat cancelled response
        ≡ some called)
      × (called.value ≡ true ↔ IsReserved response)
      × (after.reservations ≡ reservations_after c seat called.value)
      × ((k : ℕ) → find called.clients k ≡ (if fd == k then some after else find clients k))
unfolding reserve_seat
reserve_seat_lem clients fd c seat cancelled response s readable =
    let (actions, exchanged) =
      exchange_found (clean_error c) (asking choice_seat_select_request (m5 seat.id)) s.channel in
    let (after, value, answered, iff, kept) =
      selection_answered_lem (clean_error c) cancelled seat response readable in
    (
      record { clients = store fd after clients; actions = actions; value = value },
      after,
      rw (get_client_found clients fd c s, reserve_seat, exchanged, answered) refl,
      iff,
      kept,
      λ k. find-store fd k after clients,
    )

-- The message with which a client pays lists exactly its reservations, in order, with their number, under
-- its cinema id; with more than 500 reservations the copy writes past the end of the message.
pub payment_request_lem :
    (c : Client)
    → ((length c.reservations ≤ max_length_string)
        × (list : List Reservation) × (payment_request c
            ≡ some (record zero_message {
              client_id = c.cinema_id;
              message_choice_number = choice_pay_reservation_request;
              message_choice = m7 (length c.reservations) list;
            }))
        × (length list ≡ max_length_string)
        × (take (length c.reservations) list ≡ c.reservations))
      ⊎ ((max_length_string < length c.reservations) × (payment_request c ≡ none))
unfolding payment_request
payment_request_lem c =
    let cells = replicate max_length_string no_reservation in
    let size : length cells ≡ max_length_string =
      length-replicate max_length_string no_reservation in
    elim (Bool-cases (ltb max_length_string (length c.reservations))) [
      | inl overflows ↦
          let more = ltb→lt max_length_string (length c.reservations) overflows in
          inr (more, rw (copy_into_overflow c.reservations cells (omega (arith, more, size))) refl)
      | inr fits ↦
          let less : length c.reservations ≤ max_length_string = ground (arith, fits) in
          let (list, copied, whole, front, _) =
            copy_into_lem c.reservations cells (omega (arith, less, size)) in
          inl (less, list, rw copied refl, whole ∙ size, front)
    ]
