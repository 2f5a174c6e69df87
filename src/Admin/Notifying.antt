-- ===== src/Admin/Notifying.antt =====
-- The updates of the seat map to the clients in a room.
use sist_distrib2c.Base.{
  ℕ, ◌≤◌, ◌≡◌, ◌≢◌, refl, ap₂, List, [], ◌∷◌, map, some, All, arith, length, replicate,
  length-replicate,
}
use sist_distrib2c.Message.{
  Message, m4, no_text, choice_seats_response, zero_message, max_seats, success_code,
}
use sist_distrib2c.Arrays.{copy_into_lem}
use sist_distrib2c.Channel.{
  Channel, Sent, out_queue, send_message, undefined_id, commqueue_as_server,
}
use sist_distrib2c.Db.{Engine, db_select_room_seats, db_select_reservations}
use sist_distrib2c.Admin.{seats_message, update_users, notify}
use sist_distrib2c.Admin.SeatMap.{IsSeatOf, seat_status_lem}

sent_id :
    (activity : Channel) (u : ℕ) (m : Message)
    → u ≢ undefined_id
    → (send_message (record activity { id = u }) m).mtype ≡ u
unfolding send_message
sent_id activity u m h = ground arith

pub seats_message_made :
    (m : Message) (flag : ℕ) (seats status : List ℕ)
    → length seats ≤ max_seats
    → length status ≤ max_seats
    → (full : Message) × (seats_message m flag seats status ≡ some full)
      × (full.client_id ≡ m.client_id)
      × (full.message_choice_number ≡ choice_seats_response)
unfolding seats_message
seats_message_made m flag seats status h k =
    let size : length (replicate {A = ℕ} max_seats 0) ≡ max_seats =
      length-replicate {A = ℕ} max_seats 0 in
    let (ids, e, _, _, _) = copy_into_lem seats (replicate max_seats 0) (omega (arith, size)) in
    let (cells, f, _, _, _) = copy_into_lem status (replicate max_seats 0) (omega (arith, size)) in
    (
      record m {
        message_choice_number = choice_seats_response;
        message_choice = m4 (record {
          count = length seats;
          success = flag;
          information = no_text;
          seats_id = ids;
          seats_status = cells;
        });
      },
      rw (e, f) refl,
      refl,
      refl,
    )

-- A seat map that goes to the queue of a channel.
abbrev pub IsUpdate : Channel → Sent → Type 0
IsUpdate channel s =
    (s.queue ≡ out_queue channel) × (s.message.message_choice_number ≡ choice_seats_response)

sent-IsUpdate :
    (activity : Channel) (u : ℕ) (m : Message)
    → m.message_choice_number ≡ choice_seats_response
    → IsUpdate activity (send_message (record activity { id = u }) m)
unfolding send_message
sent-IsUpdate activity u m h = ground arith

-- Every user gets one seat map, under the user's id.
pub update_users_told :
    (activity : Channel) (seats status users : List ℕ)
    → length seats ≤ max_seats
    → length status ≤ max_seats
    → All (λ u. u ≢ undefined_id) users
    → (out : List Sent) × (update_users activity seats status users ≡ some out)
      × (map (λ s. s.mtype) out ≡ users)
      × All (IsUpdate activity) out
unfolding update_users
update_users_told activity seats status [] h k ids = ([], refl, refl, tt)
update_users_told activity seats status (u ∷ users) h k (id, ids) =
    let (m, e, _, kind) =
      seats_message_made (record zero_message { client_id = u }) success_code seats status h k in
    let (rest, f, told, all) = update_users_told activity seats status users h k ids in
    (
      send_message (record activity { id = u }) m ∷ rest,
      rw (e, f) refl,
      ap₂ ◌∷◌ (sent_id activity u m id) told,
      (sent-IsUpdate activity u m kind, all),
    )

-- The seats of a room fit a message, and its taken seats are numbers of its seats.
pub record FitsRoom (seats taken : List ℕ) : Type 0 where
  pub size : length seats ≤ max_seats
  pub in_range : All (IsSeatOf (length seats)) taken

pub notify_told :
    (e : Engine) (activity : Channel) (db : e.Db) (room : ℕ) (users : List ℕ)
    → FitsRoom (db_select_room_seats e db room) (db_select_reservations e db room)
    → All (λ u. u ≢ undefined_id) users
    → (out : List Sent) × (notify e activity db room users ≡ some out)
      × (map (λ s. s.mtype) out ≡ users)
      × All (IsUpdate (record activity { orientation = commqueue_as_server })) out
unfolding notify
notify_told e activity db room [] fits ids = ([], refl, refl, tt)
notify_told e activity db room (u ∷ users) fits ids =
    let seats = db_select_room_seats e db room in
    let (status, computed, size, _) =
      seat_status_lem seats (db_select_reservations e db room) fits.in_range in
    let (out, made, told, all) =
      update_users_told (record activity { orientation = commqueue_as_server }) seats status
        (u ∷ users) fits.size (omega (arith, fits.size, size)) ids in
    (out, rw computed made, told, all)
