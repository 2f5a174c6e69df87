-- ===== src/Admin/Selecting.antt =====
-- CHOICE_SEAT_SELECT_REQUEST: which answer a client gets, what happens to the reservations, and who
-- is told.
use sist_distrib2c.Base.{
  ℕ, ◌≡◌, ◌≢◌, refl, ◌∙◌, Bool, true, false, List, [], ◌∷◌, ◌++◌, map, some, any, All, arith,
  Bool-cases, inl, inr, ◌⊎◌, ne→==,
}
use sist_distrib2c.Base.Words.{is_positive}
use sist_distrib2c.Message.{Message, zero_message, first_word, choice_seat_select_request}
use sist_distrib2c.Channel.{Channel, Sent, send_message, undefined_id, commqueue_as_server}
use sist_distrib2c.Db.{
  Engine, EngineLaws, Table, Column, Row, reservations, clients_rooms, delete_from, matches, row_of,
  same_key, reservation_insert, db_insert_reservation, db_select_user_current_room,
  db_remove_user_in_room, db_select_users_in_room, db_select_room_seats, db_select_reservations,
}
use sist_distrib2c.Admin.{
  handle_selection, select_in_room, seat_refused, seat_reserved, respond_after,
  admin_handle_request,
}
use sist_distrib2c.Admin.Ownership.{exec_keeps}
use sist_distrib2c.Admin.Notifying.{FitsRoom, IsUpdate, notify_told}

-- An unpaid reservation of the seat by the user is in the list.
abbrev pub holds_unpaid : ℕ → ℕ → ℕ → List Row → Bool
holds_unpaid v room seat = any (
    matches (
      (Column.user_id, v)
      ∷ (Column.room_id, room)
      ∷ (Column.seat_id, seat)
      ∷ (Column.paid_flag, 0)
      ∷ []))

abbrev pub reservation_row : ℕ → ℕ → ℕ → Row
reservation_row v room seat =
    row_of ((Column.user_id, v) ∷ (Column.room_id, room) ∷ (Column.seat_id, seat) ∷ [])

holds-append_own :
    (v room seat : ℕ) (rows : List Row)
    → holds_unpaid v room seat (rows ++ (reservation_row v room seat ∷ [])) ≡ true
holds-append_own v room seat [] = ground arith
holds-append_own v room seat (r ∷ rows) = ground (arith, holds-append_own v room seat rows)

module _ (e : Engine) (laws : EngineLaws e) where
  leave_keeps_reservations :
      (db : e.Db) (u : ℕ)
      → e.rows (db_remove_user_in_room e db u).1 reservations ≡ e.rows db reservations
  unfolding db_remove_user_in_room
  leave_keeps_reservations db u =
      exec_keeps e laws (λ rows. rows ≡ e.rows db reservations)
        (delete_from clients_rooms ((Column.user_id, u) ∷ [])) db (λ q. q) refl

  insert_keeps_row :
      (db : e.Db) (u room seat : ℕ)
      → e.prepare (reservation_insert u room seat) db ≡ true
      → (db_insert_reservation e db u room seat).0 ≡ true
      → e.rows (db_insert_reservation e db u room seat).1 reservations
        ≡ e.rows db reservations ++ (reservation_row u room seat ∷ [])
  unfolding db_insert_reservation
  insert_keeps_row db u room seat prepared ok = elim (Bool-cases (is_positive seat)) [
    | inl positive ↦
        rw (positive, prepared)
          (laws.done (reservation_insert u room seat) db reservations
            (rw (positive, prepared) at ok))
    | inr not_positive ↦ cc (rw not_positive at ok)
  ]

  insert_refused :
      (db : e.Db) (u room seat : ℕ)
      → e.prepare (reservation_insert u room seat) db ≡ true
      → (any (λ r. same_key reservations r (reservation_row u room seat)) (e.rows db reservations)
          ≡ true)
        ⊎ (is_positive seat ≡ false)
      → ((db_insert_reservation e db u room seat).0 ≡ false)
        × ((t : Table) → e.rows (db_insert_reservation e db u room seat).1 t ≡ e.rows db t)
  unfolding db_insert_reservation
  insert_refused db u room seat prepared (inr not_positive) = rw not_positive (refl, λ t. refl)
  insert_refused db u room seat prepared (inl taken) = elim (Bool-cases (is_positive seat)) [
    | inr not_positive ↦ rw not_positive (refl, λ t. refl)
    | inl positive ↦ elim (Bool-cases (e.exec (reservation_insert u room seat) db).0) [
      | inl ok ↦ cc (taken, laws.fresh reservations _ db ok)
      | inr refused ↦
          rw (positive, prepared)
            (refused, λ t. laws.failed (reservation_insert u room seat) db t refused)
    ]
  ]

  module _ (activity channel : Channel) (db : e.Db) (request : Message) (room : ℕ)
      (selects : request.message_choice_number ≡ choice_seat_select_request)
      (in_room : db_select_user_current_room e db request.client_id ≡ some room)
      (room_set : room ≢ 0) where
    abbrev seat : ℕ
    seat = first_word request.message_choice

    abbrev response : Message
    response = record zero_message { client_id = request.client_id }

    abbrev reply_to : Channel
    reply_to = record channel { id = request.client_id }

    dispatched :
        admin_handle_request e activity db channel request
        ≡ respond_after e reply_to (select_in_room e activity db request response room)
    unfolding admin_handle_request handle_selection
    dispatched = rw (selects, in_room) refl

    -- If sqlite3_prepare succeeds, a client in a room who selects a seat that somebody has reserved, paid or not, or a number
    -- that is not positive, is answered NOT_SUCCESS with the text for an invalid seat, under the
    -- client's id; nobody else gets a message, and no table changes.
    pub selection_refused :
        e.prepare (reservation_insert request.client_id room seat) db ≡ true
        → (any
              (λ r. same_key reservations r (reservation_row request.client_id room seat))
              (e.rows db reservations)
            ≡ true)
          ⊎ (is_positive seat ≡ false)
        → (db' : e.Db) × (admin_handle_request e activity db channel request
            ≡ some (db', send_message reply_to (seat_refused response) ∷ []))
          × ((t : Table) → e.rows db' t ≡ e.rows db t)
    selection_refused prepared reason =
        let (refused, same) = insert_refused db request.client_id room seat prepared reason in
        (
          (db_insert_reservation e db request.client_id room seat).1,
          dispatched ∙ rw (ne→== room 0 room_set, refused) refl,
          same,
        )

    -- The database after the insertion, and after the first deletion of the client's room.
    abbrev inserted : e.Db
    inserted = (db_insert_reservation e db request.client_id room seat).1

    abbrev left : e.Db
    left = (db_remove_user_in_room e inserted request.client_id).1

    -- Suppose that sqlite3_prepare and the insertion of the reservation succeed, and that afterwards the
    -- seats of the room fit a message, its reservations name seats of the room, and no user listed in
    -- it has the id UNDEFINED_ID. Then the handler returns, the seat is reserved for the client, unpaid;
    -- each client that the database lists in the room, the one who selected left out by the deletion
    -- before, gets one seat map, in that order, on the queue of the activity channel; and the last
    -- message is the client's answer, SUCCESS with the text for a reservation.
    pub selection_made :
        e.prepare (reservation_insert request.client_id room seat) db ≡ true
        → (db_insert_reservation e db request.client_id room seat).0 ≡ true
        → FitsRoom (db_select_room_seats e left room) (db_select_reservations e left room)
        → All (λ u. u ≢ undefined_id) (db_select_users_in_room e left room)
        → (db' : e.Db) × (updates : List Sent) × (admin_handle_request e activity db channel request
            ≡ some (db', updates ++ (send_message reply_to (seat_reserved response) ∷ [])))
          × (holds_unpaid request.client_id room seat (e.rows db' reservations) ≡ true)
          × (map (λ s. s.mtype) updates ≡ db_select_users_in_room e left room)
          × All (IsUpdate (record activity { orientation = commqueue_as_server })) updates
    selection_made prepared ok fits ids =
        let (updates, notified, told, all) =
          notify_told e activity left room (db_select_users_in_room e left room) fits ids in
        (
          (db_remove_user_in_room e left request.client_id).1,
          updates,
          dispatched ∙ rw (ne→== room 0 room_set, ok, notified) refl,
          rw
              (
                leave_keeps_reservations left request.client_id,
                leave_keeps_reservations inserted request.client_id,
                insert_keeps_row db request.client_id room seat prepared ok,
              )
              (holds-append_own request.client_id room seat (e.rows db reservations)),
          told,
          all,
        )
