-- ===== src/Admin/Statements.antt =====
-- The statements that the handler of admin.cpp may execute for a request of one user, and the rule
-- that carries a property of the database through the handler.
use sist_distrib2c.Base.{
  ℕ, zero, suc, ◌≡◌, Bool, true, false, List, [], ◌∷◌, Option, none, some, ◌>>=◌, if◌then◌else◌,
  subst, ◌==◌,
}
use sist_distrib2c.Base.Words.{is_positive, rounds}
use sist_distrib2c.Message.{
  Message, Reservation, first_word, as_m7, success_code, zero_message,
  choice_pay_reservation_request, choice_exit, choice_connection_accepted, choice_rooms_request,
  choice_seats_request, choice_seat_select_request,
}
use sist_distrib2c.Arrays.{copy_into}
use sist_distrib2c.Channel.{Channel, Sent}
use sist_distrib2c.Db.{
  Engine, Statement, Column, users, reservations, clients_rooms, active_clients, delete_from,
  update_paid, insert_into, insert_null, reservation_insert, db_update_paid_reservation,
  db_logout_user, db_remove_user_unpaid_reservations, db_insert_user, db_login_user,
  db_select_reservations, db_insert_user_in_room, db_select_user_current_room, db_select_room,
  db_insert_reservation, db_remove_user_in_room,
}
use sist_distrib2c.Admin.{
  pay_loop, handle_payment, handle_exit, handle_connection, handle_rooms, seats_of_room,
  handle_seats, notify, reserved, handle_selection, respond, respond_after, admin_handle_request,
  seat_status, seats_message,
}

-- Each row is a function of db_api.cpp, at the arguments that the handler gives it.
pub data Issued (userid : ℕ) : Statement → Type 0 where
  drops_unpaid :
      Issued userid
        (delete_from reservations ((Column.user_id, userid) ∷ (Column.paid_flag, 0) ∷ []))
  pays :
      (room seat : ℕ)
      → Issued userid (
          update_paid
            ((Column.user_id, userid) ∷ (Column.room_id, room) ∷ (Column.seat_id, seat) ∷ []))
  logs_out : Issued userid (delete_from active_clients ((Column.user_id, userid) ∷ []))
  logs_in : (w : ℕ) → Issued userid (insert_into active_clients ((Column.user_id, w) ∷ []))
  registers : Issued userid (insert_null users)
  enters :
      (room : ℕ)
      → Issued userid
          (insert_into clients_rooms ((Column.user_id, userid) ∷ (Column.room_id, room) ∷ []))
  leaves : Issued userid (delete_from clients_rooms ((Column.user_id, userid) ∷ []))
  reserves :
      (room seat : ℕ)
      → Issued userid (
          insert_into reservations
            ((Column.user_id, userid) ∷ (Column.room_id, room) ∷ (Column.seat_id, seat) ∷ []))

-- What holds of the value, if there is one.
abbrev pub OnSome {ℓ κ} : {A : Type ℓ} → (A → Type κ) → Option A → Type κ
OnSome P none = Unit
OnSome P (some a) = P a

pub OnSome-some {ℓ κ} :
    {A : Type ℓ} (P : A → Type κ) (o : Option A) {a : A} → OnSome P o → o ≡ some a → P a
OnSome-some P o h e = subst (OnSome P) e h

OnSome-bind {ℓ κ λ'} :
    {A : Type ℓ} {B : Type κ} (P : B → Type λ') (o : Option A) (f : A → Option B)
    → ((a : A) → OnSome P (f a))
    → OnSome P (o >>= f)
OnSome-bind P none f h = tt
OnSome-bind P (some a) f h = h a

if_cases {ℓ κ} :
    {A : Type ℓ} (P : A → Type κ) (b : Bool) {x y : A} → P x → P y → P (if b then x else y)
if_cases P true px py = px
if_cases P false px py = py

module _ (e : Engine) (P : e.Db → Type 0) (userid : ℕ)
    (keeps : (s : Statement) → Issued userid s → (db : e.Db) → P db → P (e.exec s db).1) where
  pay_loop_keeps :
      (db : e.Db) (n : ℕ) (list : List Reservation) → P db → OnSome P (pay_loop e db userid n list)
  unfolding pay_loop db_update_paid_reservation
  pay_loop_keeps db zero list p = p
  pay_loop_keeps db (suc n) [] p = tt
  pay_loop_keeps db (suc n) (r ∷ list) p =
      let paid = keeps _ (pays r.room r.seat_num) db p in
      if_cases (OnSome P) (db_update_paid_reservation e db userid r).0
        (pay_loop_keeps (db_update_paid_reservation e db userid r).1 n list paid) paid

  insert_reservation_keeps :
      (db : e.Db) (room seat : ℕ) → P db → P (db_insert_reservation e db userid room seat).1
  unfolding db_insert_reservation
  insert_reservation_keeps db room seat p =
      if_cases (λ (r : Bool × e.Db). P r.1) (is_positive seat)
        (if_cases (λ (r : Bool × e.Db). P r.1) (e.prepare (reservation_insert userid room seat) db)
          (keeps _ (reserves room seat) db p) p)
        p

  leave_keeps : (db : e.Db) → P db → P (db_remove_user_in_room e db userid).1
  unfolding db_remove_user_in_room
  leave_keeps db p = keeps _ leaves db p

  seats_of_room_keeps :
      (db : e.Db) (request response : Message) (room : ℕ) (seats : List ℕ)
      → request.client_id ≡ userid
      → P db
      → OnSome (λ r. P r.0) (seats_of_room e db request response room seats)
  unfolding db_insert_user_in_room
  seats_of_room_keeps db request response room [] u p = p
  seats_of_room_keeps db request response room (seat ∷ seats) u p =
      OnSome-bind (λ (r : e.Db × Message). P r.0)
        (seat_status (seat ∷ seats) (db_select_reservations e db room)) _
        λ status.
          OnSome-bind (λ (r : e.Db × Message). P r.0)
            (seats_message response success_code (seat ∷ seats) status) _
            λ full. rw u (keeps _ (enters room) db p)

  reserved_keeps :
      (activity : Channel) (db : e.Db) (request response : Message) (room : ℕ)
      → request.client_id ≡ userid
      → P db
      → OnSome (λ r. P r.0) (reserved e activity db request response room)
  reserved_keeps activity db request response room u p =
      OnSome-bind (λ (r : e.Db × Message × List Sent). P r.0) (notify e activity _ room _) _
        λ updates. rw u (leave_keeps _ (leave_keeps db p))

  selection_keeps :
      (activity : Channel) (db : e.Db) (request response : Message)
      → request.client_id ≡ userid
      → P db
      → OnSome (λ r. P r.0) (handle_selection e activity db request response)
  unfolding handle_selection
  selection_keeps activity db request response u p =
      OnSome-bind (λ (r : e.Db × Message × List Sent). P r.0)
        (db_select_user_current_room e db request.client_id) _
        λ room.
          let seat = first_word request.message_choice in
          let inserted : P (db_insert_reservation e db request.client_id room seat).1 =
            rw u (insert_reservation_keeps db room seat p) in
          if_cases (OnSome (λ r. P r.0)) (room == 0) p (
            if_cases (OnSome (λ r. P r.0))
              (db_insert_reservation e db request.client_id room seat).0
              (reserved_keeps activity _ request response room u inserted) inserted)

  respond_keeps :
      (channel : Channel) (o : Option (e.Db × Message))
      → OnSome (λ r. P r.0) o
      → OnSome (λ r. P r.0) (respond e channel o)
  respond_keeps channel none p = tt
  respond_keeps channel (some r) p = p

  respond_after_keeps :
      (channel : Channel) (o : Option (e.Db × Message × List Sent))
      → OnSome (λ r. P r.0) o
      → OnSome (λ r. P r.0) (respond_after e channel o)
  respond_after_keeps channel none p = tt
  respond_after_keeps channel (some r) p = p

  paid_keeps :
      (o : Option e.Db) (response : e.Db → Message)
      → OnSome P o
      → OnSome {A = e.Db × Message} (λ r. P r.0) (o >>= λ paid. some (paid, response paid))
  paid_keeps none response h = tt
  paid_keeps (some db) response h = h

  payment_keeps :
      (db : e.Db) (request response : Message)
      → request.client_id ≡ userid
      → P db
      → OnSome (λ r. P r.0) (handle_payment e db request response)
  unfolding handle_payment
  payment_keeps db request response u p =
      OnSome-bind (λ (r : e.Db × Message). P r.0) (as_m7 request.message_choice) _
        λ (count, list). rw u (
          paid_keeps (pay_loop e db userid (rounds count) list) _
            (pay_loop_keeps db (rounds count) list p))

  rooms_keeps :
      (db : e.Db) (response : Message) → P db → OnSome (λ r. P r.0) (handle_rooms e db response)
  unfolding handle_rooms
  rooms_keeps db response p =
      OnSome-bind (λ (r : e.Db × Message). P r.0) (copy_into (db_select_room e db) _) _ (λ cells. p)

  abbrev KeptIn : Option (e.Db × List Sent) → Type 0
  KeptIn = OnSome (λ r. P r.0)

  -- A property of the database that each of these statements keeps holds after the handler of any
  -- request of the user, where the handler's behaviour is defined.
  pub admin_handle_request_keeps :
      (activity channel : Channel) (db : e.Db) (request : Message)
      → request.client_id ≡ userid
      → P db
      → OnSome (λ r. P r.0) (admin_handle_request e activity db channel request)
  unfolding admin_handle_request handle_exit handle_connection handle_seats db_logout_user
      db_remove_user_unpaid_reservations db_insert_user db_login_user
  admin_handle_request_keeps activity channel db request u p =
      let response = record zero_message { client_id = request.client_id } in
      let reply_to = record channel { id = request.client_id } in
      let number = request.message_choice_number in
      if_cases KeptIn (number == choice_pay_reservation_request)
        (respond_keeps reply_to _ (payment_keeps db request response u p))
        (if_cases KeptIn (number == choice_exit)
          (rw u (keeps _ drops_unpaid _ (keeps _ logs_out db p)))
          (if_cases KeptIn (number == choice_connection_accepted)
            (keeps _ (logs_in _) _ (keeps _ registers db p))
            (if_cases KeptIn (number == choice_rooms_request)
              (respond_keeps reply_to _ (rooms_keeps db response p))
              (if_cases KeptIn (number == choice_seats_request)
                (respond_keeps reply_to _ (
                  seats_of_room_keeps db request response (first_word request.message_choice) _ u
                    p))
                (if_cases KeptIn (number == choice_seat_select_request)
                  (respond_after_keeps reply_to _
                    (selection_keeps activity db request response u p))
                  p)))))
