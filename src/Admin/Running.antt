-- ===== src/Admin/Running.antt =====
-- What the program of a handler gives when it runs alone: comparing its parts with the handler.
pub mod Answers
pub mod Selection
pub mod Whole
use sist_distrib2c.Base.{
  ℕ, zero, suc, ◌≡◌, refl, ◌∙◌, Bool, true, false, List, [], ◌∷◌, ◌++◌, Option, none, some, ◌>>=◌,
  if◌then◌else◌, ◌==◌, replicate,
}
use sist_distrib2c.Base.Words.{is_positive, rounds}
use sist_distrib2c.Arrays.{copy_into}
use sist_distrib2c.Message.{
  Message, Reservation, first_word, choice_pay_reservation_request, choice_exit,
  choice_connection_accepted, choice_rooms_request, choice_seats_request,
  choice_seat_select_request, as_m7, zero_message, success_code, max_rooms,
}
use sist_distrib2c.Channel.{Channel, Sent, send_message}
use sist_distrib2c.Db.{
  Engine, Statement, reservation_insert, prepare_and_step, db_update_paid_reservation,
  db_logout_user, db_remove_user_unpaid_reservations, db_insert_user, db_login_user, db_select_room,
  db_select_room_seats, db_select_reservations, db_insert_user_in_room, db_select_user_current_room,
  db_insert_reservation, db_remove_user_in_room, db_select_users_in_room,
}
use sist_distrib2c.Admin.{
  pay_loop, handle_payment, handle_exit, handle_connection, handle_rooms, seats_of_room,
  handle_seats, notify, reserved, select_in_room, handle_selection, respond, respond_after,
  admin_handle_request, update_users, seat_reserved, seat_refused, seats_message, seat_status,
}
use sist_distrib2c.Admin.Program.{
  Program, finished, attempt, pay_program, payment_program, exit_program, connection_program,
  rooms_program, seats_of_room_program, seats_program, update_program, notify_program,
  insert_program, reserved_program, leave_program, executes, prepares, sends, selected_program,
  selection_program, handler_program, run,
}

module _ (e : Engine) where
  abbrev pub Outcome : Type 0
  Outcome = Option (e.Db × List Sent)

  -- A program that goes on with an answer, over what a part of the handler returns.
  abbrev pub onward : (Message → Program) → e.Db × Message → Outcome
  onward k r = run e (k r.1) r.0

  -- What runs after an attempt is compared value by value.
  pub run-attempt {ℓ κ} :
      {A : Type ℓ} {B : Type κ} (o : Option A) (k : A → Program) (f : A → Option B)
      (g : B → Outcome) (db : e.Db)
      → ((a : A) → run e (k a) db ≡ (f a >>= g))
      → run e (attempt o k) db ≡ ((o >>= f) >>= g)
  unfolding run
  run-attempt none k f g db h = refl
  run-attempt (some a) k f g db h = h a

  pub run-if {ℓ} :
      {A : Type ℓ} (b : Bool) (p q : Program) (x y : Option A) (g : A → Outcome) (db : e.Db)
      → run e p db ≡ (x >>= g)
      → run e q db ≡ (y >>= g)
      → run e (if b then p else q) db ≡ ((if b then x else y) >>= g)
  run-if true p q x y g db h k = h
  run-if false p q x y g db h k = k

  pub some->>= {ℓ κ} :
      {A : Type ℓ} {B : Type κ} (o : Option A) (f : A → B) (g : B → Outcome)
      → (o >>= λ a. g (f a)) ≡ ((o >>= λ a. some (f a)) >>= g)
  some->>= none f g = refl
  some->>= (some a) f g = refl

  -- What is sent before the rest of the program stands in front.
  abbrev pub after_sending : List Sent → Outcome → Outcome
  after_sending updates none = none
  after_sending updates (some (db, out)) = some (db, updates ++ out)

  pub after_sending_none : (o : Outcome) → o ≡ after_sending [] o
  after_sending_none none = refl
  after_sending_none (some r) = refl

  pub after_sending_first :
      (o : Option (List Sent)) (s : Sent) (q : Outcome)
      → ((o >>= λ updates. after_sending updates q) >>= λ x. some (x.0, s ∷ x.1))
        ≡ ((o >>= λ rest. some (s ∷ rest)) >>= λ updates. after_sending updates q)
  after_sending_first none s q = refl
  after_sending_first (some updates) s none = refl
  after_sending_first (some updates) s (some r) = refl

  abbrev pub after_updates : (Message → Program) → e.Db × Message × List Sent → Outcome
  after_updates k r = after_sending r.2 (run e (k r.1) r.0)

  pub run-branch :
      (b : Bool) (p q : Program) (x y : Outcome) (db : e.Db)
      → run e p db ≡ x
      → run e q db ≡ y
      → run e (if b then p else q) db ≡ (if b then x else y)
  run-branch true p q x y db h k = h
  run-branch false p q x y db h k = k
