-- ===== src/Examples/Handlers.antt =====
-- Handlers that run at the same time, over the database of Examples.Admin: client 7 and client 8
-- select seat 3 with their calls in turn, and client 7 selects seat 3 while it leaves.
use sist_distrib2c.Base.{ℕ, ◌≤◌, ◌≡◌, refl, true, [], ◌∷◌, some, length, arith}
use sist_distrib2c.Message.{Message, m5, zero_message, choice_seat_select_request}
use sist_distrib2c.Db.{reservations}
use sist_distrib2c.Db.Memory.{memory, memory_laws}
use sist_distrib2c.Db.Keys.{Keyed, bookings}
use sist_distrib2c.Admin.Program.{handler_program}
use sist_distrib2c.Admin.Ownership.{of_user, holds_paid}
use sist_distrib2c.Admin.Handlers.Interleaving.{Reach-bookings, Reach-holds_paid, Reach-of_user}
use sist_distrib2c.Admin.Handlers.Turns.{holder, Turn, step-Turn}
use sist_distrib2c.Admin.Handlers.{Daemon, forks, acts, act, Reach, start, later}
use sist_distrib2c.Examples.Admin.{
  cinema_db, admin_channel, activity_channel, tables_Keyed, leaving,
}

abbrev selects_seat_3 : ℕ → Message
selects_seat_3 client = record zero_message {
  client_id = client;
  message_choice_number = choice_seat_select_request;
  message_choice = m5 3;
}

abbrev Anyone : ℕ → Type 0
Anyone u = Unit

abbrev Run : (ℕ → Type 0) → Type 0
Run Client = (d : Daemon memory) × Reach memory activity_channel admin_channel Client cinema_db d

both_waiting : Run Anyone
both_waiting = (_, later (later start tt (forks (selects_seat_3 7))) tt (forks (selects_seat_3 8)))

-- Each has read its room and prepared its insertion.
both_prepared : Run Anyone
unfolding both_waiting act handler_program
both_prepared =
    let rooms =
      later (later both_waiting.1 tt (acts [] _ _ refl refl)) tt (acts (_ ∷ []) [] _ refl refl) in
    (_, later (later rooms tt (acts [] _ _ refl refl)) tt (acts (_ ∷ []) [] _ refl refl))

-- The insertion of client 7 succeeds, that of client 8 does not.
both_inserted : Run Anyone
unfolding both_prepared act handler_program
both_inserted =
    (_, later (later both_prepared.1 tt (acts [] _ _ refl refl)) tt (acts (_ ∷ []) [] _ refl refl))

both_inserted_rows : length (memory.rows both_inserted.0.db reservations) ≡ 3
unfolding both_inserted
both_inserted_rows = refl

Reach-bookings_example :
    Keyed (memory.rows both_inserted.0.db)
    × (length (bookings 1 3 (memory.rows both_inserted.0.db reservations)) ≤ 1)
Reach-bookings_example =
    Reach-bookings memory memory_laws activity_channel admin_channel Anyone cinema_db
      both_inserted.0 both_inserted.1 1 3 tables_Keyed

Reach-holds_paid_example : holds_paid 8 1 1 (memory.rows both_inserted.0.db reservations) ≡ true
Reach-holds_paid_example =
    Reach-holds_paid memory memory_laws activity_channel admin_channel Anyone cinema_db
      both_inserted.0 both_inserted.1 8 1 1 refl

-- Client 7 selects and leaves; it is logged out after the selection has read its room.
abbrev Seven : ℕ → Type 0
Seven u = u ≡ 7

hasty : Run Seven
unfolding act handler_program
hasty =
    let forked = later (later start refl (forks (selects_seat_3 7))) refl (forks leaving) in
    (_, later (later forked refl (acts [] _ _ refl refl)) refl (acts (_ ∷ []) [] _ refl refl))

Reach-of_user_example :
    of_user 8 (memory.rows hasty.0.db reservations) ≡ of_user 8 (memory.rows cinema_db reservations)
Reach-of_user_example =
    Reach-of_user memory memory_laws activity_channel admin_channel Seven cinema_db hasty.0 hasty.1
      8 (λ u same. omega (arith, same))

step-Turn_example : Turn 7 (holder 1 3 (memory.rows both_prepared.0.db reservations)) (some (7, 0))
unfolding both_prepared act handler_program
step-Turn_example =
    step-Turn memory memory_laws activity_channel admin_channel tables_Keyed both_prepared.1
      (acts [] _ _ refl refl) 1 3
