-- ===== src/Examples/Admin.antt =====
-- The administrator over the engine in memory: client 7 and client 8 in room 1, which has three
-- seats; client 8 holds seat 1, paid, and client 7 holds seat 2, unpaid.
use sist_distrib2c.Base.{
  ℕ, suc, ◌<◌, ◌≡◌, refl, List, [], ◌∷◌, some, length, get_elem?, if◌then◌else◌, arith,
}
use sist_distrib2c.Message.{
  Message, zero_message, choice_exit, seat_status_occuped, seat_status_free,
}
use sist_distrib2c.Channel.{Channel}
use sist_distrib2c.Db.{
  Table, Row, default_row, users, rooms, seats, reservations, clients_rooms, active_clients,
}
use sist_distrib2c.Db.Memory.{Store, memory}
use sist_distrib2c.Db.Keys.{Keyed}
use sist_distrib2c.Admin.{admin_handle_request, handle_exit, seat_status}
use sist_distrib2c.Admin.SeatMap.{is_taken, seat_status_lem}

abbrev pub room_row : ℕ → Row
room_row n = record default_row { id = n }

abbrev pub tables : Table → List Row
tables users = room_row 7 ∷ room_row 8 ∷ []
tables rooms = room_row 1 ∷ []
tables seats =
    record default_row { room_id = 1; seat_id = 1 }
    ∷ record default_row { room_id = 1; seat_id = 2 }
    ∷ record default_row { room_id = 1; seat_id = 3 }
    ∷ []
tables reservations =
    record default_row { user_id = 8; room_id = 1; seat_id = 1; paid_flag = 1 }
    ∷ record default_row { user_id = 7; room_id = 1; seat_id = 2 }
    ∷ []
tables clients_rooms =
    record default_row { user_id = 7; room_id = 1 }
    ∷ record default_row { user_id = 8; room_id = 1 }
    ∷ []
tables active_clients = record default_row { user_id = 7 } ∷ record default_row { user_id = 8 } ∷ []

abbrev pub cinema_db : Store
cinema_db = record { tables = tables; last_rowid = 8 }

abbrev pub admin_channel : Channel
admin_channel = record { id_firstqueue = 20; id_secondqueue = 21; orientation = 0; id = 1 }

abbrev pub activity_channel : Channel
activity_channel = record { id_firstqueue = 30; id_secondqueue = 31; orientation = 0; id = 1 }

-- Client 7 leaves.
abbrev pub leaving : Message
leaving = record zero_message { client_id = 7; message_choice_number = choice_exit }

abbrev pub left_db : Store
left_db = handle_exit memory cinema_db leaving

pub left_handled :
    admin_handle_request memory activity_channel cinema_db admin_channel leaving
    ≡ some (left_db, [])
unfolding admin_handle_request
left_handled = refl

pub tables_Keyed : Keyed tables
tables_Keyed users = (refl, (refl, tt))
tables_Keyed rooms = (refl, tt)
tables_Keyed seats = (refl, (refl, (refl, tt)))
tables_Keyed reservations = (refl, (refl, tt))
tables_Keyed clients_rooms = (refl, (refl, tt))
tables_Keyed active_clients = (refl, (refl, tt))

seat_status_lem_example :
    (status : List ℕ) × (seat_status (1 ∷ 2 ∷ 3 ∷ []) (3 ∷ 1 ∷ []) ≡ some status)
    × (length status ≡ 3)
    × ((i : ℕ)
        → i < 3
        → get_elem? status i
          ≡ some (if is_taken (3 ∷ 1 ∷ []) (suc i) then seat_status_occuped else seat_status_free))
seat_status_lem_example =
    seat_status_lem (1 ∷ 2 ∷ 3 ∷ []) (3 ∷ 1 ∷ [])
      ((omega arith, omega arith), ((omega arith, omega arith), tt))
