-- ===== src/Examples/Setup.antt =====
-- The first rooms and seats, in the engine in memory.
use sist_distrib2c.Base.{◌≡◌, refl}
use sist_distrib2c.Db.{Table}
use sist_distrib2c.Db.Memory.{memory, memory_laws, empty_store}
use sist_distrib2c.Setup.{IsWritable, database_data_init, seat_ids, numbers, database_data_init_lem}

memory-IsWritable : IsWritable memory
memory-IsWritable = record { prepared = λ s db. refl; inserted = λ values db free. rw free refl }

database_data_init_lem_example :
    (seat_ids 1 (memory.rows (database_data_init memory empty_store) Table.seats) ≡ numbers 0 20)
    × (seat_ids 2 (memory.rows (database_data_init memory empty_store) Table.seats) ≡ numbers 0 10)
    × (seat_ids 3 (memory.rows (database_data_init memory empty_store) Table.seats) ≡ numbers 0 15)
database_data_init_lem_example =
    database_data_init_lem memory memory_laws memory-IsWritable empty_store refl
