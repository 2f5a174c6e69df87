-- ===== src/Db/Tables.antt =====
-- The schema of `db_initialize` and the SQL that db_api.cpp writes, as statements. A row has every
-- column; those that its table lacks are 0. The date column is left out: nothing reads it.
use sist_distrib2c.Base.{
  ℕ, Bool, true, not, ◌&&◌, List, [], ◌∷◌, ◌++◌, map, ◌==◌, if◌then◌else◌, keep,
}

pub data Table : Type 0 where
  users rooms seats reservations clients_rooms active_clients : Table

pub data Column : Type 0 where
  id user_id room_id seat_id paid_flag : Column

pub record Row : Type 0 where
  pub id : ℕ
  pub user_id : ℕ
  pub room_id : ℕ
  pub seat_id : ℕ
  pub paid_flag : ℕ

abbrev pub cell : Column → Row → ℕ
cell Column.id r = r.id
cell Column.user_id r = r.user_id
cell Column.room_id r = r.room_id
cell Column.seat_id r = r.seat_id
cell Column.paid_flag r = r.paid_flag

abbrev pub write : Column → ℕ → Row → Row
write Column.id v r = record r { id = v }
write Column.user_id v r = record r { user_id = v }
write Column.room_id v r = record r { room_id = v }
write Column.seat_id v r = record r { seat_id = v }
write Column.paid_flag v r = record r { paid_flag = v }

-- The defaults: `paid_flag integer NOT NULL DEFAULT(0)`.
abbrev pub default_row : Row
default_row = record { id = 0; user_id = 0; room_id = 0; seat_id = 0; paid_flag = 0 }

abbrev pub row_of : List (Column × ℕ) → Row
row_of [] = default_row
row_of ((c, v) ∷ values) = write c v (row_of values)

-- `WHERE c1=v1 AND c2=v2 ...`.
abbrev pub matches : List (Column × ℕ) → Row → Bool
matches [] r = true
matches ((c, v) ∷ conditions) r = cell c r == v && matches conditions r

-- `PRIMARY KEY (...)`.
abbrev pub key_columns : Table → List Column
key_columns users = Column.id ∷ []
key_columns rooms = Column.id ∷ []
key_columns seats = Column.room_id ∷ Column.seat_id ∷ []
key_columns reservations = Column.room_id ∷ Column.seat_id ∷ []
key_columns clients_rooms = Column.user_id ∷ Column.room_id ∷ []
key_columns active_clients = Column.user_id ∷ []

abbrev pub agree_on : List Column → Row → Row → Bool
agree_on [] r s = true
agree_on (c ∷ columns) r s = cell c r == cell c s && agree_on columns r s

abbrev pub same_key : Table → Row → Row → Bool
same_key t = agree_on (key_columns t)

-- The statements that change a table.
pub data Statement : Type 0 where
  -- `DELETE FROM t WHERE ...`
  delete_from : Table → List (Column × ℕ) → Statement
  -- `UPDATE Reservations SET paid_flag = 1 WHERE ...`
  update_paid : List (Column × ℕ) → Statement
  -- `INSERT INTO t(...) VALUES(...)`
  insert_into : Table → List (Column × ℕ) → Statement
  -- `INSERT INTO t VALUES(null)`, for a table with an AUTOINCREMENT id
  insert_null : Table → Statement

abbrev pub table_number : Table → ℕ
table_number users = 0
table_number rooms = 1
table_number seats = 2
table_number reservations = 3
table_number clients_rooms = 4
table_number active_clients = 5

abbrev pub is_table : Table → Table → Bool
is_table t u = table_number t == table_number u

abbrev pub mark_paid : List (Column × ℕ) → Row → Row
mark_paid conditions r = if matches conditions r then record r { paid_flag = 1 } else r

-- What SQL says that a statement does to the rows of each table, in order of insertion, if it
-- succeeds; `rowid` is the id that an AUTOINCREMENT column gets.
abbrev pub apply : Statement → ℕ → (Table → List Row) → Table → List Row
apply (delete_from t conditions) rowid tables u =
    if is_table t u then keep (λ r. not (matches conditions r)) (tables u) else tables u
apply (update_paid conditions) rowid tables u =
    if is_table reservations u then map (mark_paid conditions) (tables u) else tables u
apply (insert_into t values) rowid tables u =
    if is_table t u then tables u ++ (row_of values ∷ []) else tables u
apply (insert_null t) rowid tables u =
    if is_table t u then tables u ++ (record default_row { id = rowid } ∷ []) else tables u
