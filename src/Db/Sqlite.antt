-- ===== src/Db/Sqlite.antt =====
-- SQLite as db_api.cpp uses it, and what the program relies on of it.
use sist_distrib2c.Base.{ℕ, ◌≡◌, Bool, true, false, List, map, keep, any, count}
use sist_distrib2c.Db.Tables.{
  Table, Column, Row, Statement, insert_into, insert_null, cell, row_of, default_row, matches,
  same_key, apply,
}

pub record Engine : Type 1 where
  pub Db : Type 0
  -- The rows of a table, in the order in which they were inserted.
  pub rows : Db → Table → List Row
  -- `sqlite3_prepare` of a statement gives SQLITE_OK.
  pub prepare : Statement → Db → Bool
  -- `sqlite3_exec`, or step and finalize: whether the result is SQLITE_OK, and the database after.
  pub exec : Statement → Db → Bool × Db
  -- The values of the column that `SELECT column FROM table WHERE ...` hands to the callback.
  pub select : Column → Table → List (Column × ℕ) → Db → List ℕ
  pub last_insert_rowid : Db → ℕ
  -- No SELECT on this database fails.
  pub readable : Db → Bool

-- The documented behaviour of SQLite: a statement takes effect whole or not at all, an insertion
-- never repeats a primary key, and a SELECT yields the rows that meet its condition in an order that
-- is not specified. Foreign keys are not enforced, since `PRAGMA foreign_key` names no pragma
-- (that is `foreign_keys`), and SQLite ignores a pragma that it does not know.
pub record EngineLaws (e : Engine) : Type 0 where
  pub failed :
      (s : Statement) (db : e.Db) (t : Table)
      → (e.exec s db).0 ≡ false
      → e.rows (e.exec s db).1 t ≡ e.rows db t
  pub done :
      (s : Statement) (db : e.Db) (t : Table)
      → (e.exec s db).0 ≡ true
      → e.rows (e.exec s db).1 t ≡ apply s (e.last_insert_rowid (e.exec s db).1) (e.rows db) t
  pub fresh :
      (t : Table) (values : List (Column × ℕ)) (db : e.Db)
      → (e.exec (insert_into t values) db).0 ≡ true
      → any (λ r. same_key t r (row_of values)) (e.rows db t) ≡ false
  pub fresh_id :
      (t : Table) (db : e.Db)
      → (e.exec (insert_null t) db).0 ≡ true
      → any
          (λ r.
            same_key t r
              (record default_row { id = e.last_insert_rowid (e.exec (insert_null t) db).1 }))
          (e.rows db t)
        ≡ false
  pub selected :
      (c : Column) (t : Table) (conditions : List (Column × ℕ)) (db : e.Db) (v : ℕ)
      → e.readable db ≡ true
      → count v (e.select c t conditions db)
        ≡ count v (map (cell c) (keep (matches conditions) (e.rows db t)))
