-- ===== src/Db/Memory.antt =====
-- A concrete engine that keeps the rows in memory: the assumptions on SQLite can be met, and the
-- model can be run.
use sist_distrib2c.Base.{
  ℕ, suc, ◌≡◌, refl, ap, ◌∙◌, Bool, true, false, List, [], ◌∷◌, map, if◌then◌else◌, keep, any, ltb,
}
use sist_distrib2c.Db.Tables.{
  Table, Row, Statement, delete_from, update_paid, insert_into, insert_null, cell, row_of,
  default_row, matches, same_key, apply,
}
use sist_distrib2c.Db.Sqlite.{Engine, EngineLaws}

pub record Store : Type 0 where
  pub tables : Table → List Row
  pub last_rowid : ℕ

abbrev pub greatest_id : List Row → ℕ
greatest_id [] = 0
greatest_id (r ∷ rows) = if ltb r.id (greatest_id rows) then greatest_id rows else r.id

abbrev stored : Statement → ℕ → Store → Bool × Store
stored s rowid st = (true, record { tables = apply s rowid st.tables; last_rowid = rowid })

abbrev unless : Bool → Statement → ℕ → Store → Bool × Store
unless true s rowid st = (false, st)
unless false s rowid st = stored s rowid st

abbrev next_rowid : Table → Store → ℕ
next_rowid t st = suc (greatest_id (st.tables t))

abbrev taken : Table → Row → Store → Bool
taken t row st = any (λ r. same_key t r row) (st.tables t)

abbrev null_row : ℕ → Row
null_row rowid = record default_row { id = rowid }

abbrev exec_store : Statement → Store → Bool × Store
exec_store (delete_from t conditions) st = stored (delete_from t conditions) st.last_rowid st
exec_store (update_paid conditions) st = stored (update_paid conditions) st.last_rowid st
exec_store (insert_into t values) st =
    unless (taken t (row_of values) st) (insert_into t values) st.last_rowid st
exec_store (insert_null t) st =
    unless (taken t (null_row (next_rowid t st)) st) (insert_null t) (next_rowid t st) st

abbrev pub memory : Engine
memory = record {
  Db = Store;
  rows = λ st. st.tables;
  prepare = λ s st. true;
  exec = exec_store;
  select = λ c t conditions st. map (cell c) (keep (matches conditions) (st.tables t));
  last_insert_rowid = λ st. st.last_rowid;
  readable = λ st. true;
}

abbrev pub empty_store : Store
empty_store = record { tables = λ t. []; last_rowid = 0 }

module _ (s : Statement) (rowid : ℕ) (st : Store) where
  unless_failed :
      (clash : Bool) (t : Table)
      → (unless clash s rowid st).0 ≡ false
      → (unless clash s rowid st).1.tables t ≡ st.tables t
  unless_failed true t h = refl
  unless_failed false t h = cc

  unless_done :
      (clash : Bool) (t : Table)
      → (unless clash s rowid st).0 ≡ true
      → (unless clash s rowid st).1.tables t
        ≡ apply s (unless clash s rowid st).1.last_rowid st.tables t
  unless_done true t h = cc
  unless_done false t h = refl

  unless_clash :
      (clash : Bool)
      → (unless clash s rowid st).0 ≡ true
      → (clash ≡ false) × ((unless clash s rowid st).1.last_rowid ≡ rowid)
  unless_clash true h = cc
  unless_clash false h = (refl, refl)

memory_failed :
    (s : Statement) (st : Store) (t : Table)
    → (exec_store s st).0 ≡ false
    → (exec_store s st).1.tables t ≡ st.tables t
memory_failed (delete_from u conditions) st t h = cc
memory_failed (update_paid conditions) st t h = cc
memory_failed (insert_into u values) st t h = unless_failed _ _ _ _ t h
memory_failed (insert_null u) st t h = unless_failed _ _ _ _ t h

memory_done :
    (s : Statement) (st : Store) (t : Table)
    → (exec_store s st).0 ≡ true
    → (exec_store s st).1.tables t ≡ apply s (exec_store s st).1.last_rowid st.tables t
memory_done (delete_from u conditions) st t h = refl
memory_done (update_paid conditions) st t h = refl
memory_done (insert_into u values) st t h = unless_done _ _ _ _ t h
memory_done (insert_null u) st t h = unless_done _ _ _ _ t h

memory_fresh_id :
    (t : Table) (st : Store)
    → (exec_store (insert_null t) st).0 ≡ true
    → taken t (null_row (exec_store (insert_null t) st).1.last_rowid) st ≡ false
memory_fresh_id t st h =
    let (free, same) =
      unless_clash (insert_null t) (next_rowid t st) st (taken t (null_row (next_rowid t st)) st)
        h in
    ap (λ n. taken t (null_row n) st) same ∙ free

pub memory_laws : EngineLaws memory
memory_laws = record {
  failed = memory_failed;
  done = memory_done;
  fresh = λ t values st h. (unless_clash (insert_into t values) st.last_rowid st _ h).0;
  fresh_id = memory_fresh_id;
  selected = λ c t conditions st v h. refl;
}
