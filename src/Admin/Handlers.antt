-- ===== src/Admin/Handlers.antt =====
-- `admin_listen_requests` of src/admin/admin.cpp: each request is handled by a forked process, and the
-- processes act on one database at the same time. A step is one call of one of them, or a fork.
pub mod Issuing
pub mod Executing
pub mod Interleaving
pub mod Turns
use sist_distrib2c.Base.{ℕ, ◌%◌, ◌^◌, ◌≡◌, List, [], ◌∷◌, ◌++◌, Option, none, some}
use sist_distrib2c.Message.{Message}
use sist_distrib2c.Channel.{Channel, Sent}
use sist_distrib2c.Db.{Engine, Table, insert_null}
use sist_distrib2c.Admin.Program.{
  Program, finished, undefined, executes, inserts_user, prepares, selects, sends, handler_program,
}

-- A forked process: the client whose request it handles, and what it has still to do.
pub record Handler : Type 0 where
  pub client : ℕ
  pub rest : Program

pub record Daemon (e : Engine) : Type 0 where
  pub db : e.Db
  pub handlers : List Handler
  pub sent : List Sent

-- The next call of a process. One that has finished makes none, and one whose behaviour is undefined
-- has none that the model gives.
unfoldable pub act : (e : Engine) → Program → e.Db → Option (Program × e.Db × List Sent)
act e finished db = none
act e undefined db = none
act e (executes s k) db = some (k (e.exec s db).0, (e.exec s db).1, [])
act e (inserts_user k) db =
    let after = (e.exec (insert_null Table.users) db).1 in
    some (k (e.last_insert_rowid after % 2 ^ 32), after, [])
act e (prepares s k) db = some (k (e.prepare s db), db, [])
act e (selects c t conditions k) db = some (k (e.select c t conditions db), db, [])
act e (sends s k) db = some (k, db, s ∷ [])

abbrev pub forked : Channel → Channel → Message → Handler
forked activity channel request = record {
  client = request.client_id;
  rest = handler_program activity channel request;
}

-- A step on behalf of a client.
pub data Step (e : Engine) (activity channel : Channel) (d : Daemon e) : ℕ → Daemon e → Type 0 where
  forks :
      (request : Message)
      → Step e activity channel d request.client_id
          (record d { handlers = d.handlers ++ (forked activity channel request ∷ []) })
  acts :
      (before after : List Handler) (h : Handler) {p : Program} {db : e.Db} {out : List Sent}
      → d.handlers ≡ before ++ (h ∷ after)
      → act e h.rest d.db ≡ some (p, db, out)
      → Step e activity channel d h.client (record {
        db = db;
        handlers = before ++ (record h { rest = p } ∷ after);
        sent = d.sent ++ out;
      })

abbrev pub started : (e : Engine) → e.Db → Daemon e
started e db = record { db = db; handlers = []; sent = [] }

-- The states that the administrator reaches from a database when these clients send requests, in
-- whatever order the requests come and the processes are scheduled.
pub data Reach (e : Engine) (activity channel : Channel) (Client : ℕ → Type 0) (db : e.Db)
    : Daemon e → Type 0 where
  start : Reach e activity channel Client db (started e db)
  later :
      {d d' : Daemon e} {u : ℕ}
      → Reach e activity channel Client db d
      → Client u
      → Step e activity channel d u d'
      → Reach e activity channel Client db d'
