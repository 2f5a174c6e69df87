-- ===== src/Admin/Handlers/Executing.antt =====
-- What a step of the administrator does to the database: nothing, or one statement of the client on
-- whose behalf it is.
use sist_distrib2c.Base.{ℕ, List, [], ◌∷◌, ◌++◌, All, subst}
use sist_distrib2c.Channel.{Channel}
use sist_distrib2c.Db.{Engine, Statement}
use sist_distrib2c.Admin.Statements.{Issued, registers, OnSome, OnSome-some}
use sist_distrib2c.Admin.Program.{
  Program, finished, undefined, executes, inserts_user, prepares, selects, sends,
}
use sist_distrib2c.Admin.Handlers.{Handler, Daemon, Step, forks, acts, act, Reach, start, later}
use sist_distrib2c.Admin.Handlers.Issuing.{Issues, handler_program-Issues}

pub data Executed (e : Engine) (u : ℕ) (db : e.Db) : e.Db → Type 0 where
  unchanged : Executed e u db db
  executed : {s : Statement} → Issued u s → Executed e u db (e.exec s db).1

abbrev pub IsHonest : Handler → Type 0
IsHonest h = Issues h.client h.rest

module _ {ℓ κ} {A : Type ℓ} (P : A → Type κ) where
  All-append : (xs ys : List A) → All P xs → All P ys → All P (xs ++ ys)
  All-append [] ys p q = q
  All-append (x ∷ xs) ys p q = (p.0, All-append xs ys p.1 q)

  -- One element is replaced.
  All-replace :
      (xs ys : List A) (x y : A)
      → All P (xs ++ (x ∷ ys))
      → (P x → P y)
      → P x × All P (xs ++ (y ∷ ys))
  All-replace [] ys x y p f = (p.0, (f p.0, p.1))
  All-replace (z ∷ xs) ys x y p f =
      let (px, rest) = All-replace xs ys x y p.1 f in (px, (p.0, rest))

module _ (e : Engine) where
  pub executed_keeps :
      {u : ℕ} {db db' : e.Db} (P : e.Db → Type 0)
      → ((s : Statement) → Issued u s → (d : e.Db) → P d → P (e.exec s d).1)
      → Executed e u db db'
      → P db
      → P db'
  executed_keeps P keeps unchanged p = p
  executed_keeps P keeps (executed {s} issued) p = keeps s issued _ p

  act-Executed :
      (u : ℕ) (p : Program) (db : e.Db)
      → Issues u p
      → OnSome (λ r. Issues u r.0 × Executed e u db r.1) (act e p db)
  unfolding act
  act-Executed u finished db h = tt
  act-Executed u undefined db h = tt
  act-Executed u (executes s k) db h = (h.1 _, executed h.0)
  act-Executed u (inserts_user k) db h = (h _, executed registers)
  act-Executed u (prepares s k) db h = (h _, unchanged)
  act-Executed u (selects c t conditions k) db h = (h _, unchanged)
  act-Executed u (sends s k) db h = (h, unchanged)

  module _ (activity channel : Channel) where
    pub step-Executed :
        {d d' : Daemon e} {u : ℕ}
        → All IsHonest d.handlers
        → Step e activity channel d u d'
        → All IsHonest d'.handlers × Executed e u d.db d'.db
    step-Executed {d} honest (forks request) = (
      All-append IsHonest d.handlers _ honest (handler_program-Issues activity channel request, tt),
      unchanged,
    )
    step-Executed {d} honest (acts before after h {p} same acted) =
        let present : All IsHonest (before ++ (h ∷ after)) = subst (All IsHonest) same honest in
        let issued : Issues h.client h.rest → Issues h.client p × Executed e h.client d.db _ =
          λ i. OnSome-some _ _ (act-Executed h.client h.rest d.db i) acted in
        let (mine, others) =
          All-replace IsHonest before after h (record h { rest = p }) present (λ i. (issued i).0) in
        (others, (issued mine).1)

    pub Reach-IsHonest :
        {Client : ℕ → Type 0} {db : e.Db} {d : Daemon e}
        → Reach e activity channel Client db d
        → All IsHonest d.handlers
    Reach-IsHonest start = tt
    Reach-IsHonest (later r c s) = (step-Executed (Reach-IsHonest r) s).0

    -- A property of the database that every statement of the clients keeps holds in every state that
    -- the administrator reaches.
    pub Reach-keeps :
        {Client : ℕ → Type 0} {db : e.Db} {d : Daemon e} (P : e.Db → Type 0)
        → ((u : ℕ)
            → Client u
            → (s : Statement) → Issued u s
            → (db : e.Db) → P db
            → P (e.exec s db).1)
        → P db
        → Reach e activity channel Client db d
        → P d.db
    Reach-keeps P keeps p start = p
    Reach-keeps P keeps p (later r c s) =
        executed_keeps P (keeps _ c) (step-Executed (Reach-IsHonest r) s).1
          (Reach-keeps P keeps p r)
