-- ===== src/Admin/Handlers/Turns.antt =====
-- A seat as the clients see it: free, held by a user who has not paid, or sold to a user. Every step
-- of the administrator is a move of this machine for each seat.
use sist_distrib2c.Base.{
  ℕ, ◌≡◌, refl, Bool, true, false, not, ◌&&◌, List, [], ◌∷◌, ◌++◌, map, Option, none, some, ◌==◌,
  if◌then◌else◌, keep, any, arith, Bool-cases, inl, inr,
}
use sist_distrib2c.Channel.{Channel}
use sist_distrib2c.Db.{
  Engine, EngineLaws, Table, Column, Row, Statement, reservations, matches, mark_paid, same_key,
  apply, row_of,
}
use sist_distrib2c.Db.Keys.{Keyed, Distinct, exec-Keyed}
use sist_distrib2c.Admin.Statements.{
  Issued, drops_unpaid, pays, logs_out, logs_in, registers, enters, leaves, reserves,
}
use sist_distrib2c.Admin.Handlers.{Daemon, Step, Reach}
use sist_distrib2c.Admin.Handlers.Executing.{
  Executed, unchanged, executed, step-Executed, Reach-IsHonest, Reach-keeps,
}

-- The user who holds the seat, and the paid flag.
abbrev pub holder : ℕ → ℕ → List Row → Option (ℕ × ℕ)
holder room seat [] = none
holder room seat (r ∷ rows) =
    if r.room_id == room && r.seat_id == seat
    then some (r.user_id, r.paid_flag)
    else holder room seat rows

-- What a user can do to a seat.
pub data Turn (u : ℕ) : Option (ℕ × ℕ) → Option (ℕ × ℕ) → Type 0 where
  stays : {h : Option (ℕ × ℕ)} → Turn u h h
  reserved : Turn u none (some (u, 0))
  paid : {flag : ℕ} → Turn u (some (u, flag)) (some (u, 1))
  dropped : Turn u (some (u, 0)) none

module _ (room seat u : ℕ) where
  abbrev is_here : Row → Bool
  is_here r = r.room_id == room && r.seat_id == seat

  if-Turn :
      (b : Bool) (h : Option (ℕ × ℕ)) {x y : Option (ℕ × ℕ)}
      → Turn u x y
      → Turn u (if b then h else x) (if b then h else y)
  if-Turn true h t = stays
  if-Turn false h t = t

  if_paid-Turn :
      (b : Bool) (v flag : ℕ) {x y : Option (ℕ × ℕ)}
      → v ≡ u
      → Turn u x y
      → Turn u (if b then some (v, flag) else x) (if b then some (v, 1) else y)
  if_paid-Turn true v flag same t = rw same paid
  if_paid-Turn false v flag same t = t

  if_reserved-Turn : (b : Bool) → Turn u none (if b then some (u, 0) else none)
  if_reserved-Turn true = reserved
  if_reserved-Turn false = stays

  if_dropped-Turn :
      (b : Bool) {v flag : ℕ} {x y : Option (ℕ × ℕ)}
      → (b ≡ true → y ≡ none)
      → v ≡ u
      → flag ≡ 0
      → Turn u x y
      → Turn u (if b then some (v, flag) else x) y
  if_dropped-Turn true gone same unpaid t = rw (same, unpaid, gone refl) dropped
  if_dropped-Turn false gone same unpaid t = t

  abbrev drop_own : List Row → List Row
  drop_own = keep λ r. not (matches ((Column.user_id, u) ∷ (Column.paid_flag, 0) ∷ []) r)

  -- A row with the key of the seat is in no other place.
  holder-none :
      (r : Row) (rows : List Row)
      → r.room_id ≡ room
      → r.seat_id ≡ seat
      → any (same_key reservations r) rows ≡ false
      → holder room seat (drop_own rows) ≡ none
  holder-none r [] p q h = refl
  holder-none r (s ∷ rows) p q h = ground (arith, holder-none r rows)

  drop-Turn :
      (rows : List Row)
      → Distinct (same_key reservations) rows
      → Turn u (holder room seat rows) (holder room seat (drop_own rows))
  drop-Turn [] d = stays
  drop-Turn (r ∷ rows) d =
      elim (Bool-cases (matches ((Column.user_id, u) ∷ (Column.paid_flag, 0) ∷ []) r)) [
        | inl own ↦ rw own (
            if_dropped-Turn (is_here r)
              (λ here. holder-none r rows (ground arith) (ground arith) d.0) (ground arith)
              (ground arith) (drop-Turn rows d.1))
        | inr other ↦ rw other (if-Turn (is_here r) _ (drop-Turn rows d.1))
      ]

  pay-Turn :
      (room' seat' : ℕ) (rows : List Row)
      → Turn u (holder room seat rows) (
          holder room seat (
            map
              (mark_paid
                ((Column.user_id, u) ∷ (Column.room_id, room') ∷ (Column.seat_id, seat') ∷ []))
              rows))
  pay-Turn room' seat' [] = stays
  pay-Turn room' seat' (r ∷ rows) =
      elim (Bool-cases (
        matches ((Column.user_id, u) ∷ (Column.room_id, room') ∷ (Column.seat_id, seat') ∷ []) r)) [
          | inl own ↦
              rw own (if_paid-Turn (is_here r) _ _ (ground arith) (pay-Turn room' seat' rows))
          | inr other ↦ rw other (if-Turn (is_here r) _ (pay-Turn room' seat' rows))
        ]

  append-Turn :
      (room' seat' : ℕ) (rows : List Row)
      → Turn u (holder room seat rows) (
          holder room seat (
            rows
            ++ (row_of
                  ((Column.user_id, u) ∷ (Column.room_id, room') ∷ (Column.seat_id, seat') ∷ [])
                ∷ [])))
  append-Turn room' seat' [] = if_reserved-Turn (room' == room && seat' == seat)
  append-Turn room' seat' (r ∷ rows) = if-Turn (is_here r) _ (append-Turn room' seat' rows)

  issued-Turn :
      (s : Statement) (rowid : ℕ) (tables : Table → List Row)
      → Issued u s
      → Distinct (same_key reservations) (tables reservations)
      → Turn u
          (holder room seat (tables reservations))
          (holder room seat (apply s rowid tables reservations))
  issued-Turn _ rowid tables drops_unpaid d = drop-Turn (tables reservations) d
  issued-Turn _ rowid tables (pays room' seat') d = pay-Turn room' seat' (tables reservations)
  issued-Turn _ rowid tables logs_out d = stays
  issued-Turn _ rowid tables (logs_in w) d = stays
  issued-Turn _ rowid tables registers d = stays
  issued-Turn _ rowid tables (enters room') d = stays
  issued-Turn _ rowid tables leaves d = stays
  issued-Turn _ rowid tables (reserves room' seat') d =
      append-Turn room' seat' (tables reservations)

module _ (e : Engine) (laws : EngineLaws e) (activity channel : Channel) where
  executed-Turn :
      (room seat : ℕ) {u : ℕ} {db db' : e.Db}
      → Keyed (e.rows db)
      → Executed e u db db'
      → Turn u
          (holder room seat (e.rows db reservations))
          (holder room seat (e.rows db' reservations))
  executed-Turn room seat keyed unchanged = stays
  executed-Turn room seat {u} {db} keyed (executed {s} issued) = elim (Bool-cases (e.exec s db).0) [
    | inl h ↦
        rw (laws.done s db reservations h)
          (issued-Turn room seat u s _ (e.rows db) issued (keyed reservations))
    | inr h ↦ rw (laws.failed s db reservations h) stays
  ]

  -- In every state that is reached from a database whose primary keys hold, a step on behalf of a user
  -- leaves each seat as it is, or reserves a free seat for that user, or marks the user's own
  -- reservation as paid, or gives up the user's own reservation that is not paid; nothing else
  -- happens to a seat, however the handlers are interleaved.
  pub step-Turn :
      {Client : ℕ → Type 0} {db : e.Db} {d d' : Daemon e} {u : ℕ}
      → Keyed (e.rows db)
      → Reach e activity channel Client db d
      → Step e activity channel d u d'
      → (room seat : ℕ)
      → Turn u
          (holder room seat (e.rows d.db reservations))
          (holder room seat (e.rows d'.db reservations))
  step-Turn keyed reach step room seat =
      executed-Turn room seat
        (Reach-keeps e activity channel (λ c. Keyed (e.rows c))
          (λ u client s issued c k. exec-Keyed e laws s c k) keyed reach)
        (step-Executed e activity channel (Reach-IsHonest e activity channel reach) step).1
