-- ===== src/Admin/Ownership.antt =====
-- Reservations across the requests of all users.
use sist_distrib2c.Base.{
  ◌≤◌, length, ℕ, ◌≡◌, ◌≢◌, refl, ◌∙◌, sym, Bool, true, not, List, [], ◌∷◌, ◌++◌, map, some, ◌==◌,
  keep, any, arith, Bool-cases, inl, inr,
}
use sist_distrib2c.Message.{Message}
use sist_distrib2c.Channel.{Channel, Sent}
use sist_distrib2c.Db.{
  Engine, EngineLaws, Table, Statement, Column, Row, reservations, matches, mark_paid, apply,
}
use sist_distrib2c.Db.Keys.{Keyed, exec-Keyed, bookings, bookings-Distinct}
use sist_distrib2c.Admin.{admin_handle_request}
use sist_distrib2c.Admin.Statements.{
  Issued, drops_unpaid, pays, logs_out, logs_in, registers, enters, leaves, reserves, OnSome-some,
  admin_handle_request_keeps,
}

abbrev pub of_user : ℕ → List Row → List Row
of_user v = keep λ r. r.user_id == v

-- A paid reservation of the seat by the user is in the list.
abbrev pub holds_paid : ℕ → ℕ → ℕ → List Row → Bool
holds_paid v room seat = any (
    matches (
      (Column.user_id, v)
      ∷ (Column.room_id, room)
      ∷ (Column.seat_id, seat)
      ∷ (Column.paid_flag, 1)
      ∷ []))

of_user-delete :
    (v u : ℕ) (rows : List Row)
    → v ≢ u
    → of_user v
        (keep (λ r. not (matches ((Column.user_id, u) ∷ (Column.paid_flag, 0) ∷ []) r)) rows)
      ≡ of_user v rows
of_user-delete v u [] h = refl
of_user-delete v u (r ∷ rows) h = ground (arith, of_user-delete v u rows h)

of_user-pay :
    (v u room seat : ℕ) (rows : List Row)
    → v ≢ u
    → of_user v (
        map
          (mark_paid ((Column.user_id, u) ∷ (Column.room_id, room) ∷ (Column.seat_id, seat) ∷ []))
          rows)
      ≡ of_user v rows
of_user-pay v u room seat [] h = refl
of_user-pay v u room seat (r ∷ rows) h = ground (arith, of_user-pay v u room seat rows h)

of_user-append :
    (v : ℕ) (rows : List Row) (r : Row)
    → r.user_id ≢ v
    → of_user v (rows ++ (r ∷ [])) ≡ of_user v rows
of_user-append v [] r h = ground arith
of_user-append v (s ∷ rows) r h = ground (arith, of_user-append v rows r h)

pub of_user-apply :
    (v u : ℕ) (s : Statement) (rowid : ℕ) (tables : Table → List Row)
    → v ≢ u
    → Issued u s
    → of_user v (apply s rowid tables reservations) ≡ of_user v (tables reservations)
of_user-apply v u _ rowid tables h drops_unpaid = of_user-delete v u (tables reservations) h
of_user-apply v u _ rowid tables h (pays room seat) =
    of_user-pay v u room seat (tables reservations) h
of_user-apply v u _ rowid tables h logs_out = refl
of_user-apply v u _ rowid tables h (logs_in w) = refl
of_user-apply v u _ rowid tables h registers = refl
of_user-apply v u _ rowid tables h (enters room) = refl
of_user-apply v u _ rowid tables h leaves = refl
of_user-apply v u _ rowid tables h (reserves room seat) =
    of_user-append v (tables reservations) _ (λ e. h (sym e))

module _ (v room seat : ℕ) where
  holds-delete :
      (u : ℕ) (rows : List Row)
      → holds_paid v room seat rows ≡ true
      → holds_paid v room seat
          (keep (λ r. not (matches ((Column.user_id, u) ∷ (Column.paid_flag, 0) ∷ []) r)) rows)
        ≡ true
  holds-delete u [] h = h
  holds-delete u (r ∷ rows) h = ground (arith, holds-delete u rows)

  holds-pay :
      (conditions : List (Column × ℕ)) (rows : List Row)
      → holds_paid v room seat rows ≡ true
      → holds_paid v room seat (map (mark_paid conditions) rows) ≡ true
  holds-pay conditions [] h = h
  holds-pay conditions (r ∷ rows) h = ground (arith, holds-pay conditions rows)

  holds-append :
      (rows : List Row) (r : Row)
      → holds_paid v room seat rows ≡ true
      → holds_paid v room seat (rows ++ (r ∷ [])) ≡ true
  holds-append [] r h = cc
  holds-append (s ∷ rows) r h = ground (arith, holds-append rows r)

  pub holds-apply :
      (u : ℕ) (s : Statement) (rowid : ℕ) (tables : Table → List Row)
      → Issued u s
      → holds_paid v room seat (tables reservations) ≡ true
      → holds_paid v room seat (apply s rowid tables reservations) ≡ true
  holds-apply u _ rowid tables drops_unpaid h = holds-delete u (tables reservations) h
  holds-apply u _ rowid tables (pays r s) h =
      holds-pay ((Column.user_id, u) ∷ (Column.room_id, r) ∷ (Column.seat_id, s) ∷ [])
        (tables reservations) h
  holds-apply u _ rowid tables logs_out h = h
  holds-apply u _ rowid tables (logs_in w) h = h
  holds-apply u _ rowid tables registers h = h
  holds-apply u _ rowid tables (enters r) h = h
  holds-apply u _ rowid tables leaves h = h
  holds-apply u _ rowid tables (reserves r s) h = holds-append (tables reservations) _ h

module _ (e : Engine) (laws : EngineLaws e) where
  -- A property of the reservations that the effect of a statement keeps is kept by executing it,
  -- whether it succeeds or not.
  pub exec_keeps :
      (Q : List Row → Type 0) (s : Statement) (db : e.Db)
      → (Q (e.rows db reservations)
          → Q (apply s (e.last_insert_rowid (e.exec s db).1) (e.rows db) reservations))
      → Q (e.rows db reservations)
      → Q (e.rows (e.exec s db).1 reservations)
  exec_keeps Q s db step q = elim (Bool-cases (e.exec s db).0) [
    | inl h ↦ rw (laws.done s db reservations h) (step q)
    | inr h ↦ rw (laws.failed s db reservations h) q
  ]

  module _ (activity channel : Channel) (db db' : e.Db) (request : Message) (out : List Sent)
      (handled : admin_handle_request e activity db channel request ≡ some (db', out)) where
    -- A request of one user whose handling is defined, whatever it asks and whatever the database
    -- answers, leaves the reservations of every other user as they were: the same rows, paid flags
    -- included, in the same order.
    pub admin_handle_request-of_user :
        (v : ℕ)
        → v ≢ request.client_id
        → of_user v (e.rows db' reservations) ≡ of_user v (e.rows db reservations)
    admin_handle_request-of_user v other =
        OnSome-some _ _
          (admin_handle_request_keeps e
            (λ d. of_user v (e.rows d reservations) ≡ of_user v (e.rows db reservations))
            request.client_id
            (λ s issued d same.
              exec_keeps (λ rows. of_user v rows ≡ of_user v (e.rows db reservations)) s d
                (λ q. of_user-apply v request.client_id s _ (e.rows d) other issued ∙ q) same)
            activity channel db request refl refl)
          handled

    -- No request whose handling is defined, of any user, CHOICE_EXIT included, takes a paid
    -- reservation away.
    pub admin_handle_request-holds_paid :
        (v room seat : ℕ)
        → holds_paid v room seat (e.rows db reservations) ≡ true
        → holds_paid v room seat (e.rows db' reservations) ≡ true
    admin_handle_request-holds_paid v room seat held =
        OnSome-some _ _
          (admin_handle_request_keeps e (λ d. holds_paid v room seat (e.rows d reservations) ≡ true)
            request.client_id
            (λ s issued d h.
              exec_keeps (λ rows. holds_paid v room seat rows ≡ true) s d
                (holds-apply v room seat request.client_id s _ (e.rows d) issued) h)
            activity channel db request refl held)
          handled

    -- No request whose handling is defined books a seat twice: if no two rows have the same primary key in any table, then none
    -- have after the request, and every seat of every room then has one reservation at most, whoever
    -- holds it.
    pub admin_handle_request-bookings :
        (room seat : ℕ)
        → Keyed (e.rows db)
        → Keyed (e.rows db') × (length (bookings room seat (e.rows db' reservations)) ≤ 1)
    admin_handle_request-bookings room seat keyed =
        let after : Keyed (e.rows db') =
          OnSome-some _ _
            (admin_handle_request_keeps e (λ d. Keyed (e.rows d)) request.client_id
              (λ s issued d k. exec-Keyed e laws s d k) activity channel db request refl keyed)
            handled in
        (after, bookings-Distinct room seat (e.rows db' reservations) (after reservations))
