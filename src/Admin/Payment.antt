-- ===== src/Admin/Payment.antt =====
-- CHOICE_PAY_RESERVATION_REQUEST.
use sist_distrib2c.Base.{
  ℕ, zero, suc, ◌≤◌, ◌≡◌, refl, ap, ◌∙◌, sym, Bool, true, ◌&&◌, List, [], ◌∷◌, map, some, ◌==◌,
  if◌then◌else◌, any, arith, take, length, Bool-cases, inl, inr,
}
use sist_distrib2c.Base.Words.{rounds}
use sist_distrib2c.Message.{
  Message, Reservation, m6, m7, zero_message, success_code, no_text, choice_pay_reservation_request,
  choice_pay_reservation_response,
}
use sist_distrib2c.Channel.{Channel, send_message}
use sist_distrib2c.Db.{
  Engine, EngineLaws, Column, Row, reservations, update_paid, mark_paid, db_update_paid_reservation,
}
use sist_distrib2c.Admin.{pay_loop, handle_payment, admin_handle_request, answer}

-- The reservation of a row is on the list.
abbrev pub is_listed : Row → List Reservation → Bool
is_listed row = any λ r. row.room_id == r.room && row.seat_id == r.seat_num

-- The reservations of a user that are on a list become paid; nothing else changes.
abbrev pub paid_rows : ℕ → List Reservation → List Row → List Row
paid_rows u list =
    map λ row. if row.user_id == u && is_listed row list then record row { paid_flag = 1 } else row

abbrev one_reservation : ℕ → Reservation → List (Column × ℕ)
one_reservation u r =
    (Column.user_id, u) ∷ (Column.room_id, r.room) ∷ (Column.seat_id, r.seat_num) ∷ []

paid_rows-nil : (u : ℕ) (rows : List Row) → paid_rows u [] rows ≡ rows
paid_rows-nil u [] = refl
paid_rows-nil u (row ∷ rows) = ground (arith, paid_rows-nil u rows)

paid_rows-cons :
    (u : ℕ) (r : Reservation) (list : List Reservation) (rows : List Row)
    → paid_rows u list (map (mark_paid (one_reservation u r)) rows) ≡ paid_rows u (r ∷ list) rows
paid_rows-cons u r list [] = refl
paid_rows-cons u r list (row ∷ rows) = ground (arith, paid_rows-cons u r list rows)

module _ (e : Engine) where
  pay_loop_total :
      (db : e.Db) (u n : ℕ) (list : List Reservation)
      → n ≤ length list
      → (db' : e.Db) × (pay_loop e db u n list ≡ some db')
  unfolding pay_loop
  pay_loop_total db u zero list h = (db, refl)
  pay_loop_total db u (suc n) [] h = absurd (omega arith)
  pay_loop_total db u (suc n) (r ∷ list) h =
      elim (Bool-cases (db_update_paid_reservation e db u r).0) [
        | inl ok ↦
            rw ok (pay_loop_total (db_update_paid_reservation e db u r).1 u n list (omega arith))
        | inr failed ↦ ((db_update_paid_reservation e db u r).1, rw failed refl)
      ]

  -- Whatever the updates of the database give, failures included, a request to pay whose count lies
  -- within its list is answered SUCCESS, and with nothing else.
  pub payment_answered :
      (activity channel : Channel) (db : e.Db) (request : Message) (count : ℕ)
      (list : List Reservation)
      → request.message_choice_number ≡ choice_pay_reservation_request
      → request.message_choice ≡ m7 count list
      → rounds count ≤ length list
      → (db' : e.Db) × (pay_loop e db request.client_id (rounds count) list ≡ some db')
        × (admin_handle_request e activity db channel request
            ≡ some (
              db',
              send_message
                    (record channel { id = request.client_id })
                    (answer
                      (record zero_message { client_id = request.client_id })
                      choice_pay_reservation_response
                      (m6 success_code no_text))
                  ∷ [],
            ))
  unfolding admin_handle_request handle_payment
  payment_answered activity channel db request count list pays choice h =
      let (db', paid) = pay_loop_total db request.client_id (rounds count) list h in
      (db', paid, rw (pays, choice, paid) refl)

  -- If no update fails, the loop over the first `n` entries of the list leaves exactly the
  -- reservations of the user that those entries name marked as paid.
  pub pay_loop-paid_rows :
      EngineLaws e
      → ((r : Reservation) (u : ℕ) (d : e.Db) → (db_update_paid_reservation e d u r).0 ≡ true)
      → (db db' : e.Db) (u n : ℕ) (list : List Reservation) → pay_loop e db u n list ≡ some db'
      → e.rows db' reservations ≡ paid_rows u (take n list) (e.rows db reservations)
  unfolding pay_loop db_update_paid_reservation
  pay_loop-paid_rows laws never_fails db db' u zero list h =
      let same : db ≡ db' = cc in rw (← same) (sym (paid_rows-nil u (e.rows db reservations)))
  pay_loop-paid_rows laws never_fails db db' u (suc n) [] h = cc
  pay_loop-paid_rows laws never_fails db db' u (suc n) (r ∷ list) h =
      pay_loop-paid_rows laws never_fails (db_update_paid_reservation e db u r).1 db' u n list
        (rw (never_fails r u db) at h)
      ∙ ap (paid_rows u (take n list))
          (laws.done (update_paid (one_reservation u r)) db reservations (never_fails r u db))
      ∙ paid_rows-cons u r (take n list) (e.rows db reservations)
