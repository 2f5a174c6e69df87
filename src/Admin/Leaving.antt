-- ===== src/Admin/Leaving.antt =====
-- CHOICE_EXIT.
use sist_distrib2c.Base.{
  ◌⊎◌, ℕ, ◌≡◌, refl, ◌∙◌, Bool, false, not, List, [], ◌∷◌, some, keep, any, arith, Bool-cases, inl,
  inr,
}
use sist_distrib2c.Message.{Message, choice_exit}
use sist_distrib2c.Channel.{Channel}
use sist_distrib2c.Db.{
  Engine, EngineLaws, Table, Column, Row, reservations, clients_rooms, active_clients, delete_from,
  matches, is_table, db_logout_user, db_remove_user_unpaid_reservations,
}
use sist_distrib2c.Admin.{handle_exit, admin_handle_request}

abbrev unpaid_of : ℕ → List (Column × ℕ)
unpaid_of u = (Column.user_id, u) ∷ (Column.paid_flag, 0) ∷ []

abbrev pub has_unpaid : ℕ → List Row → Bool
has_unpaid u = any (matches (unpaid_of u))

has_unpaid-delete :
    (u : ℕ) (rows : List Row)
    → has_unpaid u (keep (λ r. not (matches (unpaid_of u) r)) rows) ≡ false
has_unpaid-delete u [] = refl
has_unpaid-delete u (r ∷ rows) = ground (arith, has_unpaid-delete u rows)

module _ (e : Engine) (laws : EngineLaws e) where
  other_table :
      (t u : Table) (conditions : List (Column × ℕ)) (db : e.Db)
      → is_table t u ≡ false
      → e.rows (e.exec (delete_from t conditions) db).1 u ≡ e.rows db u
  other_table t u conditions db h = elim (Bool-cases (e.exec (delete_from t conditions) db).0) [
    | inl ok ↦ laws.done (delete_from t conditions) db u ok ∙ rw h refl
    | inr failed ↦ laws.failed (delete_from t conditions) db u failed
  ]

  -- A client who leaves gets no answer; the client stays listed in every room where it was. Either
  -- the deletion of the client's unpaid reservations fails, or the client has none afterwards.
  pub exit_lem :
      (activity channel : Channel) (db : e.Db) (request : Message)
      → request.message_choice_number ≡ choice_exit
      → (db' : e.Db) × (admin_handle_request e activity db channel request ≡ some (db', []))
        × (e.rows db' clients_rooms ≡ e.rows db clients_rooms)
        × (((db_remove_user_unpaid_reservations e
                (db_logout_user e db request.client_id).1
                request.client_id).0
              ≡ false)
            ⊎ (has_unpaid request.client_id (e.rows db' reservations) ≡ false))
  unfolding admin_handle_request handle_exit db_logout_user db_remove_user_unpaid_reservations
  exit_lem activity channel db request leaves =
      let u = request.client_id in
      let left = (e.exec (delete_from active_clients ((Column.user_id, u) ∷ [])) db).1 in
      (
        handle_exit e db request,
        rw leaves refl,
        other_table reservations clients_rooms (unpaid_of u) left refl
            ∙ other_table active_clients clients_rooms ((Column.user_id, u) ∷ []) db refl,
        elim (Bool-cases (e.exec (delete_from reservations (unpaid_of u)) left).0) [
          | inl ok ↦ inr (
              rw (laws.done (delete_from reservations (unpaid_of u)) left reservations ok)
                (has_unpaid-delete u (e.rows left reservations)))
          | inr failed ↦ inl failed
        ],
      )
