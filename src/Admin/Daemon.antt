-- ===== src/Admin/Daemon.antt =====
-- `admin_daemon`, `admin_listen_requests` and `init_update_network` of src/admin/admin.cpp.
use sist_distrib2c.Base.{
  ℕ, ◌≡◌, refl, ◌∙◌, true, not, List, [], ◌∷◌, Option, some, keep, All, arith, subst, >>=-eq-some,
}
use sist_distrib2c.Base.Words.{minus_one}
use sist_distrib2c.Message.{Message, admin_request, zero_message, success_code}
use sist_distrib2c.Channel.{
  Channel, Sent, Wanted, commqueue_as_server, commqueue_as_client, send_message, receive_message_of,
}
use sist_distrib2c.Db.{
  Engine, EngineLaws, Column, Row, reservations, clients_rooms, delete_from, matches,
  db_remove_unpaid_reservations, db_remove_users_in_room,
}
use sist_distrib2c.Admin.{seats_message, update_users, admin_handle_request, clean_db_tables}

-- The database and the channel with which `admin_daemon` begins its loop; `channel` is what
-- `create_commqueue` returns.
unfoldable pub admin_daemon : (e : Engine) → e.Db → Channel → e.Db × Channel
admin_daemon e db channel =
    (clean_db_tables e db, record channel { orientation = commqueue_as_server })

-- What is waited for, and what the child that handles `client_req` does.
unfoldable pub admin_listen_requests :
    (e : Engine) → Channel → e.Db → Channel → Message → Wanted × Option (e.Db × List Sent)
admin_listen_requests e activity db channel client_req = (
  receive_message_of channel admin_request,
  admin_handle_request e activity db channel client_req,
)

-- One round: what is waited for, and the message that goes out by `send_packet`.
unfoldable pub init_update_network : Channel → Message → Wanted × Message
init_update_network client_channel msg_to_sent = (
  receive_message_of (record client_channel { orientation = commqueue_as_client; id = minus_one })
      0,
  msg_to_sent,
)

-- Every update that a selection sends goes to the queue on which the process of
-- `init_update_network` waits, which takes messages of any type.
pub update_users-init_update_network :
    (activity : Channel) (seats status users : List ℕ) (out : List Sent) (m : Message)
    → update_users (record activity { orientation = commqueue_as_server }) seats status users
      ≡ some out
    → All (λ s. s.queue ≡ (init_update_network activity m).0.queue) out
      × ((init_update_network activity m).0.mtype ≡ 0)
unfolding update_users init_update_network send_message receive_message_of
update_users-init_update_network activity seats status [] out m h = ground arith
update_users-init_update_network activity seats status (u ∷ users) out m h =
    let server = record activity { orientation = commqueue_as_server } in
    let (update, _, f) =
      >>=-eq-some (seats_message (record zero_message { client_id = u }) success_code seats status)
        _ h in
    let (rest, g, k) = >>=-eq-some (update_users server seats status users) _ f in
    let same : (send_message (record server { id = u }) update ∷ rest) ≡ out = cc k in
    let (others, _) = update_users-init_update_network activity seats status users rest m g in
    (
      subst (λ o. All (λ s. s.queue ≡ (init_update_network activity m).0.queue) o) same
          (refl, others),
      refl,
    )

keep_none : (rows : List Row) → keep (λ r. not (matches [] r)) rows ≡ []
keep_none [] = refl
keep_none (r ∷ rows) = keep_none rows

-- When both deletions succeed, the administrator begins with no client in a room, with the paid
-- reservations as they were, and with no other reservation.
pub admin_daemon_lem :
    (e : Engine) (laws : EngineLaws e) (db : e.Db) (channel : Channel)
    → (db_remove_unpaid_reservations e db).0 ≡ true
    → (db_remove_users_in_room e (db_remove_unpaid_reservations e db).1).0 ≡ true
    → (e.rows (admin_daemon e db channel).0 clients_rooms ≡ [])
      × (e.rows (admin_daemon e db channel).0 reservations
          ≡ keep (λ r. not (matches ((Column.paid_flag, 0) ∷ []) r)) (e.rows db reservations))
unfolding admin_daemon clean_db_tables db_remove_unpaid_reservations db_remove_users_in_room
admin_daemon_lem e laws db channel cleaned emptied =
    let unpaid = delete_from reservations ((Column.paid_flag, 0) ∷ []) in
    let after = (e.exec unpaid db).1 in
    (
      laws.done (delete_from clients_rooms []) after clients_rooms emptied
          ∙ keep_none (e.rows after clients_rooms),
      laws.done (delete_from clients_rooms []) after reservations emptied
          ∙ laws.done unpaid db reservations cleaned,
    )
