-- ===== src/Cinema/Connecting.antt =====
-- A connection request through the cinema and the admin.
use sist_distrib2c.Base.{ℕ, ◌≡◌, ◌≢◌, [], ◌∷◌, some, arith}
use sist_distrib2c.Message.{
  Message, m1, zero_message, first_word, admin_request, type_connection_cinema_request,
  choice_connection_accepted,
}
use sist_distrib2c.Channel.{
  Channel, Sent, sends, waits, undefined_id, send_message, receive_message, receive_message_of,
}
use sist_distrib2c.Channel.Routing.{AreOpposite}
use sist_distrib2c.Db.{Engine, db_insert_user, db_login_user}
use sist_distrib2c.Admin.{admin_handle_request, handle_connection}
use sist_distrib2c.Cinema.{Cinema, registration, send_confirmation, cinema_take_client}

module _ (e : Engine) (activity admin_channel : Channel) (db : e.Db) (cinema : Cinema)
    (request : Message) (sides : AreOpposite cinema.admin_comm admin_channel)
    (to_admin : cinema.admin_comm.id ≡ admin_request)
    (local_defined : first_word request.message_choice ≢ undefined_id) where
  abbrev local_id : ℕ
  local_id = first_word request.message_choice

  abbrev asked : Sent
  asked = send_message cinema.admin_comm (registration local_id)

  -- The message for the admin goes where `admin_listen_requests` waits. The admin registers a new
  -- user and logs it in, and answers with one message, under the local id, where the cinema waits
  -- for it. The cinema then confirms the connection to the client, under the local id and with the
  -- new user's id, and serves the client under that id.
  pub connection_accepted :
      (reply : Sent) × (receive_message_of admin_channel admin_request
        ≡ record { queue = asked.queue; mtype = asked.mtype })
      × (admin_handle_request e activity db admin_channel asked.message
          ≡ some ((db_login_user e (db_insert_user e db).1 (db_insert_user e db).0).1, reply ∷ []))
      × (receive_message (record cinema.admin_comm { id = local_id })
          ≡ some (record { queue = reply.queue; mtype = reply.mtype }))
      × ((cinema_take_client cinema request reply.message).outcome ≡ some (db_insert_user e db).0)
      × ((cinema_take_client cinema request reply.message).actions
          ≡ waits (receive_message_of cinema.client_comm type_connection_cinema_request)
            ∷ sends asked
            ∷ waits (record { queue = reply.queue; mtype = reply.mtype })
            ∷ sends (
                send_message
                  (record cinema.client_comm { id = local_id })
                  (record zero_message {
                    message_choice_number = choice_connection_accepted;
                    message_choice = m1 (db_insert_user e db).0;
                  }))
            ∷ [])
  unfolding admin_handle_request handle_connection send_message receive_message cinema_take_client
      registration send_confirmation
  connection_accepted = (
    send_message (record admin_channel { id = local_id })
        (record zero_message {
          client_id = local_id;
          message_choice_number = choice_connection_accepted;
          message_choice = m1 (db_insert_user e db).0;
        }),
    ground arith,
    ground arith,
    ground arith,
    ground arith,
    ground arith,
  )
