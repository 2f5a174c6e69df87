-- ===== src/Admin/Running/Whole.antt =====
-- The program of a whole handler.
use sist_distrib2c.Base.{◌≡◌, refl, ◌∙◌, List, Option, none, some, ◌>>=◌, ◌==◌}
use sist_distrib2c.Message.{
  Message, choice_pay_reservation_request, choice_exit, choice_connection_accepted,
  choice_rooms_request, choice_seats_request, choice_seat_select_request, zero_message,
}
use sist_distrib2c.Channel.{Channel, Sent, send_message}
use sist_distrib2c.Db.{Engine}
use sist_distrib2c.Admin.{respond, respond_after, admin_handle_request}
use sist_distrib2c.Admin.Program.{Program, finished, sends, handler_program, run}
use sist_distrib2c.Admin.Running.{onward, after_updates, run-branch}
use sist_distrib2c.Admin.Running.Answers.{
  run-payment_program, run-rooms_program, run-exit_program, run-connection_program,
  run-seats_program,
}
use sist_distrib2c.Admin.Running.Selection.{run-selection_program}

module _ (e : Engine) where
  module _ (channel : Channel) where
    abbrev reply : Message → Program
    reply m = sends (send_message channel m) finished

    replied : (o : Option (e.Db × Message)) → (o >>= onward e reply) ≡ respond e channel o
    unfolding run
    replied none = refl
    replied (some r) = refl

    replied_after :
        (o : Option (e.Db × Message × List Sent))
        → (o >>= after_updates e reply) ≡ respond_after e channel o
    unfolding run
    replied_after none = refl
    replied_after (some r) = refl

  -- The calls of a handler on the database and the queues, one by one with nothing between them, have
  -- the result that the handler of every request has as a whole, also where that is undefined.
  pub run-handler_program :
      (activity channel : Channel) (db : e.Db) (request : Message)
      → run e (handler_program activity channel request) db
        ≡ admin_handle_request e activity db channel request
  unfolding run handler_program admin_handle_request
  run-handler_program activity channel db request =
      let response = record zero_message { client_id = request.client_id } in
      let to = record channel { id = request.client_id } in
      let number = request.message_choice_number in
      run-branch e (number == choice_pay_reservation_request) _ _ _ _ db
        (run-payment_program e request (reply to) db ∙ replied to _)
        (run-branch e (number == choice_exit) _ _ _ _ db (run-exit_program e request db) (
          run-branch e (number == choice_connection_accepted) _ _ _ _ db
            (run-connection_program e response (reply to) db)
            (run-branch e (number == choice_rooms_request) _ _ _ _ db
              (run-rooms_program e response (reply to) db ∙ replied to _)
              (run-branch e (number == choice_seats_request) _ _ _ _ db
                (run-seats_program e request response (reply to) db ∙ replied to _)
                (run-branch e (number == choice_seat_select_request) _ _ _ _ db
                  (run-selection_program e activity request response (reply to) db
                    ∙ replied_after to _)
                  refl)))))
