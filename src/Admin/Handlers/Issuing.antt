-- ===== src/Admin/Handlers/Issuing.antt =====
-- Whatever the database answers it, a handler executes statements for its own client only.
use sist_distrib2c.Base.{
  ℕ, zero, suc, Bool, true, false, List, [], ◌∷◌, Option, none, some, if◌then◌else◌, ◌==◌,
  replicate,
}
use sist_distrib2c.Base.Words.{is_positive, rounds}
use sist_distrib2c.Arrays.{copy_into}
use sist_distrib2c.Message.{
  Message, Reservation, first_word, as_m7, zero_message, max_rooms, success_code,
  choice_pay_reservation_request, choice_exit, choice_connection_accepted, choice_rooms_request,
  choice_seats_request, choice_seat_select_request,
}
use sist_distrib2c.Channel.{Channel, send_message}
use sist_distrib2c.Db.{front}
use sist_distrib2c.Admin.{seat_status, seats_message}
use sist_distrib2c.Admin.Statements.{
  Issued, drops_unpaid, pays, logs_out, logs_in, enters, leaves, reserves,
}
use sist_distrib2c.Admin.Program.{
  Program, finished, undefined, executes, inserts_user, prepares, selects, sends, attempt,
  pay_program, payment_program, exit_program, connection_program, rooms_program,
  seats_of_room_program, seats_program, update_program, notify_program, insert_program,
  reserved_program, selected_program, selection_program, handler_program,
}

abbrev pub Issues : ℕ → Program → Type 0
Issues u finished = Unit {0}
Issues u undefined = Unit {0}
Issues u (executes s k) = Issued u s × ((ok : Bool) → Issues u (k ok))
Issues u (inserts_user k) = (w : ℕ) → Issues u (k w)
Issues u (prepares s k) = (ok : Bool) → Issues u (k ok)
Issues u (selects c t conditions k) = (found : List ℕ) → Issues u (k found)
Issues u (sends s k) = Issues u k

module _ (u : ℕ) where
  attempt-Issues {ℓ} :
      {A : Type ℓ} (o : Option A) (k : A → Program)
      → ((a : A) → Issues u (k a))
      → Issues u (attempt o k)
  attempt-Issues none k h = tt
  attempt-Issues (some a) k h = h a

  if-Issues : (b : Bool) (p q : Program) → Issues u p → Issues u q → Issues u (if b then p else q)
  if-Issues true p q h k = h
  if-Issues false p q h k = k

  pay_program-Issues :
      (n : ℕ) (list : List Reservation) (k : Program)
      → Issues u k
      → Issues u (pay_program u n list k)
  unfolding pay_program
  pay_program-Issues zero list k h = h
  pay_program-Issues (suc n) [] k h = tt
  pay_program-Issues (suc n) (r ∷ list) k h = (
    pays r.room r.seat_num,
    λ ok. if-Issues ok (pay_program u n list k) k (pay_program-Issues n list k h) h,
  )

  update_program-Issues :
      (activity : Channel) (seats status users : List ℕ) (k : Program)
      → Issues u k
      → Issues u (update_program activity seats status users k)
  unfolding update_program
  update_program-Issues activity seats status [] k h = h
  update_program-Issues activity seats status (v ∷ users) k h =
      attempt-Issues (seats_message _ success_code seats status) _
        λ m. update_program-Issues activity seats status users k h

  notify_program-Issues :
      (activity : Channel) (roomid : ℕ) (users : List ℕ) (k : Program)
      → Issues u k
      → Issues u (notify_program activity roomid users k)
  notify_program-Issues activity roomid [] k h = h
  notify_program-Issues activity roomid (v ∷ users) k h = λ ids taken.
      attempt-Issues (seat_status ids taken) _
        λ status. update_program-Issues _ ids status (v ∷ users) k h

  insert_program-Issues :
      (roomid seatid : ℕ) (k : Bool → Program)
      → ((ok : Bool) → Issues u (k ok))
      → Issues u (insert_program u roomid seatid k)
  unfolding insert_program
  insert_program-Issues roomid seatid k h =
      if-Issues (is_positive seatid) _ _
        (λ ready. if-Issues ready (executes _ k) _ (reserves roomid seatid, h) (h true)) (h false)

module _ (request response : Message) (k : Message → Program)
    (goes_on : (m : Message) → Issues request.client_id (k m)) where
  abbrev userid : ℕ
  userid = request.client_id

  seats_of_room-Issues :
      (roomid : ℕ) (seats : List ℕ)
      → Issues userid (seats_of_room_program request response roomid seats k)
  seats_of_room-Issues roomid [] = goes_on _
  seats_of_room-Issues roomid (seat ∷ seats) = λ taken.
      attempt-Issues userid (seat_status (seat ∷ seats) taken) _ λ status.
        attempt-Issues userid (seats_message response success_code (seat ∷ seats) status) _
          λ full. (enters roomid, λ ok. goes_on full)

  selected_program-Issues :
      (activity : Channel) (roomid : ℕ) (ok : Bool)
      → Issues userid (selected_program activity request response roomid k ok)
  unfolding reserved_program
  selected_program-Issues activity roomid true = (
    leaves,
    λ ok listed. notify_program-Issues userid activity roomid listed _ (leaves, λ ok. goes_on _),
  )
  selected_program-Issues activity roomid false = goes_on _

  selection_program-Issues :
      (activity : Channel) → Issues userid (selection_program activity request response k)
  unfolding selection_program
  selection_program-Issues activity = λ found. attempt-Issues userid (front found) _ λ roomid.
      if-Issues userid (roomid == 0) _ _ (goes_on _) (
        insert_program-Issues userid roomid (first_word request.message_choice)
          (selected_program activity request response roomid k)
          (selected_program-Issues activity roomid))

-- The program of a request executes only statements of the kinds that `Issued` lists for the client
-- that the request names.
pub handler_program-Issues :
    (activity channel : Channel) (request : Message)
    → Issues request.client_id (handler_program activity channel request)
unfolding handler_program payment_program exit_program connection_program rooms_program
    seats_program
handler_program-Issues activity channel request =
    let u = request.client_id in
    let response = record zero_message { client_id = u } in
    let number = request.message_choice_number in
    let reply : Message → Program =
      λ m. sends (send_message (record channel { id = u }) m) finished in
    if-Issues u (number == choice_pay_reservation_request) _ _
      (attempt-Issues u (as_m7 request.message_choice) _
        λ (count, list). pay_program-Issues u (rounds count) list _ tt)
      (if-Issues u (number == choice_exit) _ _ (logs_out, λ _. (drops_unpaid, λ _. tt))
        (if-Issues u (number == choice_connection_accepted) _ _ (λ w. (logs_in w, λ _. tt))
          (if-Issues u (number == choice_rooms_request) _ _
            (λ ids. attempt-Issues u (copy_into ids (replicate max_rooms 0)) _ λ cells. tt)
            (if-Issues u (number == choice_seats_request) _ _
              (λ ids.
                seats_of_room-Issues request response _ (λ m. tt)
                  (first_word request.message_choice) ids)
              (if-Issues u (number == choice_seat_select_request) _ _
                (selection_program-Issues request response reply (λ m. tt) activity) tt)))))
