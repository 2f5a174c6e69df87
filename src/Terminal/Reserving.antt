-- ===== src/Terminal/Reserving.antt =====
-- A seat that the user types.
use sist_distrib2c.Base.{
  ℕ, ◌≡◌, ◌≢◌, refl, ◌∙◌, Bool, true, false, List, [], ◌∷◌, ◌++◌, Option, some, c_string, ne→==,
  eq→==, ◌==◌, if◌then◌else◌,
}
use sist_distrib2c.Message.{
  Reservation, as_m6, m5, first_word, success_code, choice_seat_select_request,
  choice_seat_select_response,
}
use sist_distrib2c.Channel.{Action}
use sist_distrib2c.Client.Registry.{
  Client, Clients, store, get_client, clean_error, with_error, error_general_error, error_no_error,
  end_listener_thread,
}
use sist_distrib2c.Client.Exchange.{asking}
use sist_distrib2c.Client.Booking.{get_reservations, reserve_seat}
use sist_distrib2c.Client.Session.{is_connected, is_error}
use sist_distrib2c.Client.Reserving.{IsSession, get_client_found}
use sist_distrib2c.Client.Closing.{find_stored}
use sist_distrib2c.Terminal.Reading.{Line, client_select_seat, go_back, refresh_seats}
use sist_distrib2c.Terminal.Screens.{
  menu, seat_select, Terminal, Next, goto, Round, Replies, at_seat_select, seat_selected,
  client_look_error,
}
use sist_distrib2c.Terminal.Closing.{asked, exchanged}

-- The program goes to the label with what the user typed after, and has these reservations.
pub record Shows (next : Terminal → Next) (reservations : List Reservation) (round : Option Round)
    : Type 0 where
  pub after : Terminal
  pub actions : List Action
  pub reached : round ≡ some (record { next = next after; actions = actions })
  pub listed : (get_reservations after.clients after.mom_fd).1 ≡ reservations

-- A client entered as connected is seen with its reservations.
module _ (clients : Clients) (fd : ℕ) (c : Client) (online : c.connected ≡ true) where
  stored_seen : get_client (store fd c clients) fd true ≡ some c
  unfolding get_client
  stored_seen = rw (find_stored fd c clients, online) refl

  stored_reservations : (get_reservations (store fd c clients) fd).1 ≡ c.reservations
  unfolding get_reservations
  stored_reservations = rw (stored_seen, get_reservations) refl

  stored_connected : is_connected (store fd c clients) fd ≡ true
  unfolding is_connected
  stored_connected = rw (stored_seen, is_connected) online

  stored_failed :
      (c.error.error_type == error_no_error) ≡ false
      → client_look_error (store fd c clients) fd ≡ true
  unfolding client_look_error is_error
  stored_failed failed = rw (stored_seen, is_error, failed) refl

listener_online :
    (c : Client) (cancelled : Bool) → (end_listener_thread c cancelled).connected ≡ c.connected
listener_online c true = refl
listener_online c false = refl

module _ (t : Terminal) (c : Client) (lines rest : List Line) (seat : ℕ) (r : Replies)
    (session : IsSession t.clients t.mom_fd c)
    (typed : client_select_seat lines ≡ some (seat, rest)) (other : seat ≢ go_back)
    (chosen : seat ≢ refresh_seats)
    (number : r.response.message_choice_number ≡ choice_seat_select_response)
    (information : ℕ × List ℕ) (read : as_m6 r.response.message_choice ≡ some information) where
  abbrev reserving_client : Client
  reserving_client = record (end_listener_thread (clean_error c) r.cancelled) {
    reservations = c.reservations ++ (record { room = t.selected_room; seat_num = seat } ∷ []);
  }

  accepted :
      (first_word r.response.message_choice == success_code) ≡ true
      → Shows
          (λ after. goto menu after rest)
          (c.reservations ++ (record { room = t.selected_room; seat_num = seat } ∷ []))
          (seat_selected t seat rest r)
  unfolding reserve_seat
  accepted ok = record {
    after = record t { clients = store t.mom_fd reserving_client t.clients };
    actions = asked (clean_error c) (asking choice_seat_select_request (m5 seat)) ++ [];
    reached =
        rw
          (
            get_client_found t.clients t.mom_fd c session,
            reserve_seat,
            exchanged (clean_error c) (asking choice_seat_select_request (m5 seat)) session.channel,
            eq→== _ _ number,
            ok,
          )
          refl;
    listed =
        stored_reservations t.clients t.mom_fd reserving_client
          (listener_online (clean_error c) r.cancelled ∙ session.online);
  }

  refused :
      (first_word r.response.message_choice == success_code) ≡ false
      → Shows (λ after. goto seat_select after rest) c.reservations (seat_selected t seat rest r)
  unfolding reserve_seat
  refused bad =
      let last = with_error (clean_error c) error_general_error (c_string information.1) in
      record {
        after = record t { clients = store t.mom_fd last t.clients };
        actions = asked (clean_error c) (asking choice_seat_select_request (m5 seat)) ++ [];
        reached =
            rw
              (
                get_client_found t.clients t.mom_fd c session,
                reserve_seat,
                exchanged (clean_error c) (asking choice_seat_select_request (m5 seat))
                    session.channel,
                eq→== _ _ number,
                bad,
                read,
                stored_connected t.clients t.mom_fd last session.online,
                stored_failed t.clients t.mom_fd last session.online refl,
              )
              refl;
        listed = stored_reservations t.clients t.mom_fd last session.online;
      }

  -- When the cinema answers the selection of a seat that a connected client has typed, then with
  -- SUCCESS the program goes to the menu and the client's reservations have the seat, of the room
  -- selected, behind those before, and with anything else the program asks for a seat again and the
  -- reservations are as before.
  pub seat_typed :
      (ok : Bool)
      → (first_word r.response.message_choice == success_code) ≡ ok
      → Shows
          (λ after. goto (if ok then menu else seat_select) after rest)
          (if ok
            then c.reservations ++ (record { room = t.selected_room; seat_num = seat } ∷ [])
            else c.reservations)
          (at_seat_select t lines r)
  unfolding at_seat_select
  seat_typed true ok = rw (typed, at_seat_select, ne→== _ _ other, ne→== _ _ chosen) (accepted ok)
  seat_typed false bad = rw (typed, at_seat_select, ne→== _ _ other, ne→== _ _ chosen) (refused bad)
