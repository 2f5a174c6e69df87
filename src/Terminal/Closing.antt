-- ===== src/Terminal/Closing.antt =====
-- The client program when the cinema closes the connection.
use sist_distrib2c.Base.{
  ℕ, ◌≡◌, ◌≢◌, refl, true, false, not, List, [], ◌∷◌, ◌&&◌, Option, none, some, ne→==, length,
  if◌then◌else◌,
}
use sist_distrib2c.Message.{
  Message, choice_exit, m1, m3, m5, choice_rooms_request, choice_seats_request,
  choice_seat_select_request,
}
use sist_distrib2c.Channel.{
  Sent, Wanted, Action, sends, waits, send_message, receive_message_of, undefined_id,
  receive_message,
}
use sist_distrib2c.Client.Registry.{
  Client, Clients, store, get_client, clean_error, end_listener_thread,
}
use sist_distrib2c.Client.Exchange.{closed_by_cinema, unexpected, asking, exchange}
use sist_distrib2c.Client.Browsing.{get_rooms, get_seats}
use sist_distrib2c.Client.Booking.{reserve_seat}
use sist_distrib2c.Client.Session.{end_mom, is_connected, is_error}
use sist_distrib2c.Client.Reserving.{IsSession, get_client_found}
use sist_distrib2c.Client.Closing.{find_stored, end_listener_channel, closed_by_cinema_offline}
use sist_distrib2c.Terminal.Reading.{
  Line, client_select_room, client_select_seat, go_back, refresh_seats,
}
use sist_distrib2c.Terminal.Screens.{
  Label, menu, room_request, select_room, seat_select, Terminal, returns, Round, Replies,
  client_close, client_look_error, after, failed, room_selected, seat_selected, at_room_request,
  at_select_room, at_seat_select, at_label,
}

-- A request and the wait for its answer.
abbrev pub asked : Client → Message → List Action
asked c m =
    sends (send_message c.mom_queue m) ∷ waits (receive_message_of c.mom_queue c.mom_queue.id) ∷ []

pub exchanged :
    (c : Client) (m : Message) → c.mom_queue.id ≢ undefined_id → exchange c m ≡ some (asked c m)
unfolding receive_message
exchanged c m h = rw (ne→== _ _ h) refl

-- The program has ended with code 0 after one request and its answer, and the client is entered as not
-- connected.
pub record IsEnded (fd : ℕ) (round : Option Round) : Type 0 where
  pub clients : Clients
  pub actions : List Action
  pub ended : round ≡ some (record { next = returns 0 clients; actions = actions })
  pub offline : is_connected clients fd ≡ false
  pub one_request : length actions ≡ 2

-- A client that is entered but not connected is not seen by the calls.
module _ (clients : Clients) (fd : ℕ) (c : Client) (offline : c.connected ≡ false) where
  abbrev left : Clients
  left = store fd c clients

  unseen : get_client left fd true ≡ none
  unfolding get_client
  unseen = rw (find_stored fd c clients, offline) refl

  looks_failed : client_look_error left fd ≡ true
  unfolding client_look_error is_error
  looks_failed = rw (unseen, is_error) refl

  looks_closed : is_connected left fd ≡ false
  unfolding is_connected
  looks_closed = rw (unseen, is_connected) refl

  closes :
      (r : Replies) → client_close left fd r ≡ some (record { next = returns 0 left; actions = [] })
  unfolding client_close end_mom
  closes r = rw (unseen, end_mom) refl

  -- A screen that looks for an error after its call ends.
  module _ (here : Terminal) (lines : List Line) (r : Replies) (question : Sent) (wanted : Wanted)
      (stored : here.clients ≡ left) (same : here.mom_fd ≡ fd) where
    abbrev call : List Action
    call = sends question ∷ waits wanted ∷ []

    ends :
        (go_on : Option Round)
        → IsEnded fd (
            after call
              (if client_look_error here.clients here.mom_fd then failed here lines r else go_on))
    ends go_on = record {
      clients = left;
      actions = call;
      ended = rw (stored, same, looks_failed, looks_closed, closes r) refl;
      offline = looks_closed;
      one_request = refl;
    }

    ends_at_once :
        (go_on : Option Round)
        → IsEnded fd (
            after call (
              if client_look_error here.clients here.mom_fd
                && not (is_connected here.clients here.mom_fd)
              then client_close here.clients here.mom_fd r
              else go_on))
    ends_at_once go_on = record {
      clients = left;
      actions = call;
      ended = rw (stored, same, looks_failed, looks_closed, closes r) refl;
      offline = looks_closed;
      one_request = refl;
    }

-- The label asks the cinema for something.
abbrev pub Asks : Label → List Line → Type 0
Asks menu lines = ⊥
Asks room_request lines = Unit {0}
Asks select_room lines =
    (room : ℕ) × (rest : List Line) × (client_select_room lines ≡ some (room, rest))
    × (room ≢ go_back)
Asks seat_select lines =
    (seat : ℕ) × (rest : List Line) × (client_select_seat lines ≡ some (seat, rest))
    × (seat ≢ go_back)
    × (seat ≢ refresh_seats)

module _ (t : Terminal) (c : Client) (lines : List Line) (r : Replies)
    (session : IsSession t.clients t.mom_fd c)
    (exits : r.response.message_choice_number ≡ choice_exit) where
  abbrev ended_client : Client
  ended_client = end_listener_thread (clean_error c) r.cancelled

  abbrev seen : get_client t.clients t.mom_fd true ≡ some c
  seen = get_client_found t.clients t.mom_fd c session

  asked_ended : (m : Message) → exchange ended_client m ≡ some (asked ended_client m)
  asked_ended m = exchanged ended_client m (end_listener_channel c r.cancelled session.channel)

  room_request-IsEnded : IsEnded t.mom_fd (at_room_request t lines r)
  unfolding at_room_request get_rooms unexpected
  room_request-IsEnded =
      rw (seen, exits, asked_ended (asking choice_rooms_request (m1 0)))
        (ends t.clients t.mom_fd (closed_by_cinema ended_client r.cancelled)
          (closed_by_cinema_offline ended_client r.cancelled) _ lines _ _ _ refl refl _)

  room_selected-IsEnded :
      (room : ℕ) (rest : List Line) → IsEnded t.mom_fd (room_selected t room rest r)
  unfolding get_seats unexpected
  room_selected-IsEnded room rest =
      rw (seen, exits, asked_ended (asking choice_seats_request (m3 room)))
        (ends t.clients t.mom_fd (closed_by_cinema ended_client r.cancelled)
          (closed_by_cinema_offline ended_client r.cancelled) _ rest _ _ _ refl refl _)

  seat_selected-IsEnded :
      (seat : ℕ) (rest : List Line) → IsEnded t.mom_fd (seat_selected t seat rest r)
  unfolding reserve_seat unexpected
  seat_selected-IsEnded seat rest =
      rw
        (
          seen,
          reserve_seat,
          exits,
          exchanged (clean_error c) (asking choice_seat_select_request (m5 seat)) session.channel,
        )
        (ends_at_once t.clients t.mom_fd (closed_by_cinema (clean_error c) r.cancelled)
          (closed_by_cinema_offline (clean_error c) r.cancelled)
          (record t {
            clients = store t.mom_fd (closed_by_cinema (clean_error c) r.cancelled) t.clients;
          })
          rest _ _ _ refl refl _)

  -- When the cinema answers what a screen asks for (rooms, the seats of a room, a seat) with CHOICE_EXIT, the
  -- program of a connected client ends with code 0 after that one request, and the client is entered
  -- as not connected.
  pub at_label-IsEnded : (l : Label) → Asks l lines → IsEnded t.mom_fd (at_label l t lines r)
  unfolding at_label at_select_room at_seat_select
  at_label-IsEnded menu asks = absurd asks
  at_label-IsEnded room_request asks = room_request-IsEnded
  at_label-IsEnded select_room (room, rest, typed, other) =
      rw (typed, at_select_room, ne→== _ _ other) (room_selected-IsEnded room rest)
  at_label-IsEnded seat_select (seat, rest, typed, back, refresh) =
      rw (typed, at_seat_select, ne→== _ _ back, ne→== _ _ refresh)
        (seat_selected-IsEnded seat rest)
