-- ===== src/Terminal/Screens.antt =====
-- `client_start`: the labels between which it jumps, with the calls of the client interface.
use sist_distrib2c.Base.{
  ℕ, Bool, true, false, not, ◌&&◌, List, [], ◌∷◌, ◌++◌, Option, none, some, ◌>>=◌, ◌==◌,
  if◌then◌else◌, length, ◌%◌, ◌^◌,
}
use sist_distrib2c.Message.{Message, Seat}
use sist_distrib2c.Channel.{Action}
use sist_distrib2c.Client.Registry.{Clients}
use sist_distrib2c.Client.Browsing.{get_rooms, get_seats}
use sist_distrib2c.Client.Booking.{reserve_seat, get_reservations, pay_seats}
use sist_distrib2c.Client.Session.{end_mom, is_connected, is_error}
use sist_distrib2c.Terminal.Reading.{
  Line, client_menu, client_select_room, client_select_seat, go_back, refresh_seats,
  option_make_reservation, option_see_reservation, option_buy_reservation, option_exit,
}

-- The labels; Print_Rooms and Print_Seats only print and go on to Select_Room and Seat_Select.
pub data Label : Type 0 where
  menu room_request select_room seat_select : Label

-- The variables of `client_start`; the last two are `update_args`.
pub record Terminal : Type 0 where
  pub clients : Clients
  pub mom_fd : ℕ
  pub rooms : List ℕ
  pub selected_room : ℕ
  pub seats : List Seat
  pub update_seats : List Seat
  pub an_update : Bool

pub data Next : Type 0 where
  -- No line is left to read.
  waits : Next
  goto : Label → Terminal → List Line → Next
  returns : (code : ℕ) → Clients → Next

-- Where the program goes, and what it did with its queues on the way.
pub record Round : Type 0 where
  pub next : Next
  pub actions : List Action

-- The results of the calls of a round: of `pthread_cancel` and `pthread_create`, the answer to a
-- request, and the answer to the CHOICE_EXIT of `end_mom`.
pub record Replies : Type 0 where
  pub cancelled : Bool
  pub created : Bool
  pub response : Message
  pub closing : Message

abbrev pub silent : Next → Option Round
silent next = some (record { next = next; actions = [] })

unfoldable pub client_close : Clients → ℕ → Replies → Option Round
client_close clients fd r = do
  ended ← end_mom clients fd r.cancelled r.closing
  some (record {
    next = returns (if ended.value then 0 else 1) ended.clients;
    actions = ended.actions;
  })

-- Whether there is an error; its text is printed.
unfoldable pub client_look_error : Clients → ℕ → Bool
client_look_error clients fd = is_error clients fd

-- `on_update`, which the thread that polls calls at any time.
unfoldable pub on_update : Terminal → List Seat → Terminal
on_update t seats_update = record t { update_seats = seats_update; an_update = true }

-- What a round did before, and what follows.
abbrev pub after : List Action → Option Round → Option Round
after actions none = none
after actions (some r) = some (record r { actions = actions ++ r.actions })

abbrev pub failed : Terminal → List Line → Replies → Option Round
failed t lines r =
    let closed = client_close t.clients t.mom_fd r in
    if not (is_connected t.clients t.mom_fd) then closed else silent (goto menu t lines)

-- `list_reservations` reads a line, the <<Enter>>.
abbrev pub seen_reservations : Terminal → List Line → Option Round
seen_reservations t [] = silent waits
seen_reservations t (enter ∷ lines) =
    silent (goto menu (record t { clients = (get_reservations t.clients t.mom_fd).0 }) lines)

abbrev pub bought : Terminal → List Line → Replies → Option Round
bought t lines r = do
  paid ← pay_seats t.clients t.mom_fd r.cancelled r.response
  let closed = client_close paid.clients t.mom_fd r
  after paid.actions (
      if not paid.value
      then silent (goto menu (record t { clients = paid.clients }) lines)
      else closed)

abbrev pub menu_selected : Terminal → ℕ → List Line → Replies → Option Round
menu_selected t option lines r =
    if option == option_make_reservation
    then silent (goto room_request t lines)
    else if option == option_exit
    then client_close t.clients t.mom_fd r
    else if option == option_see_reservation
    then seen_reservations t lines
    else if option == option_buy_reservation
    then bought t lines r
    else silent (goto room_request t lines)

unfoldable pub at_menu : Terminal → List Line → Replies → Option Round
at_menu t lines r =
    let (clients, reservations) = get_reservations t.clients t.mom_fd in
    elim (client_menu (length reservations % 2 ^ 32) lines) [
      | none ↦ silent waits
      | some (option, rest) ↦ menu_selected (record t { clients = clients }) option rest r
    ]

unfoldable pub at_room_request : Terminal → List Line → Replies → Option Round
at_room_request t lines r = do
  called ← get_rooms t.clients t.mom_fd r.cancelled r.response
  let here = record t { clients = called.clients; rooms = called.value }
  after called.actions (
      if client_look_error here.clients here.mom_fd
      then failed here lines r
      else silent (goto select_room here lines))

-- The listener is asked for, with `update_args` cleared.
abbrev pub room_selected : Terminal → ℕ → List Line → Replies → Option Round
room_selected t room lines r = do
  called ← get_seats t.clients t.mom_fd room true r.cancelled r.created r.response
  let here = record t {
    clients = called.clients;
    selected_room = room;
    seats = called.value;
    update_seats = [];
    an_update = false;
  }
  after called.actions (
      if client_look_error here.clients here.mom_fd
      then failed here lines r
      else silent (goto seat_select here lines))

unfoldable pub at_select_room : Terminal → List Line → Replies → Option Round
at_select_room t lines r = elim (client_select_room lines) [
  | none ↦ silent waits
  | some (room, rest) ↦
      let selected = room_selected t room rest r in
      if room == go_back then silent (goto menu t rest) else selected
]

-- Seats are shown anew only when an update has come.
abbrev pub refreshed : Terminal → List Line → Option Round
refreshed t lines =
    if not t.an_update
    then silent (goto seat_select t lines)
    else silent (goto seat_select (record t { seats = t.update_seats; an_update = false }) lines)

abbrev pub seat_selected : Terminal → ℕ → List Line → Replies → Option Round
seat_selected t seat lines r = do
  called ←
      reserve_seat t.clients t.mom_fd (record { id = seat; room_id = t.selected_room; status = 0 })
        r.cancelled r.response
  let here = record t { clients = called.clients }
  let closed = client_close here.clients here.mom_fd r
  after called.actions (
      if called.value
      then silent (goto menu here lines)
      else if client_look_error here.clients here.mom_fd
          && not (is_connected here.clients here.mom_fd)
      then closed
      else silent (goto seat_select here lines))

unfoldable pub at_seat_select : Terminal → List Line → Replies → Option Round
at_seat_select t lines r = elim (client_select_seat lines) [
  | none ↦ silent waits
  | some (seat, rest) ↦
      let selected = seat_selected t seat rest r in
      if seat == go_back
      then silent (goto select_room t rest)
      else if seat == refresh_seats
      then refreshed t rest
      else selected
]

unfoldable pub at_label : Label → Terminal → List Line → Replies → Option Round
at_label menu = at_menu
at_label room_request = at_room_request
at_label select_room = at_select_room
at_label seat_select = at_seat_select
