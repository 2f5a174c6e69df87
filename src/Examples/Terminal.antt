-- ===== src/Examples/Terminal.antt =====
-- A user at the terminal of client 77 of Examples.Client.
use sist_distrib2c.Base.{◌≡◌, ◌⊎◌, refl, true, false, List, [], ◌∷◌, some, none, codes, All, arith}
use sist_distrib2c.Message.{Message, zero_message, choice_exit, success_code, no_text}
use sist_distrib2c.Channel.{Action}
use sist_distrib2c.Client.Booking.{get_reservations, payment_request}
use sist_distrib2c.Arrays.{copy_into}
use sist_distrib2c.Terminal.Reading.{
  Line, strtol, is_offered, client_menu, client_select_room, client_select_seat,
}
use sist_distrib2c.Terminal.Screens.{
  Terminal, goto, menu, select_room, Replies, at_label, at_menu, at_room_request, at_seat_select,
}
use sist_distrib2c.Terminal.Menu.{IsShown, FirstShown, client_menu_lem}
use sist_distrib2c.Terminal.Closing.{IsEnded, Asks, at_label-IsEnded}
use sist_distrib2c.Terminal.Paying.{payment_closed}
use sist_distrib2c.Terminal.Reserving.{Shows, seat_typed}
use sist_distrib2c.Examples.Client.{clients, connected_client, is_session, reserved_answer}

-- "7" is no option, "2" one only with reservations.
abbrev typed : List Line
typed = codes "7\n" ∷ codes "2\n" ∷ codes " 4\n" ∷ codes "9\n" ∷ []

typed_first : client_menu 0 typed ≡ some (4, codes "9\n" ∷ [])
unfolding client_menu is_offered strtol
typed_first = refl

typed_second : client_menu 1 typed ≡ some (2, codes " 4\n" ∷ codes "9\n" ∷ [])
unfolding client_menu is_offered strtol
typed_second = refl

client_menu_lem_example :
    (All (λ l. ¬ IsShown 0 (strtol l)) typed × (client_menu 0 typed ≡ none))
    ⊎ ((before after : List Line) × (line : Line) × FirstShown 0 typed before line after
        × (client_menu 0 typed ≡ some (strtol line, after)))
client_menu_lem_example = client_menu_lem 0 typed

abbrev terminal : Terminal
terminal = record {
  clients = clients;
  mom_fd = 77;
  rooms = 1 ∷ [];
  selected_room = 1;
  seats = [];
  update_seats = [];
  an_update = false;
}

abbrev closing : Message
closing = record zero_message { message_choice_number = choice_exit }

abbrev cinema_closes : Replies
cinema_closes = record { cancelled = true; created = true; response = closing; closing = closing }

abbrev room_1 : List Line
room_1 = codes "1\n" ∷ codes "\n" ∷ []

room_1-Asks : Asks select_room room_1
unfolding client_select_room strtol
room_1-Asks = (1, [], refl, omega arith)

at_label-IsEnded_example : IsEnded 77 (at_label select_room terminal room_1 cinema_closes)
at_label-IsEnded_example =
    at_label-IsEnded terminal connected_client room_1 cinema_closes is_session refl select_room
      room_1-Asks

abbrev buys : List Line
buys = codes "3\n" ∷ []

payment_closed_example :
    (after : Terminal) × (actions : List Action) × (at_menu terminal buys cinema_closes
      ≡ some (record { next = goto menu after []; actions = actions }))
    × ((get_reservations after.clients after.mom_fd).1 ≡ [])
    × ((later : List Line) (replies : Replies) → at_room_request after later replies ≡ none)
unfolding client_menu is_offered strtol payment_request copy_into
payment_closed_example =
    payment_closed terminal connected_client buys [] cinema_closes _ is_session refl refl refl

abbrev seat_5 : List Line
seat_5 = codes "5\n" ∷ codes "\n" ∷ []

abbrev cinema_reserves : Replies
cinema_reserves = record cinema_closes { response = reserved_answer }

seat_typed_example :
    Shows
      (λ after. goto menu after [])
      (record { room = 1; seat_num = 4 } ∷ record { room = 1; seat_num = 5 } ∷ [])
      (at_seat_select terminal seat_5 cinema_reserves)
unfolding client_select_seat strtol
seat_typed_example =
    seat_typed terminal connected_client seat_5 [] 5 cinema_reserves is_session refl (omega arith)
      (omega arith) refl (success_code, no_text) refl true refl
