-- ===== src/Terminal/Paying.antt =====
-- The client program when a payment meets a closed connection.
use sist_distrib2c.Base.{◌^◌, ◌%◌, ◌≡◌, refl, ap, ◌∙◌, true, List, [], none, some, codes, length}
use sist_distrib2c.Message.{Message, choice_exit}
use sist_distrib2c.Channel.{Action}
use sist_distrib2c.Client.Registry.{
  Client, Clients, store, get_client, clean_error, with_error, error_general_error,
}
use sist_distrib2c.Client.Exchange.{closed_by_cinema}
use sist_distrib2c.Client.Browsing.{get_rooms}
use sist_distrib2c.Client.Booking.{get_reservations, pay_seats, payment_request}
use sist_distrib2c.Client.Reserving.{IsSession, get_client_found}
use sist_distrib2c.Client.Closing.{find_stored, closed_by_cinema_offline}
use sist_distrib2c.Terminal.Reading.{Line, client_menu, option_buy_reservation}
use sist_distrib2c.Terminal.Screens.{
  menu, Terminal, goto, Replies, at_menu, at_room_request, bought,
}
use sist_distrib2c.Terminal.Closing.{asked, exchanged}

module _ (t : Terminal) (c : Client) (lines rest : List Line) (r : Replies) (request : Message)
    (session : IsSession t.clients t.mom_fd c)
    (typed : client_menu (length c.reservations % 2 ^ 32) lines
      ≡ some (option_buy_reservation, rest))
    (requested : payment_request (clean_error c) ≡ some request)
    (exits : r.response.message_choice_number ≡ choice_exit) where
  -- The clients when the menu has asked for the reservations.
  abbrev looked : Clients
  looked = store t.mom_fd (clean_error c) t.clients

  looking : IsSession looked t.mom_fd (clean_error c)
  looking = record {
    found = find_stored t.mom_fd (clean_error c) t.clients;
    online = session.online;
    channel = session.channel;
  }

  abbrev refused_client : Client
  refused_client =
      with_error (closed_by_cinema (clean_error c) r.cancelled) error_general_error
        (codes "Error on pay reservations")

  abbrev back_at_menu : Terminal
  back_at_menu = record t { clients = store t.mom_fd refused_client looked }

  got : get_reservations t.clients t.mom_fd ≡ (looked, c.reservations)
  unfolding get_reservations
  got = rw (get_client_found t.clients t.mom_fd c session, get_reservations) refl

  paying :
      bought (record t { clients = looked }) rest r
      ≡ some
          (record { next = goto menu back_at_menu rest; actions = asked (clean_error c) request })
  unfolding pay_seats
  paying =
      rw
        (
          get_client_found looked t.mom_fd (clean_error c) looking,
          pay_seats,
          requested,
          exchanged (clean_error c) request session.channel,
          exits,
        )
        refl

  buys :
      at_menu t lines r
      ≡ some
          (record { next = goto menu back_at_menu rest; actions = asked (clean_error c) request })
  unfolding at_menu
  buys =
      rw (got, at_menu, typed)
        (ap (λ clients. bought (record t { clients = clients }) rest r) (ap (λ p. p.0) got)
          ∙ paying)

  gone : get_client back_at_menu.clients t.mom_fd true ≡ none
  unfolding get_client
  gone =
      rw
        (
          find_stored t.mom_fd refused_client looked,
          closed_by_cinema_offline (clean_error c) r.cancelled,
        )
        refl

  -- When the cinema answers a payment with CHOICE_EXIT, the program of a connected client who chose to
  -- buy goes back to the menu, as after any refusal; the menu then has no reservations, and to make
  -- one is undefined behaviour: the call follows a null pointer.
  pub payment_closed :
      (after : Terminal) × (actions : List Action) × (at_menu t lines r
        ≡ some (record { next = goto menu after rest; actions = actions }))
      × ((get_reservations after.clients after.mom_fd).1 ≡ [])
      × ((later : List Line) (replies : Replies) → at_room_request after later replies ≡ none)
  unfolding get_reservations get_rooms at_room_request
  payment_closed = (
    back_at_menu,
    asked (clean_error c) request,
    buys,
    rw (gone, get_reservations) refl,
    λ later replies. rw gone refl,
  )
