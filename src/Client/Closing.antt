-- ===== src/Client/Closing.antt =====
-- What is left of a client's session after the cinema closes it.
use sist_distrib2c.Base.{
  ℕ, ◌≡◌, ◌≢◌, refl, sym, ◌∙◌, Bool, true, false, List, [], some, codes, arith, ne→==, eq→==,
}
use sist_distrib2c.Message.{Message, choice_exit, m1, choice_rooms_request}
use sist_distrib2c.Channel.{Channel, undefined_id}
use sist_distrib2c.Client.Registry.{
  Client, Clients, find, store, get_client, clean_error, end_listener_thread, with_error,
  error_mom_already_init, error_mom_not_initialized,
}
use sist_distrib2c.Client.Exchange.{Called, closed_by_cinema, unexpected, asking}
use sist_distrib2c.Client.Browsing.{get_rooms}
use sist_distrib2c.Client.Session.{init_mom, is_connected, is_error, get_error}
use sist_distrib2c.Client.Reserving.{find-store, IsSession, get_client_found, exchange_found}

-- The calls that look at `fd` say that it is not connected.
abbrev pub IsClosed : Clients → ℕ → Type 0
IsClosed clients fd =
    (is_connected clients fd ≡ false)
    × (is_error clients fd ≡ true)
    × ((get_error clients fd).error_type ≡ error_mom_not_initialized)

closed_lem :
    (clients : Clients) (fd : ℕ) (c : Client)
    → find clients fd ≡ some c
    → c.connected ≡ false
    → IsClosed clients fd
unfolding is_connected is_error get_error get_client
closed_lem clients fd c found offline = ground (arith, found, offline)

pub closed_by_cinema_offline :
    (c : Client) (cancelled : Bool) → (closed_by_cinema c cancelled).connected ≡ false
unfolding closed_by_cinema
closed_by_cinema_offline c cancelled = refl

pub find_stored : (fd : ℕ) (c : Client) (clients : Clients) → find (store fd c clients) fd ≡ some c
find_stored fd c clients = find-store fd fd c clients ∙ rw (eq→== fd fd refl) refl

pub end_listener_channel :
    (c : Client) (cancelled : Bool)
    → c.mom_queue.id ≢ undefined_id
    → (end_listener_thread (clean_error c) cancelled).mom_queue.id ≢ undefined_id
end_listener_channel c true h = h
end_listener_channel c false h = h

-- When the cinema answers a request for the rooms with CHOICE_EXIT, the call gives no room, the client is not
-- connected any more, and what the client program reads as the error is "MOM not initialized": the
-- cause that the call recorded cannot be read. `init_mom` then keeps the closed client and only
-- records that it is initialized already, so the session stays closed. Other clients are untouched.
pub get_rooms-IsClosed :
    (clients : Clients) (fd : ℕ) (c : Client) (cancelled : Bool) (response : Message)
    (queue : Channel) (later : Message)
    → IsSession clients fd c
    → response.message_choice_number ≡ choice_exit
    → (called : Called (List ℕ)) × (get_rooms clients fd cancelled response ≡ some called)
      × (called.value ≡ [])
      × IsClosed called.clients fd
      × ((k : ℕ) → k ≢ fd → find called.clients k ≡ find clients k)
      × (restarted : Called ℕ) × (init_mom called.clients queue fd later ≡ some restarted)
      × IsClosed restarted.clients fd
unfolding get_rooms init_mom get_client unexpected
get_rooms-IsClosed clients fd c cancelled response queue later s exits =
    let client = end_listener_thread (clean_error c) cancelled in
    let after = closed_by_cinema client cancelled in
    let again =
      with_error after error_mom_already_init (codes "Error. MOM is already initialized") in
    let (actions, exchanged) =
      exchange_found client (asking choice_rooms_request (m1 0))
        (end_listener_channel c cancelled s.channel) in
    let found = find_stored fd after clients in
    (
      record { clients = store fd after clients; actions = actions; value = [] },
      rw (get_client_found clients fd c s, exchanged, exits) refl,
      refl,
      closed_lem (store fd after clients) fd after found
          (closed_by_cinema_offline client cancelled),
      λ k differs. find-store fd k after clients ∙ rw (ne→== fd k (λ e. differs (sym e))) refl,
      record { clients = store fd again (store fd after clients); actions = []; value = fd },
      rw (found, init_mom) refl,
      closed_lem (store fd again (store fd after clients)) fd again
          (find_stored fd again (store fd after clients))
          (closed_by_cinema_offline client cancelled),
    )
