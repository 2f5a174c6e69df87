-- ===== src/Client/Lifecycle.antt =====
-- A whole session of a client: `init_mom`, `login` and `end_mom`.
use sist_distrib2c.Base.{
  ℕ, ◌≡◌, ◌≢◌, refl, ◌∙◌, Bool, true, false, List, [], ◌∷◌, some, none, ◌==◌, if◌then◌else◌, arith,
  ne→==, Bool-cases, inl, inr, ==→eq, sym, subst,
}
use sist_distrib2c.Message.{Message, m1, first_word, choice_connection_accepted, choice_exit}
use sist_distrib2c.Channel.{
  Channel, Action, sends, waits, commqueue_as_client, undefined_id, send_message, receive_message,
  receive_message_of,
}
use sist_distrib2c.Client.Registry.{
  Client, Clients, find, store, erase, get_client, undefined_client_id,
}
use sist_distrib2c.Client.Exchange.{Called, asking}
use sist_distrib2c.Client.Session.{
  new_client, mom_request, init_mom, cinema_request, connected_id, login, is_connected, is_error,
  disconnect, end_mom,
}
use sist_distrib2c.Client.Reserving.{find-store, exchange_found}
use sist_distrib2c.Client.Closing.{find_stored}

find-erase :
    (fd k : ℕ) (clients : Clients)
    → find (erase fd clients) k ≡ (if fd == k then none else find clients k)
unfolding find erase
find-erase fd k [] = ground arith
find-erase fd k ((j, old) ∷ clients) = ground (arith, find-erase fd k clients)

module _ (clients : Clients) (queue : Channel) (pid : ℕ) (accepted registered : Message)
    (absent : find clients pid ≡ none) (defined : pid ≢ undefined_id)
    (accepts : accepted.message_choice_number ≡ choice_connection_accepted)
    (registers : registered.message_choice_number ≡ choice_connection_accepted)
    (given : first_word registered.message_choice ≢ undefined_client_id) where
  abbrev opened_client : Client
  opened_client = new_client queue pid (first_word accepted.message_choice)

  abbrev logged_client : Client
  logged_client = record opened_client { cinema_id = first_word registered.message_choice }

  abbrev opened : Clients
  opened = store pid opened_client clients

  abbrev logged : Clients
  logged = store pid logged_client opened

  opens :
      (actions : List Action) × (init_mom clients queue pid accepted
        ≡ some (record { clients = opened; actions = actions; value = pid }))
  unfolding init_mom get_client receive_message
  opens =
      let wanted = record queue { orientation = commqueue_as_client; id = pid } in
      (
        sends (send_message (record queue { orientation = commqueue_as_client }) (mom_request pid))
            ∷ waits (receive_message_of wanted pid)
            ∷ [],
        rw (absent, init_mom, ne→== pid undefined_id defined, accepts) refl,
      )

  looks_connected : (is_connected opened pid ≡ true) × (is_error opened pid ≡ false)
  unfolding is_connected is_error get_client
  looks_connected =
      let found = find_stored pid opened_client clients in
      (rw (found, is_connected) refl, rw (found, is_error) refl)

  logs_in :
      (actions : List Action) × (login opened pid registered
        ≡ some (record { clients = logged; actions = actions; value = true }))
  unfolding login get_client connected_id
  logs_in =
      let (actions, exchanged) =
        exchange_found opened_client (cinema_request opened_client) defined in
      (
        actions,
        rw (find_stored pid opened_client clients, exchanged, registers, ne→== _ _ given) refl,
      )

  ends :
      (cancelled : Bool) (response : Message)
      → response.message_choice_number ≡ choice_exit
      → (actions : List Action) × (end_mom logged pid cancelled response
          ≡ some (record { clients = erase pid logged; actions = actions; value = true }))
  unfolding end_mom get_client disconnect
  ends cancelled response exits =
      let (actions, exchanged) = exchange_found logged_client (asking choice_exit (m1 0)) defined in
      (actions, rw (find_stored pid logged_client opened, end_mom, exchanged, exits) refl)

  restored : (k : ℕ) → find (erase pid logged) k ≡ find clients k
  restored k = find-erase pid k logged ∙ elim (Bool-cases (pid == k)) [
    | inl same ↦ rw same (sym (subst (λ j. find clients j ≡ none) (==→eq pid k same) absent))
    | inr other ↦ rw other (
        find-store pid k logged_client opened
        ∙ rw other (find-store pid k opened_client clients ∙ rw other refl))
  ]

  -- A client whose pid is not in the registry and is not -1: `init_mom`, when it is accepted, enters
  -- it connected and without an error; `login`, when the cinema accepts it under an id other than
  -- -123, gives true; and `end_mom`, when the cinema answers CHOICE_EXIT, gives true and leaves the
  -- registry as it was before, for every key.
  pub end_mom-init_mom :
      (cancelled : Bool) (response : Message) (k : ℕ)
      → response.message_choice_number ≡ choice_exit
      → (begun : Called ℕ) × (logged_in ended : Called Bool) × (init_mom clients queue pid accepted
          ≡ some begun)
        × (is_connected begun.clients pid ≡ true)
        × (is_error begun.clients pid ≡ false)
        × (login begun.clients pid registered ≡ some logged_in)
        × (logged_in.value ≡ true)
        × (end_mom logged_in.clients pid cancelled response ≡ some ended)
        × (ended.value ≡ true)
        × (find ended.clients k ≡ find clients k)
  end_mom-init_mom cancelled response k exits =
      let (open_actions, opening) = opens in
      let (login_actions, logging) = logs_in in
      let (end_actions, ending) = ends cancelled response exits in
      (
        record { clients = opened; actions = open_actions; value = pid },
        record { clients = logged; actions = login_actions; value = true },
        record { clients = erase pid logged; actions = end_actions; value = true },
        opening,
        looks_connected.0,
        looks_connected.1,
        logging,
        refl,
        ending,
        refl,
        restored k,
      )
