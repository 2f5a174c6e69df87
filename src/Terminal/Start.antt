-- ===== src/Terminal/Start.antt =====
-- The start of `client_start`, up to the first menu.
use sist_distrib2c.Base.{ℕ, false, not, List, [], ◌++◌, Option, some, ◌>>=◌, if◌then◌else◌}
use sist_distrib2c.Message.{Message}
use sist_distrib2c.Channel.{Channel}
use sist_distrib2c.Client.Registry.{Clients}
use sist_distrib2c.Client.Session.{init_mom, login}
use sist_distrib2c.Terminal.Reading.{Line}
use sist_distrib2c.Terminal.Screens.{menu, Terminal, goto, returns, Round, client_look_error}

abbrev new_terminal : Clients → ℕ → Terminal
new_terminal clients fd = record {
  clients = clients;
  mom_fd = fd;
  rooms = [];
  selected_room = 0;
  seats = [];
  update_seats = [];
  an_update = false;
}

-- From the start to the first menu; `accepted` and `registered` are the answers to `init_mom` and
-- `login`.
unfoldable pub client_start :
    Clients → Channel → ℕ → (accepted registered : Message) → List Line → Option Round
client_start clients mom_queue pid accepted registered lines = do
  begun ← init_mom clients mom_queue pid accepted
  let logged_in = do
    logged ← login begun.clients begun.value registered
    some (record {
      next =
          if not logged.value
          then returns 1 logged.clients
          else goto menu (new_terminal logged.clients begun.value) lines;
      actions = begun.actions ++ logged.actions;
    })
  if client_look_error begun.clients begun.value
      then some (record { next = returns 1 begun.clients; actions = begun.actions })
      else logged_in
