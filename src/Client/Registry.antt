-- ===== src/Client/Registry.antt =====
-- The struct `Client`, the map `CLIENTS`, and the helpers of client_interface.cpp on them.
use sist_distrib2c.Base.{
  ℕ, ◌-◌, ◌^◌, Bool, false, not, ◌&&◌, List, [], ◌∷◌, Option, none, some, ◌>>=◌, ◌==◌,
  if◌then◌else◌,
}
use sist_distrib2c.Message.{Reservation}
use sist_distrib2c.Channel.{Channel}

abbrev pub error_no_error : ℕ
error_no_error = 0

abbrev pub error_cinema_close_connection : ℕ
error_cinema_close_connection = 1

abbrev pub error_cannot_connect_to_cinema : ℕ
error_cannot_connect_to_cinema = 2

abbrev pub error_on_disconnect_cinema : ℕ
error_on_disconnect_cinema = 3

abbrev pub error_general_error : ℕ
error_general_error = 4

abbrev pub error_mom_already_init : ℕ
error_mom_already_init = 5

abbrev pub error_mom_not_initialized : ℕ
error_mom_not_initialized = 6

abbrev pub undefined_client_id : ℕ
undefined_client_id = 2 ^ 32 - 123

pub record MomError : Type 0 where
  pub error_type : ℕ
  pub info : List ℕ

-- Thread, shared memory and mutex are left out; `has_update_data` is whether
-- `listener_extern_data` is not null.
pub record Client : Type 0 where
  pub mom_queue : Channel
  pub listener_updates_position : ℕ
  pub has_update_data : Bool
  pub reservations : List Reservation
  pub local_id : ℕ
  pub cinema_id : ℕ
  pub connected : Bool
  pub error : MomError

abbrev pub Clients : Type 0
Clients = List (ℕ × Client)

unfoldable pub find : Clients → ℕ → Option Client
find [] fd = none
find ((k, client) ∷ clients) fd = if k == fd then some client else find clients fd

-- `CLIENTS[fd] = client`, and a write through a pointer to that entry.
unfoldable pub store : ℕ → Client → Clients → Clients
store fd client [] = (fd, client) ∷ []
store fd client ((k, old) ∷ clients) =
    if k == fd then (fd, client) ∷ clients else (k, old) ∷ store fd client clients

-- `CLIENTS.erase(fd)`.
unfoldable pub erase : ℕ → Clients → Clients
erase fd [] = []
erase fd ((k, client) ∷ clients) =
    if k == fd then erase fd clients else (k, client) ∷ erase fd clients

-- `_getClient`; `none` is the null pointer. What it prints is left out.
unfoldable pub get_client : Clients → ℕ → Bool → Option Client
get_client clients fd check_connection = do
  client ← find clients fd
  if check_connection && not client.connected then none else some client

abbrev pub with_error : Client → ℕ → List ℕ → Client
with_error client error_type info = record client {
  error = record { error_type = error_type; info = info };
}

abbrev pub clean_error : Client → Client
clean_error client = with_error client error_no_error []

-- `cancelled` is whether `pthread_cancel` gives 0.
abbrev pub end_listener_thread : Client → Bool → Client
end_listener_thread client cancelled =
    if cancelled then record client { has_update_data = false } else client
