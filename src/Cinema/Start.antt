-- ===== src/Cinema/Start.antt =====
-- `cinema_start`, and the timestamps in shared memory, of src/cinema/cinema.cpp.
use sist_distrib2c.Base.{ℕ, refl, ◌==◌, if◌then◌else◌, inr, arith}
use sist_distrib2c.Message.{admin_request}
use sist_distrib2c.Channel.{Channel, commqueue_as_server, commqueue_as_client}
use sist_distrib2c.Channel.Routing.{AreOpposite}
use sist_distrib2c.Db.{Engine}
use sist_distrib2c.Admin.Daemon.{admin_daemon}
use sist_distrib2c.Cinema.{Cinema}

-- The shared memory as a function of the client's position; the semaphore is left out.
unfoldable pub update_timestamp : (ℕ → ℕ) → ℕ → ℕ → ℕ → ℕ
update_timestamp timer client_position new_value position =
    if position == client_position then new_value else timer position

unfoldable pub get_timestamp : (ℕ → ℕ) → ℕ → ℕ
get_timestamp timer client_position = timer client_position

-- The arguments are what `create_commqueue` returns for the clients and for the admin. The client's
-- id is not set yet.
unfoldable pub cinema_start : Channel → Channel → ℕ → Cinema
cinema_start client admin client_id = record {
  client_comm = record client { orientation = commqueue_as_server };
  admin_comm = record admin { orientation = commqueue_as_client; id = admin_request };
  client_id = client_id;
}

-- The cinema and the administrator open the same channel from opposite sides.
pub cinema_start-AreOpposite :
    (e : Engine) (db : e.Db) (client admin : Channel) (client_id : ℕ)
    → AreOpposite (cinema_start client admin client_id).admin_comm (admin_daemon e db admin).1
unfolding cinema_start admin_daemon
cinema_start-AreOpposite e db client admin client_id = record {
  first = refl;
  second = refl;
  sides = inr (omega arith, refl);
}
