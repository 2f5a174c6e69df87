-- ===== src/Admin/Handlers/Interleaving.antt =====
-- Reservations while the handlers of many requests run at the same time.
use sist_distrib2c.Base.{ℕ, ◌≤◌, ◌≡◌, ◌≢◌, refl, ◌∙◌, true, length}
use sist_distrib2c.Channel.{Channel}
use sist_distrib2c.Db.{Engine, EngineLaws, reservations}
use sist_distrib2c.Db.Keys.{Keyed, exec-Keyed, bookings, bookings-Distinct}
use sist_distrib2c.Admin.Ownership.{of_user, holds_paid, of_user-apply, holds-apply, exec_keeps}
use sist_distrib2c.Admin.Handlers.{Daemon, Reach}
use sist_distrib2c.Admin.Handlers.Executing.{Reach-keeps}

module _ (e : Engine) (laws : EngineLaws e) (activity channel : Channel) (Client : ℕ → Type 0)
    (db : e.Db) (d : Daemon e) (reach : Reach e activity channel Client db d) where
  -- However the handlers of any requests are interleaved, call by call, no seat is booked twice: if no
  -- two rows of any table have the same primary key at the start, then none have in any state reached,
  -- and every seat of every room has one reservation at most, whoever holds it.
  pub Reach-bookings :
      (room seat : ℕ)
      → Keyed (e.rows db)
      → Keyed (e.rows d.db) × (length (bookings room seat (e.rows d.db reservations)) ≤ 1)
  Reach-bookings room seat keyed =
      let after : Keyed (e.rows d.db) =
        Reach-keeps e activity channel (λ c. Keyed (e.rows c))
          (λ u client s issued c k. exec-Keyed e laws s c k) keyed reach in
      (after, bookings-Distinct room seat (e.rows d.db reservations) (after reservations))

  -- However the handlers of any requests are interleaved, a paid reservation stays.
  pub Reach-holds_paid :
      (v room seat : ℕ)
      → holds_paid v room seat (e.rows db reservations) ≡ true
      → holds_paid v room seat (e.rows d.db reservations) ≡ true
  Reach-holds_paid v room seat held =
      Reach-keeps e activity channel (λ c. holds_paid v room seat (e.rows c reservations) ≡ true)
        (λ u client s issued c h.
          exec_keeps e laws (λ rows. holds_paid v room seat rows ≡ true) s c
            (holds-apply v room seat u s _ (e.rows c) issued) h)
        held reach

  -- However the handlers of the requests of other users are interleaved, the reservations of a user
  -- stay as they were: the same rows, paid flags included, in the same order.
  pub Reach-of_user :
      (v : ℕ)
      → ((u : ℕ) → Client u → v ≢ u)
      → of_user v (e.rows d.db reservations) ≡ of_user v (e.rows db reservations)
  Reach-of_user v others =
      Reach-keeps e activity channel
        (λ c. of_user v (e.rows c reservations) ≡ of_user v (e.rows db reservations))
        (λ u client s issued c same.
          exec_keeps e laws (λ rows. of_user v rows ≡ of_user v (e.rows db reservations)) s c
            (λ q. of_user-apply v u s _ (e.rows c) (others u client) issued ∙ q) same)
        refl reach
