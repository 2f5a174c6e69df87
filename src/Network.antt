-- ===== src/Network.antt =====
-- src/network/network_comm.cpp and the wrappers of socket.cpp under it. The socket calls are a
-- parameter.
use sist_distrib2c.Base.{
  ℕ, ◌+◌, ◌*◌, ◌/◌, ◌%◌, ◌≡◌, refl, ap, ◌∙◌, ◌⊎◌, Bool, true, false, List, Option, none, some, ◌==◌,
  if◌then◌else◌, Option-cases, inl, inr,
}
use sist_distrib2c.Base.Words.{is_negative, minus_one}

-- The peer of an accepted connection: its address as text and its port.
pub record Peer : Type 0 where
  pub ip_addr : List ℕ
  pub port : ℕ

pub record Sockets : Type 1 where
  pub State : Type 0
  -- `socket(AF_INET, SOCK_STREAM, 0)`.
  pub socket : State → ℕ × State
  -- With the address that `inet_pton` and `htons` make of a text and a port.
  pub connect : ℕ → List ℕ → ℕ → State → ℕ × State
  pub bind : ℕ → List ℕ → ℕ → State → ℕ × State
  pub listen : (fd backlog : ℕ) → State → ℕ × State
  -- `getsockopt` for SO_ACCEPTCONN: its result, and the value.
  pub acceptconn : ℕ → State → ℕ × ℕ
  -- The descriptor and the peer, or the failure, which is -1 and writes no peer.
  pub accept : ℕ → State → Option (ℕ × Peer) × State
  pub close : ℕ → State → ℕ × State

-- The documented behaviour: a socket on which `listen` has succeeded accepts connections.
pub record SocketLaws (k : Sockets) : Type 0 where
  pub listening :
      (fd backlog : ℕ) (s : k.State)
      → is_negative (k.listen fd backlog s).0 ≡ false
      → k.acceptconn fd (k.listen fd backlog s).1 ≡ (0, 1)

-- A call ends with a value, by `THROW_UTIL`, or with behaviour that C++ leaves undefined.
pub data Ended {ℓ κ} (S : Type ℓ) (A : Type κ) : Type (ℓ ⊔ κ) where
  done : A → S → Ended S A
  exits : Ended S A
  undefined : Ended S A

infixl 5 ◌>>=◌
abbrev ◌>>=◌ {ℓ κ μ} :
    {S : Type ℓ} {A : Type κ} {B : Type μ} → Ended S A → (A → S → Ended S B) → Ended S B
done a s >>= f = f a s
exits >>= f = exits
undefined >>= f = undefined

pub record NetworkComm : Type 0 where
  pub port : ℕ
  pub ip_addr : List ℕ
  pub sock_fd : ℕ

abbrev max_backlog_conn : ℕ
max_backlog_conn = 20

-- A port in the order of the network.
abbrev pub htons : ℕ → ℕ
htons p = p % 256 * 256 + p / 256

module _ (k : Sockets) where
  open k use {State}

  -- The exit for a negative result.
  abbrev checked : ℕ × State → Ended State ℕ
  checked (result, after) = if is_negative result then exits else done result after

  unfoldable pub create_sock_fd : State → Ended State ℕ
  create_sock_fd s = checked (k.socket s)

  unfoldable pub connect_socket : ℕ → List ℕ → ℕ → State → Ended State ℕ
  connect_socket sock_fd ip_addr port s = checked (k.connect sock_fd ip_addr port s)

  unfoldable pub bind_socket : ℕ → List ℕ → ℕ → State → Ended State ℕ
  bind_socket sock_fd ip_addr port s = checked (k.bind sock_fd ip_addr port s)

  unfoldable pub listen_socket : ℕ → State → Ended State ℕ
  listen_socket sock_fd s = checked (k.listen sock_fd max_backlog_conn s)

  -- The peer is written through `client_info` only when `accept` succeeds.
  unfoldable pub accept_connection : ℕ → State → Ended State (Option (ℕ × Peer))
  accept_connection sock_fd s =
      let (result, value) = k.acceptconn sock_fd s in
      let (accepted, after) = k.accept sock_fd s in
      if result == minus_one then exits else if value == 0 then exits else done accepted after

  unfoldable pub close_socket : ℕ → State → Ended State ℕ
  close_socket sock_fd s = checked (k.close sock_fd s)

  unfoldable pub network_newconn : List ℕ → ℕ → State → Ended State NetworkComm
  unfolding create_sock_fd
  network_newconn ip_addr port s = create_sock_fd s >>= λ fd after.
      done (record { port = port; ip_addr = ip_addr; sock_fd = fd }) after

  unfoldable pub network_prepare_accept : NetworkComm → State → Ended State ℕ
  unfolding bind_socket listen_socket
  network_prepare_accept net_com s =
      bind_socket net_com.sock_fd net_com.ip_addr net_com.port s >>= λ bound after.
      listen_socket net_com.sock_fd after

  -- The result of `accept` is not looked at: after a failure the address that is read was never written.
  abbrev pub client_data : Option (ℕ × Peer) → State → Ended State NetworkComm
  client_data none s = undefined
  client_data (some (fd, peer)) s =
      done (record { port = htons peer.port; ip_addr = peer.ip_addr; sock_fd = fd }) s

  unfoldable pub network_accept_connection : NetworkComm → State → Ended State NetworkComm
  unfolding accept_connection
  network_accept_connection net_com s = accept_connection net_com.sock_fd s >>= client_data

  unfoldable pub network_connect : NetworkComm → State → Ended State ℕ
  unfolding connect_socket
  network_connect net_com s = connect_socket net_com.sock_fd net_com.ip_addr net_com.port s

  unfoldable pub network_delete : NetworkComm → State → Ended State ℕ
  unfolding close_socket
  network_delete net_com s = close_socket net_com.sock_fd s

  checked_test :
      (bad : Bool) (result : ℕ) (after : State) {r : ℕ} {s : State}
      → (if bad then exits else done result after) ≡ done r s
      → (s ≡ after) × (bad ≡ false)
  checked_test true result after h = cc
  checked_test false result after h = (cc, refl)

  >>=-eq-done {ℓ κ} :
      {A : Type ℓ} {B : Type κ} (m : Ended State A) (f : A → State → Ended State B) {b : B}
      {s : State}
      → (m >>= f) ≡ done b s
      → (a : A) × (t : State) × (m ≡ done a t) × (f a t ≡ done b s)
  >>=-eq-done (done a t) f h = (a, t, refl, h)
  >>=-eq-done exits f h = cc
  >>=-eq-done undefined f h = cc

module _ (k : Sockets) (laws : SocketLaws k) (net_com : NetworkComm) (s s' : k.State) (r : ℕ)
    (prepared : network_prepare_accept k net_com s ≡ done r s') where
  accepts : k.acceptconn net_com.sock_fd s' ≡ (0, 1)
  unfolding network_prepare_accept listen_socket
  accepts =
      let (bound, t, _, listened) =
        >>=-eq-done k (bind_socket k net_com.sock_fd net_com.ip_addr net_com.port s) _ prepared in
      let (same, fine) =
        checked_test k (is_negative (k.listen net_com.sock_fd max_backlog_conn t).0) _ _ listened in
      ap (λ x. k.acceptconn net_com.sock_fd x) same
      ∙ laws.listening net_com.sock_fd max_backlog_conn t fine

  -- On a socket that network_prepare_accept has set up, network_accept_connection never exits: when `accept`
  -- succeeds it returns the descriptor and the address of the peer, and the port as it stands on the
  -- network, not as a number of the host; when `accept` fails, what it does is undefined.
  pub network_accept_connection_lem :
      (((k.accept net_com.sock_fd s').0 ≡ none)
        × (network_accept_connection k net_com s' ≡ undefined))
      ⊎ ((fd : ℕ) × (peer : Peer) × ((k.accept net_com.sock_fd s').0 ≡ some (fd, peer))
          × (network_accept_connection k net_com s'
              ≡ done
                  (record { port = htons peer.port; ip_addr = peer.ip_addr; sock_fd = fd })
                  (k.accept net_com.sock_fd s').1))
  unfolding network_accept_connection accept_connection
  network_accept_connection_lem = elim (Option-cases (k.accept net_com.sock_fd s').0) [
    | inl failed ↦ inl (failed, rw (accepts, failed) refl)
    | inr ((fd, peer), accepted) ↦ inr (fd, peer, accepted, rw (accepts, accepted) refl)
  ]
