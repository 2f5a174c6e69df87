-- ===== src/Examples/Network.antt =====
-- Sockets of which the one with the descriptor 3 listens, once it has been told to, and has a peer.
use sist_distrib2c.Base.{ℕ, ◌≡◌, ◌⊎◌, refl, some, none, codes}
use sist_distrib2c.Network.{
  Sockets, SocketLaws, Peer, NetworkComm, done, undefined, htons, network_prepare_accept,
  network_accept_connection, network_accept_connection_lem, bind_socket, listen_socket,
}

abbrev client : Peer
client = record { ip_addr = codes "192.168.1.7"; port = 8090 }

-- The state is the value of SO_ACCEPTCONN.
abbrev sockets : Sockets
sockets = record {
  State = ℕ;
  socket = λ s. (3, s);
  connect = λ fd ip_addr port s. (0, s);
  bind = λ fd ip_addr port s. (0, s);
  listen = λ fd backlog s. (0, 1);
  acceptconn = λ fd s. (0, s);
  accept = λ fd s. (some (4, client), s);
  close = λ fd s. (0, s);
}

laws : SocketLaws sockets
laws = record { listening = λ fd backlog s h. refl }

abbrev server : NetworkComm
server = record { port = 8080; ip_addr = codes "192.168.1.102"; sock_fd = 3 }

prepared : network_prepare_accept sockets server 0 ≡ done 0 1
unfolding network_prepare_accept bind_socket listen_socket
prepared = refl

network_accept_connection_lem_example :
    (((sockets.accept 3 1).0 ≡ none) × (network_accept_connection sockets server 1 ≡ undefined))
    ⊎ ((fd : ℕ) × (peer : Peer) × ((sockets.accept 3 1).0 ≡ some (fd, peer))
        × (network_accept_connection sockets server 1
            ≡ done (record { port = htons peer.port; ip_addr = peer.ip_addr; sock_fd = fd }) 1))
network_accept_connection_lem_example =
    network_accept_connection_lem sockets laws server 0 1 0 prepared
