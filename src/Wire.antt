-- ===== src/Wire.antt =====
-- src/network/socket.cpp: the bytes that a message has on a TCP connection.
mod Memory
mod Encode
mod Decode
pub mod Arrays
pub mod Arrival
mod Delivery
pub mod RoundTrip
pub mod Packet
pub mod Transfer
pub mod Flags
unfoldable pub use Encode.*
unfoldable pub use Decode.*
unfoldable pub use Memory.{store_int, load_int, htonl, ntohs}
