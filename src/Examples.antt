-- ===== src/Examples.antt =====
-- Concrete inputs for the theorems of the library.
mod Wire
mod Admin
mod Handlers
mod Booking
mod Cinema
mod Client
mod Terminal
mod Ipc
mod Setup
mod Network
mod Endless
mod Queues
mod Sessions
mod Relays
