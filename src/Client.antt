-- ===== src/Client.antt =====
-- src/middleware/client_interface.cpp: the interface that a client program calls. `CLIENTS` is an
-- association list. The message that a call receives, and whether `pthread_cancel` and
-- `pthread_create` give 0, are arguments; a call returns the clients after, the actions on the
-- queues in order, and its value. `none` is a null pointer that is followed, a write past an array,
-- or the exit of `THROW_UTIL`. Waiting and printing are left out.
pub mod Registry
pub mod Exchange
pub mod Browsing
pub mod Booking
pub mod Session
pub mod Reserving
pub mod Closing
pub mod Lifecycle
pub mod Polling
