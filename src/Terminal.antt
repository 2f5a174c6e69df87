-- ===== src/Terminal.antt =====
-- src/client/client.cpp: the client program, a terminal menu over the client interface. Printing is left
-- out; a line is what one `fgets` puts into `str`, and the program waits when there is no more.
pub mod Reading
pub mod Screens
pub mod Start
pub mod Menu
pub mod Closing
pub mod Paying
pub mod Reserving
