-- ===== src/Lib.antt =====
-- SistDistrib2C is a cinema whose clients reserve seats over a network. A client program calls the
-- client interface, which talks over System V queues to the middleware of its host; the middleware
-- relays over a TCP connection to the cinema, which serves each client in a process of its own and
-- forwards requests to the administrator, who keeps rooms, seats and reservations in SQLite.
--
-- Base holds what the parts share: native numbers, lists measured by them, Boolean tests, Option,
-- texts, and machine words as numbers below 2 ^ 32.
-- Message is include/constants.h and include/messages/message.h: q_message and its union.
-- Wire is src/network/socket.cpp: serialize_message, deserialize_message, send_packet and
-- receive_packet. A run of send or recv is a list of the answers of the socket; what the receiver's
-- message held before is the record Held.
-- Arrays is std::copy into a C array, where admin.cpp and client_interface.cpp call it.
-- Channel is src/ipc/communicationqueue.cpp: which queue and type a call sends to or waits for. The
-- message queues of the kernel are a parameter: Channel.Queues has queue_send and queue_receive of
-- src/ipc/queue.cpp over msgsnd and msgrcv with their documented behaviour, and Channel.Delivery any
-- sequence of such calls by any processes, whatever types they ask for.
-- Db is src/db/db_api.cpp. SQLite is a parameter: Db.Sqlite has its operations and the documented
-- behaviour that the program relies on, Db.Memory an engine in memory that has it.
-- Admin is src/admin/admin.cpp: admin_handle_request, branch by branch, and in Daemon the start of
-- admin_daemon and a round of each of its loops. Admin.Program is the same handler as a program of
-- single calls, and Admin.Handlers the daemon with all the processes that it forks: a step is one
-- call of one of them on the database they share.
-- Cinema is src/cinema/cinema.cpp and src/cinema/cinema_handler.cpp: taking a client, serving it
-- until it leaves, the timer that ends an idle connection, and a round of the network relay.
-- Cinema.Session is the process that serves a client and its timer at the same time, over the queues
-- and the timestamps in shared memory: a step is one call of one of the two, or of another process.
-- Mom is src/middleware/mom.cpp: the session of a client, the listener for seat updates,
-- and a round of each relay. Mom.Relay is the process that fork_client forks, over the queues of the
-- kernel, call by call.
-- Client is src/middleware/client_interface.cpp: the registry CLIENTS and every call.
-- Terminal is src/client/client.cpp: what the user types, and client_start as a machine over its
-- labels that calls Client.
-- Ipc is src/ipc/queue.cpp, src/ipc/semaphore.cpp and src/ipc/sharedmemory.cpp, and the creation of a
-- channel. The kernel is a parameter: Ipc.Kernel has the system calls and the documented behaviour of
-- a semaphore, and Ipc.Mutex the processes that share one.
-- Setup is src/utils/database_data_init.cpp, and Setup.Resources is src/utils/initializer.cpp and
-- src/utils/destructor.cpp.
-- Network is src/network/network_comm.cpp with the wrappers of socket calls in src/network/socket.cpp,
-- over a parameter.
-- Examples are concrete inputs.
--
-- The stateful code is explicit state passing: an operation takes the state and what it receives from
-- the environment (a message, the pid that fork returns, the clock) and returns the state after and
-- the calls it makes on queues, in order. Undefined behaviour of C++ (an access out of bounds, a null
-- pointer that is followed) and the exit of THROW_UTIL are `none`, or an outcome of their own. Loops
-- that wait for ever are functions of the finite list of what they receive, so there is no fuel; a
-- loop over a count goes round as often as the int allows (`rounds`).
--
-- Not modelled: what is printed, the creation of processes other than the handlers of the
-- administrator, the opening and closing of the database file, the loops that accept connections and
-- fork, the set-up of the sockets of the middleware, and the test programs (test).
pub mod Base
pub mod Message
pub mod Wire
pub mod Arrays
pub mod Channel
pub mod Db
pub mod Admin
pub mod Cinema
pub mod Mom
pub mod Client
pub mod Terminal
pub mod Ipc
pub mod Setup
pub mod Network
pub mod Examples
