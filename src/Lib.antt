-- ===== src/Lib.antt =====
-- Pyramid: a server that divides jobs among clients by multicast groups, its clients and a command
-- line. The parts exchange messages of type, length and value over TCP.
--
-- The parts and their files:
-- - Prelude: shared names, Boolean tests, lists over native numbers, integers for the C `int`.
-- - Wire: memory as lists of bytes, byte order, and `Run`, the result of code that may leave an
--   array (`fault`) or be cut short by its fuel (`out_of_fuel`).
-- - Tlv: common/src/tlv.h and common/src/tlv.c. `encode` appends a message to a buffer, and `decode`
--   reads the one at a pointer; each encoder has its name from the source.
-- - Messages: the loop of `handleClientMessage` (server/src/server.c), `handleServerMessage`
--   (client/src/client.c) and `handleNetworkMessage` (client/src/cli_commands.c), with the handler
--   as a parameter. Messages/Network.antt has the handler of the last, `handle_data`, and
--   Messages/Invariant.antt says that the loop keeps what every call of its handler keeps.
-- - Sending: `sh_send_encoded_data` (server/src/server_helper.c), `send_data` and
--   `send_joining_groups` (client/src/client.c) and `request_cli_data` (client/src/cli_commands.c),
--   with the system call `send` as a parameter.
-- - Links: the doubly linked lists of server/src/groups.c, with a map for each link field.
-- - Groups: the multicast groups of server/src/groups.c, with `malloc` as a parameter.
-- - Registry: the hash table of clients in the same file. Registry/Invariant.antt says when the table,
--   the groups and the clients' chains fit together, Registry/Removal.antt and Registry/Joined.antt
--   are about single operations, Registry/Reach.antt about any sequence of them, and
--   Registry/Fuel.antt about the rounds that a removal takes.
-- - Receive: the loop over `recv` in `receive_data` (server/src/server.c) and `receive_exec_request`
--   (client/src/client.c); Receive/Invariant.antt says that it keeps what its handler keeps.
-- - Jobs: server/src/jobs.h and server/src/jobs.c. Jobs.antt has the state, the queue of pending
--   parts, the mutexes and `freeClient`; Jobs/Assign.antt `assignJob` and `assign_pending_job`;
--   Jobs/Reserve.antt `addClientToJob` and `addJob`; Jobs/Reassign.antt `reassign_job`; and
--   Jobs/Flow.antt `initializeJobDll`, `initJob`, `updateJobResult` and `removeJob`. Jobs/Kept.antt
--   says what they leave of the clients. Jobs/Added.antt, Jobs/Reserved.antt, Jobs/Group.antt,
--   Jobs/Started.antt, Jobs/Assigned.antt and Jobs/Init.antt follow a new job to the parts that its
--   clients are told.
-- - Cli: client/src/cli_commands.c. Cli.antt has `cli_parse_line` and the choice of the command,
--   Cli/Requests.antt `parse_cli` and the strings that the commands send, Cli/Screens.antt the texts
--   that are printed, and Cli/Session.antt the commands, `receive_data` and `cli_main`, the loop over
--   the lines of the terminal. Cli/Words.antt and Cli/Lines.antt are about one line,
--   Cli/Dialogue.antt and Cli/Rounds.antt about one round, Cli/Conversation.antt about any number.
-- - Plugin: dynamic/src/api.h and dynamic/src/api.c.
-- - Central: the settings and `db_server_divide` of common/src/central_server.h and
--   common/src/central_server.c.
-- - Server: server/src/server_helper.c and server/src/server.c. Server.antt has the state, which
--   holds the jobs with the registry, and the calls of the system; Server/Display.antt the buffered
--   lists; Server/Replies.antt the replies, the settings and `submit_job`; Server/Command.antt
--   `sh_parse_cmd`; Server/Events.antt `handle_data`, `handleClientMessage` and `receive_data`;
--   Server/Start.antt the port and the tables; and Server/Loop.antt the sockets, the loop over the
--   events of epoll, the start of the threads and `main`. Server/Kept.antt, Server/Works.antt and
--   Server/Sound.antt follow the registry through all of them, Server/Reached.antt through any order
--   of events and works, and Server/Main.antt through `main`. Server/Chunks.antt describes a list
--   without a buffer, and Server/Buffer.antt, Server/Listing.antt and Server/Memberships.antt compare;
--   Server/Dialogue.antt and Server/Composition.antt follow one command from the command line and
--   back.
-- - Strtok: `strtok` and `strtok_r` with one delimiter.
-- - Worker: client/src/client.c. Worker.antt has the handling of a task, from the message over the
--   plug-in of Plugin to the answer, and `get_function_ptr` of common/src/dynamic_lib_interface.c;
--   Worker/Start.antt the arguments and the joining of groups; Worker/Round.antt follows a task from
--   the server's loop to the answer.
-- - Tests: the theorems at concrete inputs.
--
-- The calls that the functions of server/src/jobs.c make of `sh_send_encoded_data` are collected and
-- made behind the function, which reads no socket.
--
-- The sending loops put frames on a socket that the receiving loops take apart; the server's loop
-- hands a JOIN_GROUP message to the registry, which puts the client into its groups, and a result to
-- the jobs, which are made for the clients of a group.
--
-- Integers: `uint` and the 16-bit and 32-bit words of the wire are native numbers with the
-- wrap-around written out, and a C `int` is an integer whose overflow is a `fault`. The host is
-- little-endian.
--
-- Fuel: a loop that the source does not bound takes a number of rounds. A theorem that says what a
-- loop does also says how many rounds are enough: one more than the messages of a stream and one
-- for the end of each frame, two for a string that is sent whole, one more than the nodes of a
-- chain. A theorem on a loop that does not end holds for every number of rounds.
--
-- Parameters: the calls of the system and of the C library that read the outside world, `malloc`,
-- `atoi`, `strtol` and `strtoumax`, and the thread pool, to which works are added. Where a loop makes
-- a call again and again, as `recv`, `accept`, `epoll_wait` and the reading of a line, the results are
-- a list with one element for each call, and a list that is too short is `out_of_fuel`. `spare` says
-- whether the byte in front of a receive array is free for the NUL that the source puts there after
-- a `recv` that failed. A work is run by `submit_job` on the structure as it was added, although the
-- source adds the address of a local.
--
-- Not modelled: server/src/thpool.c, a copy of a library; common/src/logging.c, which prints the time;
-- and threads that run at the same time: a work runs as a whole, between two events of the loop,
-- and may be any work, whether a command has added it or not.
mod Prelude
pub mod Wire
pub mod Tlv
pub mod Messages
pub mod Receive
pub mod Sending
pub mod Links
pub mod Groups
pub mod Registry
pub mod Jobs
pub mod Cli
pub mod Central
pub mod Server
pub mod Strtok
pub mod Plugin
pub mod Worker
mod Tests
