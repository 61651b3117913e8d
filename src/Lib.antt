-- ===== src/Lib.antt =====
-- MKS65-symphony: a MIDI file played in parts by several computers. The server (server/) reads a
-- file with the midifile library, splits its tracks among the clients that are connected, writes a
-- file for each, sends it to the client over TCP and, when all have theirs, tells them to play. The
-- client (client/) takes the file into fluidsynth and does what the server's bytes say.
--
-- Parts, files and code. A definition has the name of the C function, structure or macro that it
-- translates, in lower case with _; a helper stands for a loop or a branch of it.
--   Midi         server/midi.h, server/midi.c: Mfile, Mtrack, Mevent, the constructors, append_mevent,
--                Mtrack_copy. Midi/Chain has the invariant of a track, Midi/Replay what its
--                delta times mean, Midi/Reverse reverse_memcpy.
--   Reader       server/midi_reader.c: each callback of the parser as a function on the Mfile that is
--                built, `dispatch` as bindfcns binds them; Reader/Load has Mfile_from_file,
--                Reader/Reported what the parser reports, against what is kept.
--   Splitter     server/midi_splitter.c: track_num_map and Mfile_split_by_tracks, for formats 0, 1, 2.
--   Writer       server/midi_writer.c: what is handed to the library for each event, track and file.
--   Transfer     sendall of server/server_thread.c, recvall of client/socket_client.c, htonl, ntohl.
--   Session      server_thread of server/server_thread.c, as what it writes to its client;
--                Session/Meeting and Session/Program put it at the other end of a client.
--   Threads      the same function and the main thread as steps over the condition variable, the barrier
--                and the list of threads, one thread at a time, in any order; Run has `reconnect`.
--   Client       client/client.c, confirm_connection, client_protocol.h: the loop over the bytes;
--                Client/Main is the whole of main, from the arguments to the end.
--   Shell        server/shell.c with parse_line and count_char of server/utils.c: from a line to the
--                handler that is called.
--   Commands     server/cmd_handlers.c: the handlers over the server's globals (Commands/State),
--                the files of the clients (Commands/Files), the decimal numbers (Commands/Numbers).
--   Server       the loop of main in server/shell.c: lines and connections, one after the other;
--                Server/Main is the whole of main with its signals and its ends.
--   Memory       the heap: the event nodes of server/midi.c with append_mevent and free_Mfile
--                (Memory/Tracks), the list of threads of server/server_thread.c with the frees of
--                quit and reconnect (Memory/Threads). Memory/Cells and Memory/Chain are the lemmas.
--   Roundtrip    a file that the writer hands to mfwrite, and what the reader builds of it.
--   Player       server/midi_player.c, of which client/midi_player.c is a copy.
--   Sockets      setup_server of server/socket.c, connect_to of client/socket_client.c.
--   Concert      the whole way of a file, from the parser's calls to each client's player.
--   Prelude      shared names, tests, lists over the native numbers, and Result.
--   Checks       tests on concrete inputs, and a witness for each theorem with hypotheses.
--
-- How they interact. Shell calls Commands; handle_load calls Reader, handle_play calls Splitter,
-- Writer and Player, then sets what Threads waits for; Session sends a file of Commands/Files with
-- Transfer, and Client receives it with Transfer and hands it to the player.
--
-- How C is modelled. A function that can go wrong gives a Result: `ok`, or `trap` with the cause,
-- which is undefined behaviour (a null pointer, an index out of bounds, a variable that was never
-- set, a division by zero, overflow of an int), a failed assert, or exit. A null pointer is `none`,
-- and so is a returned -1. Integers are natural numbers, since no negative ones occur where the
-- guards let the code pass; wrap-around and conversion to 32 bits are written out (sub_ulong,
-- htonl, as_int); recvall, whose length is unsigned, traps where its int counters do not hold it. A `char *` is the bytes that can be read from it on; `c_str` cuts them at their
-- first NUL. Loops are recursion on what they walk along. Fuel is used where they wait or consume:
-- store_tokens has the length of the line plus one, digits the number plus one, each of which is
-- enough; sendall and recvall go along the replies of the system's calls, and
-- out_of_fuel there means that the call is still waiting; client_run counts rounds of a loop that
-- has no end of its own; free_chain and cancel_each, which follow pointers, have one more than the
-- nodes of the list, which is enough.
--
-- The heap is a function from addresses to objects, and a program on it gives the heap that it
-- leaves or a trap: a read, a write or a free at an address that holds nothing. The addresses that
-- malloc gives are arguments (Arrival), and the theorems ask that they are different and unused.
--
-- What is not under server/ and client/ is a parameter: the calls that mfread makes (Trace),
-- mfwrite (MidiFileWriter), the two together (MidiLibrary: mfread calls back what mfwrite was
-- given), fluidsynth (Fluid), the replies of send and recv (lists, Stream,
-- Replies), the file system (Host), the addresses of getaddrinfo (Attempt). Their hypotheses say
-- that a socket delivers its bytes in order (Delivers), that send takes all (Takes, Works), that
-- mfwrite calls back once for each track (MidiFileWriter), and that fluidsynth has memory
-- (HasMemory). A read gives what has arrived (Stream.arrived); where a theorem is about a client that
-- meets no short read, it is about a stream of which all has arrived (arrived = none).
--
-- Choices. Mevent_copy and Mfile_from_headers end without a return statement; they are modelled as
-- returning what they have built. track_num_map asks malloc for a byte where it needs an int; how many
-- bytes of a block can be used is a parameter (usable, Host.usable), and a write behind them a trap. A
-- step of Threads is everything between two calls that wait, for one thread; exit of the whole server
-- when a client's file cannot be opened ends every run there, and stands in Session and Server/Main.
-- Reach is a run of Threads without `reconnect`, of which the theorems speak; Run is one with it.
-- handle_play stops at pthread_barrier_wait, and goes on in Threads; Server goes on as if the wait had
-- ended.
--
-- Not modelled: Mtrack_copy on the heap, with the data blocks that its copies share; readline's
-- terminal, which is calls of a library; output and messages, but for those of the shell;
-- server/midifile.c, another project's library; exp/ and main.c, experiments. A signal is met where
-- select waits; select that it interrupts is not started again.
pub mod Prelude
pub mod Midi
pub mod Splitter
pub mod Reader
pub mod Writer
pub mod Transfer
pub mod Checks
pub mod Client
pub mod Threads
pub mod Session
pub mod Shell
pub mod Player
pub mod Commands
pub mod Sockets
pub mod Concert
pub mod Server
pub mod Memory
pub mod Roundtrip
