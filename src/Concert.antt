-- ===== src/Concert.antt =====
-- The whole way of a MIDI file: from the calls of the parser to what each client plays. It joins
-- handle_load and handle_play of server/cmd_handlers.c, server_thread of server/server_thread.c, and
-- the loop of client/client.c.
pub mod Events
pub mod Whole
