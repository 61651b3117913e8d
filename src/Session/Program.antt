-- ===== src/Session/Program.antt =====
-- The client's whole program against the thread that the server runs for it.
