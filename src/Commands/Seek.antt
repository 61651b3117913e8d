-- ===== src/Commands/Seek.antt =====
-- What `handle_seek` of server/cmd_handlers.c makes of a number and of a percentage.
