-- ===== src/Checks/Partial.antt =====
-- A witness for reads of client/client.c that come short.
use mks65_symphony.Prelude.{replicate}
use mks65_symphony.Midi.{Bytes}

-- 256 bytes.
abbrev long_file : Bytes
long_file = replicate 256 77
