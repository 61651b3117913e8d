-- ===== src/Reader/Parser.antt =====
-- What server/midi_reader.c binds its handlers to: the callbacks of the parser.
use mks65_symphony.Prelude.{ℕ, List}
use mks65_symphony.Midi.{Bytes}

-- A call that the parser makes. A `char *` is the bytes readable from it on.
pub data Callback : Type 0 where
  header : (format ntracks division : ℕ) → Callback
  trackstart : Callback
  trackend : Callback
  noteon : (chan pitch vel : ℕ) → Callback
  noteoff : (chan pitch vel : ℕ) → Callback
  pressure : (chan pitch pressure : ℕ) → Callback
  parameter : (chan control value : ℕ) → Callback
  pitchbend : (chan msb lsb : ℕ) → Callback
  program : (chan program : ℕ) → Callback
  chanpressure : (chan pressure : ℕ) → Callback
  sysex : (len : ℕ) (msg : Bytes) → Callback
  metamisc : (type len : ℕ) (msg : Bytes) → Callback
  seqspecific : (len : ℕ) (msg : Bytes) → Callback
  text : (type len : ℕ) (msg : Bytes) → Callback
  eot : Callback
  seqnum : (msg : Bytes) → Callback
  timesig : (msg : Bytes) → Callback
  smpte : (msg : Bytes) → Callback
  tempo : (msg : Bytes) → Callback
  keysig : (msg : Bytes) → Callback
  arbitrary : (len : ℕ) (msg : Bytes) → Callback
  error : (msg : Bytes) → Callback

-- The calls that `mfread` makes, in order.
abbrev pub Trace : Type 0
Trace = List (ℕ × Callback)
