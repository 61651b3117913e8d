-- ===== src/Commands/State.antt =====
-- The globals of server/cmd_handlers.c, and what its handlers get from outside.
use mks65_symphony.Prelude.{ℕ, Bool, true, false, Option, none, List, []}
use mks65_symphony.Midi.{Bytes, Mfile}
use mks65_symphony.Reader.Parser.{Trace}
use mks65_symphony.Writer.{MidiFileWriter}
use mks65_symphony.Player.{Fluid, PlayerState, at_start}

pub data Stat : Type 0 where
  stat_failed a_directory another_file : Stat

-- Whether SERVER_NOPLAY is defined, fluidsynth with its `fluid_is_midifile`, the parser and the
-- writer of MIDI files, how many bytes can be used of a block for which malloc was asked for `n`, and
-- the file system.
pub record Host : Type 0 where
  pub server_noplay : Bool
  pub fluid : Fluid
  pub is_midifile : Bytes → Bool
  pub opens : Bytes → Bool
  pub parse : Bytes → Trace
  pub writer : MidiFileWriter
  pub usable : ℕ → ℕ
  pub can_write : Bytes → Bool
  pub cwd : Bytes
  pub stat : Bytes → Stat

-- The list of clients by the number that each thread was given; `barrier` is the count of the
-- barrier, `none` until `barrier_initialized`; `midi_out` are the files written, by name.
pub record ServerState : Type 0 where
  pub mfile : Option Mfile
  pub clients : List ℕ
  pub tid : ℕ
  pub accepting_clients : Bool
  pub midi_ready : Bool
  pub barrier : Option ℕ
  pub running : Bool
  pub tmp_dir : Option Bytes
  pub midi_out : List (Bytes × Bytes)
  pub player : PlayerState

abbrev pub new_server : ServerState
new_server = record {
  mfile = none;
  clients = [];
  tid = 0;
  accepting_clients = true;
  midi_ready = false;
  barrier = none;
  running = true;
  tmp_dir = none;
  midi_out = [];
  player = at_start;
}
