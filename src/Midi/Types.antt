-- ===== src/Midi/Types.antt =====
-- The structures of server/midi.h and the MIDI constants of server/midifile.h that they use.
-- A `char *` is the bytes that can be read from it on; a null pointer is `none`.
use mks65_symphony.Prelude.{ℕ, Bool, Option, List}

abbrev pub Bytes : Type 0
Bytes = List ℕ

abbrev pub note_off : ℕ
note_off = 0x80

abbrev pub note_on : ℕ
note_on = 0x90

abbrev pub poly_aftertouch : ℕ
poly_aftertouch = 0xa0

abbrev pub control_change : ℕ
control_change = 0xb0

abbrev pub program_chng : ℕ
program_chng = 0xc0

abbrev pub channel_aftertouch : ℕ
channel_aftertouch = 0xd0

abbrev pub pitch_wheel : ℕ
pitch_wheel = 0xe0

abbrev pub system_exclusive : ℕ
system_exclusive = 0xf0

abbrev pub sequence_number : ℕ
sequence_number = 0x00

abbrev pub text_event : ℕ
text_event = 0x01

abbrev pub copyright_notice : ℕ
copyright_notice = 0x02

abbrev pub sequence_name : ℕ
sequence_name = 0x03

abbrev pub instrument_name : ℕ
instrument_name = 0x04

abbrev pub end_of_track : ℕ
end_of_track = 0x2f

abbrev pub set_tempo : ℕ
set_tempo = 0x51

abbrev pub smpte_offset : ℕ
smpte_offset = 0x54

abbrev pub time_signature : ℕ
time_signature = 0x58

abbrev pub key_signature : ℕ
key_signature = 0x59

abbrev pub sequencer_specific : ℕ
sequencer_specific = 0x7f

-- `data[2]` is the two fields `param1` and `param2`, each the bit pattern of a `char`.
pub record MeventRegular : Type 0 where
  pub type : ℕ
  pub chan : ℕ
  pub param1 : ℕ
  pub param2 : ℕ
  pub len : ℕ

pub record MeventSysex : Type 0 where
  pub msg : Option Bytes
  pub len : ℕ

pub record MeventMeta : Type 0 where
  pub type : ℕ
  pub len : ℕ
  pub bytes : Option Bytes

-- The union with its tag `mtype`.
pub data MeventData : Type 0 where
  regular : MeventRegular → MeventData
  sysex : MeventSysex → MeventData
  meta : MeventMeta → MeventData

-- Times are `unsigned long`: below 2 ^ 64.
pub record Mevent : Type 0 where
  pub deltatime : ℕ
  pub curtime : ℕ
  pub event_data : MeventData

-- `events` is the chain from `first` to `last`.
pub record Mtrack : Type 0 where
  pub is_tempotrack : Bool
  pub events : List Mevent
  pub len : ℕ
  pub name : Option Bytes
  pub text : Option Bytes
  pub instrument : Option Bytes

-- A slot of `tracks` that nothing was stored in holds a null pointer.
pub record Mfile : Type 0 where
  pub format : ℕ
  pub division : ℕ
  pub has_tempotrack : Bool
  pub ntracks : ℕ
  pub tracks : List (Option Mtrack)
  pub cur_track : Option Mtrack
  pub cur_track_index : ℕ
  pub filename : Option Bytes
  pub fullpath : Option Bytes
  pub music_name : Option Bytes
  pub info_text : Option Bytes
  pub copyright_info : Option Bytes
