-- ===== src/Reader/Events.antt =====
-- The events that the reader of server/midi_reader.c keeps of the parser's callbacks.
use mks65_symphony.Prelude.{
  ℕ, ◌%◌, ◌^◌, ◌≡◌, true, none, some, List, [], ◌∷◌, ◌++◌, map, ◌==◌, leb, if◌then◌else◌, length,
  take,
}
use mks65_symphony.Midi.{Bytes, Mevent, MeventData, Mtrack, Mfile, c_str, has_nul}
use mks65_symphony.Midi.Chain.{IsChained}
use mks65_symphony.Reader.Parser.{Callback}
use Callback.{
  header, trackstart, trackend, noteon, noteoff, pressure, parameter, pitchbend, program,
  chanpressure, sysex, metamisc, seqspecific, text, eot, seqnum, timesig, smpte, tempo, keysig,
  error,
}

-- A channel message: its status byte, its channel, its one or two data bytes.
abbrev pub channel_message : ℕ → ℕ → ℕ → ℕ → ℕ → MeventData
channel_message status chan first second count = MeventData.regular (record {
  type = status;
  chan = chan;
  param1 = first % 2 ^ 8;
  param2 = second % 2 ^ 8;
  len = count;
})

abbrev pub meta_message : ℕ → ℕ → Bytes → MeventData
meta_message type len msg = MeventData.meta (record {
  type = type % 2 ^ 8;
  len = len;
  bytes = if len == 0 then none else some (take len msg);
})

-- The event that is kept of a callback, with its time: a channel message, a meta event whole, of a
-- system exclusive message the bytes before its first NUL. The bytes of a pitch bend stand in the
-- order of the MIDI file if the callback is given the high one first, as its handler takes it; the
-- parser gives the low one first.
abbrev pub described : ℕ → Callback → List (ℕ × MeventData)
described now (noteon c p v) = (now, channel_message 0x90 c p v 2) ∷ []
described now (noteoff c p v) = (now, channel_message 0x80 c p v 2) ∷ []
described now (pressure c p v) = (now, channel_message 0xa0 c p v 2) ∷ []
described now (parameter c p v) = (now, channel_message 0xb0 c p v 2) ∷ []
described now (pitchbend c m l) = (now, channel_message 0xe0 c l m 2) ∷ []
described now (program c p) = (now, channel_message 0xc0 c p 0 1) ∷ []
described now (chanpressure c p) = (now, channel_message 0xd0 c p 0 1) ∷ []
described now (sysex n m) =
    (now, MeventData.sysex (record { msg = some (c_str m ++ 0 ∷ []); len = n })) ∷ []
described now (metamisc t n m) = (now, meta_message t n m) ∷ []
described now (seqspecific n m) = (now, meta_message 0x7f n m) ∷ []
described now (text t n m) = (now, meta_message t n m) ∷ []
described now eot = (now, meta_message 0x2f 0 []) ∷ []
described now (seqnum m) = (now, meta_message 0x00 2 m) ∷ []
described now (timesig m) = (now, meta_message 0x58 4 m) ∷ []
described now (smpte m) = (now, meta_message 0x54 5 m) ∷ []
described now (tempo m) = (now, meta_message 0x51 3 m) ∷ []
described now (keysig m) = (now, meta_message 0x59 2 m) ∷ []
described now _ = []

-- A callback of a track's body whose buffer can be read as far as its handler reads it.
abbrev pub IsEvent : Callback → Type 0
IsEvent (header _ _ _) = ⊥
IsEvent trackstart = ⊥
IsEvent trackend = ⊥
IsEvent (error _) = ⊥
IsEvent (sysex n m) = has_nul m ≡ true
IsEvent (metamisc t n m) = leb n (length m) ≡ true
IsEvent (seqspecific n m) = leb n (length m) ≡ true
IsEvent (text t n m) = leb n (length m) ≡ true
IsEvent (seqnum m) = leb 2 (length m) ≡ true
IsEvent (timesig m) = leb 4 (length m) ≡ true
IsEvent (smpte m) = leb 5 (length m) ≡ true
IsEvent (tempo m) = leb 3 (length m) ≡ true
IsEvent (keysig m) = leb 2 (length m) ≡ true
IsEvent _ = Unit

abbrev pub stamp : Mevent → ℕ × MeventData
stamp e = (e.curtime, e.event_data)

-- What a track holds: the times and data of its events, in order.
abbrev pub content : Mtrack → List (ℕ × MeventData)
content t = map stamp t.events

-- Only the current track, with events `new` behind those of `t`, and strings differ from `m`.
pub record IsExtended (m : Mfile) (t : Mtrack) (new : List (ℕ × MeventData)) (m' : Mfile)
    : Type 0 where
  pub track : Mtrack
  pub current : m'.cur_track ≡ some track
  pub holds : content track ≡ content t ++ new
  pub chain : IsChained track
  pub flag : track.is_tempotrack ≡ t.is_tempotrack
  pub format : m'.format ≡ m.format
  pub division : m'.division ≡ m.division
  pub ntracks : m'.ntracks ≡ m.ntracks
  pub tracks : m'.tracks ≡ m.tracks
  pub index : m'.cur_track_index ≡ m.cur_track_index
  pub tempo_seen : m'.has_tempotrack ≡ m.has_tempotrack
