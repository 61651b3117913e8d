-- ===== src/Checks/Music.antt =====
-- A small piece of music: a tempo track and three tracks of notes.
use mks65_symphony.Prelude.{ℕ, refl, false, none, some, List, [], ◌∷◌, map, length, ok, ◌>>=◌}
use mks65_symphony.Midi.{Mevent, MeventData, Mtrack, Mfile}
use mks65_symphony.Midi.Chain.{IsChained}
use mks65_symphony.Reader.Parser.{noteon, noteoff, text, tempo, eot}
use mks65_symphony.Reader.Build.{Chunk}
use mks65_symphony.Splitter.Split.{IsFull}
use mks65_symphony.Writer.{MidiFileWriter, tracks_from}

abbrev pub tempo_chunk : Chunk
tempo_chunk = record {
  body = (0, text 3 2 (b'N' ∷ b'o' ∷ [])) ∷ (0, tempo (7 ∷ 161 ∷ 32 ∷ [])) ∷ (0, eot) ∷ [];
  finish = 0;
}

abbrev pub note_chunk : ℕ → Chunk
note_chunk pitch = record {
  body = (0, noteon 0 pitch 100) ∷ (96, noteoff 0 pitch 0) ∷ (192, eot) ∷ [];
  finish = 192;
}

abbrev pub chunks : List Chunk
chunks = tempo_chunk ∷ note_chunk 60 ∷ note_chunk 62 ∷ note_chunk 64 ∷ []

abbrev pub message : ℕ → ℕ → MeventData
message status pitch =
    MeventData.regular (record { type = status; chan = 0; param1 = pitch; param2 = 0; len = 2 })

abbrev pub event : ℕ → ℕ → ℕ → Mevent
event delta now pitch = record { deltatime = delta; curtime = now; event_data = message 0x90 pitch }

-- Its first event comes at tick 48.
abbrev pub late_track : Mtrack
late_track = record {
  is_tempotrack = false;
  events = event 0 48 60 ∷ event 48 96 62 ∷ [];
  len = 2;
  name = some (b'a' ∷ []);
  text = none;
  instrument = none;
}

abbrev pub late_track-IsChained : IsChained late_track
late_track-IsChained = record { counted = refl; deltas = (refl, tt) }

abbrev pub file_of : ℕ → List Mtrack → Mfile
file_of format ts = record {
  format = format;
  division = 96;
  has_tempotrack = false;
  ntracks = length ts;
  tracks = map some ts;
  cur_track = none;
  cur_track_index = 0;
  filename = none;
  fullpath = none;
  music_name = none;
  info_text = none;
  copyright_info = none;
}

abbrev pub three_tracks : List Mtrack
three_tracks = late_track ∷ late_track ∷ late_track ∷ []

abbrev pub three_tracks-IsFull : (format : ℕ) → IsFull (file_of format three_tracks) three_tracks
three_tracks-IsFull format = record {
  slots = refl;
  size = refl;
  chained = (late_track-IsChained, (late_track-IsChained, (late_track-IsChained, tt)));
}

-- A writer that meets the interface: it writes the number of calls for each track.
abbrev pub counting : MidiFileWriter
counting = record {
  encode = λ format ntracks division calls. map length calls;
  mfwrite = λ writetrack format ntracks division.
      tracks_from writetrack ntracks 0 >>= λ calls. ok (map length calls);
  calls_each_track = λ writetrack format ntracks division. refl;
}
