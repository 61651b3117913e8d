-- ===== src/Writer.antt =====
-- server/midi_writer.c: a track's events are handed to the MIDI file writer of server/midifile.c.
-- That writer is a parameter: `mfwrite` calls back for each track, and turns the calls into bytes.
pub mod Tracks
pub mod Files
use mks65_symphony.Prelude.{
  ℕ, zero, suc, ◌+◌, ◌≡◌, Bool, true, false, Option, none, some, List, [], ◌∷◌, ◌==◌, if◌then◌else◌,
  get_elem?, Result, ok, trap, Trap, ◌>>=◌, deref,
}
use Trap.{null_deref, out_of_bounds}
use mks65_symphony.Midi.{Bytes, system_exclusive, MeventData, Mevent, Mtrack, Mfile, memcpy}

-- A call of `mf_write_meta_event` or `mf_write_midi_event` while a track is written: the delta
-- time, the type (and the channel), and the `size` bytes that were read at `data`.
pub data Call : Type 0 where
  write_meta : (delta_time type : ℕ) (block : Bytes) → Call
  write_midi : (delta_time type chan : ℕ) (block : Bytes) → Call

-- What is read of `size` bytes at a pointer that may be null.
unfoldable pub read_block : Option Bytes → ℕ → Result Bytes
unfolding memcpy
read_block none size = if size == 0 then ok [] else trap null_deref
read_block (some s) size = memcpy s size

-- By the event's data, with its delta time.
unfoldable pub write_data : ℕ → MeventData → Result Call
unfolding read_block
write_data deltatime (MeventData.meta m) =
    read_block m.bytes m.len >>= λ block. ok (write_meta deltatime m.type block)
write_data deltatime (MeventData.regular r) =
    read_block (some (r.param1 ∷ r.param2 ∷ [])) r.len >>= λ block.
    ok (write_midi deltatime r.type r.chan block)
write_data deltatime (MeventData.sysex s) =
    read_block s.msg s.len >>= λ block. ok (write_midi deltatime system_exclusive 0 block)

unfoldable pub write_event : Mevent → Result Call
unfolding write_data
write_event e = write_data e.deltatime e.event_data

unfoldable pub write_events : List Mevent → Result (List Call)
unfolding write_event
write_events [] = ok []
write_events (e ∷ es) = do call ← write_event e; rest ← write_events es; ok (call ∷ rest)

unfoldable pub write_track : Mtrack → Result (List Call)
unfolding write_events
write_track track = write_events track.events

unfoldable pub handle_write_track : Mfile → ℕ → Result (List Call)
unfolding write_track
handle_write_track mfile track_index = elim (get_elem? mfile.tracks track_index) [
  | none ↦ trap out_of_bounds
  | some slot ↦ deref slot >>= write_track
]

-- -1 is `none`. The function is bound to no callback.
unfoldable pub handle_write_tempotrack : Mfile → Result (Option (List Call))
unfolding handle_write_track
handle_write_tempotrack mfile =
    if mfile.has_tempotrack
    then (handle_write_track mfile 0 >>= λ calls. ok (some calls))
    else ok none

-- The calls of `Mf_writetrack` for the tracks from `i` on.
abbrev pub tracks_from : (ℕ → Result (List Call)) → ℕ → ℕ → Result (List (List Call))
tracks_from writetrack zero i = ok []
tracks_from writetrack (suc n) i = do
  calls ← writetrack i
  rest ← tracks_from writetrack n (i + 1)
  ok (calls ∷ rest)

-- The library's `mfwrite`, given what `Mf_writetrack` is bound to: it calls back once for each
-- track, in order, and what it puts into the file depends on the header and on those calls.
pub record MidiFileWriter : Type 0 where
  pub encode : ℕ → ℕ → ℕ → List (List Call) → Bytes
  pub mfwrite : (ℕ → Result (List Call)) → ℕ → ℕ → ℕ → Result Bytes
  pub calls_each_track :
      (writetrack : ℕ → Result (List Call)) (format ntracks division : ℕ)
      → mfwrite writetrack format ntracks division
        ≡ (tracks_from writetrack ntracks 0 >>= λ calls. ok (encode format ntracks division calls))

-- The bytes of the written file. That `fopen` failed is not looked at: `fout` is then null.
unfoldable pub mfile_write_to_midi : MidiFileWriter → Bool → Mfile → Result Bytes
unfolding handle_write_track
mfile_write_to_midi w false mfile = trap null_deref
mfile_write_to_midi w true mfile =
    w.mfwrite (handle_write_track mfile) mfile.format mfile.ntracks mfile.division
