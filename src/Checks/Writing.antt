-- ===== src/Checks/Writing.antt =====
-- Tests and witnesses for server/midi_writer.c.
use mks65_symphony.Prelude.{
  ℕ, ◌≡◌, refl, true, some, List, [], ◌∷◌, map, length, All, arith, ok, trap, Trap,
}
use Trap.{out_of_bounds}
use mks65_symphony.Midi.{Bytes, Mevent, MeventData, Mtrack, Mfile, new_msysex_event}
use mks65_symphony.Splitter.{nsrc_of}
use mks65_symphony.Splitter.Split.{IsFull, share, part_tempo}
use mks65_symphony.Writer.{write_event, mfile_write_to_midi}
use mks65_symphony.Writer.Tracks.{write_event-sysex_cut}
use mks65_symphony.Writer.Files.{calls_at, part_tempo-written}
use mks65_symphony.Reader.Load.{mfile_from_file}
use mks65_symphony.Roundtrip.{IsCarried, two_bytes, on, returned}
use mks65_symphony.Roundtrip.Heard.{IsPlayable}
use mks65_symphony.Roundtrip.Parts.{Hears, part-read_back}
use mks65_symphony.Checks.Codec.{plain_library}
use mks65_symphony.Checks.Music.{late_track, file_of, three_tracks, three_tracks-IsFull, counting}

sysex_example :
    (e : Mevent) × (new_msysex_event 0 4 (some (0xf0 ∷ 0 ∷ 1 ∷ 0xf7 ∷ [])) ≡ ok e)
    × (write_event e ≡ trap out_of_bounds)
sysex_example = write_event-sysex_cut 0 4 (0xf0 ∷ 0 ∷ 1 ∷ 0xf7 ∷ []) refl (omega arith)

written_example :
    let tracks : List ℕ = 0 ∷ share (nsrc_of (file_of 1 three_tracks)) 2 1 1 in
    mfile_write_to_midi counting true (part_tempo (file_of 1 three_tracks) three_tracks 2 1)
    ≡ ok (counting.encode 1 (length tracks) 96 (map (calls_at three_tracks) tracks))
written_example =
    part_tempo-written counting (file_of 1 three_tracks) three_tracks 2 1 (three_tracks-IsFull 1)
      (omega arith) refl (omega arith) (omega arith)

late-IsCarried : All (λ (f : Mevent). IsCarried f.event_data) late_track.events
late-IsCarried = (
  two_bytes (omega arith) on (omega arith) (omega arith),
  (two_bytes (omega arith) on (omega arith) (omega arith), tt),
)

late-IsPlayable : IsPlayable late_track.events
late-IsPlayable = (refl, omega arith, (omega arith, omega arith, omega arith, tt), late-IsCarried)

read_back_example :
    let ss : List ℕ = 0 ∷ share (nsrc_of (file_of 1 three_tracks)) 2 1 1 in
    (bytes : Bytes) × (m' : Mfile) × (us : List Mtrack) × (mfile_write_to_midi plain_library.writer
        true
        (part_tempo (file_of 1 three_tracks) three_tracks 2 1)
      ≡ ok bytes)
    × (mfile_from_file true (plain_library.mfread bytes) (97 ∷ []) ≡ ok (some m'))
    × IsFull m' us
    × Hears three_tracks 0 ss us
    × (m'.division ≡ 96)
unfolding nsrc_of
read_back_example =
    part-read_back plain_library (file_of 1 three_tracks) three_tracks 2 1 97 []
      (three_tracks-IsFull 1) (late-IsPlayable, (late-IsPlayable, (late-IsPlayable, tt))) refl
      (omega arith) (omega arith) (omega arith) (omega arith)

-- A pitch bend comes back with its two bytes exchanged.
bend_returned :
    returned
      (MeventData.regular (record { type = 0xe0; chan = 0; param1 = 1; param2 = 64; len = 2 }))
    ≡ MeventData.regular (record { type = 0xe0; chan = 0; param1 = 64; param2 = 1; len = 2 })
bend_returned = refl
