-- ===== src/Checks/Reading.antt =====
-- Tests and witnesses for server/midi_reader.c.
use mks65_symphony.Prelude.{◌*◌, ◌≡◌, refl, true, some, List, [], ◌∷◌, arith, ok}
use mks65_symphony.Midi.{Mtrack, Mfile, new_mfile}
use mks65_symphony.Reader.{run_callbacks}
use mks65_symphony.Reader.Build.{AreTracks, file_calls, Represents, IsFresh, run_callbacks-file}
use mks65_symphony.Reader.Load.{mfile_from_file, load_split}
use mks65_symphony.Reader.Reported.{HoldReports}
use mks65_symphony.Splitter.{mfile_split_by_tracks}
use mks65_symphony.Splitter.Split.{IsFull, listed, part_tempo}
use mks65_symphony.Checks.Music.{chunks, late_track, file_of}

pub chunks-AreTracks : AreTracks chunks
chunks-AreTracks = ((refl, (refl, (tt, tt))), (notes, (notes, (notes, tt))))
  where
    notes : Unit {0} × (Unit {0} × (Unit {0} × Unit {0}))
    notes = (tt, (tt, (tt, tt)))

abbrev reading : Mfile
reading = record (file_of 1 []) { cur_track = some late_track }

fresh : IsFresh new_mfile
unfolding new_mfile
fresh = record { untracked = refl; unread = refl }

read_example :
    (m : Mfile) × (ts : List Mtrack) × (run_callbacks (file_calls 1 96 chunks) new_mfile ≡ ok m)
    × IsFull m ts
    × Represents 1 0 chunks ts
    × (m.format ≡ 1)
    × (m.division ≡ 96)
read_example = run_callbacks-file new_mfile 1 96 chunks fresh chunks-AreTracks

load_split_example :
    (m : Mfile) × (ts : List Mtrack) × (mfile_from_file true
        (file_calls 1 96 chunks)
        (b'm' ∷ b'i' ∷ [])
      ≡ ok (some m))
    × Represents 1 0 chunks ts
    × HoldReports chunks ts
    × (mfile_split_by_tracks (λ n. 4 * n) m 2 ≡ ok (some (listed (part_tempo m ts 2) 2 0)))
load_split_example =
    load_split (λ n. 4 * n) b'm' (b'i' ∷ []) 96 2 chunks chunks-AreTracks (omega arith)
      (omega arith) (omega arith) λ lt. omega arith
