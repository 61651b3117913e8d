-- ===== src/Concert/Whole.antt =====
-- From the file that `load` names to what the clients play.
use mks65_symphony.Prelude.{◌*◌, ◌-◌, ℕ, ◌^◌, ◌≤◌, ◌<◌, ◌≡◌, ◌≢◌, true, List, ◌++◌, length}
use mks65_symphony.Midi.{Bytes, Mtrack, Mfile}
use mks65_symphony.Reader.Build.{Chunk, AreTracks, file_calls, Represents}
use mks65_symphony.Splitter.Split.{IsFull}
use mks65_symphony.Commands.State.{Host, ServerState, another_file}
use mks65_symphony.Commands.Files.{dir_of, out_text}
use mks65_symphony.Commands.Play.{part_bytes}
use mks65_symphony.Commands.Clients
use mks65_symphony.Reader.Reported.{AllUncut}

-- The file that `load` names: it opens, and its calls are those for a file of format 1.
pub record IsSong (host : Host) (path : Bytes) (division : ℕ) (cs : List Chunk) : Type 0 where
  pub midi : host.is_midifile path ≡ true
  pub opens : host.opens path ≡ true
  pub calls : host.parse path ≡ file_calls 1 division cs
  pub events : AreTracks cs
  pub uncut : AllUncut cs
  pub tracks : 1 < length cs

-- The directory for the files can be used, malloc's block for the map of `Mfile_split_by_tracks` has
-- room for an int for each client where those are fewer than the tracks behind the tempo track, and
-- each file that is written for a client, from tracks that hold the events of `cs`, has a size that
-- fits an int.
pub record IsRoomy (host : Host) (s : ServerState) (division : ℕ) (cs : List Chunk) : Type 0 where
  pub directory : host.stat (dir_of s.tmp_dir host.cwd) ≢ another_file
  pub files : (i : ℕ) → host.can_write (dir_of s.tmp_dir host.cwd ++ out_text i) ≡ true
  pub some_bytes : (m : Mfile) (ts : List Mtrack) (n i : ℕ) → 0 < length (part_bytes host m ts n i)
  pub room : (n : ℕ) → n < length cs - 1 → 4 * n ≤ host.usable n
  pub few_bytes :
      (m : Mfile) (ts : List Mtrack) (n i : ℕ)
      → IsFull m ts
      → Represents 1 0 cs ts
      → m.format ≡ 1
      → m.division ≡ division
      → i < n
      → n ≤ 1000
      → length (part_bytes host m ts n i) < 2 ^ 31
