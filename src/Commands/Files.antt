-- ===== src/Commands/Files.antt =====
-- `make_tmp_dir` and `create_midi_files` of server/cmd_handlers.c, and `get_midi_filename` of
-- server/server_thread.c.
use mks65_symphony.Prelude.{
  ℕ, zero, suc, ◌+◌, false, Option, none, some, List, [], ◌∷◌, ◌++◌, get_elem?, leb, length, deref,
  Result, ok, trap, Trap, ◌>>=◌, ◌>>◌, check,
}
use Trap.{out_of_bounds, null_deref, assert_failed, exited}
use mks65_symphony.Midi.{Bytes, Mfile}
use mks65_symphony.Splitter.{mfile_split_by_tracks}
use mks65_symphony.Writer.{mfile_write_to_midi}
use mks65_symphony.Commands.Numbers.{decimal}
use mks65_symphony.Commands.State.{Stat, stat_failed, a_directory, another_file, Host, ServerState}

-- `sprintf` of MIDI_OUT_FORMAT, "out_%d.mid", into a buffer of `strlen(MIDI_OUT_FORMAT) + 2` bytes.
abbrev pub out_text : ℕ → Bytes
out_text i = 111 ∷ 117 ∷ 116 ∷ 95 ∷ decimal i ++ 46 ∷ 109 ∷ 105 ∷ 100 ∷ []

unfoldable pub out_name : ℕ → Result Bytes
out_name i = check (leb (length (out_text i) + 1) 12) out_of_bounds >> ok (out_text i)

unfoldable pub get_midi_filename : Option Bytes → ℕ → Result Bytes
unfolding out_name
get_midi_filename tmp_dir id = do fname ← out_name id; dir ← deref tmp_dir; ok (dir ++ fname)

-- The working directory and "/tmp/".
abbrev pub dir_of : Option Bytes → Bytes → Bytes
dir_of (some dir) wd = dir
dir_of none wd = wd ++ 47 ∷ 116 ∷ 109 ∷ 112 ∷ 47 ∷ []

-- `if (errno = ENOENT)` assigns, so whatever made `stat` fail, `mkdir` is called. Nothing looks at
-- what it returns.
abbrev pub usable : Stat → Bytes → Result Bytes
usable stat_failed dir = ok dir
usable a_directory dir = ok dir
usable another_file dir = trap (exited 1)

unfoldable pub make_tmp_dir : Host → ServerState → Result Bytes
make_tmp_dir host s = let dir = dir_of s.tmp_dir host.cwd in usable (host.stat dir) dir

-- `midi_out[i]`.
abbrev pub part_at : Option (List Mfile) → ℕ → Result Mfile
part_at none i = trap null_deref
part_at (some parts) i = elim (get_elem? parts i) [ none ↦ trap out_of_bounds | some m ↦ ok m ]

unfoldable pub write_file : Host → Bytes → Option (List Mfile) → ℕ → Result (Bytes × Bytes)
unfolding out_name
write_file host dir midi_out i = do
  fname ← out_name i
  part ← part_at midi_out i
  content ← mfile_write_to_midi host.writer (host.can_write (dir ++ fname)) part
  ok (dir ++ fname, content)

-- The files from the `i`-th on, `n` of them.
unfoldable pub write_files :
    Host → Bytes → Option (List Mfile) → ℕ → ℕ → Result (List (Bytes × Bytes))
unfolding write_file
write_files host dir midi_out zero i = ok []
write_files host dir midi_out (suc n) i = do
  file ← write_file host dir midi_out i
  files ← write_files host dir midi_out n (i + 1)
  ok (file ∷ files)

unfoldable pub create_midi_files : Host → ServerState → Result ServerState
unfolding make_tmp_dir write_files
create_midi_files host s = do
  mfile ← elim s.mfile [ none ↦ trap assert_failed | some m ↦ ok m ]
  midi_out ← mfile_split_by_tracks host.usable mfile (length s.clients)
  dir ← make_tmp_dir host s
  files ← write_files host dir midi_out (length s.clients) 0
  ok (record s {
    accepting_clients = false;
    midi_ready = false;
    tmp_dir = some dir;
    midi_out = files;
  })
