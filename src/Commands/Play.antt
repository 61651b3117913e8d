-- ===== src/Commands/Play.antt =====
-- `handle_socket` and `handle_play` of server/cmd_handlers.c together: which file is written for
-- which client's thread.
use mks65_symphony.Prelude.{
  ◌*◌, ◌-◌, ℕ, ◌+◌, ◌≤◌, ◌<◌, ◌≡◌, ◌≢◌, ◌∙◌, refl, ap, Bool, true, false, Option, some, List, ◌∷◌,
  ◌++◌, map, ◌==◌, get_elem?, length, if◌then◌else◌, arith, ok,
}
use mks65_symphony.Midi.{Bytes, Mtrack, Mfile}
use mks65_symphony.Splitter.{nsrc_of}
use mks65_symphony.Splitter.Split.{IsFull, share, part_tempo}
use mks65_symphony.Splitter.Whole.{split_tempo}
use mks65_symphony.Writer.Files.{AllWritable, calls_at, part_tempo-written}
use mks65_symphony.Player.{PlayerState}
use mks65_symphony.Commands.State.{Host, ServerState, Stat, another_file}
use mks65_symphony.Commands.Files.{
  out_text, get_midi_filename, dir_of, usable, make_tmp_dir, create_midi_files,
}
use mks65_symphony.Commands.{play_with_clients, handle_play, add_loaded, count_of}
use mks65_symphony.Commands.Clients.{
  connected, upto, connected_lem, length-upto, upto-get, out_name-fits, named, named-get,
  write_files-done,
}

usable_lem : (t : Stat) (dir : Bytes) → t ≢ another_file → usable t dir ≡ ok dir
usable_lem Stat.stat_failed dir h = refl
usable_lem Stat.a_directory dir h = refl
usable_lem Stat.another_file dir h = absurd (h refl)

-- What the writer encodes for client `i`: the tempo track and the tracks of the client's share.
abbrev pub part_bytes : Host → Mfile → List Mtrack → ℕ → ℕ → Bytes
part_bytes host m ts n i =
    let tracks : List ℕ = 0 ∷ share (nsrc_of m) n 1 i in
    host.writer.encode 1 (length tracks) m.division (map (calls_at ts) tracks)

-- The state before and after `create_midi_files`, with `n` clients.
abbrev pub ready_to_play : ServerState → Mfile → ℕ → ServerState
ready_to_play s m n = record s {
  mfile = some m;
  clients = upto n;
  tid = n;
  accepting_clients = true;
}

abbrev pub files_made : Host → ServerState → Mfile → List Mtrack → ℕ → ServerState
files_made host s m ts n = record (ready_to_play s m n) {
  accepting_clients = false;
  midi_ready = false;
  tmp_dir = some (dir_of s.tmp_dir host.cwd);
  midi_out = named (dir_of s.tmp_dir host.cwd) (part_bytes host m ts n) n 0;
}

-- What the handlers need: a file of format 1 with a tempo track and at least one more, whose events
-- are as long as they say, a directory that can be written to, and an array of track_num_map that has
-- room for an int for each client where those are fewer than the tracks behind the tempo track.
pub record CanPlay (host : Host) (s : ServerState) (m : Mfile) (ts : List Mtrack) : Type 0 where
  pub full : IsFull m ts
  pub writable : AllWritable ts
  pub format : m.format ≡ 1
  pub tracks : 1 < m.ntracks
  pub room : (n : ℕ) → n < m.ntracks - 1 → 4 * n ≤ host.usable n
  pub directory : host.stat (dir_of s.tmp_dir host.cwd) ≢ another_file
  pub files : (i : ℕ) → host.can_write (dir_of s.tmp_dir host.cwd ++ out_text i) ≡ true

-- What `handle_play` does next: it sets `midi_ready`, and the barrier if there is none.
abbrev pub signalled : ServerState → ServerState → ℕ → ServerState
signalled t s n = record t { midi_ready = true; barrier = some (count_of s.barrier n) }

abbrev pub with_or_without : Host → Mfile → ServerState → Bool → ServerState
with_or_without host m u b = if b then u else add_loaded host m u

only_player :
    (host : Host) (m : Mfile) (u : ServerState) (b : Bool)
    → with_or_without host m u b ≡ record u { player = (with_or_without host m u b).player }
only_player host m u true = refl
only_player host m u false = refl

file_name :
    (dir : Bytes) (i : ℕ) → i < 1000 → get_midi_filename (some dir) i ≡ ok (dir ++ out_text i)
unfolding get_midi_filename
file_name dir i lt = rw (out_name-fits i lt) refl

module _ (host : Host) (s : ServerState) (m : Mfile) (ts : List Mtrack)
    (can : CanPlay host s m ts) where
  create-done :
      (n : ℕ)
      → 0 < n
      → n ≤ 1000
      → create_midi_files host (ready_to_play s m n) ≡ ok (files_made host s m ts n)
  unfolding create_midi_files make_tmp_dir
  create-done n pos few =
      let dir = dir_of s.tmp_dir host.cwd in
      rw
        (
          length-upto n,
          (split_tempo can.full host.usable n can.format can.tracks pos (can.room n)).0,
          usable_lem (host.stat dir) dir can.directory,
          write_files-done host dir (part_tempo m ts n) (part_bytes host m ts n) n n 0 (omega arith)
              few can.files
              (λ j lt.
                part_tempo-written host.writer m ts n j can.full can.writable can.format can.tracks
                  lt),
        )
        refl

  play-done :
      (n : ℕ)
      → 0 < n
      → n ≤ 1000
      → (p : PlayerState) × (handle_play host (ready_to_play s m n)
          ≡ ok (some 1, record (signalled (files_made host s m ts n) s n) { player = p }))
  unfolding handle_play play_with_clients
  play-done n pos few =
      let some_clients : (length (upto n) == 0) ≡ false = ground (arith, length-upto n) in
      let u = signalled (files_made host s m ts n) s n in
      (
        (with_or_without host m u host.server_noplay).player,
        rw (some_clients, create-done n pos few, length-upto n)
            (ap (λ (t : ServerState). ok (some 1, t)) (only_player host m u host.server_noplay)),
      )

  pub play-files :
      (n i : ℕ)
      → s.mfile ≡ some m
      → n ≤ 1000
      → i < n
      → (t : ServerState) × (name : Bytes) × (handle_play host (connected n s) ≡ ok (some 1, t))
        × (t.accepting_clients ≡ false)
        × (t.midi_ready ≡ true)
        × (t.barrier ≡ some (count_of s.barrier n))
        × (get_elem? (connected n s).clients i ≡ some i)
        × (get_midi_filename t.tmp_dir i ≡ ok name)
        × (get_elem? t.midi_out i ≡ some (name, part_bytes host m ts n i))
  play-files n i h few lt =
      let dir = dir_of s.tmp_dir host.cwd in
      let start : connected n s ≡ ready_to_play s m n =
        connected_lem n s
        ∙ ap
            (λ (o : Option Mfile). record s {
              mfile = o;
              clients = upto n;
              tid = n;
              accepting_clients = true;
            })
            h in
      let (p, done) = play-done n (omega arith) few in
      let z : i + 0 ≡ i = omega arith in
      (
        record (signalled (files_made host s m ts n) s n) { player = p },
        dir ++ out_text i,
        ap (handle_play host) start ∙ done,
        refl,
        refl,
        refl,
        ap (λ (t : ServerState). get_elem? t.clients i) start ∙ upto-get n i lt,
        file_name dir i (omega arith),
        named-get dir (part_bytes host m ts n) n 0 i lt
            ∙ ap (λ (k : ℕ). some (dir ++ out_text k, part_bytes host m ts n k)) z,
      )
