-- ===== src/Reader.antt =====
-- server/midi_reader.c: the callbacks that build the global `mfile` while the parser of
-- server/midifile.c, `mfread`, goes through a file. `mfread` is a parameter: what it does is the
-- list of the calls that it makes, each with the time that `Mf_currtime` holds.
pub mod Parser
pub mod Events
pub mod Handlers
pub mod Body
pub mod Ends
pub mod Build
pub mod Load
pub mod Reported
use mks65_symphony.Prelude.{
  ℕ, suc, ◌+◌, Bool, true, false, not, ◌&&◌, Option, none, some, List, [], ◌∷◌, ◌==◌, ltb, leb,
  is_some, if◌then◌else◌, length, set, replicate, Result, ok, trap, Trap, ◌>>=◌, ◌>>◌, check, deref,
}
use Trap.{null_deref, out_of_bounds, assert_failed, exited}
use mks65_symphony.Midi.{
  Bytes, note_off, note_on, poly_aftertouch, control_change, program_chng, channel_aftertouch,
  pitch_wheel, sequence_number, text_event, copyright_notice, sequence_name, instrument_name,
  end_of_track, set_tempo, smpte_offset, time_signature, key_signature, sequencer_specific, Mevent,
  Mtrack, Mfile, new_mtrack, cstrdup, memcpy, new_mreg_event, new_msysex_event, new_mmeta_event,
  append_mevent,
}
use Parser.{
  Callback, Trace, header, trackstart, trackend, noteon, noteoff, pressure, parameter, pitchbend,
  program, chanpressure, sysex, metamisc, seqspecific, text, eot, seqnum, timesig, smpte, tempo,
  keysig, arbitrary, error,
}

-- `append_mevent(mfile->cur_track, e)`.
unfoldable pub append_cur : Mfile → Mevent → Result Mfile
append_cur mfile e = do
  track ← deref mfile.cur_track
  track' ← append_mevent track e
  ok (record mfile { cur_track = some track' })

unfoldable pub handle_header : ℕ → ℕ → ℕ → Mfile → Result Mfile
handle_header format ntracks division mfile = ok (record mfile {
  division = division;
  format = format;
  ntracks = ntracks;
  tracks = replicate ntracks none;
})

unfoldable pub handle_track_start : Mfile → Result Mfile
handle_track_start mfile = ok (record mfile { cur_track = some new_mtrack })

-- `if (s) field = strdup(s);`
abbrev pub strdup_over : Option Bytes → Option Bytes → Option Bytes
strdup_over none old = old
strdup_over (some s) old = cstrdup (some s)

abbrev pub as_tempotrack : Mfile → Mtrack → Mfile
as_tempotrack mfile cur_track = record mfile {
  has_tempotrack = true;
  cur_track = some (record cur_track { is_tempotrack = true });
  music_name = strdup_over cur_track.name mfile.music_name;
  info_text = strdup_over cur_track.text mfile.info_text;
}

-- The tempo track is the first track of a file of format 1.
unfoldable pub mark_tempotrack : Mfile → Result Mfile
mark_tempotrack mfile =
    if not mfile.has_tempotrack && (mfile.format == 1 && mfile.cur_track_index == 0)
    then (deref mfile.cur_track >>= λ cur_track. ok (as_tempotrack mfile cur_track))
    else ok mfile

-- `mfile->tracks[mfile->cur_track_index++] = mfile->cur_track`, and the assert behind it.
unfoldable pub store_track : Mfile → Result Mfile
store_track mfile = do
  check (ltb mfile.cur_track_index (length mfile.tracks)) out_of_bounds
  check (leb (mfile.cur_track_index + 1) mfile.ntracks) assert_failed
  ok (record mfile {
    tracks = set mfile.tracks mfile.cur_track_index mfile.cur_track;
    cur_track_index = mfile.cur_track_index + 1;
    cur_track = none;
  })

unfoldable pub handle_track_end : Mfile → Result Mfile
handle_track_end mfile = mark_tempotrack mfile >>= store_track

unfoldable pub handle_noteon : ℕ → ℕ → ℕ → ℕ → Mfile → Result Mfile
handle_noteon now chan pitch vel mfile =
    append_cur mfile (new_mreg_event now note_on chan pitch vel)

unfoldable pub handle_noteoff : ℕ → ℕ → ℕ → ℕ → Mfile → Result Mfile
handle_noteoff now chan pitch vel mfile =
    append_cur mfile (new_mreg_event now note_off chan pitch vel)

unfoldable pub handle_pressure : ℕ → ℕ → ℕ → ℕ → Mfile → Result Mfile
handle_pressure now chan pitch press mfile =
    append_cur mfile (new_mreg_event now poly_aftertouch chan pitch press)

unfoldable pub handle_control_change : ℕ → ℕ → ℕ → ℕ → Mfile → Result Mfile
handle_control_change now chan control value mfile =
    append_cur mfile (new_mreg_event now control_change chan control value)

unfoldable pub handle_pitchbend : ℕ → ℕ → ℕ → ℕ → Mfile → Result Mfile
handle_pitchbend now chan msb lsb mfile =
    append_cur mfile (new_mreg_event now pitch_wheel chan lsb msb)

unfoldable pub handle_program : ℕ → ℕ → ℕ → Mfile → Result Mfile
handle_program now chan prog mfile = append_cur mfile (new_mreg_event now program_chng chan prog 0)

unfoldable pub handle_chan_pressure : ℕ → ℕ → ℕ → Mfile → Result Mfile
handle_chan_pressure now chan press mfile =
    append_cur mfile (new_mreg_event now channel_aftertouch chan press 0)

unfoldable pub handle_sysex : ℕ → ℕ → Bytes → Mfile → Result Mfile
handle_sysex now len msg mfile = new_msysex_event now len (some msg) >>= append_cur mfile

unfoldable pub handle_metamisc : ℕ → ℕ → ℕ → Bytes → Mfile → Result Mfile
handle_metamisc now type len msg mfile = new_mmeta_event now type len msg >>= append_cur mfile

unfoldable pub my_handle_metaseq : ℕ → Bytes → Mfile → Result Mfile
my_handle_metaseq now msg mfile = new_mmeta_event now sequence_number 2 msg >>= append_cur mfile

unfoldable pub handle_metaeot : ℕ → Mfile → Result Mfile
handle_metaeot now mfile = new_mmeta_event now end_of_track 0 [] >>= append_cur mfile

unfoldable pub my_handle_tempo : ℕ → Bytes → Mfile → Result Mfile
my_handle_tempo now msg mfile = new_mmeta_event now set_tempo 3 msg >>= append_cur mfile

unfoldable pub my_handle_smpte : ℕ → Bytes → Mfile → Result Mfile
my_handle_smpte now msg mfile = new_mmeta_event now smpte_offset 5 msg >>= append_cur mfile

unfoldable pub my_handle_timesig : ℕ → Bytes → Mfile → Result Mfile
my_handle_timesig now msg mfile = new_mmeta_event now time_signature 4 msg >>= append_cur mfile

unfoldable pub my_handle_keysig : ℕ → Bytes → Mfile → Result Mfile
my_handle_keysig now msg mfile = new_mmeta_event now key_signature 2 msg >>= append_cur mfile

unfoldable pub handle_metaspecial : ℕ → ℕ → Bytes → Mfile → Result Mfile
handle_metaspecial now len msg mfile =
    new_mmeta_event now sequencer_specific len msg >>= append_cur mfile

-- `if (!field) field = str;`
abbrev pub keep_first : Option Bytes → Bytes → Option Bytes
keep_first none s = some s
keep_first (some old) s = some old

abbrev pub set_text : Mtrack → Bytes → Mtrack
set_text t s = record t { text = keep_first t.text s }

abbrev pub set_name : Mtrack → Bytes → Mtrack
set_name t s = record t { name = keep_first t.name s }

abbrev pub set_instrument : Mtrack → Bytes → Mtrack
set_instrument t s = record t { instrument = keep_first t.instrument s }

-- The switch of `handle_metatext`, on the string `str`.
unfoldable pub store_text : ℕ → Bytes → Mtrack → Mfile → Mfile
store_text type str track mfile =
    if type == text_event
    then record mfile { cur_track = some (set_text track str) }
    else if type == copyright_notice
    then record mfile { copyright_info = keep_first mfile.copyright_info str }
    else if type == sequence_name
    then record mfile { cur_track = some (set_name track str) }
    else if type == instrument_name
    then record mfile { cur_track = some (set_instrument track str) }
    else mfile

unfoldable pub handle_metatext : ℕ → ℕ → ℕ → Bytes → Mfile → Result Mfile
handle_metatext now type len msg mfile = do
  e ← new_mmeta_event now type len msg
  mfile' ← append_cur mfile e
  str ← memcpy msg len
  track ← deref mfile'.cur_track
  ok (store_text type str track mfile')

-- What `bindfcns` binds to each callback. `handle_error` prints, closes the file and exits.
unfoldable pub dispatch : ℕ → Callback → Mfile → Result Mfile
dispatch now (header f n d) mfile = handle_header f n d mfile
dispatch now trackstart mfile = handle_track_start mfile
dispatch now trackend mfile = handle_track_end mfile
dispatch now (noteon c p v) mfile = handle_noteon now c p v mfile
dispatch now (noteoff c p v) mfile = handle_noteoff now c p v mfile
dispatch now (pressure c p v) mfile = handle_pressure now c p v mfile
dispatch now (parameter c p v) mfile = handle_control_change now c p v mfile
dispatch now (pitchbend c m l) mfile = handle_pitchbend now c m l mfile
dispatch now (program c p) mfile = handle_program now c p mfile
dispatch now (chanpressure c p) mfile = handle_chan_pressure now c p mfile
dispatch now (sysex n m) mfile = handle_sysex now n m mfile
dispatch now (metamisc t n m) mfile = handle_metamisc now t n m mfile
dispatch now (seqspecific n m) mfile = handle_metaspecial now n m mfile
dispatch now (text t n m) mfile = handle_metatext now t n m mfile
dispatch now eot mfile = handle_metaeot now mfile
dispatch now (seqnum m) mfile = my_handle_metaseq now m mfile
dispatch now (timesig m) mfile = my_handle_timesig now m mfile
dispatch now (smpte m) mfile = my_handle_smpte now m mfile
dispatch now (tempo m) mfile = my_handle_tempo now m mfile
dispatch now (keysig m) mfile = my_handle_keysig now m mfile
dispatch now (arbitrary n m) mfile = ok mfile
dispatch now (error s) mfile = trap (exited 1)

-- The calls of `mfread` one after another.
unfoldable pub run_callbacks : Trace → Mfile → Result Mfile
run_callbacks [] mfile = ok mfile
run_callbacks ((now, c) ∷ calls) mfile = dispatch now c mfile >>= run_callbacks calls
