-- ===== src/Midi.antt =====
-- The operations of server/midi.c on tracks and events, with `cstrdup` of server/utils.c.
-- `Mevent_copy` and `Mfile_from_headers` end without a return statement; they are modelled as
-- returning the object that they made, which their callers rely on.
pub mod Types
pub mod Chain
pub mod Replay
pub mod Reverse
pub use Types.*
use mks65_symphony.Prelude.{
  ℕ, zero, suc, ◌+◌, ◌-◌, ◌%◌, ◌^◌, ◌≡◌, refl, Bool, true, false, ◌||◌, Option, none, some, List,
  [], ◌∷◌, ◌++◌, ◌==◌, leb, if◌then◌else◌, length, take, replicate, Result, ok, trap, Trap, ◌>>=◌,
  ◌>>◌, check,
}
use Trap.{null_deref, out_of_bounds}

-- The bytes before the first NUL.
abbrev pub c_str : Bytes → Bytes
c_str [] = []
c_str (c ∷ s) = if c == 0 then [] else c ∷ c_str s

abbrev pub has_nul : Bytes → Bool
has_nul [] = false
has_nul (c ∷ s) = (c == 0) || has_nul s

-- The copy that `strdup` makes, with its terminator; reading goes on until a NUL is met.
unfoldable pub strdup : Bytes → Result Bytes
strdup s = do check (has_nul s) out_of_bounds; ok (c_str s ++ 0 ∷ [])

-- On a string that is known by its characters, the terminator being left out of the model.
unfoldable pub cstrdup : Option Bytes → Option Bytes
cstrdup none = none
cstrdup (some s) = some (c_str s)

-- `memcpy` of `n` bytes out of a buffer of `length s`.
unfoldable pub memcpy : Bytes → ℕ → Result Bytes
memcpy s n = do check (leb n (length s)) out_of_bounds; ok (take n s)

unfoldable pub new_mfile : Mfile
new_mfile = record {
  format = 0;
  division = 0;
  has_tempotrack = false;
  ntracks = 0;
  tracks = [];
  cur_track = none;
  cur_track_index = 0;
  filename = none;
  fullpath = none;
  music_name = none;
  info_text = none;
  copyright_info = none;
}

unfoldable pub mfile_from_headers :
    ℕ → ℕ → Option Bytes → Option Bytes → Option Bytes → Option Bytes → Mfile
unfolding new_mfile cstrdup
mfile_from_headers format division filename music_name info_text copyright_info = record new_mfile {
  format = format;
  division = division;
  filename = cstrdup filename;
  music_name = cstrdup music_name;
  info_text = cstrdup info_text;
  copyright_info = cstrdup copyright_info;
}

unfoldable pub new_mtrack : Mtrack
new_mtrack = record {
  is_tempotrack = false;
  events = [];
  len = 0;
  name = none;
  text = none;
  instrument = none;
}

unfoldable pub new_mreg_event : ℕ → ℕ → ℕ → ℕ → ℕ → Mevent
new_mreg_event curtime type chan param1 param2 = record {
  deltatime = 0;
  curtime = curtime;
  event_data = MeventData.regular (record {
    type = type;
    chan = chan;
    param1 = param1 % 2 ^ 8;
    param2 = param2 % 2 ^ 8;
    len = if (type == program_chng) || (type == channel_aftertouch) then 1 else 2;
  });
}

unfoldable pub new_msysex_event : ℕ → ℕ → Option Bytes → Result Mevent
unfolding strdup
new_msysex_event curtime len none = ok (record {
  deltatime = 0;
  curtime = curtime;
  event_data = MeventData.sysex (record { msg = none; len = len });
})
new_msysex_event curtime len (some msg) = do
  copy ← strdup msg
  ok (record {
    deltatime = 0;
    curtime = curtime;
    event_data = MeventData.sysex (record { msg = some copy; len = len });
  })

-- `unsigned char type`.
unfoldable pub new_mmeta_event : ℕ → ℕ → ℕ → Bytes → Result Mevent
unfolding memcpy
new_mmeta_event curtime type len bytes =
    if len == 0
    then ok (record {
      deltatime = 0;
      curtime = curtime;
      event_data = MeventData.meta (record { type = type % 2 ^ 8; len = len; bytes = none });
    })
    else do
      data_local ← memcpy bytes len
      ok (record {
        deltatime = 0;
        curtime = curtime;
        event_data =
            MeventData.meta (record { type = type % 2 ^ 8; len = len; bytes = some data_local });
      })

-- The `last` pointer of a chain.
abbrev pub last_of : List Mevent → Option Mevent
last_of [] = none
last_of (e ∷ []) = some e
last_of (e ∷ f ∷ es) = last_of (f ∷ es)

-- a - b on `unsigned long`.
abbrev pub sub_ulong : ℕ → ℕ → ℕ
sub_ulong a b = (a + 2 ^ 64 - b) % 2 ^ 64

unfoldable pub append_mevent : Mtrack → Mevent → Result Mtrack
append_mevent track e =
    if track.len == 0
    then ok (record track { events = e ∷ []; len = 1 })
    else elim (last_of track.events) [
      | none ↦ trap null_deref
      | some last ↦ ok (record track {
        events = track.events ++ record e { deltatime = sub_ulong e.curtime last.curtime } ∷ [];
        len = track.len + 1;
      })
    ]

-- A shallow copy: the data pointers are shared.
unfoldable pub mevent_copy : Mevent → Mevent
mevent_copy e = e

-- The loop of `Mtrack_copy`.
unfoldable pub copy_events : List Mevent → Mtrack → Result Mtrack
unfolding append_mevent mevent_copy
copy_events [] copy = ok copy
copy_events (e ∷ es) copy = append_mevent copy (mevent_copy e) >>= copy_events es

unfoldable pub mtrack_copy : Mtrack → Result Mtrack
unfolding copy_events new_mtrack cstrdup
mtrack_copy mtrack = copy_events mtrack.events (record new_mtrack {
  name = cstrdup mtrack.name;
  instrument = cstrdup mtrack.instrument;
  text = cstrdup mtrack.text;
  is_tempotrack = mtrack.is_tempotrack;
})
