-- ===== src/Checks/Codec.antt =====
-- A MIDI library whose files are plain lists of numbers, to try Roundtrip on.
use mks65_symphony.Prelude.{
  ℕ, zero, suc, ◌≡◌, refl, ap, List, [], ◌∷◌, ◌++◌, map, length, take, drop, take-append,
  drop-append, ok, ◌>>=◌,
}
use mathlib.Core.List.{append_assoc}
use mks65_symphony.Midi.{Bytes}
use mks65_symphony.Writer.{Call, write_meta, write_midi, MidiFileWriter, tracks_from}
use mks65_symphony.Reader.Parser.{Trace}
use mks65_symphony.Reader.Build.{file_calls}
use mks65_symphony.Roundtrip.{MidiLibrary, chunk_of}

abbrev put_call : Call → Bytes
put_call (write_meta delta t block) = 0 ∷ delta ∷ t ∷ 0 ∷ length block ∷ block
put_call (write_midi delta t chan block) = 1 ∷ delta ∷ t ∷ chan ∷ length block ∷ block

abbrev put_calls : List Call → Bytes
put_calls [] = []
put_calls (c ∷ cs) = put_call c ++ put_calls cs

abbrev put_tracks : List (List Call) → Bytes
put_tracks [] = []
put_tracks (cs ∷ tracks) = length cs ∷ (put_calls cs ++ put_tracks tracks)

abbrev make_call : ℕ → ℕ → ℕ → ℕ → Bytes → Call
make_call zero delta t chan block = write_meta delta t block
make_call (suc k) delta t chan block = write_midi delta t chan block

abbrev get_calls : ℕ → Bytes → List Call × Bytes
get_calls zero s = ([], s)
get_calls (suc n) (tag ∷ delta ∷ t ∷ chan ∷ size ∷ s) =
    let rest = get_calls n (drop size s) in
    (make_call tag delta t chan (take size s) ∷ rest.0, rest.1)
get_calls (suc n) s = ([], s)

abbrev get_tracks : ℕ → Bytes → List (List Call)
get_tracks zero s = []
get_tracks (suc n) [] = []
get_tracks (suc n) (count ∷ s) = let track = get_calls count s in track.0 ∷ get_tracks n track.1

get_calls-put : (cs : List Call) (s : Bytes) → get_calls (length cs) (put_calls cs ++ s) ≡ (cs, s)
get_calls-put [] s = refl
get_calls-put (write_meta delta t block ∷ cs) s =
    rw
      (
        append_assoc block (put_calls cs) s,
        take-append block (put_calls cs ++ s),
        drop-append block (put_calls cs ++ s),
        get_calls-put cs s,
      )
      refl
get_calls-put (write_midi delta t chan block ∷ cs) s =
    rw
      (
        append_assoc block (put_calls cs) s,
        take-append block (put_calls cs ++ s),
        drop-append block (put_calls cs ++ s),
        get_calls-put cs s,
      )
      refl

pub get_tracks-put :
    (tracks : List (List Call)) → get_tracks (length tracks) (put_tracks tracks) ≡ tracks
get_tracks-put [] = refl
get_tracks-put (cs ∷ tracks) = rw (get_calls-put cs (put_tracks tracks), get_tracks-put tracks) refl

abbrev parse_file : Bytes → Trace
parse_file (format ∷ ntracks ∷ division ∷ s) =
    file_calls format division (map chunk_of (get_tracks ntracks s))
parse_file _ = []

abbrev listing : MidiFileWriter
listing = record {
  encode = λ format ntracks division tracks. format ∷ ntracks ∷ division ∷ put_tracks tracks;
  mfwrite = λ writetrack format ntracks division. tracks_from writetrack ntracks 0 >>= λ calls.
      ok (format ∷ ntracks ∷ division ∷ put_tracks calls);
  calls_each_track = λ writetrack format ntracks division. refl;
}

abbrev pub plain_library : MidiLibrary
plain_library = record {
  writer = listing;
  mfread = parse_file;
  reads_back = λ format division tracks h k l m.
      ap (λ (t : List (List Call)). file_calls format division (map chunk_of t))
        (get_tracks-put tracks);
}
