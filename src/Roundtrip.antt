-- ===== src/Roundtrip.antt =====
-- A part of a file that server/midi_writer.c writes, read back by server/midi_reader.c. Both stand
-- on the library of server/midifile.c, a parameter: what `mfread` reports of a file that `mfwrite`
-- wrote is here in terms of the calls that wrote it.
pub mod Heard
pub mod Reports
pub mod Parts
use mks65_symphony.Prelude.{
  ℕ, suc, ◌+◌, ◌≤◌, ◌<◌, ◌^◌, ◌≡◌, Bool, true, false, ◌&&◌, ◌||◌, Option, none, some, List, [], ◌∷◌,
  map, ◌==◌, leb, if◌then◌else◌, length, All,
}
use mks65_symphony.Midi.{Bytes, MeventData, Mevent}
use MeventData.{regular, sysex, meta}
use mks65_symphony.Writer.{Call, write_meta, write_midi, MidiFileWriter}
use mks65_symphony.Reader.Parser.{
  Callback, Trace, noteon, noteoff, pressure, parameter, pitchbend, program, chanpressure, sysex,
  metamisc, seqspecific, text, eot, seqnum, timesig, smpte, tempo, keysig,
}
use mks65_symphony.Reader.Build.{Chunk, file_calls}

-- The messages of a channel with two data bytes, and those with one.
pub data IsTwo : ℕ → Type 0 where
  off : IsTwo 0x80
  on : IsTwo 0x90
  aftertouch : IsTwo 0xa0
  control : IsTwo 0xb0
  bend : IsTwo 0xe0

pub data IsOne : ℕ → Type 0 where
  programmed : IsOne 0xc0
  pressed : IsOne 0xd0

abbrev pub plain_type : ℕ → Bool
plain_type t = leb 0x10 t && leb t 0x7e

abbrev pub named_type : ℕ → Bool
named_type t = (t == 0x2f) || ((t == 0x51) || ((t == 0x54) || ((t == 0x58) || (t == 0x59))))

-- The types of meta events with the number of bytes that the standard gives them.
pub data IsMeta : ℕ → ℕ → Type 0 where
  numbered : {n : ℕ} → n ≡ 2 → IsMeta 0x00 n
  ended : {n : ℕ} → n ≡ 0 → IsMeta 0x2f n
  timed : {n : ℕ} → n ≡ 3 → IsMeta 0x51 n
  offset : {n : ℕ} → n ≡ 5 → IsMeta 0x54 n
  measured : {n : ℕ} → n ≡ 4 → IsMeta 0x58 n
  keyed : {n : ℕ} → n ≡ 2 → IsMeta 0x59 n
  own_use : {n : ℕ} → IsMeta 0x7f n
  worded : {t n : ℕ} → leb 1 t ≡ true → leb t 0x0f ≡ true → IsMeta t n
  other : {t n : ℕ} → plain_type t ≡ true → named_type t ≡ false → IsMeta t n

-- A call that stands for an event of a well-formed file, no system exclusive message.
pub data IsSendable : Call → Type 0 where
  two :
      {delta t chan a b : ℕ}
      → delta < 2 ^ 28
      → chan < 16
      → IsTwo t
      → a < 128
      → b < 128
      → IsSendable (write_midi delta t chan (a ∷ b ∷ []))
  one :
      {delta t chan a : ℕ}
      → delta < 2 ^ 28
      → chan < 16
      → IsOne t
      → a < 128
      → IsSendable (write_midi delta t chan (a ∷ []))
  extra :
      {delta t : ℕ} {block : Bytes}
      → delta < 2 ^ 28
      → IsMeta t (length block)
      → All (λ (b : ℕ). b < 256) block
      → IsSendable (write_meta delta t block)

-- How the parser reports a channel message, by its status byte and its data bytes in the order of
-- the file.
abbrev pub channel_report : ℕ → ℕ → ℕ → ℕ → Callback
channel_report t chan c1 c2 =
    if t == 0x80
    then noteoff chan c1 c2
    else if t == 0x90
    then noteon chan c1 c2
    else if t == 0xa0
    then pressure chan c1 c2
    else if t == 0xb0
    then parameter chan c1 c2
    else if t == 0xe0
    then pitchbend chan c1 c2
    else if t == 0xc0
    then program chan c1
    else chanpressure chan c1

abbrev pub meta_report : ℕ → Bytes → Callback
meta_report t m =
    if t == 0x00
    then seqnum m
    else if leb t 0x0f
    then text t (length m) m
    else if t == 0x2f
    then eot
    else if t == 0x51
    then tempo m
    else if t == 0x54
    then smpte m
    else if t == 0x58
    then timesig m
    else if t == 0x59
    then keysig m
    else if t == 0x7f
    then seqspecific (length m) m
    else metamisc t (length m) m

abbrev pub reported : Call → Callback
reported (write_midi delta t chan (a ∷ b ∷ m)) = channel_report t chan a b
reported (write_midi delta t chan (a ∷ [])) = channel_report t chan a 0
reported (write_midi delta t chan []) = channel_report t chan 0 0
reported (write_meta delta t block) = meta_report t block

abbrev pub delta_of : Call → ℕ
delta_of (write_midi delta t chan block) = delta
delta_of (write_meta delta t block) = delta

-- The calls of the parser for a track that these calls wrote; `now` is `Mf_currtime`.
abbrev pub reports : ℕ → List Call → Trace
reports now [] = []
reports now (c ∷ cs) = (now + delta_of c, reported c) ∷ reports (now + delta_of c) cs

abbrev pub end_time : ℕ → List Call → ℕ
end_time now [] = now
end_time now (c ∷ cs) = end_time (now + delta_of c) cs

abbrev pub chunk_of : List Call → Chunk
chunk_of cs = record { body = reports 0 cs; finish = end_time 0 cs }

-- The library: `mfread` of the bytes that `mfwrite` made reports what was written.
pub record MidiLibrary : Type 0 where
  pub writer : MidiFileWriter
  pub mfread : Bytes → Trace
  pub reads_back :
      (format division : ℕ) (tracks : List (List Call))
      → format < 3
      → division < 2 ^ 16
      → length tracks < 2 ^ 16
      → All (All IsSendable) tracks
      → mfread (writer.encode format (length tracks) division tracks)
        ≡ file_calls format division (map chunk_of tracks)

-- Event data as the reader stores them for a message of a channel or a meta event.
pub data IsCarried : MeventData → Type 0 where
  two_bytes :
      {t chan a b : ℕ}
      → chan < 16
      → IsTwo t
      → a < 128
      → b < 128
      → IsCarried (regular (record { type = t; chan = chan; param1 = a; param2 = b; len = 2 }))
  one_byte :
      {t chan a : ℕ}
      → chan < 16
      → IsOne t
      → a < 128
      → IsCarried (regular (record { type = t; chan = chan; param1 = a; param2 = 0; len = 1 }))
  no_data : {t : ℕ} → IsMeta t 0 → IsCarried (meta (record { type = t; len = 0; bytes = none }))
  some_data :
      {t b : ℕ} {s : Bytes}
      → IsMeta t (length (b ∷ s))
      → All (λ (x : ℕ). x < 256) (b ∷ s)
      → IsCarried (meta (record { type = t; len = length (b ∷ s); bytes = some (b ∷ s) }))

-- What comes back: the same, but for the two bytes of a pitch bend, which change places.
abbrev pub returned : MeventData → MeventData
returned (regular r) =
    if r.type == 0xe0
    then regular (record r { param1 = r.param2; param2 = r.param1 })
    else regular r
returned (sysex s) = sysex s
returned (meta m) = meta m
