-- ===== src/Roundtrip/Reports.antt =====
-- The events that the handlers of server/midi_reader.c store for what the parser reports.
use mks65_symphony.Prelude.{
  ℕ, ◌<◌, ◌%◌, ◌^◌, ◌≡◌, refl, sym, ap, true, false, none, some, List, [], ◌∷◌, ◌==◌, leb, length,
  arith, take, take-length,
}
use mathlib.Core.Path.{subst}
use mks65_symphony.Midi.{Bytes, MeventData}
use MeventData.{regular, meta}
use mks65_symphony.Writer.Tracks.{IsWritable, call_of}
use mks65_symphony.Reader.Events.{described, IsEvent, meta_message}
use mks65_symphony.Roundtrip.{
  IsTwo, off, on, aftertouch, control, bend, IsOne, programmed, pressed, IsMeta, numbered, ended,
  timed, offset, measured, keyed, own_use, worded, other, IsSendable, two, one, extra, reported,
  meta_report, channel_report, IsCarried, two_bytes, one_byte, no_data, some_data, returned,
}

abbrev pub meta_data : ℕ → Bytes → MeventData
meta_data t [] = meta (record { type = t; len = 0; bytes = none })
meta_data t (b ∷ s) = meta (record { type = t; len = length (b ∷ s); bytes = some (b ∷ s) })

abbrev at_time : ℕ → MeventData → List (ℕ × MeventData)
at_time now d = (now, d) ∷ []

meta_message-full :
    (t n : ℕ) (m : Bytes) → t < 256 → length m ≡ n → meta_message t n m ≡ meta_data t m
meta_message-full t n [] h e =
    rw (sym e) (ap (λ (u : ℕ). meta (record { type = u; len = 0; bytes = none })) small)
  where
    small : t % 2 ^ 8 ≡ t
    small = omega arith
meta_message-full t n (b ∷ s) h e =
    rw (sym e, full, some_bytes)
      (ap (λ (u : ℕ). meta (record { type = u; len = length (b ∷ s); bytes = some (b ∷ s) })) small)
  where
    small : t % 2 ^ 8 ≡ t
    small = omega arith

    some_bytes : (length (b ∷ s) == 0) ≡ false
    some_bytes = ground arith

    full : take (length (b ∷ s)) (b ∷ s) ≡ b ∷ s
    full = take-length (b ∷ s)

-- A meta event of `n` bytes is stored as it was, and its buffer can be read.
stored :
    (now t n : ℕ) (m : Bytes)
    → t < 256
    → length m ≡ n
    → (at_time now (meta_message t n m) ≡ at_time now (meta_data t m)) × (leb n (length m) ≡ true)
stored now t n m h e = (ap (at_time now) (meta_message-full t n m h e), ground (arith, e))

-- What the parser reports of a meta event is stored as it was.
pub described-meta :
    (now t : ℕ) (m : Bytes)
    → IsMeta t (length m)
    → (described now (meta_report t m) ≡ (now, meta_data t m) ∷ []) × IsEvent (meta_report t m)
described-meta now _ m (numbered e) = stored now 0x00 2 m (omega arith) e
described-meta now _ [] (ended e) = (refl, tt)
described-meta now _ (b ∷ m) (ended e) = absurd (omega (arith, e))
described-meta now _ m (timed e) = stored now 0x51 3 m (omega arith) e
described-meta now _ m (offset e) = stored now 0x54 5 m (omega arith) e
described-meta now _ m (measured e) = stored now 0x58 4 m (omega arith) e
described-meta now _ m (keyed e) = stored now 0x59 2 m (omega arith) e
described-meta now _ m own_use = stored now 0x7f (length m) m (omega arith) refl
described-meta now t m (worded h k) = rw (not_zero, k) (stored now t (length m) m small refl)
  where
    not_zero : (t == 0x00) ≡ false
    not_zero = ground (arith, h)

    small : t < 256
    small = ground (arith, k)
described-meta now t m (other h k) =
    rw (not_zero, high, n1, n2, n3, n4, n5, n6) (stored now t (length m) m small refl)
  where
    not_zero : (t == 0x00) ≡ false
    not_zero = ground (arith, h)

    n1 : (t == 0x2f) ≡ false
    n1 = ground (arith, k)

    n2 : (t == 0x51) ≡ false
    n2 = ground (arith, k)

    n3 : (t == 0x54) ≡ false
    n3 = ground (arith, k)

    n4 : (t == 0x58) ≡ false
    n4 = ground (arith, k)

    n5 : (t == 0x59) ≡ false
    n5 = ground (arith, k)

    n6 : (t == 0x7f) ≡ false
    n6 = ground (arith, h)

    high : leb t 0x0f ≡ false
    high = ground (arith, h)

    small : t < 256
    small = ground (arith, h)

small_byte : (x : ℕ) → x < 128 → x % 2 ^ 8 ≡ x
small_byte x h = omega arith

pub described-two :
    (now t chan a b : ℕ)
    → IsTwo t
    → a < 128
    → b < 128
    → (described now (channel_report t chan a b)
        ≡ (
          now,
          returned (regular (record { type = t; chan = chan; param1 = a; param2 = b; len = 2 })),
        )
          ∷ [])
      × IsEvent (channel_report t chan a b)
described-two now _ chan a b off h k = (rw (small_byte a h, small_byte b k) refl, tt)
described-two now _ chan a b on h k = (rw (small_byte a h, small_byte b k) refl, tt)
described-two now _ chan a b aftertouch h k = (rw (small_byte a h, small_byte b k) refl, tt)
described-two now _ chan a b control h k = (rw (small_byte a h, small_byte b k) refl, tt)
described-two now _ chan a b bend h k = (rw (small_byte a h, small_byte b k) refl, tt)

pub described-one :
    (now t chan a : ℕ)
    → IsOne t
    → a < 128
    → (described now (channel_report t chan a 0)
        ≡ (
          now,
          returned (regular (record { type = t; chan = chan; param1 = a; param2 = 0; len = 1 })),
        )
          ∷ [])
      × IsEvent (channel_report t chan a 0)
described-one now _ chan a programmed h = (rw (small_byte a h) refl, tt)
described-one now _ chan a pressed h = (rw (small_byte a h) refl, tt)

-- An event that is handed to the writer comes back from the parser.
pub described-reported :
    (now delta : ℕ) (d : MeventData)
    → IsCarried d
    → (described now (reported (call_of delta d)) ≡ (now, returned d) ∷ [])
      × IsEvent (reported (call_of delta d))
described-reported now delta _ (two_bytes {t} {chan} {a} {b} c k h h') =
    described-two now t chan a b k h h'
described-reported now delta _ (one_byte {t} {chan} {a} c k h) = described-one now t chan a k h
described-reported now delta _ (no_data {t} k) = described-meta now t [] k
described-reported now delta _ (some_data {t} {b} {s} k h) =
    subst
      (λ (l : Bytes).
        (described now (meta_report t l) ≡ at_time now (meta_data t (b ∷ s)))
        × IsEvent (meta_report t l))
      (sym (take-length (b ∷ s))) (described-meta now t (b ∷ s) k)

pub call_of-IsSendable :
    (delta : ℕ) (d : MeventData) → delta < 2 ^ 28 → IsCarried d → IsSendable (call_of delta d)
call_of-IsSendable delta _ lt (two_bytes c k h h') = two lt c k h h'
call_of-IsSendable delta _ lt (one_byte c k h) = one lt c k h
call_of-IsSendable delta _ lt (no_data k) = extra lt k tt
call_of-IsSendable delta _ lt (some_data {t} {b} {s} k h) = rw (take-length (b ∷ s)) (extra lt k h)

pub IsCarried-IsWritable : (d : MeventData) → IsCarried d → IsWritable d
IsCarried-IsWritable _ (two_bytes c k h h') = omega arith
IsCarried-IsWritable _ (one_byte c k h) = omega arith
IsCarried-IsWritable _ (no_data k) = refl
IsCarried-IsWritable _ (some_data {b} {s} k h) = ground arith
