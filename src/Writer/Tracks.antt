-- ===== src/Writer/Tracks.antt =====
-- What server/midi_writer.c hands over for an event and a track, and the system exclusive messages
-- that it reads past their end.
use mks65_symphony.Prelude.{
  ℕ, ◌+◌, ◌<◌, ◌≤◌, ◌≡◌, refl, Bool, true, false, Option, none, some, List, [], ◌∷◌, ◌++◌, map,
  ◌==◌, leb, length, length-append, take, All, arith, ok, trap, Trap,
}
use Trap.{out_of_bounds}
use mks65_symphony.Midi.{
  Bytes, system_exclusive, MeventData, Mevent, memcpy, c_str, has_nul, new_msysex_event,
}
use mks65_symphony.Writer.{
  Call, write_meta, write_midi, read_block, write_data, write_event, write_events,
}

-- Whether `size` bytes can be read at the pointer, and the bytes.
abbrev pub readable : Option Bytes → ℕ → Bool
readable none size = size == 0
readable (some s) size = leb size (length s)

abbrev pub block_of : Option Bytes → ℕ → Bytes
block_of none size = []
block_of (some s) size = take size s

abbrev pub IsWritable : MeventData → Type 0
IsWritable (MeventData.regular r) = r.len ≤ 2
IsWritable (MeventData.sysex s) = readable s.msg s.len ≡ true
IsWritable (MeventData.meta m) = readable m.bytes m.len ≡ true

abbrev pub call_of : ℕ → MeventData → Call
call_of delta (MeventData.regular r) =
    write_midi delta r.type r.chan (take r.len (r.param1 ∷ r.param2 ∷ []))
call_of delta (MeventData.sysex s) = write_midi delta system_exclusive 0 (block_of s.msg s.len)
call_of delta (MeventData.meta m) = write_meta delta m.type (block_of m.bytes m.len)

abbrev pub calls_of : List Mevent → List Call
calls_of = map (λ e. call_of e.deltatime e.event_data)

read_block-readable :
    (p : Option Bytes) (n : ℕ) → readable p n ≡ true → read_block p n ≡ ok (block_of p n)
unfolding read_block
read_block-readable none n h = rw h refl
read_block-readable (some s) n h = rw h refl

write_data-call_of :
    (delta : ℕ) (d : MeventData) → IsWritable d → write_data delta d ≡ ok (call_of delta d)
unfolding write_data
write_data-call_of delta (MeventData.regular r) h =
    rw (read_block-readable (some (r.param1 ∷ r.param2 ∷ [])) r.len (ground arith)) refl
write_data-call_of delta (MeventData.sysex s) h = rw (read_block-readable s.msg s.len h) refl
write_data-call_of delta (MeventData.meta m) h = rw (read_block-readable m.bytes m.len h) refl

abbrev pub AreWritable : List Mevent → Type 0
AreWritable = All (λ (e : Mevent). IsWritable e.event_data)

-- A track all of whose buffers are as long as their events say is written whole: one call for each
-- event, in order, with its delta time, type, channel and bytes.
pub write_track-calls_of : (es : List Mevent) → AreWritable es → write_events es ≡ ok (calls_of es)
unfolding write_events write_event
write_track-calls_of [] h = refl
write_track-calls_of (e ∷ es) h =
    rw (write_data-call_of e.deltatime e.event_data h.0, write_track-calls_of es h.1) refl

-- A system exclusive message of `n` bytes with a zero byte before its last is copied up to the
-- zero byte only, and writing the event reads past the end of the copy.
pub write_event-sysex_cut :
    (now n : ℕ) (msg : Bytes)
    → has_nul msg ≡ true
    → length (c_str msg) + 1 < n
    → (e : Mevent) × (new_msysex_event now n (some msg) ≡ ok e)
      × (write_event e ≡ trap out_of_bounds)
unfolding new_msysex_event write_event
write_event-sysex_cut now n msg h lt = (
  record {
    deltatime = 0;
    curtime = now;
    event_data = MeventData.sysex (record { msg = some (c_str msg ++ 0 ∷ []); len = n });
  },
  rw h refl,
  rw (short, memcpy) refl,
)
  where
    short : leb n (length (c_str msg ++ 0 ∷ [])) ≡ false
    short = ground (arith, length-append (c_str msg) (0 ∷ []))
