-- ===== src/Reader/Handlers.antt =====
-- Each event handler of server/midi_reader.c appends the event that its callback stands for.
use mathlib.Core.List.{map-append, append-nil}
use mathlib.Core.Path.{subst}
use mks65_symphony.Prelude.{
  ℕ, ◌≡◌, refl, ap, sym, ◌∙◌, true, Option, some, List, [], ◌∷◌, ◌++◌, map, arith, ◌==◌, leb,
  length, take, ok, ◌>>=◌, Bool-cases, inl, inr,
}
use mks65_symphony.Midi.{
  Bytes, Mevent, MeventData, Mtrack, Mfile, c_str, has_nul, strdup, memcpy, new_mreg_event,
  new_msysex_event, new_mmeta_event, append_mevent,
}
use mks65_symphony.Midi.Chain.{Deltas, IsChained, with_event, chained, append_mevent-IsChained}
use mks65_symphony.Reader.{
  append_cur, set_text, set_name, set_instrument, store_text, handle_noteon, handle_noteoff,
  handle_pressure, handle_control_change, handle_pitchbend, handle_program, handle_chan_pressure,
  handle_sysex, handle_metamisc, my_handle_metaseq, handle_metaeot, my_handle_tempo,
  my_handle_smpte, my_handle_timesig, my_handle_keysig, handle_metaspecial, handle_metatext,
  dispatch,
}
use mks65_symphony.Reader.Parser.{Callback}
use Callback.{
  header, trackstart, trackend, noteon, noteoff, pressure, parameter, pitchbend, program,
  chanpressure, sysex, metamisc, seqspecific, text, eot, seqnum, timesig, smpte, tempo, keysig,
  arbitrary, error,
}
use mks65_symphony.Reader.Events.{meta_message, described, IsEvent, stamp, content, IsExtended}

abbrev added : Mfile → Mtrack → Mevent → Mfile
added m t e = record m { cur_track = some (with_event t e) }

content-with_event :
    (t : Mtrack) (e : Mevent) → content (with_event t e) ≡ content t ++ stamp e ∷ []
content-with_event t e =
    map-append stamp t.events _ ∙ ap (λ (l : List (ℕ × MeventData)). content t ++ l) (same t.events)
  where
    same : (es : List Mevent) → map stamp (chained es e ∷ []) ≡ stamp e ∷ []
    same [] = refl
    same (f ∷ es) = refl

append_cur-track :
    (m : Mfile) (t t' : Mtrack) (e : Mevent)
    → m.cur_track ≡ some t
    → append_mevent t e ≡ ok t'
    → append_cur m e ≡ ok (record m { cur_track = some t' })
unfolding append_cur
append_cur-track m t t' e h k = ground arith

abbrev meta_made : ℕ → ℕ → ℕ → Bytes → Mevent
meta_made now type len msg = record {
  deltatime = 0;
  curtime = now;
  event_data = meta_message type len msg;
}

new_mmeta_event-made :
    (now type len : ℕ) (msg : Bytes)
    → leb len (length msg) ≡ true
    → new_mmeta_event now type len msg ≡ ok (meta_made now type len msg)
unfolding new_mmeta_event
new_mmeta_event-made now type len msg h = elim (Bool-cases (len == 0)) [
  | inl e ↦ rw e refl
  | inr e ↦ rw (e, memcpy, h) refl
]

abbrev pub Handled : Mfile → Mtrack → ℕ → Callback → Type 0
Handled m t now c = (m' : Mfile) × (dispatch now c m ≡ ok m') × IsExtended m t (described now c) m'

-- The current track may be given another string.
retitled :
    {m m' : Mfile} {t : Mtrack} {new : List (ℕ × MeventData)} (x : IsExtended m t new m')
    (u : Mtrack)
    → u.events ≡ x.track.events
    → u.len ≡ x.track.len
    → u.is_tempotrack ≡ x.track.is_tempotrack
    → IsExtended m t new (record m' { cur_track = some u })
retitled x u he hl hf = record {
  track = u;
  current = refl;
  holds = ap (map stamp) he ∙ x.holds;
  chain = record {
    counted = hl ∙ x.chain.counted ∙ ap length (sym he);
    deltas = subst Deltas (sym he) x.chain.deltas;
  };
  flag = hf ∙ x.flag;
  format = x.format;
  division = x.division;
  ntracks = x.ntracks;
  tracks = x.tracks;
  index = x.index;
  tempo_seen = x.tempo_seen;
}

recopyrighted :
    {m m' : Mfile} {t : Mtrack} {new : List (ℕ × MeventData)} (x : IsExtended m t new m')
    (s : Option Bytes)
    → IsExtended m t new (record m' { copyright_info = s })
recopyrighted x s = record {
  track = x.track;
  current = x.current;
  holds = x.holds;
  chain = x.chain;
  flag = x.flag;
  format = x.format;
  division = x.division;
  ntracks = x.ntracks;
  tracks = x.tracks;
  index = x.index;
  tempo_seen = x.tempo_seen;
}

store_text-IsExtended :
    {m m' : Mfile} {t : Mtrack} {new : List (ℕ × MeventData)} (type : ℕ) (str : Bytes)
    (x : IsExtended m t new m')
    → IsExtended m t new (store_text type str x.track m')
unfolding store_text
store_text-IsExtended type str x = elim (Bool-cases (type == 1)) [
  | inl a ↦ rw a (retitled x (set_text x.track str) refl refl refl)
  | inr a ↦ elim (Bool-cases (type == 2)) [
    | inl b ↦ rw (a, b) (recopyrighted x _)
    | inr b ↦ elim (Bool-cases (type == 3)) [
      | inl c ↦ rw (a, b, c) (retitled x (set_name x.track str) refl refl refl)
      | inr c ↦ elim (Bool-cases (type == 4)) [
        | inl d ↦ rw (a, b, c, d) (retitled x (set_instrument x.track str) refl refl refl)
        | inr d ↦ rw (a, b, c, d) x
      ]
    ]
  ]
]

module _ {m : Mfile} {t : Mtrack} (cur : m.cur_track ≡ some t) (chain : IsChained t) where
  append_cur-added : (e : Mevent) → append_cur m e ≡ ok (added m t e)
  append_cur-added e =
      append_cur-track m t (with_event t e) e cur (append_mevent-IsChained t e chain).0

  extended : (e : Mevent) → IsExtended m t (stamp e ∷ []) (added m t e)
  extended e = record {
    track = with_event t e;
    current = refl;
    holds = content-with_event t e;
    chain = (append_mevent-IsChained t e chain).1;
    flag = refl;
    format = refl;
    division = refl;
    ntracks = refl;
    tracks = refl;
    index = refl;
    tempo_seen = refl;
  }

  pub unchanged : IsExtended m t [] m
  unchanged = record {
    track = t;
    current = cur;
    holds = sym (append-nil (content t));
    chain = chain;
    flag = refl;
    format = refl;
    division = refl;
    ntracks = refl;
    tracks = refl;
    index = refl;
    tempo_seen = refl;
  }

  meta_handled :
      (now type len : ℕ) (msg : Bytes)
      → leb len (length msg) ≡ true
      → (new_mmeta_event now type len msg >>= append_cur m)
        ≡ ok (added m t (meta_made now type len msg))
  meta_handled now type len msg h =
      rw (new_mmeta_event-made now type len msg h) (append_cur-added _)

  sysex-Handled : (now n : ℕ) (msg : Bytes) → has_nul msg ≡ true → Handled m t now (sysex n msg)
  unfolding dispatch handle_sysex new_msysex_event strdup
  sysex-Handled now n msg h = (
    added m t (record {
      deltatime = 0;
      curtime = now;
      event_data = MeventData.sysex (record { msg = some (c_str msg ++ 0 ∷ []); len = n });
    }),
    rw h (append_cur-added _),
    extended _,
  )

  text-Handled :
      (now type n : ℕ) (msg : Bytes) → leb n (length msg) ≡ true → Handled m t now (text type n msg)
  unfolding dispatch handle_metatext memcpy extended
  text-Handled now type n msg h =
      let e : Mevent = meta_made now type n msg in
      (
        store_text type (take n msg) (with_event t e) (added m t e),
        rw (new_mmeta_event-made now type n msg h, append_cur-added e, h) refl,
        store_text-IsExtended type (take n msg) (extended e),
      )

  -- Every handler of a track's body returns, and what it changes is the current track, at whose end
  -- the described event now stands, and strings.
  pub dispatch-IsExtended : (now : ℕ) (c : Callback) → IsEvent c → Handled m t now c
  unfolding dispatch handle_noteon handle_noteoff handle_pressure handle_control_change
      handle_pitchbend handle_program handle_chan_pressure new_mreg_event handle_metamisc
      handle_metaspecial handle_metaeot my_handle_metaseq my_handle_tempo my_handle_smpte
      my_handle_timesig my_handle_keysig
  dispatch-IsExtended now (header _ _ _) h = absurd h
  dispatch-IsExtended now trackstart h = absurd h
  dispatch-IsExtended now trackend h = absurd h
  dispatch-IsExtended now (error _) h = absurd h
  dispatch-IsExtended now (noteon c p v) h = (_, append_cur-added _, extended _)
  dispatch-IsExtended now (noteoff c p v) h = (_, append_cur-added _, extended _)
  dispatch-IsExtended now (pressure c p v) h = (_, append_cur-added _, extended _)
  dispatch-IsExtended now (parameter c p v) h = (_, append_cur-added _, extended _)
  dispatch-IsExtended now (pitchbend c l r) h = (_, append_cur-added _, extended _)
  dispatch-IsExtended now (program c p) h = (_, append_cur-added _, extended _)
  dispatch-IsExtended now (chanpressure c p) h = (_, append_cur-added _, extended _)
  dispatch-IsExtended now (sysex n s) h = sysex-Handled now n s h
  dispatch-IsExtended now (metamisc k n s) h = (_, meta_handled now k n s h, extended _)
  dispatch-IsExtended now (seqspecific n s) h = (_, meta_handled now 0x7f n s h, extended _)
  dispatch-IsExtended now (text k n s) h = text-Handled now k n s h
  dispatch-IsExtended now eot h = (_, meta_handled now 0x2f 0 [] refl, extended _)
  dispatch-IsExtended now (seqnum s) h = (_, meta_handled now 0x00 2 s h, extended _)
  dispatch-IsExtended now (timesig s) h = (_, meta_handled now 0x58 4 s h, extended _)
  dispatch-IsExtended now (smpte s) h = (_, meta_handled now 0x54 5 s h, extended _)
  dispatch-IsExtended now (tempo s) h = (_, meta_handled now 0x51 3 s h, extended _)
  dispatch-IsExtended now (keysig s) h = (_, meta_handled now 0x59 2 s h, extended _)
  dispatch-IsExtended now (arbitrary n s) h = (m, refl, unchanged)
