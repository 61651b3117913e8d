-- ===== src/Reader/Ends.antt =====
-- The end of a track in server/midi_reader.c: the tempo mark and the slot.
use mks65_symphony.Prelude.{
  ℕ, suc, ◌+◌, ◌<◌, ◌≡◌, refl, sym, ap, ◌∙◌, Bool, true, false, not, ◌&&◌, Option, none, some, List,
  [], ◌∷◌, ◌++◌, map, ◌==◌, length, length-append, length-replicate, set, replicate, All, arith,
  Bool-cases, inl, inr, ok,
}
use mks65_symphony.Midi.{Mtrack, Mfile}
use mks65_symphony.Midi.Chain.{IsChained}
use mks65_symphony.Reader.{as_tempotrack, mark_tempotrack, store_track, handle_track_end}

-- The tracks `ts` have been stored, and `rest` slots are left.
pub record IsPartial (m : Mfile) (ts : List Mtrack) (rest : ℕ) : Type 0 where
  pub slots : m.tracks ≡ map some ts ++ replicate rest none
  pub size : m.ntracks ≡ length ts + rest
  pub index : m.cur_track_index ≡ length ts
  pub chained : All IsChained ts
  pub tempo_seen : m.has_tempotrack ≡ (m.format == 1 && not (length ts == 0))

-- Whether a track that is stored at `index` is the tempo track.
abbrev pub is_tempo : ℕ → ℕ → Bool
is_tempo format index = format == 1 && index == 0

abbrev pub flagged : Mtrack → Bool → Mtrack
flagged t b = record t { is_tempotrack = b }

-- What `mark_tempotrack` gives.
record IsMarked (m : Mfile) (t : Mtrack) (m' : Mfile) : Type 0 where
  current : m'.cur_track ≡ some (flagged t (is_tempo m.format m.cur_track_index))
  seen : m'.has_tempotrack ≡ (m.format == 1)
  format : m'.format ≡ m.format
  division : m'.division ≡ m.division
  ntracks : m'.ntracks ≡ m.ntracks
  tracks : m'.tracks ≡ m.tracks
  index : m'.cur_track_index ≡ m.cur_track_index

mark_tempotrack-some :
    (m : Mfile) (t : Mtrack)
    → m.cur_track ≡ some t
    → (not m.has_tempotrack && is_tempo m.format m.cur_track_index) ≡ true
    → mark_tempotrack m ≡ ok (as_tempotrack m t)
unfolding mark_tempotrack
mark_tempotrack-some m t cur c = ground arith

mark_tempotrack-none :
    (m : Mfile)
    → (not m.has_tempotrack && is_tempo m.format m.cur_track_index) ≡ false
    → mark_tempotrack m ≡ ok m
unfolding mark_tempotrack
mark_tempotrack-none m c = rw c refl

mark_tempotrack-IsMarked :
    (m : Mfile) (t : Mtrack)
    → m.cur_track ≡ some t
    → t.is_tempotrack ≡ false
    → m.has_tempotrack ≡ (m.format == 1 && not (m.cur_track_index == 0))
    → (m' : Mfile) × (mark_tempotrack m ≡ ok m') × IsMarked m t m'
mark_tempotrack-IsMarked m t cur plain seen =
    elim (Bool-cases (not m.has_tempotrack && is_tempo m.format m.cur_track_index)) [
      | inl c ↦ (
        as_tempotrack m t,
        mark_tempotrack-some m t cur c,
        record {
          current =
              ap (λ (b : Bool). some (flagged t b))
                (sym (let e : is_tempo m.format m.cur_track_index ≡ true = ground arith in e));
          seen = ground arith;
          format = refl;
          division = refl;
          ntracks = refl;
          tracks = refl;
          index = refl;
        },
      )
      | inr c ↦ (
        m,
        mark_tempotrack-none m c,
        record {
          current =
              cur
              ∙ ap (λ (b : Bool). some (flagged t b))
                  (plain
                    ∙ sym
                        (let e : is_tempo m.format m.cur_track_index ≡ false = ground arith in e));
          seen = ground arith;
          format = refl;
          division = refl;
          ntracks = refl;
          tracks = refl;
          index = refl;
        },
      )
    ]

set-next :
    (ts : List Mtrack) (t : Mtrack) (rest : ℕ)
    → set (map some ts ++ replicate (suc rest) none) (length ts) (some t)
      ≡ map some (ts ++ t ∷ []) ++ replicate rest none
set-next [] t rest = refl
set-next (x ∷ ts) t rest = ap (λ (l : List (Option Mtrack)). some x ∷ l) (set-next ts t rest)

set-next_at :
    (ts : List Mtrack) (t : Mtrack) (rest i : ℕ) (l : List (Option Mtrack)) (o : Option Mtrack)
    → l ≡ map some ts ++ replicate (suc rest) none
    → i ≡ length ts
    → o ≡ some t
    → set l i o ≡ map some (ts ++ t ∷ []) ++ replicate rest none
set-next_at ts t rest i l o el ei eo = rw (el, ei, eo) (set-next ts t rest)

length-slots :
    (ts : List Mtrack) (rest : ℕ)
    → length (map some ts ++ replicate {A = Option Mtrack} rest none) ≡ length ts + rest
length-slots [] rest = omega (arith, length-replicate {0} {A = Option Mtrack} rest none)
length-slots (t ∷ ts) rest = omega (arith, length-slots ts rest)

pub All-snoc :
    (ts : List Mtrack) (t : Mtrack) → All IsChained ts → IsChained t → All IsChained (ts ++ t ∷ [])
All-snoc [] t h c = (c, tt)
All-snoc (x ∷ ts) t h c = (h.0, All-snoc ts t h.1 c)

abbrev pub stored : Mfile → Mfile
stored m = record m {
  tracks = set m.tracks m.cur_track_index m.cur_track;
  cur_track_index = m.cur_track_index + 1;
  cur_track = none;
}

store_track-stored :
    (m : Mfile)
    → m.cur_track_index < length m.tracks
    → m.cur_track_index < m.ntracks
    → store_track m ≡ ok (stored m)
unfolding store_track
store_track-stored m h k = ground arith

-- With a fresh current track and a slot left, the end of a track puts the track into the next
-- slot, flagged as the tempo track only if it is the first track of a file of format 1.
pub handle_track_end-IsPartial :
    (m : Mfile) (t : Mtrack) (ts : List Mtrack) (rest : ℕ)
    → IsPartial m ts (suc rest)
    → m.cur_track ≡ some t
    → IsChained t
    → t.is_tempotrack ≡ false
    → (m' : Mfile) × (handle_track_end m ≡ ok m')
      × IsPartial m' (ts ++ flagged t (is_tempo m.format (length ts)) ∷ []) rest
      × (m'.format ≡ m.format)
      × (m'.division ≡ m.division)
unfolding handle_track_end
handle_track_end-IsPartial m t ts rest p cur chain plain =
    let (m1, e1, k) = mark_tempotrack-IsMarked m t cur plain (ground arith) in
    let room : m1.cur_track_index < length m1.tracks =
      omega (arith, length-slots ts (suc rest), ap length (k.tracks ∙ p.slots), p.index, k.index) in
    let count : m1.cur_track_index < m1.ntracks =
      omega (arith, p.size, p.index, k.index, k.ntracks) in
    (
      stored m1,
      rw e1 (store_track-stored m1 room count),
      record {
        slots =
            set-next_at ts _ rest _ _ _ (k.tracks ∙ p.slots) (k.index ∙ p.index)
              (k.current ∙ ap (λ (i : ℕ). some (flagged t (is_tempo m.format i))) p.index);
        size = omega (arith, p.size, k.ntracks, length-append {0} ts (last ∷ []));
        index = omega (arith, p.index, k.index, length-append {0} ts (last ∷ []));
        chained =
            All-snoc ts _ p.chained (record { counted = chain.counted; deltas = chain.deltas });
        tempo_seen = k.seen ∙ ap (λ (f : ℕ). f == 1) (sym k.format) ∙ later m1.format;
      },
      k.format,
      k.division,
    )
  where
    last : Mtrack
    last = flagged t (is_tempo m.format (length ts))

    later : (f : ℕ) → (f == 1) ≡ (f == 1 && not (length (ts ++ last ∷ []) == 0))
    later f = ground (arith, length-append ts (last ∷ []))
