-- ===== src/Splitter/Whole.antt =====
-- The whole of `Mfile_split_by_tracks` in server/midi_splitter.c: its result for each format.
use mks65_symphony.Prelude.{
  ℕ, ◌+◌, ◌-◌, ◌*◌, ◌≤◌, ◌<◌, ◌≡◌, ◌≢◌, ap, ◌∙◌, false, Option, some, List, leb, length, arith, ok,
  trap, Trap, length-map, Bool-cases, inl, inr,
}
use Trap.{out_of_bounds}
use mks65_symphony.Midi.{Mtrack, Mfile}
use mks65_symphony.Splitter.{nsrc_of, one_each, mfile_split_by_tracks}
use mks65_symphony.Splitter.Split.{
  IsFull, part_tempo, part_plain, listed, each-listed, nsrc-plain, one_each_tempo-part,
  mixed_tempo-part, mixed_plain-part, copy_track-slot,
}
use mks65_symphony.Splitter.Deal.{IsDealt, share-IsDealt}
use mks65_symphony.Splitter.Branches.{
  split_small, split_large, one_each-tempo, one_each-plain, mixed-tempo, mixed-plain, each-trap,
  split_small-trap, copy_track-past, one_each_plain-track, one_each_plain-past,
}

fewer :
    (m : Mfile) {ndest : ℕ} → m.format ≡ 1 → leb (nsrc_of m) ndest ≡ false → ndest < m.ntracks - 1
unfolding nsrc_of
fewer m f large = ground arith

module _ {m : Mfile} {ts : List Mtrack} (full : IsFull m ts) (usable : ℕ → ℕ) (ndest : ℕ) where
  -- A file of format 1 with a tempo track and at least one more track is split, for any number of
  -- computers but none, if malloc's block has room for an int for each computer where those are
  -- fewer than the tracks behind the tempo track: no assert fails and no index leaves an array,
  -- computer `i` gets
  -- a copy of the tempo track and of its share, and the shares hold every other track, each in one
  -- share only if there are fewer computers than tracks.
  pub split_tempo :
      m.format ≡ 1
      → 1 < m.ntracks
      → 0 < ndest
      → (ndest < m.ntracks - 1 → 4 * ndest ≤ usable ndest)
      → (mfile_split_by_tracks usable m ndest ≡ ok (some (listed (part_tempo m ts ndest) ndest 0)))
        × IsDealt (m.ntracks - 1) ndest 1
  split_tempo f h pos room = (
    elim (Bool-cases (leb (nsrc_of m) ndest)) [
      | inl small ↦ split_small usable m ndest _ (omega arith) small (
          each-listed (one_each m) (part_tempo m ts ndest) ndest 0
            λ i _ _. one_each-tempo m i f ∙ one_each_tempo-part full ndest f h small i)
      | inr large ↦
          split_large usable m ndest (part_tempo m ts ndest) (omega arith) large pos
            (room (fewer m f large))
            λ dest_map i e lt.
              mixed-tempo m ndest i _ dest_map f e ∙ mixed_tempo-part full ndest f h large i lt
    ],
    share-IsDealt (m.ntracks - 1) ndest 1 pos,
  )

  -- A file of format 2 is split likewise if there are fewer computers than tracks and malloc's
  -- block has room for an int for each.
  pub split_plain :
      m.format ≢ 0
      → m.format ≢ 1
      → ndest < m.ntracks
      → 0 < ndest
      → 4 * ndest ≤ usable ndest
      → (mfile_split_by_tracks usable m ndest ≡ ok (some (listed (part_plain m ts ndest) ndest 0)))
        × IsDealt m.ntracks ndest 0
  split_plain f g h pos room =
      let n = nsrc-plain m g in
      let large : leb (nsrc_of m) ndest ≡ false = ground arith in
      (
        split_large usable m ndest (part_plain m ts ndest) f large pos room λ dest_map i e lt.
            mixed-plain m ndest i _ dest_map g e ∙ mixed_plain-part full ndest g large i lt,
        share-IsDealt m.ntracks ndest 0 pos,
      )

  -- With at least as many computers as tracks, a file of format 2 is read past the end of its
  -- array of tracks: the index there is one more than the track's.
  pub split_plain_overrun :
      m.format ≢ 0
      → m.format ≢ 1
      → m.ntracks ≤ ndest
      → 0 < m.ntracks
      → mfile_split_by_tracks usable m ndest ≡ trap out_of_bounds
  split_plain_overrun f g h pos =
      split_small-trap usable m ndest out_of_bounds f (rw (nsrc-plain m g) (ground arith)) (
        each-trap (one_each m) out_of_bounds ndest 0 (m.ntracks - 1) (omega arith) (omega arith)
          (λ j lt.
            let (t, e, _) = copy_track-slot full (j + 1) (omega arith) in
            let (file, made) = one_each_plain-track m j t (omega arith) g e in
            (file, one_each-plain m j g ∙ made))
          (one_each-plain m (m.ntracks - 1) g
            ∙ one_each_plain-past m (m.ntracks - 1) (omega arith) g
                (copy_track-past m (m.ntracks - 1 + 1) past)))
    where
      past : length m.tracks ≤ m.ntracks - 1 + 1
      past = omega (
        arith,
        full.size,
        ap (λ (l : List (Option Mtrack)). length l) full.slots,
        length-map {0, 0} ts (λ (t : Mtrack). some t),
      )
