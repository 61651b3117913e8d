-- ===== src/Memory/Tracks/Files.antt =====
-- What `free_Mfile` of server/midi.c gives back, and what it does not.
use mks65_symphony.Prelude.{
  ℕ, ◌<◌, ◌≡◌, ◌≢◌, refl, false, some, List, [], ◌∷◌, ◌++◌, ◌==◌, map, has, arith, length, ok,
}
use mks65_symphony.Memory.{
  Ptr, null, TrackNode, FileNode, Heap, file, pointers, load_file, load_pointers,
}
use mks65_symphony.Memory.Cells.{
  Ends, ends, weaken, Without, Owned, Owned-Without, seq-Without, Apart, Apart-left, Apart-right,
  has-append,
}
use mks65_symphony.Memory.Chain.{Cells, foot, Seg-Without}
use mks65_symphony.Memory.Tracks.{event_link, free_tracks, free_mfile}
use mks65_symphony.Memory.Tracks.Release.{
  owns, strings, track_foot, TrackAt, free_mtrack-Without, sfree_each-Without,
}

abbrev pub TrackCells : Type 0
TrackCells = Ptr × TrackNode × Cells event_link

abbrev pub tracks_foot : List TrackCells → List Ptr
tracks_foot [] = []
tracks_foot ((p, t, cs) ∷ ts) = track_foot p t cs ++ tracks_foot ts

-- A track in each slot, none with `k` events or more.
abbrev pub TracksAt : ℕ → Heap → List TrackCells → Type 0
TracksAt k h [] = Unit
TracksAt k h ((p, t, cs) ∷ ts) = TrackAt h p t cs × (length cs < k) × TracksAt k h ts

abbrev pub slot : TrackCells → Ptr
slot (p, t, cs) = p

module _ (h g : Heap) (xs : List Ptr) (w : Without xs h g) where
  TrackAt-Without :
      (p : Ptr) (t : TrackNode) (cs : Cells event_link)
      → Apart xs (track_foot p t cs)
      → TrackAt h p t cs
      → TrackAt g p t cs
  TrackAt-Without p t cs d a =
      let tail = Apart-right xs (owns (strings t)) (foot event_link cs ++ p ∷ []) d in
      record {
        not_null = a.not_null;
        holds = ground (arith, w p, Apart-right xs (foot event_link cs) (p ∷ []) tail p, a.holds);
        chain =
            Seg-Without event_link h g xs w (Apart-left xs (foot event_link cs) (p ∷ []) tail)
              a.chain;
        owned = Owned-Without h g xs w (track_foot p t cs) a.owned λ b i. ground (arith, d b, i);
      }

  TracksAt-Without :
      (k : ℕ) (ts : List TrackCells) → Apart xs (tracks_foot ts) → TracksAt k h ts → TracksAt k g ts
  TracksAt-Without k [] d a = tt
  TracksAt-Without k ((p, t, cs) ∷ ts) d a = (
    TrackAt-Without p t cs (Apart-left xs (track_foot p t cs) (tracks_foot ts) d) a.0,
    a.1,
    TracksAt-Without k ts (Apart-right xs (track_foot p t cs) (tracks_foot ts) d) a.2,
  )

free_tracks-Without :
    (k : ℕ) (h : Heap) (ts : List TrackCells)
    → TracksAt k h ts
    → Owned h (tracks_foot ts)
    → Ends (λ _. Without (tracks_foot ts) h) (free_tracks k (length ts) (map slot ts) h)
unfolding free_tracks
free_tracks-Without k h [] a o = ends λ a. refl
free_tracks-Without k h ((p, t, cs) ∷ ts) a o =
    seq-Without h (track_foot p t cs) (tracks_foot ts) o
      (λ _. free_mtrack-Without k h p t cs a.0 a.1)
      λ g w d. free_tracks-Without k g ts (TracksAt-Without h g (track_foot p t cs) w k ts d a.2)

abbrev pub file_strings : FileNode → List Ptr
file_strings f = f.filename ∷ f.fullpath ∷ f.music_name ∷ f.info_text ∷ f.copyright_info ∷ []

-- The strings and the tracks of a file.
abbrev pub file_foot : FileNode → List TrackCells → List Ptr
file_foot f ts = owns (file_strings f) ++ tracks_foot ts

pub record FileAt (k : ℕ) (h : Heap) (p : Ptr) (f : FileNode) (ts : List TrackCells) : Type 0 where
  pub not_null : p ≢ null
  pub holds : h p ≡ some (file f)
  pub array_not_null : f.tracks ≢ null
  pub array : h f.tracks ≡ some (pointers (map slot ts))
  pub counted : f.ntracks ≡ length ts
  pub tracks_at : TracksAt k h ts
  pub owned : Owned h (file_foot f ts)
  pub file_apart : has p (file_foot f ts) ≡ false
  pub array_apart : has f.tracks (file_foot f ts) ≡ false

load_file-at :
    (h : Heap) (p : Ptr) (f : FileNode) → p ≢ null → h p ≡ some (file f) → load_file p h ≡ ok (f, h)
unfolding load_file
load_file-at h p f ne at = rw (not_null, at) refl
  where
    not_null : (p == null) ≡ false
    not_null = ground (arith, ne)

load_pointers-at :
    (h : Heap) (p : Ptr) (ps : List Ptr)
    → p ≢ null
    → h p ≡ some (pointers ps)
    → load_pointers p h ≡ ok (ps, h)
unfolding load_pointers
load_pointers-at h p ps ne at = rw (not_null, at) refl
  where
    not_null : (p == null) ≡ false
    not_null = ground (arith, ne)

-- What is left of the file.
abbrev pub Leaked : Ptr → FileNode → List TrackCells → Heap → Type 0
Leaked p f ts g = (g p ≡ some (file f)) × (g f.tracks ≡ some (pointers (map slot ts)))

-- `free_Mfile` of a file with a track in every slot comes to its end, with fuel above the number of
-- events of each track, having freed the strings, the tracks and their events, each once. The
-- file's structure and its array of tracks are still there.
pub free_mfile-Without :
    (k : ℕ) (h : Heap) (p : Ptr) (f : FileNode) (ts : List TrackCells)
    → FileAt k h p f ts
    → Ends (λ _ g. Without (file_foot f ts) h g × Leaked p f ts g) (free_mfile k p h)
unfolding free_mfile
free_mfile-Without k h p f ts a = rw (load_file-at h p f a.not_null a.holds) (
    weaken
      (seq-Without h (owns (file_strings f)) (tracks_foot ts) a.owned
        (sfree_each-Without h (file_strings f))
        λ g w d o.
          rw
            (load_pointers-at g f.tracks (map slot ts) a.array_not_null (array_left g w), a.counted)
            (free_tracks-Without k g ts
              (TracksAt-Without h g (owns (file_strings f)) w k ts d a.tracks_at) o))
      λ _ g w. (
        w,
        (
          ground (arith, w p, a.file_apart, a.holds),
          ground (arith, w f.tracks, a.array_apart, a.array),
        ),
      ))
  where
    array_left :
        (g : Heap)
        → Without (owns (file_strings f)) h g
        → g f.tracks ≡ some (pointers (map slot ts))
    array_left g w = ground (
      arith,
      w f.tracks,
      a.array_apart,
      a.array,
      has-append f.tracks (owns (file_strings f)) (tracks_foot ts),
    )
