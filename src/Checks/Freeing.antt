-- ===== src/Checks/Freeing.antt =====
-- The heap of Memory at concrete inputs.
use mks65_symphony.Prelude.{◌≡◌, refl, false, none, some, List, [], ◌∷◌, ◌++◌, arith, ok}
use mks65_symphony.Midi.{MeventData, Mevent, Mtrack, append_mevent}
use mks65_symphony.Midi.Chain.{with_event}
use mks65_symphony.Memory.{
  Ptr, null, regular_node, meta_node, EventNode, TrackNode, FileNode, buffer, event, track,
  pointers, file, tlist, tnode, thread_arg, Heap,
}
use mks65_symphony.Memory.Cells.{Ends, Without}
use mks65_symphony.Memory.Chain.{Cells, nil, cons}
use mks65_symphony.Memory.Threads.{thread_link, Arrival, connections, quit_clients}
use mks65_symphony.Memory.Threads.Arrive.{Holding}
use mks65_symphony.Memory.Threads.Connections.{places}
use mks65_symphony.Memory.Threads.Lists.{list_foot}
use mks65_symphony.Memory.Threads.Reconnect.{ReadsFreed, connections-restored, quit_clients-Holding}
use mks65_symphony.Memory.Tracks.{event_link, append_node, free_mfile}
use mks65_symphony.Memory.Tracks.Append.{StandsFor, append_node-StandsFor}
use mks65_symphony.Memory.Tracks.Files.{TrackCells, FileAt, Leaked, file_foot, free_mfile-Without}
use mks65_symphony.Memory.Tracks.Grow.{NewEvent}
use mks65_symphony.Memory.Tracks.Release.{TrackAt, track_foot}
use mks65_symphony.Memory.Tracks.Views.{TrackView}
use mks65_symphony.Checks.Heaps.{heap_of, owned_lem, unused_lem, positive}

abbrev message : MeventData
message = MeventData.regular (record { type = 0x90; chan = 0; param1 = 60; param2 = 0; len = 2 })

-- A note with no event behind it, and a text event whose bytes are at 4.
abbrev note : EventNode
note = record {
  deltatime = 0;
  curtime = 48;
  event_data = regular_node (record { type = 0x90; chan = 0; param1 = 60; param2 = 0; len = 2 });
  next = null;
}

abbrev words : EventNode
words = record { deltatime = 0; curtime = 96; event_data = meta_node 1 2 4; next = null }

-- A track at 1 with the note at 2 and its name at 5.
abbrev small : TrackNode
small = record {
  is_tempotrack = false;
  first = 2;
  last = 2;
  len = 1;
  name = 5;
  text = null;
  instrument = null;
}

abbrev song : FileNode
song = record {
  ntracks = 1;
  tracks = 7;
  filename = 8;
  fullpath = null;
  music_name = null;
  info_text = null;
  copyright_info = null;
}

abbrev memory : Heap
memory = heap_of (
    (1, track small)
    ∷ (2, event note)
    ∷ (3, event words)
    ∷ (4, buffer (104 ∷ 105 ∷ []))
    ∷ (5, buffer (97 ∷ []))
    ∷ (6, file song)
    ∷ (7, pointers (1 ∷ []))
    ∷ (8, buffer (98 ∷ []))
    ∷ [])

abbrev small_cells : Cells event_link
small_cells = (2, note) ∷ []

abbrev small_track : Mtrack
small_track = record {
  is_tempotrack = false;
  events = record { deltatime = 0; curtime = 48; event_data = message } ∷ [];
  len = 1;
  name = some (97 ∷ []);
  text = none;
  instrument = none;
}

abbrev words_event : Mevent
words_event = record {
  deltatime = 0;
  curtime = 96;
  event_data = MeventData.meta (record { type = 1; len = 2; bytes = some (104 ∷ 105 ∷ []) });
}

small_at : TrackAt memory 1 small small_cells
small_at = record {
  not_null = positive 1 refl;
  holds = refl;
  chain = cons (positive 2 refl) refl nil;
  owned = owned_lem memory (track_foot 1 small small_cells) refl;
}

small_view : TrackView memory 1 small small_cells small_track
small_view = record {
  at = small_at;
  last = refl;
  views = (record { deltatime = refl; curtime = refl; contents = refl }, tt);
  counted = refl;
  len = refl;
  is_tempotrack = refl;
  name = (positive 5 refl, refl);
  text = refl;
  instrument = refl;
}

words_new : NewEvent memory 1 small small_cells 3 words words_event
words_new = record {
  not_null = positive 3 refl;
  holds = refl;
  ends = refl;
  view = record {
    deltatime = refl;
    curtime = refl;
    contents = ((positive 4 refl, refl), refl, refl);
  };
  owned = owned_lem memory (track_foot 1 small (small_cells ++ (3, words) ∷ [])) refl;
}

appended_example :
    Ends (λ _ g. StandsFor g 1 (with_event small_track words_event)) (append_node 1 3 memory)
    × (append_mevent small_track words_event ≡ ok (with_event small_track words_event))
appended_example =
    append_node-StandsFor memory 1 small small_cells small_track 3 words words_event small_view
      words_new

abbrev song_tracks : List TrackCells
song_tracks = (1, small, small_cells) ∷ []

song_at : FileAt 2 memory 6 song song_tracks
song_at = record {
  not_null = positive 6 refl;
  holds = refl;
  array_not_null = positive 7 refl;
  array = refl;
  counted = refl;
  tracks_at = (small_at, omega arith, tt);
  owned = owned_lem memory (file_foot song song_tracks) refl;
  file_apart = refl;
  array_apart = refl;
}

free_example :
    Ends
      (λ _ g. Without (file_foot song song_tracks) memory g × Leaked 6 song song_tracks g)
      (free_mfile 2 6 memory)
free_example = free_mfile-Without 2 memory 6 song song_tracks song_at

abbrev two_clients : List Arrival
two_clients =
    record { socket = 4; tid = 0; thread = 70; arg_at = 21; node_at = 22 }
    ∷ record { socket = 5; tid = 1; thread = 71; arg_at = 23; node_at = 24 }
    ∷ []

restored_example :
    Ends
      (λ _ g. ((a : Ptr) → g a ≡ memory a) × ReadsFreed g two_clients)
      (connections 3 20 two_clients memory)
restored_example =
    connections-restored memory 3 20 two_clients (unused_lem memory (20 ∷ places two_clients) refl)
      (omega arith)

abbrev clients_heap : Heap
clients_heap = heap_of (
    (20, tlist (record { first = 22; last = 24; len = 2 }))
    ∷ (21, thread_arg (record { socket = 4; tid = 0 }))
    ∷ (22, tnode (record { thread = 70; arg = 21; next = 24 }))
    ∷ (23, thread_arg (record { socket = 5; tid = 1 }))
    ∷ (24, tnode (record { thread = 71; arg = 23; next = null }))
    ∷ [])

abbrev two_cells : Cells thread_link
two_cells =
    (22, record { thread = 70; arg = 21; next = 24 })
    ∷ (24, record { thread = 71; arg = 23; next = null })
    ∷ []

two_held : Holding (heap_of []) 20 (70 ∷ 71 ∷ []) clients_heap
two_held = (
  record { first = 22; last = 24; len = 2 },
  two_cells,
  record {
    list_at = record {
      not_null = positive 20 refl;
      holds = refl;
      chain = cons (positive 22 refl) refl (cons (positive 24 refl) refl nil);
      last = refl;
      counted = refl;
      owned = owned_lem clients_heap (list_foot 20 two_cells) refl;
    };
    outside = λ a i. ground (arith, i);
    unused = λ a i. refl;
  },
  refl,
)

quit_example :
    Ends
      (λ cancelled f. (cancelled ≡ 70 ∷ 71 ∷ []) × Without (20 ∷ []) clients_heap f)
      (quit_clients 3 20 clients_heap)
quit_example =
    quit_clients-Holding (heap_of []) 3 20 (70 ∷ 71 ∷ []) clients_heap two_held (omega arith)
