-- ===== src/Memory.antt =====
-- The objects that server/midi.c and server/server_thread.c keep behind pointers, at the addresses
-- of a heap, with the C library's `free` and the reads and writes of their fields.
pub mod Cells
pub mod Chain
pub mod Tracks
pub mod Threads
use mks65_symphony.Prelude.{
  ℕ, ◌≡◌, ◌≢◌, Bool, true, Option, none, some, List, [], ◌∷◌, ◌==◌, if◌then◌else◌, has, is_some,
  Result, ok, trap, Trap,
}
use mks65_symphony.Midi.{Bytes, MeventRegular}
use Trap.{null_deref, use_after_free}

abbrev pub Ptr : Type 0
Ptr = ℕ

abbrev pub null : Ptr
null = 0

-- `union Mevent_data` with the tag `mtype`; `msg` and `data` are pointers.
pub data NodeData : Type 0 where
  regular_node : MeventRegular → NodeData
  sysex_node : Ptr → ℕ → NodeData
  meta_node : ℕ → ℕ → Ptr → NodeData

pub record EventNode : Type 0 where
  pub deltatime : ℕ
  pub curtime : ℕ
  pub event_data : NodeData
  pub next : Ptr

pub record TrackNode : Type 0 where
  pub is_tempotrack : Bool
  pub first : Ptr
  pub last : Ptr
  pub len : ℕ
  pub name : Ptr
  pub text : Ptr
  pub instrument : Ptr

-- The pointers of `struct Mfile`.
pub record FileNode : Type 0 where
  pub ntracks : ℕ
  pub tracks : Ptr
  pub filename : Ptr
  pub fullpath : Ptr
  pub music_name : Ptr
  pub info_text : Ptr
  pub copyright_info : Ptr

pub record ThreadArg : Type 0 where
  pub socket : ℕ
  pub tid : ℕ

pub record ThreadNode : Type 0 where
  pub thread : ℕ
  pub arg : Ptr
  pub next : Ptr

pub record ThreadList : Type 0 where
  pub first : Ptr
  pub last : Ptr
  pub len : ℕ

pub data Object : Type 0 where
  buffer : Bytes → Object
  event : EventNode → Object
  track : TrackNode → Object
  pointers : List Ptr → Object
  file : FileNode → Object
  thread_arg : ThreadArg → Object
  tnode : ThreadNode → Object
  tlist : ThreadList → Object

abbrev pub Heap : Type 0
Heap = Ptr → Option Object

unfoldable pub write : Heap → Ptr → Option Object → Heap
write h p c a = if a == p then c else h a

abbrev pub Cmd : Type 0 → Type 0
Cmd A = Heap → Result (A × Heap)

abbrev pub pure : {A : Type 0} → A → Cmd A
pure a h = ok (a, h)

abbrev pub fail : {A : Type 0} → Trap → Cmd A
fail t h = trap t

-- What stands behind a call runs on the heap that the call left.
abbrev pub run_on : {A B : Type 0} → Result (A × Heap) → (A → Cmd B) → Result (B × Heap)
run_on (trap t) rest = trap t
run_on (ok done) rest = rest done.0 done.1

infixl 5 ◌>>=◌ ◌>>◌
abbrev pub ◌>>=◌ : {A B : Type 0} → Cmd A → (A → Cmd B) → Cmd B
(m >>= rest) h = run_on (m h) rest

abbrev pub ◌>>◌ : {A B : Type 0} → Cmd A → Cmd B → Cmd B
m >> rest = m >>= λ _. rest

-- An object of another kind at an address is one that took the place of a freed one.
abbrev pub find : {A : Type 0} → (Object → Option A) → Ptr → Cmd A
find kind p h = if p == null then trap null_deref else elim (h p) [
  | none ↦ trap use_after_free
  | some o ↦ elim (kind o) [ none ↦ trap use_after_free | some a ↦ ok (a, h) ]
]

abbrev pub store : Ptr → Object → Cmd (Unit {0})
store p o h = ok (tt, write h p (some o))

-- `free` of the C library, which does nothing on a null pointer.
unfoldable pub free : Ptr → Cmd (Unit {0})
free p h =
    if p == null
    then ok (tt, h)
    else elim (h p) [ none ↦ trap use_after_free | some _ ↦ ok (tt, write h p none) ]

abbrev as_event : Object → Option EventNode
as_event (event n) = some n
as_event _ = none

abbrev as_track : Object → Option TrackNode
as_track (track t) = some t
as_track _ = none

abbrev as_pointers : Object → Option (List Ptr)
as_pointers (pointers ps) = some ps
as_pointers _ = none

abbrev as_file : Object → Option FileNode
as_file (file f) = some f
as_file _ = none

abbrev as_tnode : Object → Option ThreadNode
as_tnode (tnode n) = some n
as_tnode _ = none

abbrev as_thread_arg : Object → Option ThreadArg
as_thread_arg (thread_arg a) = some a
as_thread_arg _ = none

abbrev as_tlist : Object → Option ThreadList
as_tlist (tlist l) = some l
as_tlist _ = none

unfoldable pub load_event : Ptr → Cmd EventNode
load_event = find as_event

unfoldable pub load_track : Ptr → Cmd TrackNode
load_track = find as_track

unfoldable pub load_pointers : Ptr → Cmd (List Ptr)
load_pointers = find as_pointers

unfoldable pub load_file : Ptr → Cmd FileNode
load_file = find as_file

unfoldable pub load_tnode : Ptr → Cmd ThreadNode
load_tnode = find as_tnode

unfoldable pub load_tlist : Ptr → Cmd ThreadList
load_tlist = find as_tlist

unfoldable pub load_thread_arg : Ptr → Cmd ThreadArg
load_thread_arg = find as_thread_arg
