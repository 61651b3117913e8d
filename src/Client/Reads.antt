-- ===== src/Client/Reads.antt =====
-- The socket as client/client.c reads it.
use mks65_symphony.Prelude.{
  ℕ, ◌≤◌, ◌≡◌, Bool, true, false, Option, none, some, List, [], ◌∷◌, length, take, drop,
}
use mks65_symphony.Midi.{Bytes}
use mks65_symphony.Transfer.Received.{joined, AreNonempty}

-- The bytes that are still to come. When they have been read, a call fails if the connection is
-- broken, and gives no byte if the peer has closed. A `read` gives at most the bytes that have
-- arrived by then: the next one and `arrived` more, or all where that is `none`. The calls of `recv`
-- in `recvall` give pieces of them, as the network cuts them up.
pub record Stream : Type 0 where
  pub incoming : Bytes
  pub broken : Bool
  pub can_send : Bool
  pub arrived : Option (Bytes → ℕ)
  pub pieces : ℕ → Bytes → List Bytes

pub data ReadResult : Type 0 where
  failed : ReadResult
  got : Bytes → ReadResult

abbrev pub available : Option (Bytes → ℕ) → Bytes → Bytes
available none s = s
available (some more) [] = []
available (some more) (b ∷ s) = b ∷ take (more (b ∷ s)) s

abbrev pub read_bytes : Option (Bytes → ℕ) → ℕ → Bytes → Bool → ReadResult
read_bytes more n [] true = failed
read_bytes more n [] false = got []
read_bytes more n (b ∷ s) _ = got (take n (available more (b ∷ s)))

abbrev pub read : ℕ → Stream → ReadResult
read n s = read_bytes s.arrived n s.incoming s.broken

abbrev pub after : ℕ → Stream → Stream
after n s = record s { incoming = drop n s.incoming }

-- What TCP promises of `recv`: for as many bytes as are there, the pieces are nonempty and are
-- those bytes in order.
pub record Delivers (s : Stream) : Type 0 where
  pub whole : (n : ℕ) (t : Bytes) → n ≤ length t → joined (s.pieces n t) ≡ take n t
  pub nonempty : (n : ℕ) (t : Bytes) → AreNonempty (s.pieces n t)

-- It does not depend on what has come.
pub incoming-Delivers :
    (s : Stream) (t : Bytes) (more : Option (Bytes → ℕ))
    → Delivers s
    → Delivers (record s { incoming = t; arrived = more })
incoming-Delivers s t more d = record { whole = d.whole; nonempty = d.nonempty }
