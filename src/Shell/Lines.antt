-- ===== src/Shell/Lines.antt =====
-- `parse_line` and `count_char` of server/utils.c, with the `strtok` that they call. A line is its
-- bytes without the NUL.
use mks65_symphony.Prelude.{
  ℕ, zero, suc, ◌+◌, Option, none, some, List, [], ◌∷◌, ◌==◌, ltb, if◌then◌else◌, length, set,
  replicate, Result, ok, trap, Trap, ◌>>=◌, ◌>>◌, check,
}
use Trap.{out_of_bounds, out_of_fuel}
use mks65_symphony.Midi.{Bytes}

abbrev pub space : ℕ
space = 32

unfoldable pub count_char : Bytes → ℕ → ℕ
count_char [] c = 0
count_char (b ∷ s) c = let sum = count_char s c in if b == c then sum + 1 else sum

-- `strtok` skips the separators, and gives the word up to the next one, which it overwrites.
unfoldable pub skip : Bytes → Bytes
skip [] = []
skip (b ∷ s) = let rest = skip s in if b == space then rest else b ∷ s

unfoldable pub word : Bytes → Bytes
word [] = []
word (b ∷ s) = let rest = word s in if b == space then [] else b ∷ rest

unfoldable pub behind : Bytes → Bytes
behind [] = []
behind (b ∷ s) = let rest = behind s in if b == space then s else rest

abbrev pub token_of : Bytes → Option (Bytes × Bytes)
token_of [] = none
token_of (b ∷ s) = some (word (b ∷ s), behind (b ∷ s))

unfoldable pub strtok : Bytes → Option (Bytes × Bytes)
strtok s = token_of (skip s)

-- An entry of `args`: `none` until it is set, `some none` for a null pointer.
abbrev pub Slot : Type 0
Slot = Option (Option Bytes)

abbrev pub put : List Slot → ℕ → Option Bytes → Result (List Slot)
put args i w = check (ltb i (length args)) out_of_bounds >> ok (set args i (some w))

-- `args[i++] = token` while there is one.
unfoldable pub store_tokens : ℕ → Bytes → List Slot → ℕ → Result (List Slot)
store_tokens zero s args i = trap out_of_fuel
store_tokens (suc fuel) s args i = elim (strtok s) [
  | none ↦ ok args
  | some (w, s') ↦ put args i (some w) >>= λ args'. store_tokens fuel s' args' (i + 1)
]

-- The first call of `strtok` is stored even if it gives a null pointer.
unfoldable pub store_words : Bytes → List Slot → Result (List Slot)
store_words line args = elim (strtok line) [
  | none ↦ put args 0 none
  | some (w, s') ↦ put args 0 (some w) >>= λ args'. store_tokens (length line + 1) s' args' 1
]

-- The entries and their number, which `*len_ptr` gets. The fuel counts the bytes.
unfoldable pub parse_line : Bytes → Result (List Slot × ℕ)
parse_line line =
    let len = count_char line space + 1 in
    store_words line (replicate len none) >>= λ args. ok (args, len)
