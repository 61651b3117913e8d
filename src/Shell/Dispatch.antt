-- ===== src/Shell/Dispatch.antt =====
-- What `cb_linehandler` of server/shell.c makes of a line, by the line's words.
use mks65_symphony.Prelude.{
  ℕ, zero, suc, ◌+◌, ◌≡◌, ◌∙◌, refl, ap, false, Option, none, some, List, [], ◌∷◌, length, All,
  Result, ok, trap, Trap, arith, Bool-cases, inl, inr, ◌⊎◌, ltb, if◌then◌else◌, ◌==◌,
}
use Trap.{uninitialised, null_deref}
use mks65_symphony.Midi.{Bytes}
use mks65_symphony.Shell.Lines.{parse_line, count_char, space}
use mks65_symphony.Shell.Words.{
  words, joined_to, split-nil, slots, parse_line_lem, parse_line-blank,
}
use mks65_symphony.Shell.{
  Cmd, Handler, cmds, same, missing_argument, command_not_found, Reaction, calls, says, run, find,
  split_and_find, cb_linehandler,
}

-- The first entry of the table with a name.
abbrev pub lookup : List Cmd → Bytes → Option Cmd
lookup [] w = none
lookup (c ∷ cs) w = let rest = lookup cs w in if same w c.name then some c else rest

-- The words behind the command, and the number of spaces in the line that separate no two words.
abbrev pub one_argument : Handler → Bytes → List Bytes → ℕ → Result Reaction
one_argument fn w (v ∷ ws) k = ok (calls fn (some v))
one_argument fn w [] zero = ok (says (missing_argument w ∷ command_not_found w ∷ []))
one_argument fn w [] (suc k) = trap uninitialised

abbrev pub reaction : Option Cmd → Bytes → List Bytes → ℕ → Result Reaction
reaction none w ws k = ok (says (command_not_found w ∷ []))
reaction (some c) w ws k =
    if c.num_args == 0 then ok (calls c.fn none) else one_argument c.fn w ws k

abbrev pub AtMostOne : Cmd → Type 0
AtMostOne c = (c.num_args ≡ 0) ⊎ (c.num_args ≡ 1)

run-reaction :
    (c : Cmd) (w : Bytes) (ws : List Bytes) (k : ℕ)
    → AtMostOne c
    → run c w (slots (w ∷ ws) k) (suc (length ws) + k) ≡ reaction (some c) w ws k
unfolding run
run-reaction c w ws k (inl h) = rw h refl
run-reaction c w [] zero (inr h) = rw h refl
run-reaction c w [] (suc k) (inr h) =
    let n : ltb (1 + suc k) 2 ≡ false = ground arith in rw (h, n) refl
run-reaction c w (v ∷ ws) k (inr h) =
    let n : ltb (suc (suc (length ws)) + k) 2 ≡ false = ground arith in rw (h, n) refl

find-reaction :
    (cs : List Cmd) (w : Bytes) (ws : List Bytes) (k : ℕ)
    → All AtMostOne cs
    → find cs w (slots (w ∷ ws) k) (suc (length ws) + k) ≡ reaction (lookup cs w) w ws k
unfolding find
find-reaction [] w ws k h = refl
find-reaction (c ∷ cs) w ws k h = elim (Bool-cases (same w c.name)) [
  | inl e ↦ rw e (run-reaction c w ws k h.0)
  | inr e ↦ rw e (find-reaction cs w ws k h.1)
]

cmds-AtMostOne : All AtMostOne cmds
cmds-AtMostOne = (
  inr refl,
  (
    inl refl,
    (
      inl refl,
      (
        inl refl,
        (
          inl refl,
          (
            inr refl,
            (inl refl, (inl refl, (inl refl, (inl refl, (inl refl, (inl refl, (inl refl, tt))))))),
          ),
        ),
      ),
    ),
  ),
)

cb-split :
    (line w : Bytes) (ws : List Bytes)
    → words line ≡ w ∷ ws
    → cb_linehandler (some line) ≡ split_and_find line
unfolding cb_linehandler
cb-split [] w ws e = cc (ap joined_to split-nil, e)
cb-split (b ∷ s) w ws e = refl

split_and_find-reaction :
    (line w : Bytes) (ws : List Bytes) (k : ℕ)
    → parse_line line ≡ ok (slots (w ∷ ws) k, suc (length ws) + k)
    → split_and_find line ≡ reaction (lookup cmds w) w ws k
unfolding split_and_find
split_and_find-reaction line w ws k p = rw p (find-reaction cmds w ws k cmds-AtMostOne)

-- A line with a word in it, for the first word `w`, the words `ws` behind it, and the `k` spaces of
-- the line that separate no two words. No command: a message. A command that takes nothing: its
-- handler is called, whatever stands behind. A command that takes an argument: its handler is
-- called with the second word; without one, both messages are printed if k is 0, and otherwise
-- `args[1]` is read, which was never set.
pub cb_linehandler_lem :
    (line w : Bytes) (ws : List Bytes)
    → words line ≡ w ∷ ws
    → (k : ℕ) × (count_char line space + 1 ≡ suc (length ws) + k)
      × (cb_linehandler (some line) ≡ reaction (lookup cmds w) w ws k)
cb_linehandler_lem line w ws e =
    let (k, n, p) = parse_line_lem line w ws e in
    (k, n, cb-split line w ws e ∙ split_and_find-reaction line w ws k p)

-- Every entry of the table is found under its own name.
pub lookup-cmds : All (λ (c : Cmd). lookup cmds c.name ≡ some c) cmds
lookup-cmds = (
  refl,
  (
    refl,
    (refl, (refl, (refl, (refl, (refl, (refl, (refl, (refl, (refl, (refl, (refl, tt))))))))))),
  ),
)

-- A line of spaces only: `strcmp` is called with a null pointer.
pub cb_linehandler-blank :
    (b : ℕ) (s : Bytes) → words (b ∷ s) ≡ [] → cb_linehandler (some (b ∷ s)) ≡ trap null_deref
unfolding cb_linehandler split_and_find
cb_linehandler-blank b s e = rw (parse_line-blank (b ∷ s) e) refl
