-- ===== src/Shell.antt =====
-- The commands of server/shell.c: the table `cmds` and `cb_linehandler`, which readline calls with
-- each line. The descriptions, which `help` prints, are left out.
pub mod Lines
pub mod Words
pub mod Dispatch
use mks65_symphony.Prelude.{
  ℕ, zero, suc, ◌+◌, Bool, true, false, ◌&&◌, Option, none, some, List, [], ◌∷◌, ◌==◌, ltb,
  get_elem?, if◌then◌else◌, length, deref, Result, ok, trap, Trap, ◌>>=◌,
}
use Trap.{out_of_bounds, uninitialised, null_deref}
use mks65_symphony.Midi.{Bytes}
use Lines.{Slot, parse_line}

pub data Handler : Type 0 where
  handle_load handle_play handle_pause handle_resume handle_restart handle_seek handle_loop :
      Handler
  handle_noloop handle_status handle_quit handle_reconnect handle_help : Handler

-- `struct cmd`.
pub record Cmd : Type 0 where
  pub name : Bytes
  pub num_args : ℕ
  pub fn : Handler

abbrev pub cmds : List Cmd
cmds =
    record { name = 108 ∷ 111 ∷ 97 ∷ 100 ∷ []; num_args = 1; fn = handle_load }
    ∷ record { name = 112 ∷ 108 ∷ 97 ∷ 121 ∷ []; num_args = 0; fn = handle_play }
    ∷ record { name = 112 ∷ 97 ∷ 117 ∷ 115 ∷ 101 ∷ []; num_args = 0; fn = handle_pause }
    ∷ record { name = 114 ∷ 101 ∷ 115 ∷ 117 ∷ 109 ∷ 101 ∷ []; num_args = 0; fn = handle_resume }
    ∷ record {
      name = 114 ∷ 101 ∷ 115 ∷ 116 ∷ 97 ∷ 114 ∷ 116 ∷ [];
      num_args = 0;
      fn = handle_restart;
    }
    ∷ record { name = 115 ∷ 101 ∷ 101 ∷ 107 ∷ []; num_args = 1; fn = handle_seek }
    ∷ record { name = 108 ∷ 111 ∷ 111 ∷ 112 ∷ []; num_args = 0; fn = handle_loop }
    ∷ record { name = 110 ∷ 111 ∷ 108 ∷ 111 ∷ 111 ∷ 112 ∷ []; num_args = 0; fn = handle_noloop }
    ∷ record { name = 115 ∷ 116 ∷ 97 ∷ 116 ∷ 117 ∷ 115 ∷ []; num_args = 0; fn = handle_status }
    ∷ record { name = 113 ∷ 117 ∷ 105 ∷ 116 ∷ []; num_args = 0; fn = handle_quit }
    ∷ record { name = 101 ∷ 120 ∷ 105 ∷ 116 ∷ []; num_args = 0; fn = handle_quit }
    ∷ record {
      name = 114 ∷ 101 ∷ 99 ∷ 111 ∷ 110 ∷ 110 ∷ 101 ∷ 99 ∷ 116 ∷ [];
      num_args = 0;
      fn = handle_reconnect;
    }
    ∷ record { name = 104 ∷ 101 ∷ 108 ∷ 112 ∷ []; num_args = 0; fn = handle_help }
    ∷ []

-- `strcmp (s, t) == 0`.
abbrev pub same : Bytes → Bytes → Bool
same [] [] = true
same [] (b ∷ t) = false
same (a ∷ s) [] = false
same (a ∷ s) (b ∷ t) = (a == b) && same s t

pub data Message : Type 0 where
  missing_argument : (cmd : Bytes) → Message
  command_not_found : (cmd : Bytes) → Message

-- What a line comes to: `shell_exit`, which does not return; nothing; a call of a handler, with the
-- argument it takes; only messages.
pub data Reaction : Type 0 where
  exits : Reaction
  ignored : Reaction
  calls : (fn : Handler) (arg : Option Bytes) → Reaction
  says : List Message → Reaction

-- The word in an entry of `args`.
abbrev pub word_in : Option Slot → Result Bytes
word_in none = trap out_of_bounds
word_in (some none) = trap uninitialised
word_in (some (some none)) = trap null_deref
word_in (some (some (some w))) = ok w

unfoldable pub run : Cmd → Bytes → List Slot → ℕ → Result Reaction
run c cmd args nwords =
    if c.num_args == 0
    then ok (calls c.fn none)
    else if c.num_args == 1
    then (if ltb nwords 2
        then ok (says (missing_argument cmd ∷ command_not_found cmd ∷ []))
        else word_in (get_elem? args 1) >>= λ arg. ok (calls c.fn (some arg)))
    else ok ignored

unfoldable pub find : List Cmd → Bytes → List Slot → ℕ → Result Reaction
unfolding run
find [] cmd args nwords = ok (says (command_not_found cmd ∷ []))
find (c ∷ cs) cmd args nwords =
    let rest = find cs cmd args nwords in if same cmd c.name then run c cmd args nwords else rest

-- `strcmp` reads `args[0]`.
unfoldable pub split_and_find : Bytes → Result Reaction
split_and_find line = do
  (args, nwords) ← parse_line line
  cmd ← word_in (get_elem? args 0)
  find cmds cmd args nwords

unfoldable pub cb_linehandler : Option Bytes → Result Reaction
cb_linehandler none = ok exits
cb_linehandler (some []) = ok ignored
cb_linehandler (some (b ∷ s)) = split_and_find (b ∷ s)
