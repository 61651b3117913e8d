-- ===== src/Client/Commands.antt =====
-- The commands of client_protocol.h as the server would write them, and the loop of
-- client/client.c that reads them.
use mathlib.Core.List.{reverse_aux, append_assoc}
use mks65_symphony.Prelude.{
  ℕ, zero, suc, ◌<◌, ◌^◌, ◌≡◌, refl, ap, ◌∙◌, Bool, true, false, none, List, [], ◌∷◌, ◌++◌, map,
  length, replicate, All, ok,
}
use mks65_symphony.Midi.{Bytes}
use mks65_symphony.Transfer.{htonl}
use mks65_symphony.Transfer.Words.{ntohl-htonl}
use mks65_symphony.Client.Reads.{read_bytes}
use mks65_symphony.Client.{
  ClientState, Action, stored_command, read_command, switch, seek_case, client_step, client_run,
}

-- Those that neither bring a file nor end the loop.
pub data Command : Type 0 where
  play : Command
  pause : Command
  resume : Command
  seek : (tick : ℕ) → Command
  loop : Command
  noloop : Command

abbrev pub code : Command → ℕ
code play = 0
code pause = 1
code resume = 2
code (seek _) = 3
code loop = 4
code noloop = 5

-- The code, and behind that of a seek the tick in network order.
abbrev pub encode : Command → Bytes
encode (seek tick) = 3 ∷ htonl tick
encode play = 0 ∷ []
encode pause = 1 ∷ []
encode resume = 2 ∷ []
encode loop = 4 ∷ []
encode noloop = 5 ∷ []

abbrev pub encode_all : List Command → Bytes
encode_all [] = []
encode_all (c ∷ cs) = encode c ++ encode_all cs

abbrev pub action_of : Command → Action
action_of play = Action.play
action_of pause = Action.pause
action_of resume = Action.play
action_of (seek tick) = Action.seek tick
action_of loop = Action.set_loop true
action_of noloop = Action.set_loop false

abbrev pub IsSendable : Command → Type 0
IsSendable (seek tick) = tick < 2 ^ 32
IsSendable _ = Unit

-- The loop is running and the bytes `s` are still to come, all of which have arrived.
abbrev pub waiting : ClientState → Bytes → ClientState
waiting c s = record c { running = true; stream = record c.stream { incoming = s; arrived = none } }

abbrev pub performed : ClientState → Command → ClientState
performed c cmd = record c { sbuf = code cmd; actions = action_of cmd ∷ c.actions }

abbrev pub all_performed : ClientState → List Command → ClientState
all_performed c [] = c
all_performed c (cmd ∷ cs) = all_performed (performed c cmd) cs

pub step-performed :
    (c : ClientState) (cmd : Command) (rest : Bytes)
    → IsSendable cmd
    → client_step (waiting c (encode cmd ++ rest)) ≡ ok (waiting (performed c cmd) rest)
unfolding client_step read_command switch seek_case htonl
step-performed c play rest h = refl
step-performed c pause rest h = refl
step-performed c resume rest h = refl
step-performed c (seek tick) rest h =
    ap (λ (t : ℕ). ok (waiting (performed (record c { sbuf = 3 }) (seek t)) rest))
      (ntohl-htonl tick h)
step-performed c loop rest h = refl
step-performed c noloop rest h = refl

run-performed :
    (c : ClientState) (cs : List Command) (rest : Bytes)
    → All IsSendable cs
    → client_run (length cs) (waiting c (encode_all cs ++ rest))
      ≡ ok (waiting (all_performed c cs) rest)
unfolding client_run
run-performed c [] rest h = refl
run-performed c (cmd ∷ cs) rest h =
    rw
      (
        append_assoc (encode cmd) (encode_all cs) rest,
        step-performed c cmd (encode_all cs ++ rest) h.0,
      )
      (run-performed (performed c cmd) cs rest h.1)

actions-all_performed :
    (c : ClientState) (cs : List Command)
    → (all_performed c cs).actions ≡ reverse_aux (map action_of cs) c.actions
actions-all_performed c [] = refl
actions-all_performed c (cmd ∷ cs) = actions-all_performed (performed c cmd) cs

-- A client that reads any commands out of play, pause, resume, seek, loop and noloop, ticks below
-- 2 ^ 32, that have arrived comes round once for each: it has then done what they say, in order,
-- goes on running, and nothing of what comes behind them is read.
pub client_run-commands :
    (c : ClientState) (cs : List Command) (rest : Bytes)
    → All IsSendable cs
    → (c' : ClientState) × (client_run (length cs) (waiting c (encode_all cs ++ rest)) ≡ ok c')
      × (c'.actions ≡ reverse_aux (map action_of cs) c.actions)
      × (c'.stream.incoming ≡ rest)
      × (c'.running ≡ true)
client_run-commands c cs rest h = (
  waiting (all_performed c cs) rest,
  run-performed c cs rest h,
  actions-all_performed c cs,
  refl,
  refl,
)

abbrev pub IsShort : Command → Type 0
IsShort (seek _) = ⊥
IsShort _ = Unit

-- The connection has ended and `cmd` is the last command that was read.
abbrev pub ended : ClientState → Command → ClientState
ended c cmd = record (waiting c []) { sbuf = code cmd }

-- `read` gives no byte, whether it fails or not.
stored_command-nothing :
    (c : ClientState) (b : Bool) → stored_command c (read_bytes none 1 [] b) ≡ c
unfolding stored_command
stored_command-nothing c true = refl
stored_command-nothing c false = refl

switch-ended :
    (c : ClientState) (cmd : Command)
    → IsShort cmd
    → switch (ended c cmd) ≡ ok (ended (performed c cmd) cmd)
unfolding switch
switch-ended c play h = refl
switch-ended c pause h = refl
switch-ended c resume h = refl
switch-ended c (seek tick) h = absurd h
switch-ended c loop h = refl
switch-ended c noloop h = refl

replicate-push :
    (n : ℕ) (a : Action) (log : List Action) → replicate n a ++ a ∷ log ≡ replicate (suc n) a ++ log
replicate-push zero a log = refl
replicate-push (suc n) a log = ap (λ (l : List Action). a ∷ l) (replicate-push n a log)

step-ended :
    (c : ClientState) (cmd : Command)
    → IsShort cmd
    → client_step (ended c cmd) ≡ ok (ended (performed c cmd) cmd)
unfolding client_step read_command
step-ended c cmd h =
    ap switch (stored_command-nothing (ended c cmd) c.stream.broken) ∙ switch-ended c cmd h

-- Once the connection has ended, closed or broken, if the last command was play, pause, resume, loop
-- or noloop, the client does it once more in every round, and goes on running, for any number of
-- rounds.
pub client_run-ended :
    (rounds : ℕ) (c : ClientState) (cmd : Command)
    → IsShort cmd
    → (c' : ClientState) × (client_run rounds (ended c cmd) ≡ ok c')
      × (c'.actions ≡ replicate rounds (action_of cmd) ++ c.actions)
      × (c'.running ≡ true)
unfolding client_run
client_run-ended zero c cmd h = (ended c cmd, refl, refl, refl)
client_run-ended (suc rounds) c cmd h =
    let (c', e, a, r) = client_run-ended rounds (performed c cmd) cmd h in
    (c', rw (step-ended c cmd h) e, a ∙ replicate-push rounds (action_of cmd) c.actions, r)
