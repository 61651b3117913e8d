-- ===== src/Server/Numbered.antt =====
-- The numbers of the clients, in every state of the loop of server/shell.c.
use mks65_symphony.Prelude.{
  ℕ, suc, ◌+◌, ◌≡◌, refl, sym, ap, ◌∙◌, Bool, true, false, Option, none, some, List, [], ◌∷◌, ◌++◌,
  if◌then◌else◌, arith, Result, ok, trap, Trap, ◌*◌, ◌/◌, ◌>>=◌, ◌==◌, leb, length, check,
}
use Trap.{overflow}
use mks65_symphony.Midi.{Bytes, Mfile}
use mks65_symphony.Reader.Load.{mfile_from_file}
use mks65_symphony.Splitter.{mfile_split_by_tracks}
use mks65_symphony.Shell.{Handler, Reaction, exits, ignored, calls, says, cb_linehandler}
use mks65_symphony.Commands.State.{Host, ServerState}
use mks65_symphony.Player.{player_get_total_ticks, player_play, player_seek}
use mks65_symphony.Commands.Numbers.{isnum, atoi, int_max}
use mks65_symphony.Commands.Files.{create_midi_files, make_tmp_dir, write_files}
use mks65_symphony.Commands.{
  Returns, loaded, handle_load, play_alone, play_with_clients, handle_play, handle_pause,
  handle_resume, handle_loop, handle_noloop, handle_restart, last_byte, seek_part, seek_percent,
  seek_tick, handle_seek, handle_status, handle_quit, setup_connections, clear_connections,
  handle_reconnect, handle_socket, count_of, add_loaded, taken, play_file, seek_by, with_player,
}
use mks65_symphony.Commands.Clients.{upto}
use mks65_symphony.Server.{
  client_thread, Ready, line, connection, state_of, call_with, call, react, server_turn,
  server_loop,
}

-- What holds of a call's result, if it returns.
abbrev pub IfOk {ℓ} : {A : Type ℓ} → (A → Type 0) → Result A → Type 0
IfOk P (ok a) = P a
IfOk P (trap t) = Unit

pub bind-IfOk :
    {A B : Type 0} (P : A → Type 0) (Q : B → Type 0) (m : Result A) (f : A → Result B)
    → IfOk P m
    → ((a : A) → P a → IfOk Q (f a))
    → IfOk Q (m >>= f)
bind-IfOk P Q (ok a) f h k = k a h
bind-IfOk P Q (trap t) f h k = tt

-- The numbers given so far are those of the clients in the list, in order.
abbrev pub IsNumbered : ServerState → Type 0
IsNumbered s = s.clients ≡ upto s.tid

-- A handler's result, for the state `s`: neither the list nor the next number has changed, and the
-- loop is to go on as before.
abbrev pub Keeps : ServerState → ServerState → Type 0
Keeps s t = (t.clients ≡ s.clients) × (t.tid ≡ s.tid) × (t.running ≡ s.running)

abbrev pub KeepsBoth : ServerState → Option ℕ × ServerState → Type 0
KeepsBoth s p = Keeps s p.1

pub any-IfOk :
    {A B : Type 0} (Q : B → Type 0) (m : Result A) (f : A → Result B)
    → ((a : A) → IfOk Q (f a))
    → IfOk Q (m >>= f)
any-IfOk Q (ok a) f k = k a
any-IfOk Q (trap t) f k = tt

if-IfOk :
    {A : Type 0} (Q : A → Type 0) (b : Bool) (x y : Result A)
    → IfOk Q x
    → IfOk Q y
    → IfOk Q (if b then x else y)
if-IfOk Q true x y h k = h
if-IfOk Q false x y h k = k

pub handle_load-KeepsBoth :
    (host : Host) (path : Bytes) (s : ServerState) → IfOk (KeepsBoth s) (handle_load host path s)
unfolding handle_load
handle_load-KeepsBoth host path s =
    if-IfOk (KeepsBoth s) (host.is_midifile path) _ _
      (any-IfOk (KeepsBoth s) (mfile_from_file (host.opens path) (host.parse path) path) _ both)
      (refl, refl, refl)
  where
    both : (m : Option Mfile) → KeepsBoth s (loaded s m)
    both none = (refl, refl, refl)
    both (some m) = (refl, refl, refl)

create_midi_files-Keeps :
    (host : Host) (s : ServerState) → IfOk (Keeps s) (create_midi_files host s)
unfolding create_midi_files
create_midi_files-Keeps host s = any-IfOk (Keeps s) _ _ λ m.
    any-IfOk (Keeps s) (mfile_split_by_tracks host.usable m (length s.clients)) _ λ parts.
      any-IfOk (Keeps s) (make_tmp_dir host s) _ λ dir.
        any-IfOk (Keeps s) (write_files host dir parts (length s.clients) 0) _
          λ files. (refl, refl, refl)

play_with_clients-Keeps :
    (host : Host) (m : Mfile) (s : ServerState) → IfOk (Keeps s) (play_with_clients host m s)
unfolding play_with_clients
play_with_clients-Keeps host m s =
    bind-IfOk (Keeps s) (Keeps s) (create_midi_files host s) _ (create_midi_files-Keeps host s)
      λ t k. with_or_not host.server_noplay t k
  where
    with_or_not :
        (b : Bool) (t : ServerState)
        → Keeps s t
        → Keeps s (
            let u : ServerState = record t {
              midi_ready = true;
              barrier = some (count_of t.barrier (length t.clients));
            } in
            if b then u else add_loaded host m u)
    with_or_not true t k = k
    with_or_not false t k = k

play_alone-Keeps : (host : Host) (m : Mfile) (s : ServerState) → Keeps s (play_alone host m s)
unfolding play_alone
play_alone-Keeps host m s = silent host.server_noplay
  where
    silent :
        (b : Bool)
        → Keeps s (let t = add_loaded host m s in if b then t else with_player t player_play)
    silent true = (refl, refl, refl)
    silent false = (refl, refl, refl)

play_file-KeepsBoth :
    (host : Host) (o : Option Mfile) (s : ServerState) → IfOk (KeepsBoth s) (play_file host o s)
play_file-KeepsBoth host none s = (refl, refl, refl)
play_file-KeepsBoth host (some m) s =
    if-IfOk (KeepsBoth s) (length s.clients == 0) _ _ (play_alone-Keeps host m s) (
      bind-IfOk (Keeps s) (KeepsBoth s) (play_with_clients host m s) _
        (play_with_clients-Keeps host m s) λ t k. k)

pub handle_play-KeepsBoth :
    (host : Host) (s : ServerState) → IfOk (KeepsBoth s) (handle_play host s)
unfolding handle_play
handle_play-KeepsBoth host s = play_file-KeepsBoth host s.mfile s

seek_tick-KeepsBoth : (val : Bytes) (s : ServerState) → IfOk (KeepsBoth s) (seek_tick val s)
unfolding seek_tick
seek_tick-KeepsBoth val s =
    if-IfOk (KeepsBoth s) (isnum val) _ _
      (any-IfOk (KeepsBoth s) (atoi val) _ λ tick. (refl, refl, refl)) (refl, refl, refl)

seek_part-KeepsBoth :
    (host : Host) (p : ℕ) (s : ServerState) → IfOk (KeepsBoth s) (seek_part host p s)
seek_part-KeepsBoth host p s =
    if-IfOk (KeepsBoth s) (leb p 100) _ _
      (any-IfOk {A = Unit {0}} (KeepsBoth s)
        (check (leb (p * player_get_total_ticks host.fluid s.player) int_max) overflow)
        (λ u. ok (
          some 0,
          with_player s (player_seek (p * player_get_total_ticks host.fluid s.player / 100)),
        ))
        λ u. (refl, refl, refl))
      (refl, refl, refl)

seek_percent-KeepsBoth :
    (host : Host) (val : Bytes) (s : ServerState) → IfOk (KeepsBoth s) (seek_percent host val s)
unfolding seek_percent
seek_percent-KeepsBoth host val s =
    if-IfOk (KeepsBoth s) (isnum val) _ _
      (any-IfOk (KeepsBoth s) (atoi val) _ λ p. seek_part-KeepsBoth host p s) (refl, refl, refl)

seek_by-KeepsBoth :
    (host : Host) (o : Option (Bytes × ℕ)) (val : Bytes) (s : ServerState)
    → IfOk (KeepsBoth s) (seek_by host o val s)
seek_by-KeepsBoth host none val s = tt
seek_by-KeepsBoth host (some (front, c)) val s =
    if-IfOk (KeepsBoth s) (c == 37) _ _ (seek_percent-KeepsBoth host front s)
      (seek_tick-KeepsBoth val s)

pub handle_seek-KeepsBoth :
    (host : Host) (val : Bytes) (s : ServerState) → IfOk (KeepsBoth s) (handle_seek host val s)
unfolding handle_seek
handle_seek-KeepsBoth host val s = seek_by-KeepsBoth host (last_byte val) val s

state_of-IsNumbered :
    (s : ServerState) (r : Returns)
    → IsNumbered s
    → IfOk (KeepsBoth s) r
    → IfOk IsNumbered (state_of r)
state_of-IsNumbered s (ok (v, t)) n k = k.0 ∙ n ∙ ap upto (sym k.1)
state_of-IsNumbered s (trap t) n k = tt

call-IsNumbered :
    (host : Host) (fn : Handler) (s : ServerState) → IsNumbered s → IfOk IsNumbered (call host fn s)
unfolding handle_pause handle_resume handle_restart handle_loop handle_noloop handle_quit
    handle_reconnect setup_connections clear_connections
call-IsNumbered host Handler.handle_load s n = tt
call-IsNumbered host Handler.handle_play s n =
    state_of-IsNumbered s (handle_play host s) n (handle_play-KeepsBoth host s)
call-IsNumbered host Handler.handle_pause s n = n
call-IsNumbered host Handler.handle_resume s n = n
call-IsNumbered host Handler.handle_restart s n = n
call-IsNumbered host Handler.handle_seek s n = tt
call-IsNumbered host Handler.handle_loop s n = n
call-IsNumbered host Handler.handle_noloop s n = n
call-IsNumbered host Handler.handle_status s n =
    any-IfOk IsNumbered (handle_status host s) (λ shown. ok s) λ shown. n
call-IsNumbered host Handler.handle_quit s n = n
call-IsNumbered host Handler.handle_reconnect s n = refl
call-IsNumbered host Handler.handle_help s n = n

call_with-IsNumbered :
    (host : Host) (fn : Handler) (arg : Bytes) (s : ServerState)
    → IsNumbered s
    → IfOk IsNumbered (call_with host fn arg s)
call_with-IsNumbered host Handler.handle_load arg s n =
    state_of-IsNumbered s (handle_load host arg s) n (handle_load-KeepsBoth host arg s)
call_with-IsNumbered host Handler.handle_seek arg s n =
    state_of-IsNumbered s (handle_seek host arg s) n (handle_seek-KeepsBoth host arg s)
call_with-IsNumbered host fn arg s n = call-IsNumbered host fn s n

react-IsNumbered :
    (host : Host) (r : Reaction) (s : ServerState) → IsNumbered s → IfOk IsNumbered (react host r s)
react-IsNumbered host exits s n = tt
react-IsNumbered host ignored s n = n
react-IsNumbered host (says messages) s n = n
react-IsNumbered host (calls fn none) s n = call-IsNumbered host fn s n
react-IsNumbered host (calls fn (some arg)) s n = call_with-IsNumbered host fn arg s n

server_turn-IsNumbered :
    (host : Host) (e : Ready) (s : ServerState)
    → IsNumbered s
    → IfOk IsNumbered (server_turn host e s)
unfolding handle_socket
server_turn-IsNumbered host (line text) s n =
    any-IfOk IsNumbered (cb_linehandler text) (λ r. react host r s) λ r. react-IsNumbered host r s n
server_turn-IsNumbered host (connection false starts) s n =
    any-IfOk IsNumbered (client_thread false starts) (λ _. ok s) λ _. n
server_turn-IsNumbered host (connection true starts) s n =
    any-IfOk IsNumbered (client_thread s.accepting_clients starts)
      (λ _. ok (taken s.accepting_clients s).1) λ _. accepted s.accepting_clients
  where
    accepted : (b : Bool) → IsNumbered (taken b s).1
    accepted true =
        let next : suc s.tid ≡ s.tid + 1 = omega arith in
        ap (λ (l : List ℕ). l ++ s.tid ∷ []) n ∙ ap upto next
    accepted false = n

-- However many lines and connections the server's loop takes, from a state in which the numbers given
-- are those of the clients in the list, in order from 0: if it returns, they still are. So the number
-- of a client's thread is always its place in the list, which is the number in the name of its file.
pub server_loop-IsNumbered :
    (host : Host) (events : List Ready) (s : ServerState)
    → IsNumbered s
    → IfOk IsNumbered (server_loop host events s)
unfolding server_loop
server_loop-IsNumbered host [] s n = n
server_loop-IsNumbered host (e ∷ events) s n =
    if-IfOk IsNumbered s.running _ _
      (bind-IfOk IsNumbered IsNumbered (server_turn host e s) (server_loop host events)
        (server_turn-IsNumbered host e s n) λ t m. server_loop-IsNumbered host events t m)
      n
