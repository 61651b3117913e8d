-- ===== src/Player.antt =====
-- server/midi_player.c, of which client/midi_player.c is a copy: the four objects of fluidsynth
-- that it keeps. The library is a parameter: what its `new_*` functions return, `none` for NULL,
-- and what a player says of itself, all by the calls that were made before.
pub mod Lifetime
use mks65_symphony.Prelude.{
  ℕ, zero, suc, Bool, true, false, ◌&&◌, ◌||◌, Option, none, some, List, [], ◌∷◌, ◌==◌,
  if◌then◌else◌, Result, ok, trap, Trap,
}
use Trap.{uninitialised}
use mks65_symphony.Midi.{Bytes}

abbrev pub Handle : Type 0
Handle = Option ℕ

-- The calls that change something, with the pointers that they take, and last what `new_*` gave.
pub data FluidCall : Type 0 where
  new_settings : (created : Handle) → FluidCall
  new_synth : (settings created : Handle) → FluidCall
  new_player : (synth created : Handle) → FluidCall
  new_driver : (settings synth created : Handle) → FluidCall
  setstr : (settings : Handle) → FluidCall
  sfload : (synth : Handle) → FluidCall
  add : (player : Handle) (path : Bytes) → FluidCall
  add_mem : (player : Handle) (buff : Bytes) → FluidCall
  play : (player : Handle) → FluidCall
  stop : (player : Handle) → FluidCall
  seek : (player : Handle) (tick : ℕ) → FluidCall
  set_loop : (player : Handle) (looping : ℕ) → FluidCall
  delete_driver : (driver : Handle) → FluidCall
  delete_player : (player : Handle) → FluidCall
  delete_synth : (synth : Handle) → FluidCall
  delete_settings : (settings : Handle) → FluidCall

-- FLUID_PLAYER_READY, FLUID_PLAYER_PLAYING, FLUID_PLAYER_DONE, and any other status.
pub data FluidStatus : Type 0 where
  player_ready player_playing player_done player_other : FluidStatus

pub record Fluid : Type 0 where
  pub new : List FluidCall → Handle
  pub get_status : List FluidCall → FluidStatus
  pub total_ticks : List FluidCall → ℕ
  pub current_tick : List FluidCall → ℕ

-- The globals, and the calls so far, the last first.
pub record PlayerState : Type 0 where
  pub settings : Handle
  pub synth : Handle
  pub player : Handle
  pub adriver : Handle
  pub log : List FluidCall

abbrev pub at_start : PlayerState
at_start = record { settings = none; synth = none; player = none; adriver = none; log = [] }

abbrev pub calls : PlayerState → FluidCall → PlayerState
calls p c = record p { log = c ∷ p.log }

module _ (fluid : Fluid) where
  -- `if (!settings) settings = new_fluid_settings()`, and likewise for the synth and the driver.
  abbrev pub need_settings : Handle → PlayerState → PlayerState
  need_settings none p =
      let h = fluid.new p.log in record (calls p (new_settings h)) { settings = h }
  need_settings (some _) p = p

  abbrev pub need_synth : Handle → PlayerState → PlayerState
  need_synth none p =
      let h = fluid.new p.log in record (calls p (new_synth p.settings h)) { synth = h }
  need_synth (some _) p = p

  abbrev pub drop_player : Handle → PlayerState → PlayerState
  drop_player none p = p
  drop_player (some h) p = calls p (delete_player (some h))

  abbrev pub fresh_player : PlayerState → PlayerState
  fresh_player p = let h = fluid.new p.log in record (calls p (new_player p.synth h)) { player = h }

  abbrev pub need_driver : Handle → PlayerState → PlayerState
  need_driver none p =
      let h = fluid.new p.log in record (calls p (new_driver p.settings p.synth h)) { adriver = h }
  need_driver (some _) p = p

  abbrev pub configure : PlayerState → PlayerState
  configure p = calls (calls (calls p (setstr p.settings)) (setstr p.settings)) (sfload p.synth)

  unfoldable pub player_setup : PlayerState → PlayerState
  player_setup p =
      let a = need_settings p.settings p in
      let b = need_synth a.synth a in
      let c = fresh_player (drop_player b.player b) in
      let d = configure c in need_driver d.adriver d

  -- The new player is not stored.
  abbrev pub clear_player : Handle → PlayerState → PlayerState
  clear_player none p = p
  clear_player (some h) p =
      let q = calls (calls p (stop (some h))) (delete_player (some h)) in
      calls q (new_player q.synth (fluid.new q.log))

  unfoldable pub player_clear_midi_files : PlayerState → PlayerState
  player_clear_midi_files p = clear_player p.player p

  unfoldable pub player_get_total_ticks : PlayerState → ℕ
  player_get_total_ticks p = fluid.total_ticks p.log

  unfoldable pub player_get_cur_tick : PlayerState → ℕ
  player_get_cur_tick p = fluid.current_tick p.log

  -- -1 is `none`; for another status the function ends without a return.
  abbrev pub status_number : Handle → FluidStatus → Result (Option ℕ)
  status_number none s = ok none
  status_number (some h) player_done = ok (some 2)
  status_number (some h) player_playing = ok (some 1)
  status_number (some h) player_ready = ok (some 0)
  status_number (some h) player_other = trap uninitialised

  unfoldable pub player_get_status : PlayerState → Result (Option ℕ)
  player_get_status p = status_number p.player (fluid.get_status p.log)

unfoldable pub player_add_midi_file : Bytes → PlayerState → PlayerState
player_add_midi_file path p = calls p (add p.player path)

unfoldable pub player_add_midi_mem : Bytes → PlayerState → PlayerState
player_add_midi_mem buff p = calls p (add_mem p.player buff)

unfoldable pub player_play : PlayerState → PlayerState
player_play p = calls p (play p.player)

unfoldable pub player_pause : PlayerState → PlayerState
player_pause p = calls p (stop p.player)

unfoldable pub player_seek : ℕ → PlayerState → PlayerState
player_seek tick p = calls p (seek p.player tick)

unfoldable pub player_setloop : ℕ → PlayerState → PlayerState
player_setloop looping p = calls p (set_loop p.player looping)

unfoldable pub player_restart : PlayerState → PlayerState
player_restart p = calls p (seek p.player 0)

-- `if (adriver) delete_fluid_audio_driver(adriver)`, and so on.
abbrev pub if_set : Handle → (Handle → FluidCall) → PlayerState → PlayerState
if_set none delete p = p
if_set (some h) delete p = calls p (delete (some h))

unfoldable pub player_cleanup : PlayerState → PlayerState
player_cleanup p =
    if_set p.settings delete_settings (
      if_set p.synth delete_synth
        (if_set p.player delete_player (if_set p.adriver delete_driver p)))
