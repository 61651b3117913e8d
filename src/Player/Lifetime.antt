-- ===== src/Player/Lifetime.antt =====
-- Which of fluidsynth's objects live, and that the functions of server/midi_player.c use only those.
use mks65_symphony.Prelude.{
  ℕ, ◌≡◌, refl, ◌∙◌, Bool, true, false, ◌&&◌, none, some, List, [], ◌∷◌, ◌==◌, if◌then◌else◌, arith,
}
use mks65_symphony.Midi.{Bytes}
use mks65_symphony.Player.{
  Handle, FluidCall, new_settings, new_synth, new_player, new_driver, setstr, sfload, add, add_mem,
  play, stop, seek, set_loop, delete_driver, delete_player, delete_synth, delete_settings, Fluid,
  PlayerState, at_start, calls, player_setup, player_add_midi_file, player_add_midi_mem,
  player_play, player_pause, player_seek, player_setloop, player_restart, player_cleanup,
}

pub data Kind : Type 0 where
  a_settings a_synth a_player a_driver : Kind

abbrev pub same_handle : Handle → ℕ → Bool
same_handle none h = false
same_handle (some j) h = j == h

abbrev pub creates : Kind → FluidCall → ℕ → Bool
creates a_settings (new_settings c) h = same_handle c h
creates a_synth (new_synth s c) h = same_handle c h
creates a_player (new_player s c) h = same_handle c h
creates a_driver (new_driver s t c) h = same_handle c h
creates _ _ h = false

abbrev pub deletes : Kind → FluidCall → ℕ → Bool
deletes a_settings (delete_settings c) h = same_handle c h
deletes a_synth (delete_synth c) h = same_handle c h
deletes a_player (delete_player c) h = same_handle c h
deletes a_driver (delete_driver c) h = same_handle c h
deletes _ _ h = false

-- Created and not deleted since.
abbrev pub live : Kind → List FluidCall → ℕ → Bool
live k [] h = false
live k (c ∷ log) h =
    let rest = live k log h in if creates k c h then true else if deletes k c h then false else rest

abbrev pub lives : Kind → List FluidCall → Handle → Bool
lives k log none = false
lives k log (some h) = live k log h

-- A call is safe if all the objects that it takes are live.
abbrev pub allowed : List FluidCall → FluidCall → Bool
allowed log (new_settings c) = true
allowed log (new_synth s c) = lives a_settings log s
allowed log (new_player s c) = lives a_synth log s
allowed log (new_driver s t c) = lives a_settings log s && lives a_synth log t
allowed log (setstr s) = lives a_settings log s
allowed log (sfload s) = lives a_synth log s
allowed log (add p path) = lives a_player log p
allowed log (add_mem p buff) = lives a_player log p
allowed log (play p) = lives a_player log p
allowed log (stop p) = lives a_player log p
allowed log (seek p tick) = lives a_player log p
allowed log (set_loop p b) = lives a_player log p
allowed log (delete_driver d) = lives a_driver log d
allowed log (delete_player p) = lives a_player log p
allowed log (delete_synth s) = lives a_synth log s
allowed log (delete_settings s) = lives a_settings log s

abbrev pub all_safe : List FluidCall → Bool
all_safe [] = true
all_safe (c ∷ log) = allowed log c && all_safe log

-- All four objects are there, and no call so far was made on one that was not.
pub record IsReady (p : PlayerState) : Type 0 where
  pub settings : lives a_settings p.log p.settings ≡ true
  pub synth : lives a_synth p.log p.synth ≡ true
  pub player : lives a_player p.log p.player ≡ true
  pub adriver : lives a_driver p.log p.adriver ≡ true
  pub safe : all_safe p.log ≡ true

-- The library has memory for another object.
abbrev pub HasMemory : Fluid → Type 0
HasMemory fluid = (log : List FluidCall) → (h : ℕ) × (fluid.new log ≡ some h)

==_refl : (n : ℕ) → (n == n) ≡ true
==_refl n = ground arith

first_log : (s y p d : ℕ) → List FluidCall
first_log s y p d =
    new_driver (some s) (some y) (some d)
    ∷ sfload (some y)
    ∷ setstr (some s)
    ∷ setstr (some s)
    ∷ new_player (some y) (some p)
    ∷ new_synth (some s) (some y)
    ∷ new_settings (some s)
    ∷ []

first-IsReady :
    (s y p d : ℕ)
    → IsReady (record {
      settings = some s;
      synth = some y;
      player = some p;
      adriver = some d;
      log = first_log s y p d;
    })
unfolding first_log
first-IsReady s y p d = record {
  settings = rw (==_refl s) refl;
  synth = rw (==_refl y) refl;
  player = rw (==_refl p) refl;
  adriver = rw (==_refl d) refl;
  safe = rw (==_refl s, ==_refl y) refl;
}

-- The calls that neither create nor delete.
abbrev pub is_quiet : FluidCall → Bool
is_quiet (add p path) = true
is_quiet (add_mem p buff) = true
is_quiet (play p) = true
is_quiet (stop p) = true
is_quiet (seek p tick) = true
is_quiet (set_loop p b) = true
is_quiet _ = false

quiet_lem :
    (k : Kind) (c : FluidCall) (h : ℕ)
    → is_quiet c ≡ true
    → (creates k c h ≡ false) × (deletes k c h ≡ false)
quiet_lem k c h q = ground arith

lives-quiet :
    (k : Kind) (log : List FluidCall) (c : FluidCall) (h : Handle)
    → is_quiet c ≡ true
    → lives k (c ∷ log) h ≡ lives k log h
lives-quiet k log c none q = refl
lives-quiet k log c (some h) q = let (a, b) = quiet_lem k c h q in rw (a, b) refl

quiet-IsReady :
    (p : PlayerState) (c : FluidCall)
    → is_quiet c ≡ true
    → allowed p.log c ≡ true
    → IsReady p
    → IsReady (calls p c)
quiet-IsReady p c q a r = record {
  settings = lives-quiet a_settings p.log c p.settings q ∙ r.settings;
  synth = lives-quiet a_synth p.log c p.synth q ∙ r.synth;
  player = lives-quiet a_player p.log c p.player q ∙ r.player;
  adriver = lives-quiet a_driver p.log c p.adriver q ∙ r.adriver;
  safe = rw (a, r.safe) refl;
}

-- The functions that the two programs call between the first `player_setup` and the end.
pub data Op : Type 0 where
  op_setup op_play op_pause op_restart : Op
  op_add_file : Bytes → Op
  op_add_mem : Bytes → Op
  op_seek : ℕ → Op
  op_setloop : ℕ → Op

abbrev pub perform : Fluid → Op → PlayerState → PlayerState
perform fluid op_setup p = player_setup fluid p
perform fluid op_play p = player_play p
perform fluid op_pause p = player_pause p
perform fluid op_restart p = player_restart p
perform fluid (op_add_file path) p = player_add_midi_file path p
perform fluid (op_add_mem buff) p = player_add_midi_mem buff p
perform fluid (op_seek tick) p = player_seek tick p
perform fluid (op_setloop b) p = player_setloop b p

abbrev pub perform_all : Fluid → List Op → PlayerState → PlayerState
perform_all fluid [] p = p
perform_all fluid (op ∷ ops) p = perform_all fluid ops (perform fluid op p)

module _ (fluid : Fluid) (m : HasMemory fluid) where
  setup-IsReady : IsReady (player_setup fluid at_start)
  unfolding player_setup first_log
  setup-IsReady =
      let (s, e1) = m [] in
      let l1 = new_settings (some s) ∷ [] in
      let (y, e2) = m l1 in
      let l2 = new_synth (some s) (some y) ∷ l1 in
      let (p, e3) = m l2 in
      let l3 =
        sfload (some y) ∷ setstr (some s) ∷ setstr (some s) ∷ new_player (some y) (some p) ∷ l2 in
      let (d, e4) = m l3 in rw (e1, e2, e3, e4) (first-IsReady s y p d)

  again :
      (s y p d : Handle) (log : List FluidCall)
      → IsReady (record { settings = s; synth = y; player = p; adriver = d; log = log })
      → IsReady (
          player_setup fluid
            (record { settings = s; synth = y; player = p; adriver = d; log = log }))
  unfolding player_setup
  again none y p d log r = cc r.settings
  again (some s) none p d log r = cc r.synth
  again (some s) (some y) none d log r = cc r.player
  again (some s) (some y) (some p) none log r = cc r.adriver
  again (some s) (some y) (some p) (some d) log r =
      let (h, e) = m (delete_player (some p) ∷ log) in
      rw e record {
        settings = r.settings;
        synth = r.synth;
        player = rw (==_refl h) refl;
        adriver = r.adriver;
        safe = rw (r.synth, r.settings, r.player, r.safe) refl;
      }

  perform-IsReady : (op : Op) (p : PlayerState) → IsReady p → IsReady (perform fluid op p)
  unfolding player_play player_pause player_restart player_add_midi_file player_add_midi_mem
      player_seek player_setloop
  perform-IsReady op_setup p r = again p.settings p.synth p.player p.adriver p.log r
  perform-IsReady op_play p r = quiet-IsReady p (play p.player) refl r.player r
  perform-IsReady op_pause p r = quiet-IsReady p (stop p.player) refl r.player r
  perform-IsReady op_restart p r = quiet-IsReady p (seek p.player 0) refl r.player r
  perform-IsReady (op_add_file path) p r = quiet-IsReady p (add p.player path) refl r.player r
  perform-IsReady (op_add_mem buff) p r = quiet-IsReady p (add_mem p.player buff) refl r.player r
  perform-IsReady (op_seek tick) p r = quiet-IsReady p (seek p.player tick) refl r.player r
  perform-IsReady (op_setloop b) p r = quiet-IsReady p (set_loop p.player b) refl r.player r

  perform_all-IsReady :
      (ops : List Op) (p : PlayerState) → IsReady p → IsReady (perform_all fluid ops p)
  perform_all-IsReady [] p r = r
  perform_all-IsReady (op ∷ ops) p r =
      perform_all-IsReady ops (perform fluid op p) (perform-IsReady op p r)

  cleanup-safe :
      (s y p d : Handle) (log : List FluidCall)
      → IsReady (record { settings = s; synth = y; player = p; adriver = d; log = log })
      → all_safe
          (player_cleanup
            (record { settings = s; synth = y; player = p; adriver = d; log = log })).log
        ≡ true
  unfolding player_cleanup
  cleanup-safe none y p d log r = cc r.settings
  cleanup-safe (some s) none p d log r = cc r.synth
  cleanup-safe (some s) (some y) none d log r = cc r.player
  cleanup-safe (some s) (some y) (some p) none log r = cc r.adriver
  cleanup-safe (some s) (some y) (some p) (some d) log r =
      rw (r.settings, r.synth, r.player, r.adriver, r.safe) refl

  -- If fluidsynth has memory for its objects: whatever the programs do with the player after a first
  -- `player_setup`, `player_setup` again included, and then `player_cleanup`, no call takes an object
  -- that has not been created, or has been deleted.
  pub player-safe :
      (ops : List Op)
      → all_safe (player_cleanup (perform_all fluid ops (player_setup fluid at_start))).log ≡ true
  player-safe ops =
      let p = perform_all fluid ops (player_setup fluid at_start) in
      cleanup-safe p.settings p.synth p.player p.adriver p.log
        (perform_all-IsReady ops (player_setup fluid at_start) setup-IsReady)
