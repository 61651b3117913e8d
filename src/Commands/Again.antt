-- ===== src/Commands/Again.antt =====
-- `handle_reconnect` of server/cmd_handlers.c and the next `handle_play`; and `handle_status`.
use mks65_symphony.Prelude.{
  ℕ, ◌*◌, ◌/◌, ◌≤◌, ◌<◌, ◌≡◌, ◌∙◌, refl, ap, true, Option, some, List, ◌==◌, leb, arith, ok, trap,
  Trap, Bool-cases, ◌⊎◌, inl, inr,
}
use Trap.{div_by_zero}
use native.Mathlib.Nat.{div-lt_iff_lt-mul}
use mks65_symphony.Midi.{Mtrack, Mfile}
use mks65_symphony.Player.{player_get_status, player_get_total_ticks, player_get_cur_tick}
use mks65_symphony.Commands.Numbers.{int_max}
use mks65_symphony.Commands.State.{Host, ServerState}
use mks65_symphony.Commands.{
  setup_connections, clear_connections, handle_reconnect, handle_play, handle_status, count_of,
  position,
}
use mks65_symphony.Commands.Play.{CanPlay, play-files}
use mks65_symphony.Commands.Clients.{connected, connected_lem}

-- `reconnect` after a `play`, with a file that can be played as `CanPlay` says, with `midi_ready`
-- set and a barrier for `count` threads. The threads of the new clients find `midi_ready` set
-- before any `play`; and the next `handle_play`, with any `n` clients from 1 to 1000, goes to the
-- old barrier, which still waits for `count` threads.
pub reconnect-stale :
    (host : Host) (s : ServerState) (m : Mfile) (ts : List Mtrack) (n count : ℕ)
    → s.mfile ≡ some m
    → s.midi_ready ≡ true
    → s.barrier ≡ some count
    → CanPlay host (handle_reconnect s) m ts
    → 0 < n
    → n ≤ 1000
    → ((connected n (handle_reconnect s)).midi_ready ≡ true)
      × (t : ServerState) × (handle_play host (connected n (handle_reconnect s)) ≡ ok (some 1, t))
      × (t.barrier ≡ some count)
unfolding handle_reconnect setup_connections clear_connections
reconnect-stale host s m ts n count h ready bar can pos few =
    let again = handle_reconnect s in
    let (t, _, play, _, _, b, _, _, _) = play-files host again m ts can n 0 h few pos in
    (
      ap (λ (u : ServerState). u.midi_ready) (connected_lem n again) ∙ ready,
      t,
      play,
      b ∙ ap (λ (o : Option ℕ). some (count_of o n)) bar,
    )

module _ (host : Host) (s : ServerState) (status : ℕ) where
  status-known :
      player_get_status host.fluid s.player ≡ ok (some status)
      → handle_status host s ≡ position host s (some status)
  unfolding handle_status
  status-known e = rw e refl

  -- `status`, when the player exists and reports a known status, is at most at the last of the ticks
  -- that it knows of, and 100 times its tick fits an int. Either the percentage that is printed is at
  -- most 100; or the player knows of no ticks, as before it has loaded the file, and the division by
  -- zero is reached.
  pub handle_status_lem :
      player_get_status host.fluid s.player ≡ ok (some status)
      → 100 * player_get_cur_tick host.fluid s.player ≤ int_max
      → player_get_cur_tick host.fluid s.player ≤ player_get_total_ticks host.fluid s.player
      → let cur : ℕ = player_get_cur_tick host.fluid s.player in
        let total : ℕ = player_get_total_ticks host.fluid s.player in
        ((percent : ℕ) × (handle_status host s ≡ ok (some (status, cur, total, percent)))
          × (percent ≤ 100))
        ⊎ ((total ≡ 0) × (handle_status host s ≡ trap div_by_zero))
  handle_status_lem e fits le =
      elim (Bool-cases (player_get_total_ticks host.fluid s.player == 0)) [
        | inl z ↦ inr (ground arith, status-known e ∙ rw (small, z) refl)
        | inr z ↦ inl (
          100
              * player_get_cur_tick host.fluid s.player
              / player_get_total_ticks host.fluid s.player,
          status-known e ∙ rw (small, z) refl,
          percent (ground arith) le,
        )
      ]
    where
      small : leb (100 * player_get_cur_tick host.fluid s.player) int_max ≡ true
      small = ground arith

      percent : {cur total : ℕ} → 0 < total → cur ≤ total → 100 * cur / total ≤ 100
      percent {cur} {total} pos le =
          omega
            (arith, (div-lt_iff_lt-mul {k = total} {x = 100 * cur} {y = 101} pos).1 (omega arith))
