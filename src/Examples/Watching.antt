-- ===== src/Examples/Watching.antt =====
-- The watchdog at a concrete bridge.
use peer_chat.Base.{ℕ, ◌+◌, ◌≤◌, ◌≡◌, refl, true, false, none, some, List, [], ◌∷◌, arith}
use peer_chat.Watch.{
  Watch, RunResult, Seen, Bridge, new_watch, watch_state, tick, stored, is_launch, max_attempts,
}
use peer_chat.Watch.Attempts.{Pass, launches, passes, launches-window}
use peer_chat.Watch.Pace.{Launched, tick-Launched}

-- The listener is gone, its owner lives, and the recovery command fails.
abbrev gone : Seen
gone = record {
  live = false;
  owner_live = true;
  replacement = false;
  still_alive = true;
  signal_sent = false;
  run = RunResult.run_failed none;
  spawn_error = none;
}

abbrev bridge : Bridge
bridge = record { supervised = true; stopped = false; watch = some (new_watch 1000) }

abbrev pass_at : ℕ → Pass
pass_at now = record { seen = gone; now = now; supervised = true; stopped = false }

abbrev two_passes : List Pass
two_passes = pass_at 1001 ∷ pass_at 1100 ∷ []

launches-window_example : launches (passes two_passes (some (new_watch 1000))) + 0 ≤ max_attempts
launches-window_example =
    launches-window two_passes (new_watch 1000) (omega arith)
      ((omega arith, refl), ((omega arith, refl), tt))

tick-Launched_example :
    (true ≡ true)
    × (false ≡ false)
    × (false ≡ false)
    × ((after : Watch) × (stored (tick gone 1001 bridge) (some (new_watch 1000)) ≡ some after)
        × Launched gone 1001 (watch_state (some (new_watch 1000)) 1001) after)
unfolding tick peer_chat.Watch.watch_dead watch_state peer_chat.Watch.recover
tick-Launched_example = tick-Launched gone 1001 bridge refl
