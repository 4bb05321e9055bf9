-- ===== src/Watch/Pace.antt =====
-- The launches of src/peer_watch.py in one pass, and the time of the next.
use Prim.Native.Nat.{◌^◌, zero, suc}
use peer_chat.Base.{
  ℕ, ◌+◌, ◌-◌, ◌*◌, ◌≤◌, String, ◌≡◌, refl, ◌⊎◌, true, false, not, ◌||◌, Option, none, some, arith,
  leb, any, Bool-cases, inl, inr,
}
use peer_chat.Watch.{
  Watch, WatchResult, RunResult, Seen, Bridge, watch_state, is_exhausted, attempt, after_run,
  recover, after_spawn, keep_endpoint, must_wait, watch_dead, watch_live, tick, stored, is_launch,
  max_attempts, window, backoff_delay,
}

power_positive : (n : ℕ) → 1 ≤ 2 ^ n
power_positive zero = omega arith
power_positive (suc n) = omega (arith, power_positive n, power-suc n)
  where
    power-suc : (n : ℕ) → 2 ^ suc n ≡ 2 * 2 ^ n
    power-suc n = omega arith

-- The delay is at least ten seconds and at most three hundred.
pub backoff_delay_bounds : (n : ℕ) → (10 ≤ backoff_delay n) × (backoff_delay n ≤ 300)
unfolding backoff_delay
backoff_delay_bounds n = (omega (arith, power_positive (n - 1)), omega arith)

-- What a launch of a pass rests on and what it leaves: `w` is the state that the pass found.
pub record Launched (seen : Seen) (now : ℕ) (w after : Watch) : Type 0 where
  pub due : must_wait w now ≡ false
  pub counted : after.attempts ≡ w.attempts + 1
  pub capped : after.attempts ≤ max_attempts
  pub waits :
      (now + backoff_delay after.attempts ≤ after.next_at)
      ⊎ ((after.attempts ≡ max_attempts) × (after.next_at ≡ w.window_start + window))

after_run-waits :
    (r : RunResult) (now : ℕ) (w : Watch)
    → is_exhausted w ≡ false
    → let after = after_run r now (attempt WatchResult.attempting now w) in
      (after.attempts ≡ w.attempts + 1)
      × ((now + backoff_delay after.attempts ≤ after.next_at)
          ⊎ ((after.attempts ≡ max_attempts) × (after.next_at ≡ w.window_start + window)))
unfolding after_run
after_run-waits RunResult.succeeded now w h = (refl, inl (omega arith))
after_run-waits (RunResult.run_failed e) now w h =
    elim (Bool-cases (leb max_attempts (w.attempts + 1))) [
      | inl c ↦ (refl, inr (ground arith, rw c refl))
      | inr c ↦ (refl, inl (rw c (omega arith)))
    ]

recover-Launched :
    (seen : Seen) (now : ℕ) (w : Watch) (old : Option Watch)
    → must_wait w now ≡ false
    → any is_launch (recover seen now w) ≡ true
    → (after : Watch) × (stored (recover seen now w) old ≡ some after) × Launched seen now w after
unfolding recover stored
recover-Launched seen now w old d h = elim (Bool-cases (is_exhausted w)) [
  | inl e ↦ cc (rw e at h)
  | inr e ↦ (elim (Bool-cases seen.still_alive) [
    | inr a ↦ cc (rw (e, a) at h)
    | inl a ↦
        let after = after_run seen.run now (attempt WatchResult.attempting now w) in
        let ends = after_run-waits seen.run now w e in
        (
          after,
          rw (e, a) refl,
          record { due = d; counted = ends.0; capped = rw ends.0 (ground arith); waits = ends.1 },
        )
  ])
]

after_spawn-waits :
    (r : Option String) (now : ℕ) (w : Watch)
    → let after = after_spawn r now (attempt WatchResult.attempting_endpoint now w) in
      (after.attempts ≡ w.attempts + 1) × (now + backoff_delay after.attempts ≤ after.next_at)
unfolding after_spawn
after_spawn-waits none now w = (refl, omega arith)
after_spawn-waits (some e) now w = (refl, omega arith)

keep_endpoint-Launched :
    (seen : Seen) (now : ℕ) (w : Watch) (old : Option Watch)
    → must_wait w now ≡ false
    → any is_launch (keep_endpoint seen now w) ≡ true
    → (after : Watch) × (stored (keep_endpoint seen now w) old ≡ some after)
      × Launched seen now w after
unfolding keep_endpoint stored
keep_endpoint-Launched seen now w old d h = elim (Bool-cases (is_exhausted w)) [
  | inl e ↦ cc (rw e at h)
  | inr e ↦
      let after =
        after_spawn seen.spawn_error now (attempt WatchResult.attempting_endpoint now w) in
      let ends = after_spawn-waits seen.spawn_error now w in
      (
        after,
        rw e refl,
        record { due = d; counted = ends.0; capped = rw ends.0 (ground arith); waits = inl ends.1 },
      )
]

watch_dead-Launched :
    (seen : Seen) (now : ℕ) (w : Watch) (old : Option Watch)
    → any is_launch (watch_dead seen now w) ≡ true
    → (after : Watch) × (stored (watch_dead seen now w) old ≡ some after)
      × Launched seen now w after
unfolding watch_dead
watch_dead-Launched seen now w old h = elim (Bool-cases (must_wait w now)) [
  | inl e ↦ cc (rw e at h)
  | inr e ↦ (elim (Bool-cases (seen.owner_live || seen.replacement)) [
    | inl o ↦ rw (e, o) (recover-Launched seen now w old e (rw (e, o) at h))
    | inr o ↦ rw (e, o) (keep_endpoint-Launched seen now w old e (rw (e, o) at h))
  ])
]

watch_live-quiet :
    (seen : Seen) (now : ℕ) (w : Watch) → any is_launch (watch_live seen now w) ≡ false
unfolding watch_live
watch_live-quiet seen now w = ground arith

-- A pass launches only for a supervised bridge that is not stopped and whose listener is dead, when
-- the time of the next attempt has come; it counts the attempt, of six at most, and sets the next
-- time by the back-off, or after a sixth attempt that failed to the end of the window.
pub tick-Launched :
    (seen : Seen) (now : ℕ) (b : Bridge)
    → any is_launch (tick seen now b) ≡ true
    → (b.supervised ≡ true)
      × (b.stopped ≡ false)
      × (seen.live ≡ false)
      × ((after : Watch) × (stored (tick seen now b) b.watch ≡ some after)
          × Launched seen now (watch_state b.watch now) after)
unfolding tick
tick-Launched seen now b h = elim (Bool-cases (not b.supervised || b.stopped)) [
  | inl e ↦ cc (rw e at h)
  | inr e ↦ (elim (Bool-cases seen.live) [
    | inl l ↦ cc (simp (e, l) at h, watch_live-quiet seen now (watch_state b.watch now))
    | inr l ↦ (
      ground arith,
      ground arith,
      l,
      simp (e, l)
          (watch_dead-Launched seen now (watch_state b.watch now) b.watch (simp (e, l) at h)),
    )
  ])
]
