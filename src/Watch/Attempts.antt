-- ===== src/Watch/Attempts.antt =====
-- The launches of src/peer_watch.py, counted over many passes.
use peer_chat.Base.{
  ℕ, ◌+◌, ◌≤◌, ◌<◌, String, ◌≡◌, refl, Bool, true, false, not, ◌||◌, Option, none, some, List, [],
  ◌∷◌, ◌++◌, arith, leb, length, select, Bool-cases, inl, inr, All, All-map,
}
use peer_chat.Watch.{
  Watch, WatchResult, RunResult, Seen, Event, persist, launch_recovery, launch_endpoint,
  watch_state, is_exhausted, pause, attempt, after_run, recover, after_spawn, keep_endpoint,
  must_wait, watch_dead, tick, stored, is_launch, max_attempts, window,
}

abbrev pub launches : List Event → ℕ
launches es = length (select is_launch es)

pub record Pass : Type 0 where
  pub seen : Seen
  pub now : ℕ
  pub supervised : Bool
  pub stopped : Bool

abbrev pub one_pass : Pass → Option Watch → List Event
one_pass p w =
    tick p.seen p.now (record { supervised = p.supervised; stopped = p.stopped; watch = w })

-- The passes of the watchdog over one bridge.
abbrev pub passes : List Pass → Option Watch → List Event
passes [] w = []
passes (p ∷ ps) w = one_pass p w ++ passes ps (stored (one_pass p w) w)

-- What a pass within the window of `w` may do.
record Counts (w : Watch) (es : List Event) : Type 0 where
  after : Watch
  is_stored : stored es (some w) ≡ some after
  start : after.window_start ≡ w.window_start
  count : launches es + w.attempts ≡ after.attempts
  capped : w.attempts ≤ max_attempts → after.attempts ≤ max_attempts

nothing-Counts : (w : Watch) → Counts w []
unfolding stored
nothing-Counts w = record {
  after = w;
  is_stored = refl;
  start = refl;
  count = omega arith;
  capped = λ h. h;
}

one-Counts :
    (w w' : Watch)
    → w'.window_start ≡ w.window_start
    → w'.attempts ≡ w.attempts
    → Counts w (persist w' ∷ [])
unfolding stored
one-Counts w w' s a = record {
  after = w';
  is_stored = refl;
  start = s;
  count = omega (arith, a);
  capped = λ h. rw a h;
}

launch-Counts :
    (w w' : Watch) (first : Watch) (e : Event)
    → is_launch e ≡ true
    → is_exhausted w ≡ false
    → w'.window_start ≡ w.window_start
    → w'.attempts ≡ w.attempts + 1
    → Counts w (persist first ∷ e ∷ persist w' ∷ [])
unfolding stored
launch-Counts w w' first launch_recovery l x s a = record {
  after = w';
  is_stored = refl;
  start = s;
  count = omega (arith, a);
  capped = λ h. ground arith;
}
launch-Counts w w' first launch_endpoint l x s a = record {
  after = w';
  is_stored = refl;
  start = s;
  count = omega (arith, a);
  capped = λ h. ground arith;
}
launch-Counts w w' first e l x s a = cc

after_run-start :
    (r : RunResult) (now : ℕ) (w : Watch)
    → ((after_run r now w).window_start ≡ w.window_start)
      × ((after_run r now w).attempts ≡ w.attempts)
unfolding after_run
after_run-start RunResult.succeeded now w = (refl, refl)
after_run-start (RunResult.run_failed e) now w = (refl, refl)

after_spawn-start :
    (e : Option String) (now : ℕ) (w : Watch)
    → ((after_spawn e now w).window_start ≡ w.window_start)
      × ((after_spawn e now w).attempts ≡ w.attempts)
unfolding after_spawn
after_spawn-start none now w = (refl, refl)
after_spawn-start (some e) now w = (refl, refl)

recover-Counts : (seen : Seen) (now : ℕ) (w : Watch) → Counts w (recover seen now w)
unfolding recover
recover-Counts seen now w = elim (Bool-cases (is_exhausted w)) [
  | inl e ↦ rw e (one-Counts w (pause w) refl refl)
  | inr e ↦ (elim (Bool-cases seen.still_alive) [
    | inr a ↦ rw (e, a) (one-Counts w _ refl refl)
    | inl a ↦
        let begun : Watch = attempt WatchResult.attempting now w in
        let kept = after_run-start seen.run now begun in
        rw (e, a)
          (launch-Counts w (after_run seen.run now begun) begun launch_recovery refl e kept.0
            kept.1)
  ])
]

keep_endpoint-Counts : (seen : Seen) (now : ℕ) (w : Watch) → Counts w (keep_endpoint seen now w)
unfolding keep_endpoint
keep_endpoint-Counts seen now w = elim (Bool-cases (is_exhausted w)) [
  | inl e ↦ rw e (one-Counts w (pause w) refl refl)
  | inr e ↦
      let begun : Watch = attempt WatchResult.attempting_endpoint now w in
      let kept = after_spawn-start seen.spawn_error now begun in
      rw e (
        launch-Counts w (after_spawn seen.spawn_error now begun) begun launch_endpoint refl e kept.0
          kept.1)
]

watch_dead-Counts : (seen : Seen) (now : ℕ) (w : Watch) → Counts w (watch_dead seen now w)
unfolding watch_dead
watch_dead-Counts seen now w = elim (Bool-cases (must_wait w now)) [
  | inl e ↦ rw e (nothing-Counts w)
  | inr e ↦ (elim (Bool-cases (seen.owner_live || seen.replacement)) [
    | inl o ↦ rw (e, o) (recover-Counts seen now w)
    | inr o ↦ rw (e, o) (keep_endpoint-Counts seen now w)
  ])
]

watch_state-within :
    (w : Watch) (now : ℕ) → now < w.window_start + window → watch_state (some w) now ≡ w
unfolding watch_state
watch_state-within w now h =
    let before : leb (w.window_start + window) now ≡ false = ground arith in rw before

-- A pass at a time in the window, with the listener dead.
abbrev pub IsDeadPass : Watch → Pass → Type 0
IsDeadPass w p = (p.now < w.window_start + window) × (p.seen.live ≡ false)

pass-Counts : (p : Pass) (w : Watch) → IsDeadPass w p → Counts w (one_pass p (some w))
unfolding tick watch_dead recover keep_endpoint
pass-Counts p w h = elim (Bool-cases (not p.supervised || p.stopped)) [
  | inl e ↦ rw e (nothing-Counts w)
  | inr e ↦ rw (e, h.1) (rw (watch_state-within w p.now h.0) (watch_dead-Counts p.seen p.now w))
]

select-append : (xs ys : List Event) → launches (xs ++ ys) ≡ launches xs + launches ys
select-append [] ys = omega arith
select-append (x ∷ xs) ys = ground (arith, select-append xs ys)

-- While the listener is dead, the launches within one window, with the attempts that were counted
-- before them, are at most six.
pub launches-window :
    (ps : List Pass) (w : Watch)
    → w.attempts ≤ max_attempts
    → All (IsDeadPass w) ps
    → launches (passes ps (some w)) + w.attempts ≤ max_attempts
launches-window [] w h a = omega (arith, h)
launches-window (p ∷ ps) w h a =
    let c = pass-Counts p w a.0 in
    let rest =
      launches-window ps c.after (c.capped h)
        (All-map (IsDeadPass w) (IsDeadPass c.after) ps (λ q e. (rw c.start e.0, e.1)) a.1) in
    rw c.is_stored (
      rw (select-append (one_pass p (some w)) (passes ps (some c.after)))
        (omega (arith, c.count, rest)))
