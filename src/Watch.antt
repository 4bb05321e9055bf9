-- ===== src/Watch.antt =====
-- src/peer_watch.py: one pass of the watchdog over one saved bridge. What it finds out about
-- processes is an argument, and what it does is a list of events in the order of the source; times
-- are whole seconds.
pub mod Attempts
pub mod Pace
use Prim.Native.Nat.{◌^◌}
use peer_chat.Base.{
  ℕ, ◌+◌, ◌-◌, ◌*◌, String, Bool, true, false, not, ◌&&◌, ◌||◌, Option, none, some, List, [], ◌∷◌,
  ◌++◌, if◌then◌else◌, ltb, leb, nat_eq, min, is_some,
}

abbrev pub max_attempts : ℕ
max_attempts = 6

abbrev pub window : ℕ
window = 3600

abbrev pub stable_time : ℕ
stable_time = 30

-- `_backoff_delay`
unfoldable pub backoff_delay : ℕ → ℕ
backoff_delay attempts = min 300 (10 * 2 ^ (attempts - 1))

pub data WatchResult : Type 0 where
  paused skipped attempting started failed : WatchResult
  attempting_endpoint endpoint_kept signalled_old_listener recovered : WatchResult

-- The value of the key `watch`; `restore_error` is also written under its own key.
pub record Watch : Type 0 where
  pub window_start : ℕ
  pub attempts : ℕ
  pub next_at : ℕ
  pub paused_until : Option ℕ
  pub last_error : Option String
  pub last_result : Option WatchResult
  pub last_attempt : Option ℕ
  pub recovered_at : Option ℕ
  pub restore_error : Option String

abbrev pub new_watch : ℕ → Watch
new_watch now = record {
  window_start = now;
  attempts = 0;
  next_at = 0;
  paused_until = none;
  last_error = none;
  last_result = none;
  last_attempt = none;
  recovered_at = none;
  restore_error = none;
}

-- `_watch_state`: after the window the attempts are forgotten, but not the time of the next one.
unfoldable pub watch_state : Option Watch → ℕ → Watch
watch_state none now = new_watch now
watch_state (some w) now =
    if leb (w.window_start + window) now
    then record w { window_start = now; attempts = 0; paused_until = none }
    else w

-- The end of the recovery command: success, or the text of its error.
pub data RunResult : Type 0 where
  succeeded : RunResult
  run_failed : Option String → RunResult

-- What the watchdog finds: whether the listener and the owner are alive, another verified owner of
-- the thread, whether the owner is still alive at the recovery, and how its calls end.
pub record Seen : Type 0 where
  pub live : Bool
  pub owner_live : Bool
  pub replacement : Bool
  pub still_alive : Bool
  pub signal_sent : Bool
  pub run : RunResult
  pub spawn_error : Option String

pub data Event : Type 0 where
  persist : Watch → Event
  launch_recovery : Event
  launch_endpoint : Event
  signal_listener : Event

-- `_budget_exhausted`
abbrev pub is_exhausted : Watch → Bool
is_exhausted w = ltb max_attempts (w.attempts + 1)

abbrev pub pause : Watch → Watch
pause w = record w {
  paused_until = some (w.window_start + window);
  next_at = w.window_start + window;
  last_result = some WatchResult.paused;
}

-- The state that is stored before anything is launched.
abbrev pub attempt : WatchResult → ℕ → Watch → Watch
attempt result now w = record w {
  attempts = w.attempts + 1;
  next_at = now + backoff_delay (w.attempts + 1);
  last_attempt = some now;
  last_result = some result;
  paused_until = if leb max_attempts (w.attempts + 1) then some (w.window_start + window) else none;
}

abbrev pub or_default : Option String → String → String
or_default none d = d
or_default (some e) d = e

-- What `_recover` stores when the command has ended; `w` is the state of the attempt.
unfoldable pub after_run : RunResult → ℕ → Watch → Watch
after_run succeeded now w = record w {
  last_result = some WatchResult.started;
  last_error = none;
  recovered_at = some now;
  restore_error = none;
}
after_run (run_failed error) now w = record w {
  next_at =
      if leb max_attempts w.attempts
      then (elim w.paused_until [ none ↦ w.next_at | some p ↦ p ])
      else w.next_at;
  last_result = some WatchResult.failed;
  last_error = some (or_default error "recovery command failed");
  restore_error = some "Automatic listener recovery failed; see `peer-chat status` watch fields.";
}

-- `_recover`
unfoldable pub recover : Seen → ℕ → Watch → List Event
recover seen now w =
    if is_exhausted w
    then persist (pause w) ∷ []
    else if not seen.still_alive
    then persist (record w {
      last_attempt = some now;
      last_result = some WatchResult.skipped;
      last_error = some "owner changed before recovery";
    })
      ∷ []
    else persist (attempt WatchResult.attempting now w)
      ∷ launch_recovery
      ∷ persist (after_run seen.run now (attempt WatchResult.attempting now w))
      ∷ []

-- What `_keep_endpoint` stores after the launch.
unfoldable pub after_spawn : Option String → ℕ → Watch → Watch
after_spawn none now w = record w {
  last_result = some WatchResult.endpoint_kept;
  recovered_at = some now;
}
after_spawn (some error) now w = record w {
  last_result = some WatchResult.failed;
  last_error = some error;
}

-- `_keep_endpoint`
unfoldable pub keep_endpoint : Seen → ℕ → Watch → List Event
keep_endpoint seen now w =
    if is_exhausted w
    then persist (pause w) ∷ []
    else persist (attempt WatchResult.attempting_endpoint now w)
      ∷ launch_endpoint
      ∷ persist (after_spawn seen.spawn_error now (attempt WatchResult.attempting_endpoint now w))
      ∷ []

abbrev pub is_recovered : Option WatchResult → Bool
is_recovered (some WatchResult.recovered) = true
is_recovered _ = false

abbrev pub is_stable : Watch → ℕ → Bool
is_stable w now = elim w.recovered_at [ none ↦ true | some t ↦ leb (t + stable_time) now ]

abbrev pub forget : Watch → Watch
forget w = record w {
  attempts = 0;
  next_at = 0;
  last_result = some WatchResult.recovered;
  paused_until = none;
  last_error = none;
  restore_error = none;
}

-- A listener that lives: a stable one has its attempts forgotten, an old owner's is asked to exit.
unfoldable pub watch_live : Seen → ℕ → Watch → List Event
watch_live seen now w =
    if not seen.owner_live && seen.replacement
    then (if seen.signal_sent
        then signal_listener
          ∷ persist (record w {
            last_result = some WatchResult.signalled_old_listener;
            last_attempt = some now;
          })
          ∷ []
        else [])
    else if not (nat_eq w.attempts 0) && (is_stable w now && not (is_recovered w.last_result))
    then persist (forget w) ∷ []
    else []

abbrev pub must_wait : Watch → ℕ → Bool
must_wait w now = (elim w.paused_until [ none ↦ false | some p ↦ ltb now p ]) || ltb now w.next_at

-- A listener that is gone.
unfoldable pub watch_dead : Seen → ℕ → Watch → List Event
watch_dead seen now w =
    if must_wait w now
    then []
    else if seen.owner_live || seen.replacement
    then recover seen now w
    else keep_endpoint seen now w

pub record Bridge : Type 0 where
  pub supervised : Bool
  pub stopped : Bool
  pub watch : Option Watch

-- The body of the loop of `tick`.
unfoldable pub tick : Seen → ℕ → Bridge → List Event
tick seen now b =
    if not b.supervised || b.stopped
    then []
    else if seen.live
    then watch_live seen now (watch_state b.watch now)
    else watch_dead seen now (watch_state b.watch now)

-- The key `watch` after the events.
unfoldable pub stored : List Event → Option Watch → Option Watch
stored [] w = w
stored (persist w ∷ es) old = stored es (some w)
stored (e ∷ es) old = stored es old

abbrev pub is_launch : Event → Bool
is_launch launch_recovery = true
is_launch launch_endpoint = true
is_launch _ = false
