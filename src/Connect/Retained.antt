-- ===== src/Connect/Retained.antt =====
-- What `connect` of src/peer_connect.py writes, next to the runs of `peer-chat start` and `register`.
use peer_chat.Base.{
  ℕ, String, ◌≡◌, refl, ap, sym, ◌∙◌, Bool, true, false, ◌⊎◌, inl, inr, Bool-cases, Option, none,
  some, List, if◌then◌else◌, ◌==◌, find, ◌&&◌, eq_refl,
}
use mathlib.Core.Path.{subst}
use peer_chat.Base.Json.{
  Value, null, bool, int, real, str, arr, obj, member, insert, is_text, member-insert_ne,
}
use peer_chat.Selection.{Choice, one, ambiguous, none_match}
use peer_chat.Selection.Strategies.{select_session}
use peer_chat.Store.{Store, get, put}
use peer_chat.Connect.{
  Actions, Agent, Stores, Started, refused, enrolled, Ran, failed, finished, raised, started_of,
  is_codex, is_claude_at, has_pid, native_link, connect_choice, at_thread, seed_phase, set_default,
  start, thread_of, start_command, text_of, all_sessions, finish_claude, finish_codex,
  started_claude, back_started, started_codex, registered_codex, connect_claude, connect_to,
  connect,
}

-- The change of a store by a seed: a phase that was saved stays, and nothing else changes.
pub record Seeds (s s' : Store) : Type 0 where
  pub saved : (v : Value) → s.meta "phase" ≡ some v → s'.meta "phase" ≡ some v
  pub others : (k : String) → ("phase" == k) ≡ false → s'.meta k ≡ s.meta k
  pub messages : s'.messages ≡ s.messages
  pub outgoing : s'.outgoing ≡ s.outgoing
  pub timing : s'.timing ≡ s.timing

-- The change of a store where a default is chosen: the rest of the configuration stays.
pub record Defaults (s s' : Store) : Type 0 where
  pub members :
      (k : String)
      → ("default_peer" == k) ≡ false
      → member (get s' "config" null) k ≡ member (get s "config" null) k
  pub others : (k : String) → ("config" == k) ≡ false → s'.meta k ≡ s.meta k
  pub messages : s'.messages ≡ s.messages
  pub outgoing : s'.outgoing ≡ s.outgoing
  pub timing : s'.timing ≡ s.timing

-- The process that owns the bridge of a recipient is the one that was recorded.
abbrev pub is_present : Actions → Value → Bool
is_present a recipient =
    is_text (a.identity (member recipient "owner_pid"))
      (text_of (member recipient "owner_identity"))

-- The thread is that of the Codex caller or of the session that was chosen.
abbrev pub IsParty : Option String → Option (Choice Value) → String → Type 0
IsParty own chosen thread =
    (own ≡ some thread) ⊎ ((p : Value) × (chosen ≡ some (one p)) × (thread ≡ thread_of p))

-- One step of a connection, with the choice of a session and, for a Codex caller, its `own` thread. A
-- run is `peer-chat start` for two sessions of which the chosen one is one, and for a living recipient;
-- a seed is for the thread of the caller or of the chosen session.
pub data Step (a : Actions) (chosen : Option (Choice Value)) (own : Option String)
    : Stores → Stores → Type 0 where
  runs :
      (recipient peer : Value) (stores : Stores)
      → (chosen ≡ some (one recipient)) ⊎ (chosen ≡ some (one peer))
      → is_present a recipient ≡ true
      → Step a chosen own stores
          (a.run (member recipient "codex_home") (start_command recipient peer) stores).1
  registers :
      (thread : String) (stores : Stores)
      → own ≡ some thread
      → Step a chosen own stores (a.register thread stores).1
  seeds :
      {s s' : Stores} (thread : String)
      → IsParty own chosen thread
      → ((t : String) → (thread == t) ≡ false → s' t ≡ s t)
      → Seeds (s thread) (s' thread)
      → Step a chosen own s s'
  defaults :
      {s s' : Stores} (thread : String)
      → own ≡ some thread
      → ((t : String) → (thread == t) ≡ false → s' t ≡ s t)
      → Defaults (s thread) (s' thread)
      → Step a chosen own s s'

pub data Steps (a : Actions) (chosen : Option (Choice Value)) (own : Option String) (s : Stores)
    : Stores → Type 0 where
  done : Steps a chosen own s s
  next : {t u : Stores} → Steps a chosen own s t → Step a chosen own t u → Steps a chosen own s u

pub own_thread : Option (Agent × ℕ) → String → Option String
own_thread none thread = none
own_thread (some (Agent.claude, pid)) thread = none
own_thread (some (Agent.codex, pid)) thread = some thread

seed_phase-Seeds : (phase : Value) (s : Store) → Seeds s (seed_phase phase s)
unfolding seed_phase
seed_phase-Seeds phase s = by_phase _ (s.meta "phase") refl
  where
    by_phase :
        (v : Value) (o : Option Value)
        → s.meta "phase" ≡ o
        → Seeds s (elim o [ none ↦ put "phase" v s | some w ↦ s ])
    by_phase v none e = record {
      saved = λ w h. cc;
      others = λ k n. rw n;
      messages = refl;
      outgoing = refl;
      timing = refl;
    }
    by_phase v (some w) e = record {
      saved = λ x h. h;
      others = λ k n. refl;
      messages = refl;
      outgoing = refl;
      timing = refl;
    }

same-Seeds : (s : Store) → Seeds s s
same-Seeds s = record {
  saved = λ v h. h;
  others = λ k h. refl;
  messages = refl;
  outgoing = refl;
  timing = refl;
}

at_thread-Seeds :
    (thread : String) (phase : Value) (stores : Stores) (t : String)
    → Seeds (stores t) (at_thread thread (seed_phase phase) stores t)
unfolding at_thread
at_thread-Seeds thread phase stores t = either (thread == t)
  where
    either : (b : Bool) → Seeds (stores t) (if b then seed_phase phase (stores t) else stores t)
    either true = seed_phase-Seeds phase (stores t)
    either false = same-Seeds (stores t)

set_default-Defaults : (key : String) (s : Store) → Defaults s (set_default key s)
unfolding set_default
set_default-Defaults key s = by_config (get s "config" null) refl
  where
    same : Defaults s s
    same = record {
      members = λ k n. refl;
      others = λ k n. refl;
      messages = refl;
      outgoing = refl;
      timing = refl;
    }

    by_config :
        (v : Value)
        → get s "config" null ≡ v
        → Defaults s (elim v [
          | obj config ↦ put "config" (obj (insert "default_peer" (str key) config)) s
          | _ ↦ s
        ])
    by_config (obj d) e = record {
      members =
          λ k n. member-insert_ne "default_peer" k (str key) d n ∙ ap (λ v. member v k) (sym e);
      others = λ k n. rw n;
      messages = refl;
      outgoing = refl;
      timing = refl;
    }
    by_config null e = same
    by_config (bool b) e = same
    by_config (int n) e = same
    by_config (real n) e = same
    by_config (str x) e = same
    by_config (arr xs) e = same

-- A change at one thread leaves the stores of the others.
at_thread-others :
    (thread : String) (f : Store → Store) (stores : Stores) (t : String)
    → (thread == t) ≡ false
    → at_thread thread f stores t ≡ stores t
unfolding at_thread
at_thread-others thread f stores t n = rw n

at_thread-same :
    (thread : String) (f : Store → Store) (stores : Stores)
    → at_thread thread f stores thread ≡ f (stores thread)
unfolding at_thread
at_thread-same thread f stores = rw (eq_refl thread)

module _ (a : Actions) (chosen : Option (Choice Value)) (own : Option String) (s : Stores) where
  -- A seed at one thread.
  seed-Step :
      (thread : String) (phase : Value) (t : Stores)
      → IsParty own chosen thread
      → Step a chosen own t (at_thread thread (seed_phase phase) t)
  seed-Step thread phase t p =
      seeds thread p (at_thread-others thread (seed_phase phase) t)
        (at_thread-Seeds thread phase t thread)

  started_of-Steps :
      (r : Ran × Stores) → Steps a chosen own s r.1 → Steps a chosen own s (started_of r).1
  started_of-Steps (failed error, t) h = h
  started_of-Steps (finished key, t) h = h

  start-Steps :
      (recipient peer : Value) (t : Stores)
      → (chosen ≡ some (one recipient)) ⊎ (chosen ≡ some (one peer))
      → Steps a chosen own s t
      → Steps a chosen own s (start a recipient peer t).1
  unfolding start
  start-Steps recipient peer t c h = elim (Bool-cases (is_present a recipient)) [
    | inl e ↦ rw e (
        started_of-Steps (a.run (member recipient "codex_home") (start_command recipient peer) t)
          (next h (runs recipient peer t c e)))
    | inr e ↦ rw e h
  ]

  finish_claude-Steps :
      (peer : Value) (t : Stores)
      → chosen ≡ some (one peer)
      → Steps a chosen own s t
      → Steps a chosen own s (finish_claude peer t).1
  unfolding finish_claude
  finish_claude-Steps peer t is_peer h = next h (seed-Step _ _ t (inr (peer, is_peer, refl)))

  started_claude-Steps :
      (peer : Value) (r : Started × Stores)
      → chosen ≡ some (one peer)
      → Steps a chosen own s r.1
      → Steps a chosen own s (started_claude peer r).1
  unfolding started_claude
  started_claude-Steps peer (refused text, t) is_peer h = h
  started_claude-Steps peer (enrolled key, t) is_peer h = finish_claude-Steps peer t is_peer h

  connect_claude-Steps :
      (pid : ℕ) (peer : Value) (row : Option Value)
      → chosen ≡ some (one peer)
      → Steps a chosen own s (connect_claude a pid peer row s).1
  unfolding connect_claude
  connect_claude-Steps pid peer none is_peer = done
  connect_claude-Steps pid peer (some caller) is_peer =
      by_kind (is_text (member peer "kind") "claude")
    where
      by_kind :
          (b : Bool)
          → Steps a chosen own s
              (if b
                then (native_link (has_pid pid peer) peer, s)
                else started_claude peer (start a peer caller s)).1
      by_kind true = done
      by_kind false =
          started_claude-Steps peer (start a peer caller s) is_peer
            (start-Steps peer caller s (inl is_peer) done)

  -- Where the thread is that of the caller.
  module _ (thread : String) (is_own : own ≡ some thread) where
    finish_codex-Steps :
        (peer : Value) (key : String) (t : Stores)
        → Steps a chosen own s t
        → Steps a chosen own s (finish_codex thread peer key t).1
    unfolding finish_codex
    finish_codex-Steps peer key t h =
        let seeded = at_thread thread (seed_phase (str "active")) t in
        next (next h (seed-Step thread (str "active") t (inl is_own))) (
          defaults thread is_own (at_thread-others thread (set_default key) seeded) (
            subst (Defaults (seeded thread)) (sym (at_thread-same thread (set_default key) seeded))
              (set_default-Defaults key (seeded thread))))

    back_started-Steps :
        (peer : Value) (key : String) (r : Started × Stores)
        → chosen ≡ some (one peer)
        → Steps a chosen own s r.1
        → Steps a chosen own s (back_started thread peer key r).1
    unfolding back_started
    back_started-Steps peer key (refused text, t) is_peer h = h
    back_started-Steps peer key (enrolled other, t) is_peer h =
        finish_codex-Steps peer key _ (next h (seed-Step _ _ t (inr (peer, is_peer, refl))))

    started_codex-Steps :
        (caller peer : Value) (r : Started × Stores)
        → chosen ≡ some (one peer)
        → Steps a chosen own s r.1
        → Steps a chosen own s (started_codex a thread caller peer r).1
    unfolding started_codex
    started_codex-Steps caller peer (refused text, t) is_peer h = h
    started_codex-Steps caller peer (enrolled key, t) is_peer h = by_kind (is_codex peer)
      where
        by_kind :
            (b : Bool)
            → Steps a chosen own s
                (if b
                  then back_started thread peer key (start a peer caller t)
                  else finish_codex thread peer key t).1
        by_kind true =
            back_started-Steps peer key (start a peer caller t) is_peer
              (start-Steps peer caller t (inl is_peer) h)
        by_kind false = finish_codex-Steps peer key t h

    registered_codex-Steps :
        (peer : Value) (r : Option Value × Stores)
        → chosen ≡ some (one peer)
        → Steps a chosen own s r.1
        → Steps a chosen own s (registered_codex a thread peer r).1
    unfolding registered_codex
    registered_codex-Steps peer (none, t) is_peer h = h
    registered_codex-Steps peer (some caller, t) is_peer h =
        by_test (is_codex peer && is_text (member peer "thread") thread)
      where
        by_test :
            (b : Bool)
            → Steps a chosen own s
                (if b
                  then (raised "Select another session", t)
                  else started_codex a thread caller peer (start a caller peer t)).1
        by_test true = h
        by_test false =
            started_codex-Steps caller peer (start a caller peer t) is_peer
              (start-Steps caller peer t (inr is_peer) h)

connect_to-Steps :
    (a : Actions) (rows : List Value) (caller : Option (Agent × ℕ)) (thread : String) (peer : Value)
    (s : Stores)
    → Steps a
        (some (one peer))
        (own_thread caller thread)
        s
        (connect_to a rows caller thread peer s).1
unfolding connect_to own_thread
connect_to-Steps a rows none thread peer s = done
connect_to-Steps a rows (some (Agent.claude, pid)) thread peer s =
    connect_claude-Steps a _ none s pid peer (find (is_claude_at pid) rows) refl
connect_to-Steps a rows (some (Agent.codex, pid)) thread peer s = by_thread (thread == "")
  where
    by_thread :
        (b : Bool)
        → Steps a
            (some (one peer))
            (some thread)
            s
            (if b
              then (raised "Run connect from the intended Codex or Claude session", s)
              else registered_codex a thread peer (a.register thread s)).1
    by_thread true = done
    by_thread false =
        registered_codex-Steps a _ (some thread) s thread refl peer (a.register thread s) refl
          (next done (registers thread s refl))

connect_choice-Steps :
    (a : Actions) (rows : List Value) (caller : Option (Agent × ℕ)) (thread : String)
    (choice : Option (Choice Value)) (s : Stores)
    → Steps a choice (own_thread caller thread) s (connect_choice a rows caller thread choice s).1
unfolding connect_choice
connect_choice-Steps a rows caller thread none s = done
connect_choice-Steps a rows caller thread (some (one peer)) s =
    connect_to-Steps a rows caller thread peer s
connect_choice-Steps a rows caller thread (some (ambiguous found)) s = done
connect_choice-Steps a rows caller thread (some none_match) s = done

-- Every end of `connect`, an error too, is reached by steps of these kinds only: runs of `peer-chat
-- start` for two sessions of which one is the selected one, where the process of the recipient was
-- verified; for a Codex caller, the registration of its own thread; seeds in the store of that
-- thread or of the thread of the selected session,
-- which never replace a phase that is saved and change no other key and no row of a table; and, for a
-- Codex caller only and only in the store of its own thread, changes of the configuration that leave
-- all of it but `default_peer`, all other keys and all rows.
pub connect-Steps :
    (a : Actions) (lower : String → String) (number : String → Option ℕ)
    (sessions natives : List Value) (caller : Option (Agent × ℕ)) (target : Value) (thread : String)
    (s : Stores)
    → Steps a
        (select_session lower number (all_sessions sessions natives) target none)
        (own_thread caller thread)
        s
        (connect a lower number sessions natives caller target thread s).1
unfolding connect
connect-Steps a lower number sessions natives caller target thread s =
    connect_choice-Steps a _ caller thread _ s
