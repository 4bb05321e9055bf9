-- ===== src/Listener/Opening.antt =====
-- The start of `serve` of src/peer_chat.py.
use peer_chat.Base.{
  ℕ, String, arith, ◌≡◌, refl, Bool, true, false, none, List, [], ◌∷◌, if◌then◌else◌, map, All,
  Bool-cases, inl, inr,
}
use mathlib.Core.Path.{subst}
use peer_chat.Base.Json.{Value, null, bool, truthy, member}
use peer_chat.Store.{
  Store, Status, OutStatus, Message, Outgoing, get, is_status, set_row, update_messages,
  recover_rows, interrupt_write,
}
use peer_chat.Listener.{Listener}
use peer_chat.Listener.Serve.{
  Start, failed, started, EndpointPath, absent, stale, listening, other, start, open_store,
}

abbrev pub is_writing : Outgoing → Bool
is_writing o = elim o.status [ OutStatus.writing ↦ true | _ ↦ false ]

-- Nothing is in flight.
pub record Settled (s : Store) : Type 0 where
  pub messages : All (λ m. is_status Status.forwarding m ≡ false) s.messages
  pub outgoing : All (λ o. is_writing o ≡ false) s.outgoing

recovered :
    (detail : String) (ms : List Message)
    → All
        (λ m. is_status Status.forwarding m ≡ false)
        (map (set_row (is_status Status.forwarding) Status.queue_uncertain detail) ms)
recovered detail [] = tt
recovered detail (m ∷ ms) = (either (is_status Status.forwarding m) refl, recovered detail ms)
  where
    either :
        (b : Bool)
        → is_status Status.forwarding m ≡ b
        → is_status Status.forwarding
            (if b then record m { status = Status.queue_uncertain; detail = detail } else m)
          ≡ false
    either true e = refl
    either false e = e

interrupted : (os : List Outgoing) → All (λ o. is_writing o ≡ false) (map interrupt_write os)
interrupted [] = tt
interrupted (o ∷ os) = (ground arith, interrupted os)

recover_rows-Settled : (now : ℕ) (s : Store) → Settled (recover_rows now s)
unfolding recover_rows update_messages
recover_rows-Settled now s = record {
  messages = recovered _ s.messages;
  outgoing = interrupted s.outgoing;
}

started_inj : (k l : Listener) → started k ≡ started l → k ≡ l
started_inj k l e = cc

-- A listener that starts was not stopped, has no client, and leaves no message that is being forwarded and
-- no outgoing one that is being written: what an earlier process left in flight is marked uncertain.
pub start-Settled :
    (pid : Value) (identity : String) (path : EndpointPath) (now : ℕ) (s : Store) (l : Listener)
    → start pid identity path now s ≡ started l
    → (truthy (get s "stop" (bool false)) ≡ false) × (l.clients ≡ []) × Settled l.store
unfolding start open_store
start-Settled pid identity path now s l h = elim (Bool-cases (truthy (get s "stop" (bool false)))) [
  | inl t ↦ cc (rw (t) at h)
  | inr n ↦ elim (Bool-cases (truthy (get s "config" null))) [
    | inr m ↦ cc (rw (n, m) at h)
    | inl m ↦ let (c, d) = by_path path (rw (n, m) at h) in (n, c, d)
  ]
]
  where
    opened : Listener
    opened = record {
      store = open_store pid identity (member (get s "config" null) "socket") now s;
      clients = [];
      hints = [];
      snapshot = none;
    }

    same : started opened ≡ started l → (l.clients ≡ []) × Settled l.store
    same e =
        subst (λ k. (k.clients ≡ []) × Settled k.store) (started_inj opened l e)
          (
            refl,
            record {
              messages = (recover_rows-Settled now s).messages;
              outgoing = (recover_rows-Settled now s).outgoing;
            },
          )

    by_path :
        (q : EndpointPath)
        → (elim q as (λ x. Start) [ listening ↦ failed | other ↦ failed | _ ↦ started opened ])
          ≡ started l
        → (l.clients ≡ []) × Settled l.store
    by_path absent e = same e
    by_path stale e = same e
    by_path listening e = cc
    by_path other e = cc
