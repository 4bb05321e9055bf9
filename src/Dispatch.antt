-- ===== src/Dispatch.antt =====
-- `dispatch` and `wake_idle` of src/peer_chat.py: one bounded operation of the worker at a time. A
-- call that leaves the process (the socket write, `codex queue`) is an argument with its result, and
-- splits the operation into transactions, between which other writers may run.
pub mod Claim
pub mod Waking
pub mod Tick
use Prim.Native.String.{◌++◌ as text_append}
use peer_chat.Base.{
  ℕ, String, Bool, true, false, not, ◌&&◌, ◌||◌, Option, none, some, List, [], ◌∷◌, map, any, find,
  if◌then◌else◌, ◌==◌, leb, length, is_some,
}
use peer_chat.Base.Int.{ℤ, pos}
use peer_chat.Base.Json.{
  Value, null, int, real, str, obj, Fields, end, field, lookup, member, truthy, is_text, insert,
}
use peer_chat.Store.{
  Store, Message, Status, Outgoing, OutStatus, get, put, update_meta, update_messages, pending,
  set_status, is_message, is_status, has_key,
}
use peer_chat.Budget.{available, spend}
use peer_chat.Wake.Events.{record_wake, notice_text}
use peer_chat.Peers.{Host, all_peers}

-- The end of a call of `codex queue`: success or an exit code, each with the id that the output
-- names, or the name of an error.
pub data QueueResult : Type 0 where
  accepted : Option String → QueueResult
  refused : String → Option String → QueueResult
  call_error : String → QueueResult

-- The end of a socket write: done, an error with its name and text, or an error that `dispatch` does not
-- catch, such as one of SQLite while the hops are read.
pub data WriteResult : Type 0 where
  wrote : WriteResult
  write_error : String → WriteResult
  write_crash : WriteResult

abbrev pub is_pending_out : Outgoing → Bool
is_pending_out o = elim o.status [ OutStatus.pending ↦ true | _ ↦ false ]

-- `ORDER BY created LIMIT 1` over the pending rows: the earliest, and of two at one time the first.
unfoldable pub next_out : List Outgoing → Option Outgoing
next_out [] = none
next_out (o ∷ os) = elim (next_out os) [
  | none ↦ if is_pending_out o then some o else none
  | some later ↦ if is_pending_out o && leb o.created later.created then some o else some later
]

abbrev pub set_out : String → OutStatus → Option String → Outgoing → Outgoing
set_out id status detail o =
    if o.id == id
    then record o { status = status; detail = elim detail [ none ↦ o.detail | some d ↦ d ] }
    else o

-- The two updates around a socket write; where it crashes, there is no second one.
unfoldable pub begin_write : String → Store → Store
begin_write id s = record s { outgoing = map (set_out id OutStatus.writing none) s.outgoing }

unfoldable pub end_write : String → WriteResult → Store → Store
end_write id wrote s = record s {
  outgoing =
      map
        (set_out id OutStatus.written (some "Socket write completed; awaiting peer receipt/reply"))
        s.outgoing;
}
end_write id (write_error text) s = record s {
  outgoing = map (set_out id OutStatus.uncertain (some text)) s.outgoing;
}
end_write id write_crash s = s

-- `row["peer"] or config.get("peer", {}).get("identity")`
abbrev pub route_of : Value → Outgoing → Value
route_of config o =
    let legacy = member (member config "peer") "identity" in
    elim o.peer [ none ↦ legacy | some p ↦ if p == "" then legacy else str p ]

-- The hops of the message that an outgoing row replies to.
abbrev pub reply_hops : Store → Value → Outgoing → List String
reply_hops s route o = elim (get s (text_append "reply_to:" o.id) null) [
  | str reply ↦ (elim route [
    | str peer ↦ (elim (find (λ m. is_message m && has_key peer reply m) s.messages) [
      | none ↦ []
      | some m ↦ m.hops
    ])
    | _ ↦ []
  ])
  | _ ↦ []
]

module _ (host : Host) (config : Value) where
  abbrev pub is_enrolled_key : String → Bool
  is_enrolled_key peer = is_some (lookup peer (all_peers host config))

  -- What keeps a row from being forwarded, as the queue mode says it.
  abbrev pub queue_refusal : Message → Option String
  queue_refusal m =
      if not (is_enrolled_key m.peer)
      then some "Message belongs to a previously enrolled peer"
      else if leb 8 (length m.hops)
      then some "Hop limit reached; available through read"
      else none

  -- The same for an idle wake.
  abbrev pub wake_refusal : Message → Option String
  wake_refusal m =
      if not (is_enrolled_key m.peer)
      then some "Peer no longer enrolled"
      else if leb 8 (length m.hops)
      then some "Hop limit reached"
      else none

abbrev pub is_claimable : Message → Message → Bool
is_claimable row m = has_key row.peer row.id m && is_status Status.received m

-- `UPDATE messages SET status='forwarding'`, which keeps the detail and starts no trigger.
abbrev pub forward : Message → Message → Message
forward row m = if is_claimable row m then record m { status = Status.forwarding } else m

-- The claim and the debit are one transaction: a row that was read meanwhile is not claimed.
unfoldable pub claim_queue : Message → Store → Bool × Store
claim_queue row s =
    if not (is_text (get s "delivery" null) "queue")
      || not (available (get s "remaining" (int (pos 0))))
    then (false, s)
    else if any (is_claimable row) s.messages
    then (
      true,
      update_meta "remaining" (spend (get s "remaining" null))
          (record s { messages = map (forward row) s.messages }),
    )
    else (false, s)

-- What the queue call makes of a claimed row.
unfoldable pub end_queue : Message → QueueResult → ℕ → Store → Store
end_queue row (accepted id) now s =
    set_status row.peer row.id Status.queued
      (elim id [ none ↦ "CLI acknowledged; consumption unconfirmed" | some i ↦ i ]) now s
end_queue row (refused code id) now s =
    set_status row.peer row.id Status.queue_failed (text_append "Codex queue exited " code) now s
end_queue row (call_error name) now s =
    set_status row.peer row.id Status.queue_uncertain (text_append name "; no automatic retry") now
      s

-- A row that `wake_idle` may not wake for, where it is still received.
abbrev pub hold_row : Message → String → ℕ → Store → Store
hold_row m reason now s =
    update_messages (λ r. has_key m.peer m.id r && (is_message r && is_status Status.received r))
      Status.held reason now s

abbrev pub marker_of : Message → ℕ → Value
marker_of m now =
    obj (field "id" (str m.id) (field "status" (str "writing") (field "at" (real now) end)))

abbrev pub wakes_left : Store → Value
wakes_left s = get s "wake_remaining" (get s "remaining" (int (pos 0)))

-- `wake_idle` goes on only here.
abbrev pub may_wake : Store → Bool
may_wake s =
    is_text (get s "phase" null) "idle"
    && (available (get s "remaining" (int (pos 0)))
        && (available (wakes_left s) && not (truthy (get s "wake_pending" null))))

abbrev pub spend_wake : Value → Message → ℕ → Store → Store
spend_wake wakes m now s =
    put "wake_remaining" (spend wakes) (put "wake_pending" (marker_of m now) s)

-- The marker after the queue call.
abbrev pub with_queue_id : Option String → Fields → Fields
with_queue_id none d = d
with_queue_id (some id) d = insert "queue_id" (str id) d

unfoldable pub end_marker : Value → QueueResult → Value
end_marker (obj d) (accepted id) = obj (with_queue_id id (insert "status" (str "queued") d))
end_marker (obj d) (refused code id) = obj (with_queue_id id (insert "status" (str "failed") d))
end_marker (obj d) (call_error name) = obj (insert "status" (str "uncertain") d)
end_marker v result = v

-- The clock at the transactions of one tick, and what the calls outside return.
pub record World : Type 0 where
  pub write : WriteResult
  pub queue : QueueResult
  pub claimed_at : ℕ
  pub noted_at : ℕ
  pub ended_at : ℕ

module _ (host : Host) (config : Value) where
  -- The loop over the candidates, which holds those before the first that may wake.
  unfoldable pub scan : ℕ → List Message → Store → Option Message × Store
  scan now [] s = (none, s)
  scan now (m ∷ ms) s = elim (wake_refusal host config m) [
    | none ↦ (some m, s)
    | some reason ↦ scan now ms (hold_row m reason now s)
  ]

  -- The transaction of `wake_idle`: at most one message is claimed, and one wake is paid.
  unfoldable pub claim_wake : ℕ → Store → Option Message × Store
  claim_wake now s =
      let (row, held) = scan now (pending s) s in
      if may_wake s
      then (row, (elim row [ none ↦ held | some m ↦ spend_wake (wakes_left s) m now held ]))
      else (none, s)

  abbrev pub end_wake : World → Message → Store → Store
  end_wake w m s =
      let marker = marker_of m w.claimed_at in
      let noted = (record_wake marker w.noted_at s).1 in
      (record_wake (end_marker marker w.queue) w.ended_at noted).1

  -- `wake_idle`
  unfoldable pub wake_idle : World → Store → Store
  wake_idle w s =
      let (row, claimed) = claim_wake w.claimed_at s in
      elim row [ none ↦ claimed | some m ↦ end_wake w m claimed ]

  abbrev pub forward_row : World → Message → Store → Store
  forward_row w m s = elim (queue_refusal host config m) [
    | some reason ↦ set_status m.peer m.id Status.held reason w.claimed_at s
    | none ↦
        let (claimed, s') = claim_queue m s in
        if claimed then end_queue m w.queue w.ended_at s' else s'
  ]

  abbrev pub forward_first : World → List Message → Store → Store
  forward_first w [] s = s
  forward_first w (m ∷ ms) s = forward_row w m s

  -- The part of `dispatch` after the outgoing rows.
  unfoldable pub dispatch_inbox : World → Store → Store
  dispatch_inbox w s =
      if is_text (get s "phase" null) "interrupted"
      then s
      else if is_text (get s "delivery" null) "auto"
      then wake_idle w s
      else if not (is_text (get s "delivery" (str "inbox")) "queue")
          || not (available (get s "remaining" (int (pos 0))))
      then s
      else forward_first w (pending s) s

  -- `dispatch`
  unfoldable pub dispatch : World → Store → Store
  dispatch w s = elim (next_out s.outgoing) [
    | some o ↦ end_write o.id w.write (begin_write o.id s)
    | none ↦ dispatch_inbox w s
  ]
