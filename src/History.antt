-- ===== src/History.antt =====
-- Histories of one thread's store: the steps of the listener, the dispatcher, the hooks and the
-- command line in any order. A step is a transaction, which SQLite runs alone; only the hook of
-- src/peer_hooks.py, which makes several, is taken as one step.
use peer_chat.Base.{
  ℕ, String, ◌≡◌, refl, Bool, false, Option, none, some, List, some_inj, ◌++◌, [], ◌∷◌,
}
use peer_chat.Base.Json.{Value, null, obj, Fields}
use peer_chat.Store.{
  Store, Status, Message, Frame, accept, read, set_status, ack_one, ack_peer, recover_rows, put,
  get, delete, Outgoing,
}
use peer_chat.Store.Progress.{Progress-refl, Progress-trans}
use peer_chat.Store.Keys.{Keyed}
use peer_chat.Store.Sound.{
  Sound, same-Sound, accept-Sound, read-Sound, set_status-Sound, ack_one-Sound, ack_peer-Sound,
  recover_rows-Sound,
}
use peer_chat.Store.Accept.{accept-repeated}
use peer_chat.Budget.{configure_delivery}
use peer_chat.Wake.Events.{record_wake}
use peer_chat.Peers.{Host, normalise, enroll, enrolled_config}
use peer_chat.Hooks.Deliver.{Arrival, deliver}
use peer_chat.Hooks.Phase.{Kept, deliver-Kept}
use peer_chat.Dispatch.{
  WriteResult, QueueResult, begin_write, end_write, claim_queue, end_queue, claim_wake,
}
use peer_chat.Dispatch.Tick.{
  begin_write-Sound, end_write-Sound, claim_queue-Sound, end_queue-Sound, claim_wake-Sound,
  record_wake-Sound,
}

configure-Sound :
    (mode : String) (budget : Option Value) (s : Store) → Sound s (configure_delivery mode budget s)
unfolding configure_delivery
configure-Sound mode none s = same-Sound refl
configure-Sound mode (some limit) s = same-Sound refl

module _ (host : Host) (quote : String → String) (render : Value → String) where
  enroll-Sound :
      (peer : Value) (s : Store) (r : Fields × Store) → enroll host peer s ≡ some r → Sound s r.1
  unfolding enroll
  enroll-Sound peer s r h = go (normalise host peer) h
    where
      go :
          (d : Option Fields)
          → elim d as (λ x. Option (Fields × Store)) [
            | none ↦ none
            | some d ↦ some (
              enrolled_config host d (get s "config" null),
              put "config" (obj (enrolled_config host d (get s "config" null))) s,
            )
          ]
            ≡ some r
          → Sound s r.1
      go none e = cc
      go (some d) e = rw (← some_inj _ _ e) (same-Sound refl)

  -- One writer's step. Each is one transaction but `hooks`, which takes the transactions of one hook
  -- together. The configuration that the dispatcher has read may be an older one.
  pub data Step (s : Store) : Store → Type 0 where
    accepts : (peer : String) (f : Frame) (now : ℕ) → Step s (accept peer f now s).1
    reads : (ack : Bool) (now : ℕ) → Step s (read ack now s).1
    acks_one : (peer id : String) (now : ℕ) → Step s (ack_one peer id now s)
    acks_peer : (peer : String) (now : ℕ) → Step s (ack_peer peer now s)
    recovers : (now : ℕ) → Step s (recover_rows now s)
    configures : (mode : String) (budget : Option Value) → Step s (configure_delivery mode budget s)
    enrolls : (peer : Value) (r : Fields × Store) → enroll host peer s ≡ some r → Step s r.1
    hooks : (a : Arrival) (payload : Value) → Step s (deliver host quote render a payload s).1
    begins_write : (id : String) → Step s (begin_write id s)
    ends_write : (id : String) (w : WriteResult) → Step s (end_write id w s)
    refuses :
        (peer id reason : String) (now : ℕ) → Step s (set_status peer id Status.held reason now s)
    claims_row : (m : Message) → Step s (claim_queue m s).1
    ends_queue : (m : Message) (r : QueueResult) (now : ℕ) → Step s (end_queue m r now s)
    claims_wake : (config : Value) (now : ℕ) → Step s (claim_wake host config now s).1
    notes_wake : (marker : Value) (now : ℕ) → Step s (record_wake marker now s).1
    puts : (key : String) (v : Value) → Step s (put key v s)
    deletes : (key : String) → Step s (delete key s)
    sends : (o : Outgoing) → Step s (record s { outgoing = s.outgoing ++ o ∷ [] })

  pub data Reach (s : Store) : Store → Type 0 where
    start : Reach s s
    then_step : {t u : Store} → Reach s t → Step t u → Reach s u

  from_Sound : {s s' : Store} → Sound s s' → Keyed s.messages → Kept s s'
  from_Sound h k = (h.progress, h.keyed k)

  Step-Kept : {s s' : Store} → Step s s' → Keyed s.messages → Kept s s'
  Step-Kept {s} (accepts peer f now) = from_Sound (accept-Sound peer f now s)
  Step-Kept {s} (reads ack now) = from_Sound (read-Sound ack now s)
  Step-Kept {s} (acks_one peer id now) = from_Sound (ack_one-Sound peer id now s)
  Step-Kept {s} (acks_peer peer now) = from_Sound (ack_peer-Sound peer now s)
  Step-Kept {s} (recovers now) = from_Sound (recover_rows-Sound now s)
  Step-Kept {s} (configures mode budget) = from_Sound (configure-Sound mode budget s)
  Step-Kept {s} (enrolls peer r e) = from_Sound (enroll-Sound peer s r e)
  Step-Kept {s} (hooks a payload) = deliver-Kept host quote render a payload s
  Step-Kept {s} (begins_write id) = from_Sound (begin_write-Sound id s)
  Step-Kept {s} (ends_write id w) = from_Sound (end_write-Sound id w s)
  Step-Kept {s} (refuses peer id reason now) =
      from_Sound (set_status-Sound peer id Status.held reason now s (λ e. cc))
  Step-Kept {s} (claims_row m) = from_Sound (claim_queue-Sound m s)
  Step-Kept {s} (ends_queue m r now) = from_Sound (end_queue-Sound m r now s)
  Step-Kept {s} (claims_wake config now) = from_Sound (claim_wake-Sound host config now s)
  Step-Kept {s} (notes_wake marker now) = from_Sound (record_wake-Sound marker now s)
  Step-Kept {s} (puts key v) = from_Sound (same-Sound refl)
  Step-Kept {s} (deletes key) = from_Sound (same-Sound refl)
  Step-Kept {s} (sends o) = from_Sound (same-Sound refl)

  -- After any history no message is lost or edited, no consumed one has another status, no message
  -- is received again, and the primary key holds.
  pub Reach-Kept : {s s' : Store} → Reach s s' → Keyed s.messages → Kept s s'
  Reach-Kept {s} start k = (Progress-refl s, k)
  Reach-Kept (then_step h e) k =
      let before = Reach-Kept h k in
      let after = Step-Kept e before.1 in (Progress-trans before.0 after.0, after.1)

  -- After any history a second message of the same peer and id is refused and changes nothing.
  pub accepted_once :
      (peer id body body' mode mode' : String) (hops hops' : List String) (now now' : ℕ)
      (s s' : Store)
      → Keyed s.messages
      → Reach (accept peer (Frame.message id body mode hops) now s).1 s'
      → accept peer (Frame.message id body' mode' hops') now' s' ≡ (false, s')
  accepted_once peer id body body' mode mode' hops hops' now now' s s' k h =
      accept-repeated peer id body body' mode mode' hops hops' now now' s s'
        (Reach-Kept h ((accept-Sound peer (Frame.message id body mode hops) now s).keyed k)).0
