-- ===== src/Dispatch/Tick.antt =====
-- One tick of `dispatch` of src/peer_chat.py, for any results of the calls outside.
use peer_chat.Base.{
  ℕ, String, refl, Bool, true, false, not, ◌||◌, Option, none, some, List, [], ◌∷◌, if◌then◌else◌,
  Bool-cases, inl, inr,
}
use peer_chat.Base.Int.{pos}
use peer_chat.Base.Json.{Value, null, int, str, is_text}
use peer_chat.Store.{Store, Message, Status, Outgoing, get, pending, set_status}
use peer_chat.Store.Sound.{Sound, Sound-refl, Sound-trans, same-Sound, set_status-Sound}
use peer_chat.Budget.{available}
use peer_chat.Wake.Events.{record_wake}
use peer_chat.Wake.Frame.{record_wake-Untouched}
use peer_chat.Peers.{Host}
use peer_chat.Dispatch.{
  World, WriteResult, QueueResult, begin_write, end_write, end_queue, end_wake, wake_idle,
  claim_wake, claim_queue, queue_refusal, forward_row, forward_first, dispatch_inbox, dispatch,
  next_out, marker_of, end_marker,
}
use peer_chat.Dispatch.Claim.{claim_queue-Progress, claim_queue-Keyed}
use peer_chat.Dispatch.Waking.{claim_wake-Progress, claim_wake-Keyed}

pub begin_write-Sound : (id : String) (s : Store) → Sound s (begin_write id s)
unfolding begin_write
begin_write-Sound id s = same-Sound refl

pub end_write-Sound : (id : String) (w : WriteResult) (s : Store) → Sound s (end_write id w s)
unfolding end_write
end_write-Sound id WriteResult.wrote s = same-Sound refl
end_write-Sound id (WriteResult.write_error t) s = same-Sound refl
end_write-Sound id WriteResult.write_crash s = same-Sound refl

pub end_queue-Sound :
    (m : Message) (r : QueueResult) (now : ℕ) (s : Store) → Sound s (end_queue m r now s)
unfolding end_queue
end_queue-Sound m (QueueResult.accepted id) now s =
    set_status-Sound m.peer m.id Status.queued _ now s (λ e. cc)
end_queue-Sound m (QueueResult.refused code id) now s =
    set_status-Sound m.peer m.id Status.queue_failed _ now s (λ e. cc)
end_queue-Sound m (QueueResult.call_error name) now s =
    set_status-Sound m.peer m.id Status.queue_uncertain _ now s (λ e. cc)

pub claim_queue-Sound : (m : Message) (s : Store) → Sound s (claim_queue m s).1
claim_queue-Sound m s = record {
  progress = claim_queue-Progress m s;
  keyed = claim_queue-Keyed m s;
}

pub record_wake-Sound :
    (marker : Value) (now : ℕ) (s : Store) → Sound s (record_wake marker now s).1
record_wake-Sound marker now s = same-Sound (record_wake-Untouched marker now s).messages

module _ (host : Host) (config : Value) where
  pub claim_wake-Sound : (now : ℕ) (s : Store) → Sound s (claim_wake host config now s).1
  claim_wake-Sound now s = record {
    progress = claim_wake-Progress host config now s;
    keyed = claim_wake-Keyed host config now s;
  }

  end_wake-Sound : (w : World) (m : Message) (s : Store) → Sound s (end_wake host config w m s)
  end_wake-Sound w m s = Sound-trans (record_wake-Sound (marker_of m w.claimed_at) w.noted_at s) (
      record_wake-Sound (end_marker (marker_of m w.claimed_at) w.queue) w.ended_at
        (record_wake (marker_of m w.claimed_at) w.noted_at s).1)

  pub wake_idle-Sound : (w : World) (s : Store) → Sound s (wake_idle host config w s)
  unfolding wake_idle
  wake_idle-Sound w s =
      Sound-trans (claim_wake-Sound w.claimed_at s) (go (claim_wake host config w.claimed_at s).0)
    where
      go :
          (row : Option Message) {t : Store}
          → Sound t (elim row as (λ x. Store) [ none ↦ t | some m ↦ end_wake host config w m t ])
      go none {t} = Sound-refl t
      go (some m) {t} = end_wake-Sound w m t

  claimed-Sound :
      (w : World) (m : Message) (b : Bool) (t : Store)
      → Sound t (if b then end_queue m w.queue w.ended_at t else t)
  claimed-Sound w m true t = end_queue-Sound m w.queue w.ended_at t
  claimed-Sound w m false t = Sound-refl t

  forward_row-Sound :
      (w : World) (m : Message) (s : Store) → Sound s (forward_row host config w m s)
  forward_row-Sound w m s = go (queue_refusal host config m)
    where
      go :
          (r : Option String)
          → Sound s (elim r as (λ x. Store) [
            | some reason ↦ set_status m.peer m.id Status.held reason w.claimed_at s
            | none ↦
                if (claim_queue m s).0
                then end_queue m w.queue w.ended_at (claim_queue m s).1
                else (claim_queue m s).1
          ])
      go (some reason) = set_status-Sound m.peer m.id Status.held reason w.claimed_at s (λ e. cc)
      go none =
          Sound-trans (claim_queue-Sound m s)
            (claimed-Sound w m (claim_queue m s).0 (claim_queue m s).1)

  forward_first-Sound :
      (w : World) (ms : List Message) (s : Store) → Sound s (forward_first host config w ms s)
  forward_first-Sound w [] s = Sound-refl s
  forward_first-Sound w (m ∷ ms) s = forward_row-Sound w m s

  pub dispatch_inbox-Sound : (w : World) (s : Store) → Sound s (dispatch_inbox host config w s)
  unfolding dispatch_inbox
  dispatch_inbox-Sound w s = elim (Bool-cases (is_text (get s "phase" null) "interrupted")) [
    | inl e ↦ rw e (Sound-refl s)
    | inr e ↦ (elim (Bool-cases (is_text (get s "delivery" null) "auto")) [
      | inl f ↦ rw (e, f) (wake_idle-Sound w s)
      | inr f ↦
          (elim (Bool-cases (
            not (is_text (get s "delivery" (str "inbox")) "queue")
            || not (available (get s "remaining" (int (pos 0)))))) [
              | inl g ↦ rw (e, f, g) (Sound-refl s)
              | inr g ↦ rw (e, f, g) (forward_first-Sound w (pending s) s)
            ])
    ])
  ]

  -- A tick of the dispatcher, whatever the calls outside return, loses or edits no message, takes
  -- none back from consumed and makes none received again, and keeps the primary key.
  pub dispatch-Sound : (w : World) (s : Store) → Sound s (dispatch host config w s)
  unfolding dispatch
  dispatch-Sound w s = go (next_out s.outgoing)
    where
      go :
          (next : Option Outgoing)
          → Sound s (elim next as (λ x. Store) [
            | some o ↦ end_write o.id w.write (begin_write o.id s)
            | none ↦ dispatch_inbox host config w s
          ])
      go (some o) =
          Sound-trans (begin_write-Sound o.id s) (end_write-Sound o.id w.write (begin_write o.id s))
      go none = dispatch_inbox-Sound w s
