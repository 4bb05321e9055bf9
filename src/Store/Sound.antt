-- ===== src/Store/Sound.antt =====
-- The writers of class Store of src/peer_chat.py, with the rows and the primary key together.
use peer_chat.Base.{ℕ, String, ◌≡◌, Bool}
use peer_chat.Store.{
  Store, Status, Frame, accept, read, set_status, ack_one, ack_peer, recover_rows,
}
use peer_chat.Store.Progress.{
  Progress, Progress-refl, Progress-trans, same-Progress, accept-Progress, read-Progress,
  set_status-Progress, ack_one-Progress, ack_peer-Progress, recover_rows-Progress,
}
use peer_chat.Store.Keys.{Keyed}
use peer_chat.Store.Unique.{
  accept-Keyed, read-Keyed, set_status-Keyed, ack_one-Keyed, ack_peer-Keyed, recover_rows-Keyed,
}

pub record Sound (s s' : Store) : Type 0 where
  pub progress : Progress s s'
  pub keyed : Keyed s.messages → Keyed s'.messages

pub Sound-refl : (s : Store) → Sound s s
Sound-refl s = record { progress = Progress-refl s; keyed = λ k. k }

pub Sound-trans : {s t u : Store} → Sound s t → Sound t u → Sound s u
Sound-trans h k = record {
  progress = Progress-trans h.progress k.progress;
  keyed = λ x. k.keyed (h.keyed x);
}

pub same-Sound : {s s' : Store} → s.messages ≡ s'.messages → Sound s s'
same-Sound e = record { progress = same-Progress e; keyed = λ k. rw (← e) k }

pub set_status-Sound :
    (peer id : String) (status : Status) (detail : String) (now : ℕ) (s : Store)
    → (status ≡ Status.received → ⊥)
    → Sound s (set_status peer id status detail now s)
set_status-Sound peer id status detail now s h = record {
  progress = set_status-Progress peer id status detail now s h;
  keyed = set_status-Keyed peer id status detail now s;
}

pub accept-Sound :
    (peer : String) (f : Frame) (now : ℕ) (s : Store) → Sound s (accept peer f now s).1
accept-Sound peer f now s = record {
  progress = accept-Progress peer f now s;
  keyed = accept-Keyed peer f now s;
}

pub read-Sound : (ack : Bool) (now : ℕ) (s : Store) → Sound s (read ack now s).1
read-Sound ack now s = record { progress = read-Progress ack now s; keyed = read-Keyed ack now s }

pub ack_one-Sound : (peer id : String) (now : ℕ) (s : Store) → Sound s (ack_one peer id now s)
ack_one-Sound peer id now s = record {
  progress = ack_one-Progress peer id now s;
  keyed = ack_one-Keyed peer id now s;
}

pub ack_peer-Sound : (peer : String) (now : ℕ) (s : Store) → Sound s (ack_peer peer now s)
ack_peer-Sound peer now s = record {
  progress = ack_peer-Progress peer now s;
  keyed = ack_peer-Keyed peer now s;
}

pub recover_rows-Sound : (now : ℕ) (s : Store) → Sound s (recover_rows now s)
recover_rows-Sound now s = record {
  progress = recover_rows-Progress now s;
  keyed = recover_rows-Keyed now s;
}
