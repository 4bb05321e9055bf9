-- ===== src/Listener/Walk.antt =====
-- What an event of a connected client does to the list of clients of `serve` of src/peer_chat.py: some are
-- dropped, or a buffer changes. A property that both keep is kept by the event.
use mathlib.Core.Path.{subst}
use peer_chat.Base.{
  ℕ, String, ◌≡◌, refl, sym, ◌∙◌, Bool, not, Option, none, some, List, [], ◌∷◌, nat_eq, select, map,
}
use peer_chat.Store.{Frame}
use peer_chat.Frames.{feed}
use peer_chat.Listener.{Setting, Client, Listener}
use peer_chat.Listener.Serve.{
  with_buffer, keep_rest, take_frame, frame_of, take_lines, take_fed, receive, receive_at,
}

take_frame-clients :
    (key : String) (now : ℕ) (o : Option Frame) (l : Listener)
    → (take_frame key now o l).clients ≡ l.clients
take_frame-clients key now none l = refl
take_frame-clients key now (some f) l = refl

take_lines-clients :
    (w : Setting) (c : Client) (now : ℕ) (lines : List (List ℕ)) (l : Listener)
    → (take_lines w c now lines l).clients ≡ l.clients
unfolding take_lines
take_lines-clients w c now [] l = refl
take_lines-clients w c now (line ∷ lines) l =
    take_lines-clients w c now lines (take_frame c.key now (frame_of w c line) l)
    ∙ take_frame-clients c.key now (frame_of w c line) l

-- The two changes of a list of clients keep a property.
pub record IsKept (P : List Client → Type 0) : Type 0 where
  pub dropped : (p : Client → Bool) (cs : List Client) → P cs → P (select p cs)
  pub buffered :
      (socket : ℕ) (rest : List ℕ) (cs : List Client) → P cs → P (map (with_buffer socket rest) cs)

module _ (P : List Client → Type 0) (kept : IsKept P) (w : Setting) where
  receive-kept :
      (c : Client) (bytes : Option (List ℕ)) (now : ℕ) (l : Listener)
      → P l.clients
      → P (receive w c bytes now l).clients
  unfolding receive
  receive-kept c none now l h = kept.dropped (λ d. not (nat_eq d.socket c.socket)) l.clients h
  receive-kept c (some []) now l h = kept.dropped (λ d. not (nat_eq d.socket c.socket)) l.clients h
  receive-kept c (some (b ∷ bs)) now l h = fed (feed c.buffer (b ∷ bs))
    where
      fed : (r : Option (List (List ℕ) × List ℕ)) → P (take_fed w c now r l).clients
      fed none = kept.dropped (λ d. not (nat_eq d.socket c.socket)) l.clients h
      fed (some (lines, rest)) =
          subst P (sym (take_lines-clients w c now lines (keep_rest c.socket rest l)))
            (kept.buffered c.socket rest l.clients h)

  pub receive_at-kept :
      (o : Option Client) (bytes : Option (List ℕ)) (now : ℕ) (l : Listener)
      → P l.clients
      → P (receive_at w o bytes now l).clients
  receive_at-kept none bytes now l h = h
  receive_at-kept (some c) bytes now l h = receive-kept c bytes now l h
