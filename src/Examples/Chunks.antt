-- ===== src/Examples/Chunks.antt =====
-- A line that comes in two pieces.
use peer_chat.Base.{◌≡◌, refl, some, [], ◌∷◌}
use peer_chat.Frames.{feed, feed-append}

feed-append_example :
    feed [] (104 ∷ 10 ∷ 105 ∷ 10 ∷ 10 ∷ []) ≡ some ((104 ∷ []) ∷ (105 ∷ []) ∷ [], [])
unfolding feed peer_chat.Frames.cut
feed-append_example =
    feed-append [] (104 ∷ 10 ∷ 105 ∷ []) (10 ∷ 10 ∷ []) ((104 ∷ []) ∷ []) ((105 ∷ []) ∷ [])
      (105 ∷ []) [] refl refl
