-- ===== src/Examples/Wire.antt =====
-- A message that is sent with its hops, and read by its peer.
use peer_chat.Base.{ℕ, ◌≡◌, refl, String, Bool, true, false, Option, none, some, List, [], ◌∷◌}
use peer_chat.Base.Json.{Value}
use peer_chat.Registry.{Permission}
use peer_chat.Store.{Frame}
use peer_chat.Frames.Decode.{decode_frame}
use peer_chat.Frames.Outbound.{Sending, outbound, frame_of, envelope, address, sent_hops}
use peer_chat.Frames.Trip.{decode_frame-outbound}
use peer_chat.Examples.{wake}

abbrev hop : String
hop = "0123456789abcdef01234567"

abbrev sending : Sending
sending = record {
  body = "hello\n";
  id = wake;
  hops = [];
  advisory = false;
  to_codex = true;
  socket = "/s";
  permission = some Permission.prompting;
  model = some "gpt 5";
  own_hop = hop;
}

abbrev write : Value → List ℕ
write v = 1 ∷ []

abbrev read : List ℕ → Option Value
read line = some (frame_of sending (envelope sending "prompting"))

decode_frame-outbound_example :
    decode_frame (λ c. false) read (1 ∷ []) (address sending)
    ≡ some (Frame.message wake "hello" "prompting" (hop ∷ []))
unfolding peer_chat.Frames.Outbound.mode_of outbound peer_chat.Base.Text.is_uuid
    peer_chat.Frames.Decode.is_hop
decode_frame-outbound_example =
    decode_frame-outbound (λ c. false) read write sending "prompting" (1 ∷ []) refl refl refl refl
      refl refl refl refl
