-- ===== src/Examples/Warnings.antt =====
-- A message that waits in a bridge that is not reachable.
use peer_chat.Base.{◌≡◌, refl, String, false, Option, none, some, [], ◌∷◌, All, length}
use peer_chat.Base.Int.{pos}
use peer_chat.Base.Json.{int}
use peer_chat.Store.{Store, Frame, accept}
use peer_chat.Notices.{Notice, Pass, notify_all}
use peer_chat.Notices.Once.{Keeps, Apart, notify_twice}
use peer_chat.Examples.{empty}

abbrev blocked : Store
blocked = (accept "p" (Frame.message "m" "hello" "prompting" []) 1 empty).1

abbrev paused : Pass
paused = record {
  current = record {
    name = some "n";
    runtime_state = "running";
    delivery_state = "paused_budget";
    reachable = false;
    remaining = int (pos 0);
    warning = none;
  };
  second = 1;
  now = 9;
}

abbrev write : Notice → Option String
write n = none

abbrev after : Store
after = (notify_all write paused ("p" ∷ []) blocked).1

notify_twice_example :
    All
      (λ n. All (Apart n) (notify_all write paused ("p" ∷ []) after).0)
      (notify_all write paused ("p" ∷ []) blocked).0
unfolding Keeps
notify_twice_example =
    notify_twice write write paused paused ("p" ∷ []) ("p" ∷ []) blocked after (λ peer id h. h)

warned_first : length (notify_all write paused ("p" ∷ []) blocked).0 ≡ 1
unfolding notify_all peer_chat.Store.by_created accept
warned_first = refl

warned_again : length (notify_all write paused ("p" ∷ []) after).0 ≡ 0
unfolding notify_all peer_chat.Store.by_created accept
warned_again = refl
