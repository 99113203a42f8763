-- ===== src/Tests/Messages.antt =====
-- Incoming messages.
use the_game_server.Base.{◌+◌, ◌≤◌, ◌≡◌, false, [], ◌∷◌, arith, length, true}
use the_game_server.Wire.{Buffer}
use the_game_server.Dispatch.{handle_messages}
use the_game_server.Dispatch.Ending.{handle_messages_ends}

-- A ping, a greeting, a move and a watch that is cut short.
abbrev incoming : Buffer
incoming = 1 ∷ 3 ∷ 0 ∷ 1 ∷ 97 ∷ 5 ∷ 0 ∷ 3 ∷ 255 ∷ 254 ∷ 10 ∷ 0 ∷ []

handle_messages_ends_example :
    let h = handle_messages (λ left. true) 12 false incoming in
    (h ≡ handle_messages (λ left. true) 20 false incoming)
    × (length h.commands + length h.left ≤ length incoming)
handle_messages_ends_example =
    handle_messages_ends (λ left. true) 12 20 false incoming (omega arith) (omega arith)
