-- ===== src/Daemon/Roster/Buffer.antt =====
-- A subscriber's channel, `make(chan sock.AgentUpdate, subscriberBufSize)`, with what its reader
-- has taken from it. A send on a closed channel, or a second close, is a panic in Go.
use mure.Base.{
  ℕ, Bool, true, false, List, [], ◌∷◌, ◌++◌, ◌≡◌, refl, append_assoc, leb, if◌then◌else◌, length,
}
use mure.Sock.{AgentUpdate}

abbrev pub subscriber_buf_size : ℕ
subscriber_buf_size = 64

pub record Channel : Type 0 where
  pub queue : List AgentUpdate
  pub received : List AgentUpdate
  pub is_closed : Bool
  pub has_panicked : Bool

abbrev pub empty_channel : Channel
empty_channel = record { queue = []; received = []; is_closed = false; has_panicked = false }

unfoldable pub is_full : Channel → Bool
is_full ch = leb subscriber_buf_size (length ch.queue)

unfoldable pub send : AgentUpdate → Channel → Channel
send upd ch =
    if ch.is_closed
    then record ch { has_panicked = true }
    else record ch { queue = ch.queue ++ (upd ∷ []) }

unfoldable pub close : Channel → Channel
close ch =
    if ch.is_closed then record ch { has_panicked = true } else record ch { is_closed = true }

-- On what the queue holds.
unfoldable pub dequeue : Channel → List AgentUpdate → Channel
dequeue ch [] = ch
dequeue ch (upd ∷ rest) = record ch { queue = rest; received = ch.received ++ (upd ∷ []) }

-- The reader takes the oldest update, if there is one.
unfoldable pub receive : Channel → Channel
unfolding dequeue
receive ch = dequeue ch ch.queue

-- All that was ever sent, oldest first.
abbrev pub history : Channel → List AgentUpdate
history ch = ch.received ++ ch.queue

history-dequeue :
    (ch : Channel) (q : List AgentUpdate) → ch.queue ≡ q → history (dequeue ch q) ≡ history ch
unfolding dequeue
history-dequeue ch [] e = refl
history-dequeue ch (upd ∷ rest) e = rw (e, append_assoc ch.received (upd ∷ []) rest)

pub history-receive : (ch : Channel) → history (receive ch) ≡ history ch
unfolding receive
history-receive ch = history-dequeue ch ch.queue refl
