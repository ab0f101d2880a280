-- ===== src/Tests/Crowded.antt =====
-- A registry whose results are together longer than a frame may be.
use mure.Base.{ℕ, zero, suc, ◌≡◌, [], ◌∷◌, Bytes, codes, length, arith}
use mure.Base.Int.{pos}
use mure.Daemon.Roster.{RosterCore, new_agent, AgentState, empty_core}
use mure.Sidebar.Layout.{replicate}

pub length-replicate : (n c : ℕ) → length (replicate n c) ≡ n
length-replicate zero c = omega arith
length-replicate (suc n) c = omega (arith, length-replicate n c)

-- Two results of 40000 bytes each; the line that arrives is the two texts.
unfoldable pub half : Bytes
half = replicate 40000 b'y'

pub length-half : length half ≡ 40000
unfolding half
length-half = length-replicate 40000 b'y'

abbrev pub finished : Bytes → AgentState
finished id = record (new_agent id (codes "idle") (pos 1)) { result = half }

abbrev pub crowded : RosterCore
crowded = record empty_core {
  agents = (codes "a", finished (codes "a")) ∷ (codes "b", finished (codes "b")) ∷ [];
}
