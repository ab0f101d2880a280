-- ===== src/Sidebar/Rows.antt =====
-- internal/sidebar/model.go: `glyph`, and the age of the last turn in an agent's row and details.
-- `now` is in nanoseconds since 1970, the unit of Go's durations.
pub mod Age
use mure.Base.{
  ℕ, ◌+◌, ◌-◌, ◌*◌, ◌/◌, ◌%◌, Bool, true, false, ◌&&◌, Option, none, some, Bytes, equal, ltb,
  if◌then◌else◌,
}
use mure.Base.Int.{ℤ, pos, negsuc}
use mure.Sock.{status_idle, status_working, status_blocked}

pub data Glyph : Type 0 where
  working blocked just_finished idle unknown : Glyph

abbrev pub second : ℕ
second = 1000000000

-- `lastEndedAt > 0`, and less than five minutes ago.
unfoldable pub is_recent : ℤ → ℕ → Bool
is_recent (pos t) now = ltb 0 t && ltb now (t * second + 300 * second)
is_recent (negsuc t) now = false

unfoldable pub glyph : Bytes → ℤ → ℕ → Glyph
unfolding is_recent
glyph status last_ended_at now =
    if equal status status_working
    then working
    else if equal status status_blocked
    then blocked
    else if equal status status_idle
    then (if is_recent last_ended_at now then just_finished else idle)
    else unknown

-- The minutes and seconds that a row shows; nothing for a dash. A negative age is set to 0.
unfoldable pub elapsed : ℤ → ℕ → Option (ℕ × ℕ)
elapsed (negsuc t) now = none
elapsed (pos t) now =
    let age = now - t * second in
    if ltb 0 t then some (age / (60 * second), age / second % 60) else none
