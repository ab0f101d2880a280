-- ===== src/Daemon/Log.antt =====
-- internal/daemon/log.go: the rotating log, over the two files that it keeps.
pub mod Rotation
use mure.Base.{
  ℕ, ◌+◌, Bool, true, false, ◌&&◌, ◌==◌, List, [], ◌∷◌, ◌++◌, Option, none, some, Bytes, ltb,
  if◌then◌else◌, length, take,
}

-- `current` is what `daemon.log` holds and `backup` what `daemon.log.1` does.
pub record Logger : Type 0 where
  pub current : Bytes
  pub backup : Option Bytes
  pub size : ℕ
  pub max : ℕ
  pub is_open : Bool

pub data Rename : Type 0 where
  renamed not_exist rename_fails : Rename

-- How the calls of the operating system come out during one write. A closed file takes no bytes,
-- and closing it once more fails.
pub record Outcome : Type 0 where
  pub closes : Bool
  pub rename : Rename
  pub opens : Bool
  pub written : ℕ

-- `NewLoggerWithLimit`, where the file holds `old`.
abbrev pub new_logger_with_limit : Bytes → Option Bytes → ℕ → Logger
new_logger_with_limit old backup max = record {
  current = old;
  backup = backup;
  size = length old;
  max = max;
  is_open = true;
}

-- `OpenFile` with `O_TRUNC`, the last step of a rotation.
unfoldable pub reopen : Outcome → Logger → Bool × Logger
reopen os l =
    if os.opens then (true, record l { current = []; size = 0; is_open = true }) else (false, l)

-- The step behind `Remove`, with the file closed.
unfoldable pub move : Rename → Outcome → Logger → Bool × Logger
unfolding reopen
move renamed os l = reopen os (record l { current = []; backup = some l.current })
move not_exist os l = reopen os (record l { backup = none })
move rename_fails os l = (false, record l { backup = none })

unfoldable pub rotate_locked : Outcome → Logger → Bool × Logger
unfolding move
rotate_locked os l =
    if l.is_open && os.closes
    then move os.rename os (record l { is_open = false })
    else (false, record l { is_open = false })

-- `f.Write`: the bytes that it takes.
abbrev pub taken : Outcome → Logger → Bytes → Bytes
taken os l p = if l.is_open then take os.written p else []

unfoldable pub append : Outcome → Bytes → Logger → Bool × Logger
append os p l =
    let q = taken os l p in
    (length q == length p, record l { current = l.current ++ q; size = l.size + length q })

abbrev pub append_if : Outcome → Bytes → Bool × Logger → Bool × Logger
append_if os p (true, l) = append os p l
append_if os p (false, l) = (false, l)

-- `Write`: whether it returns no error, and the state behind it.
unfoldable pub write : Outcome → Bytes → Logger → Bool × Logger
unfolding rotate_locked append
write os p l =
    append_if os p (if ltb l.max (l.size + length p) then rotate_locked os l else (true, l))

-- `Close`: whether it returns no error.
unfoldable pub close_file : Outcome → Logger → Bool × Logger
close_file os l = (l.is_open && os.closes, record l { is_open = false })
