-- ===== src/Cmd/Doctor.antt =====
-- cmd/mure/doctor.go: the checks, and the version of tmux. A line of the report is its first word
-- and what it is about.
pub mod Version
use mure.Base.{
  ℕ, ◌+◌, ◌-◌, ◌*◌, Bool, true, false, not, ◌&&◌, ◌||◌, List, [], ◌∷◌, ◌++◌, Option, none, some,
  Bytes, codes, is_empty, ◌==◌, ltb, leb, if◌then◌else◌,
}
use mure.Cmd.Up.{System, Process, tmux_cmd, resolve_socket}

abbrev pub is_digit : ℕ → Bool
is_digit c = leb b'0' c && leb c b'9'

-- The digits in front of a text, and the rest.
unfoldable pub span_digits : Bytes → Bytes × Bytes
span_digits [] = ([], [])
span_digits (c ∷ s) = if is_digit c then (c ∷ (span_digits s).0, (span_digits s).1) else ([], c ∷ s)

abbrev pub minor_of : Bytes → Bytes × Bytes → Option (Bytes × Bytes)
minor_of major (minor, rest) = if is_empty minor then none else some (major, minor)

abbrev pub behind_major : Bytes × Bytes → Option (Bytes × Bytes)
behind_major (major, []) = none
behind_major (major, c ∷ s) =
    if not (is_empty major) && c == b'.' then minor_of major (span_digits s) else none

abbrev pub or_later : Option (Bytes × Bytes) → Option (Bytes × Bytes) → Option (Bytes × Bytes)
or_later none later = later
or_later (some found) later = some found

-- The groups of the first match of `(\d+)\.(\d+)`.
unfoldable pub find_version : Bytes → Option (Bytes × Bytes)
unfolding span_digits
find_version [] = none
find_version (c ∷ s) = or_later (behind_major (span_digits (c ∷ s))) (find_version s)

abbrev pub max_int : ℕ
max_int = 9223372036854775807

unfoldable pub decimal_value : ℕ → Bytes → ℕ
decimal_value acc [] = acc
decimal_value acc (c ∷ s) = decimal_value (acc * 10 + (c - b'0')) s

-- `strconv.Atoi` of digits, whose error the code drops: the value, or the largest `int`.
unfoldable pub atoi : Bytes → ℕ
unfolding decimal_value
atoi s = if leb (decimal_value 0 s) max_int then decimal_value 0 s else max_int

abbrev pub at_least : Option (Bytes × Bytes) → ℕ → ℕ → Bool
at_least none major minor = false
at_least (some (a, b)) major minor =
    if atoi a == major then leb minor (atoi b) else ltb major (atoi a)

unfoldable pub tmux_at_least : Bytes → ℕ → ℕ → Bool
unfolding find_version atoi
tmux_at_least v major minor = at_least (find_version v) major minor

pub data Level : Type 0 where
  ok warns fails : Level

pub data Subject : Type 0 where
  tmux plugin socket peer_auth : Subject

-- Whether tmux is in the path, whether `MkdirAll` makes the directory of a socket, and whether the
-- operating system is one with peer credentials.
pub record Probe : Type 0 where
  pub finds_tmux : Bool
  pub makes_dir_of : Bytes → Bool
  pub is_supported : Bool

abbrev pub level_if : Bool → Level
level_if b = if b then ok else fails

abbrev pub tmux_level : Bool → Option Bytes → Level
tmux_level found none = fails
tmux_level found (some out) = level_if (found && tmux_at_least out 3 2)

abbrev pub plugin_level : Option Bytes → Level
plugin_level none = warns
plugin_level (some v) = if is_empty v then warns else ok

abbrev pub socket_level : Probe → Bytes → Level
socket_level probe path = if is_empty path then warns else level_if (probe.makes_dir_of path)

unfoldable pub report : System → Process → Probe → List (Subject × Level)
report sys p probe =
    (tmux, tmux_level probe.finds_tmux (tmux_cmd sys p (codes "-V" ∷ [])))
    ∷ (
      plugin,
      plugin_level
          (tmux_cmd sys p (codes "show-option" ∷ codes "-gv" ∷ codes "@mure-plugin-version" ∷ [])),
    )
    ∷ (socket, socket_level probe (resolve_socket sys p))
    ∷ (peer_auth, level_if probe.is_supported)
    ∷ []

-- The variable `ok` after the checks.
abbrev pub is_failing : Level → Bool
is_failing fails = true
is_failing _ = false

unfoldable pub all_pass : List (Subject × Level) → Bool
all_pass [] = true
all_pass ((s, l) ∷ ls) = not (is_failing l) && all_pass ls

-- The exit code and the report.
unfoldable pub cmd_doctor : System → Process → Probe → ℕ × List (Subject × Level)
unfolding report all_pass
cmd_doctor sys p probe = (if all_pass (report sys p probe) then 0 else 1, report sys p probe)
