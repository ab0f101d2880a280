-- ===== src/Cmd/Doctor/Version.antt =====
-- The version of tmux that `mure doctor` reads.
use mure.Base.{
  ℕ, ◌≡◌, refl, ap, ◌∙◌, true, false, [], ◌∷◌, ◌++◌, some, Bytes, is_empty, ◌==◌, ltb, leb,
  if◌then◌else◌, All,
}
use mure.Cmd.Doctor.{is_digit, span_digits, find_version, atoi, at_least, tmux_at_least}

abbrev pub IsDigits : Bytes → Type 0
IsDigits s = All (λ c. is_digit c ≡ true) s

abbrev pub LacksDigits : Bytes → Type 0
LacksDigits s = All (λ c. is_digit c ≡ false) s

-- The text is empty or begins with no digit.
abbrev pub IsBreak : Bytes → Type 0
IsBreak [] = Unit {0}
IsBreak (c ∷ s) = is_digit c ≡ false

span_digits-append : (d s : Bytes) → IsDigits d → IsBreak s → span_digits (d ++ s) ≡ (d, s)
unfolding span_digits
span_digits-append [] [] h b = refl
span_digits-append [] (c ∷ s) h b = rw b
span_digits-append (c ∷ d) s h b = rw (h.0, span_digits-append d s h.1 b)

-- A text that begins with no digit holds no match there.
find_version-skip :
    (prefix s : Bytes) → LacksDigits prefix → find_version (prefix ++ s) ≡ find_version s
unfolding find_version
find_version-skip [] s h = refl
find_version-skip (c ∷ prefix) s h = rw h.0 (find_version-skip prefix s h.1)

find_version-append :
    (d : ℕ) (major minor rest : Bytes)
    → IsDigits (d ∷ major)
    → IsDigits minor
    → is_empty minor ≡ false
    → IsBreak rest
    → find_version ((d ∷ major) ++ (b'.' ∷ (minor ++ rest))) ≡ some (d ∷ major, minor)
unfolding find_version
find_version-append d major minor rest h k n b = rw (
  span_digits-append (d ∷ major) (b'.' ∷ (minor ++ rest)) h refl,
  span_digits-append minor rest k b,
  n,
)

-- Where the text holds a version, digits, a dot and digits, with no digit in front of it, the test
-- compares that version with the one wanted, by the first number and then by the second, whatever
-- follows: a letter behind the version is ignored, and a number beyond the largest `int` counts as
-- that.
pub tmux_at_least-append :
    (prefix : Bytes) (d : ℕ) (major minor rest : Bytes) (m n : ℕ)
    → LacksDigits prefix
    → IsDigits (d ∷ major)
    → IsDigits minor
    → is_empty minor ≡ false
    → IsBreak rest
    → tmux_at_least (prefix ++ ((d ∷ major) ++ (b'.' ∷ (minor ++ rest)))) m n
      ≡ (if atoi (d ∷ major) == m then leb n (atoi minor) else ltb m (atoi (d ∷ major)))
unfolding tmux_at_least
tmux_at_least-append prefix d major minor rest m n p h k e b =
    ap (λ o. at_least o m n)
      (find_version-skip prefix _ p ∙ find_version-append d major minor rest h k e b)
