-- ===== src/Harnesses/Markers.antt =====
-- internal/harnesses/markers.go: the marked block of a harness in a file of the user.
-- Of package regexp: what the expression of `blockRegex` matches, and `ReplaceAllString` with the
-- `$` of its template. The byte in front of a position says whether `^` matches there.
pub mod Block
pub mod Template
pub mod RoundTrip
use mure.Base.{
  ℕ, zero, suc, ◌+◌, ◌-◌, Bool, true, false, not, ◌&&◌, ◌||◌, List, [], ◌∷◌, ◌++◌, Option, none,
  some, Bytes, codes, is_empty, ◌==◌, leb, if◌then◌else◌, length, take, drop, equal,
}
use mure.Base.Strings.{has_prefix}

abbrev pub newline : Bytes
newline = b'\n' ∷ []

abbrev pub marker_begin : Bytes → Bytes
marker_begin h = codes "# >>> mure:" ++ (h ++ codes " >>>")

abbrev pub marker_end : Bytes → Bytes
marker_end h = codes "# <<< mure:" ++ (h ++ codes " <<<")

-- `strings.TrimRight` of newlines.
unfoldable pub trim_newlines : Bytes → Bytes
trim_newlines [] = []
trim_newlines (c ∷ s) =
    let rest = trim_newlines s in if is_empty rest && c == b'\n' then [] else c ∷ rest

-- `HasSuffix` of a newline.
unfoldable pub ends_in_newline : Bytes → Bool
ends_in_newline [] = false
ends_in_newline (c ∷ s) = let rest = ends_in_newline s in if is_empty s then c == b'\n' else rest

unfoldable pub wrap_block : Bytes → Bytes → Bytes
unfolding trim_newlines
wrap_block h body =
    marker_begin h ++ (newline ++ (trim_newlines body ++ (newline ++ (marker_end h ++ newline))))

abbrev pub plus : ℕ → Option ℕ → Option ℕ
plus n none = none
plus n (some m) = some (n + m)

abbrev pub newline_length : Bytes → ℕ
newline_length [] = 0
newline_length (c ∷ s) = if c == b'\n' then 1 else 0

-- The bytes up to the end of the first end marker, and a newline behind it.
unfoldable pub end_length : Bytes → Bool → Bytes → Option ℕ
end_length marker bol [] = none
end_length marker bol (c ∷ s) =
    let later = end_length marker (c == b'\n') s in
    if bol && has_prefix marker (c ∷ s)
    then some (length marker + newline_length (drop (length marker) (c ∷ s)))
    else plus 1 later

-- The length of a match that begins here.
unfoldable pub match_length : Bytes → Bool → Bytes → Option ℕ
unfolding end_length
match_length h bol s =
    let opening = marker_begin h ++ newline in
    if bol && has_prefix opening s
    then plus (length opening) (end_length (marker_end h) true (drop (length opening) s))
    else none

abbrev pub is_match : Option ℕ → Bool
is_match none = false
is_match (some n) = true

unfoldable pub matches : Bytes → Bool → Bytes → Bool
unfolding match_length
matches h bol [] = false
matches h bol (c ∷ s) = is_match (match_length h bol (c ∷ s)) || matches h (c == b'\n') s

-- The bytes of a name in a template.
abbrev pub is_word : ℕ → Bool
is_word c =
    leb b'0' c && leb c b'9' || leb b'a' c && leb c b'z' || leb b'A' c && leb c b'Z' || c == b'_'

unfoldable pub word_length : Bytes → ℕ
word_length [] = 0
word_length (c ∷ s) = let rest = word_length s in if is_word c then rest + 1 else 0

abbrev pub starts_with : ℕ → Bytes → Bool
starts_with b [] = false
starts_with b (c ∷ s) = c == b

-- What a name stands for in a match with no groups: `0` is the match, the rest is empty.
abbrev pub group : Bytes → Bytes → Bytes
group m name = if equal name (codes "0") then m else []

-- What stands for a `$` in front of `s`, and how many bytes of `s` it takes.
unfoldable pub reference : Bytes → Bytes → Bytes × ℕ
unfolding word_length
reference m s =
    let braced = word_length (drop 1 s) in
    if starts_with b'$' s
    then (codes "$", 1)
    else if starts_with b'{' s
    then (if leb 1 braced && starts_with b'}' (drop (braced + 1) s)
        then (group m (take braced (drop 1 s)), braced + 2)
        else (codes "$", 0))
    else if leb 1 (word_length s)
    then (group m (take (word_length s) s), word_length s)
    else (codes "$", 0)

abbrev pub template_byte : Bytes → ℕ → Bytes → Bytes × ℕ
template_byte m c s = if c == b'$' then reference m s else (c ∷ [], 0)

-- The template with the match `m`, from behind the next `skip` bytes on.
unfoldable pub expand : Bytes → ℕ → Bytes → Bytes
unfolding reference
expand m skip [] = []
expand m (suc skip) (c ∷ s) = expand m skip s
expand m zero (c ∷ s) = let (out, skip) = template_byte m c s in out ++ expand m skip s

-- One byte of the text: it stays where no match begins.
abbrev pub replaced_byte : Bytes → Option ℕ → ℕ → Bytes → Bytes × ℕ
replaced_byte template none c s = (c ∷ [], 0)
replaced_byte template (some n) c s = (expand (take n (c ∷ s)) 0 template, n - 1)

-- `ReplaceAllString`, from behind the next `skip` bytes on.
unfoldable pub replace_all : Bytes → Bytes → ℕ → Bool → Bytes → Bytes
unfolding match_length expand
replace_all h template skip bol [] = []
replace_all h template (suc skip) bol (c ∷ s) = replace_all h template skip (c == b'\n') s
replace_all h template zero bol (c ∷ s) =
    let (out, skip) = replaced_byte template (match_length h bol (c ∷ s)) c s in
    out ++ replace_all h template skip (c == b'\n') s

unfoldable pub replace_or_append_block : Bytes → Bytes → Bytes → Bytes
unfolding wrap_block matches replace_all ends_in_newline
replace_or_append_block existing h body =
    let block = wrap_block h body in
    if matches h true existing
    then replace_all h block 0 true existing
    else if is_empty existing
    then block
    else if ends_in_newline existing
    then existing ++ block
    else (existing ++ newline) ++ block

unfoldable pub strip_block : Bytes → Bytes → Bytes
unfolding replace_all
strip_block existing h = replace_all h [] 0 true existing
