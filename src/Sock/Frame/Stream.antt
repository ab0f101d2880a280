-- ===== src/Sock/Frame/Stream.antt =====
-- From the bytes on a connection to what `ReadFrame` returns.
use mure.Base.{
  ℕ, ◌-◌, ◌≡◌, refl, sym, ap, ◌∙◌, Bool, true, false, List, [], ◌∷◌, ◌++◌, append-nil, append_assoc,
  some, Bytes, is_empty, ◌==◌, leb, if◌then◌else◌, Bool-cases, inl, inr,
}
use mathlib.Core.Option.{some_inj}
use mure.Base.Strings.{Lacks}
use mure.Sock.{max_frame_size}
use mure.Sock.Frame.{read_frame, write_frame}
use mure.Sock.Frame.Chunks.{arriving, joined, judged, read_frame-arriving}

-- What `bufio.Reader.ReadLine` returns, one call after the other, of a stream with no carriage
-- return, for a buffer of `n` bytes, `left` of which are free behind the bytes of `cur`. At the end
-- of the stream what is left of a line is a line.
unfoldable pub read_lines : ℕ → ℕ → Bytes → Bytes → List (Bytes × Bool)
read_lines n left cur [] = if is_empty cur then [] else (cur, false) ∷ []
read_lines n left cur (c ∷ s) =
    let next = read_lines n n [] s in
    let more = read_lines n (left - 1) (cur ++ (c ∷ [])) s in
    if c == b'\n'
    then (cur, false) ∷ next
    else if leb left 1
    then (cur ++ (c ∷ []), true) ∷ next
    else more

-- The chunks of a line, for a buffer with `left` bytes free.
pub record Chunked (n left : ℕ) (cur b s : Bytes) : Type 0 where
  pub prefixes : List Bytes
  pub last : Bytes
  pub splits :
      read_lines n left cur (b ++ (b'\n' ∷ s)) ≡ arriving prefixes last (read_lines n n [] s)
  pub joins : joined prefixes last ≡ cur ++ b

read_lines-Chunked : (n left : ℕ) (cur b s : Bytes) → Lacks b'\n' b → Chunked n left cur b s
unfolding read_lines
read_lines-Chunked n left cur [] s h = record {
  prefixes = [];
  last = cur;
  splits = refl;
  joins = sym (append-nil cur);
}
read_lines-Chunked n left cur (c ∷ b) s h = elim (Bool-cases (leb left 1)) [
  | inl full ↦
      let w = read_lines-Chunked n n [] b s h.1 in
      record {
        prefixes = (cur ++ (c ∷ [])) ∷ w.prefixes;
        last = w.last;
        splits = rw (h.0, full) (ap (◌∷◌ (cur ++ (c ∷ []), true)) w.splits);
        joins = ap (λ x. (cur ++ (c ∷ [])) ++ x) w.joins ∙ append_assoc cur (c ∷ []) b;
      }
  | inr room ↦
      let w = read_lines-Chunked n (left - 1) (cur ++ (c ∷ [])) b s h.1 in
      record {
        prefixes = w.prefixes;
        last = w.last;
        splits = rw (h.0, room) w.splits;
        joins = w.joins ∙ append_assoc cur (c ∷ []) b;
      }
]

-- A frame whose JSON has no line end is read, from a buffer of any size, as `WriteFrame` was given it
-- if it is no longer than the limit, and as too large otherwise; in both cases the next read begins
-- behind it.
pub read_frame-write_frame :
    (max n : ℕ) (b w s : Bytes)
    → write_frame (some b) ≡ some w
    → Lacks b'\n' b
    → read_frame max (read_lines n n [] (w ++ s))
      ≡ (judged (if max == 0 then max_frame_size else max) b, read_lines n n [] s)
unfolding write_frame
read_frame-write_frame max n b w s e h =
    let limit : ℕ = if max == 0 then max_frame_size else max in
    let c = read_lines-Chunked n n [] b s h in
    let written : w ++ s ≡ b ++ (b'\n' ∷ s) =
      ap (λ x. x ++ s) (some_inj.0 (sym e)) ∙ append_assoc b (b'\n' ∷ []) s in
    ap (λ x. read_frame max (read_lines n n [] x)) written
    ∙ ap (read_frame max) c.splits
    ∙ read_frame-arriving max c.prefixes c.last (read_lines n n [] s)
    ∙ ap (λ x. (judged limit x, read_lines n n [] s)) c.joins
