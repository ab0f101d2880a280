-- ===== src/Sock/Frame/Chunks.antt =====
-- `ReadFrame` does not depend on the chunks that a line arrives in.
use mure.Base.{
  ℕ, ◌+◌, ◌==◌, ◌≤◌, ◌<◌, ◌≡◌, refl, sym, ap, ◌∙◌, Bool, true, false, List, [], ◌∷◌, ◌++◌,
  append_assoc, Bytes, ltb, if◌then◌else◌, if_ind, length, length-append, arith,
}
use mure.Sock.Frame.{Outcome, frame, frame_too_large, drain, read_chunks, read_frame}
use mure.Sock.{max_frame_size}

-- What `ReadLine` returns for one line: chunks that are prefixes, and the last.
abbrev pub arriving : List Bytes → Bytes → List (Bytes × Bool) → List (Bytes × Bool)
arriving [] last chunks = (last, false) ∷ chunks
arriving (p ∷ prefixes) last chunks = (p, true) ∷ arriving prefixes last chunks

abbrev pub joined : List Bytes → Bytes → Bytes
joined [] last = last
joined (p ∷ prefixes) last = p ++ joined prefixes last

abbrev pub judged : ℕ → Bytes → Outcome
judged max b = if ltb max (length b) then frame_too_large else frame b

drain-arriving :
    (prefixes : List Bytes) (last : Bytes) (chunks : List (Bytes × Bool))
    → drain true (arriving prefixes last chunks) ≡ (frame_too_large, chunks)
unfolding drain
drain-arriving [] last chunks = refl
drain-arriving (p ∷ prefixes) last chunks = drain-arriving prefixes last chunks

judged-over : (max : ℕ) (b : Bytes) → max < length b → judged max b ≡ frame_too_large
judged-over max b h = ground arith

length-joined : (buf p : Bytes) (b : Bytes) → length buf + length p ≤ length (buf ++ (p ++ b))
length-joined buf p b = omega (arith, length-append buf (p ++ b), length-append p b)

read_chunks-arriving :
    (max : ℕ) (prefixes : List Bytes) (buf last : Bytes) (chunks : List (Bytes × Bool))
    → read_chunks max buf (arriving prefixes last chunks)
      ≡ (judged max (buf ++ joined prefixes last), chunks)
unfolding read_chunks drain
read_chunks-arriving max [] buf last chunks = rw length-append (ground arith)
read_chunks-arriving max (p ∷ prefixes) buf last chunks =
    let whole = buf ++ (p ++ joined prefixes last) in
    if_ind (λ r. r ≡ (judged max whole, chunks)) (ltb max (length buf + length p)) _ _
      (λ c.
        let long = length-joined buf p (joined prefixes last) in
        drain-arriving prefixes last chunks
        ∙ ap (λ o. (o, chunks)) (sym (judged-over max whole (ground arith))))
      (λ _.
        read_chunks-arriving max prefixes (buf ++ p) last chunks
        ∙ ap (λ b. (judged max b, chunks)) (append_assoc buf p (joined prefixes last)))

-- A line is read as what its chunks join to, where that is no longer than the limit, and is refused
-- otherwise; either way the next read begins at the next line.
pub read_frame-arriving :
    (max : ℕ) (prefixes : List Bytes) (last : Bytes) (chunks : List (Bytes × Bool))
    → read_frame max (arriving prefixes last chunks)
      ≡ (judged (if max == 0 then max_frame_size else max) (joined prefixes last), chunks)
unfolding read_frame
read_frame-arriving max prefixes last chunks =
    read_chunks-arriving (if max == 0 then max_frame_size else max) prefixes [] last chunks

-- A line that is longer than a frame may be.
pub read_frame-too_long :
    (prefixes : List Bytes) (last : Bytes) (chunks : List (Bytes × Bool))
    → max_frame_size < length (joined prefixes last)
    → read_frame max_frame_size (arriving prefixes last chunks) ≡ (frame_too_large, chunks)
read_frame-too_long prefixes last chunks long =
    read_frame-arriving max_frame_size prefixes last chunks ∙ ground arith
