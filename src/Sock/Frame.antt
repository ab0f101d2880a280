-- ===== src/Sock/Frame.antt =====
-- internal/sock/frame.go. `bufio.Reader` is its results: what each `ReadLine` returns, a chunk and
-- `isPrefix`, until the list ends, where it fails.
pub mod Chunks
pub mod Stream
use mure.Base.{
  ℕ, ◌+◌, ◌==◌, Bool, true, false, List, [], ◌∷◌, ◌++◌, Option, none, some, Bytes, ltb,
  if◌then◌else◌, length,
}
use mure.Base.Int.{pos, equal_ℤ}
use mure.Sock.Codec.{Codec, Envelope}
use mure.Sock.{protocol_version, max_frame_size}

-- What `WriteFrame` hands to its one `Write`, from what `json.Marshal` returns.
unfoldable pub write_frame : Option Bytes → Option Bytes
write_frame none = none
write_frame (some b) = some (b ++ (b'\n' ∷ []))

-- A line, `ErrFrameTooLarge`, or the reader's own error.
pub data Outcome : Type 0 where
  frame : Bytes → Outcome
  frame_too_large read_error : Outcome

-- The inner loop, for a line that is too long.
unfoldable pub drain : Bool → List (Bytes × Bool) → Outcome × List (Bytes × Bool)
drain false chunks = (frame_too_large, chunks)
drain true [] = (read_error, [])
drain true ((chunk, is_prefix) ∷ chunks) = drain is_prefix chunks

-- The outer loop, with what the reader still has.
unfoldable pub read_chunks : ℕ → Bytes → List (Bytes × Bool) → Outcome × List (Bytes × Bool)
unfolding drain
read_chunks max buf [] = (read_error, [])
read_chunks max buf ((chunk, is_prefix) ∷ chunks) =
    let later = read_chunks max (buf ++ chunk) chunks in
    if ltb max (length buf + length chunk)
    then drain is_prefix chunks
    else if is_prefix
    then later
    else (frame (buf ++ chunk), chunks)

unfoldable pub read_frame : ℕ → List (Bytes × Bool) → Outcome × List (Bytes × Bool)
unfolding read_chunks
read_frame max chunks = read_chunks (if max == 0 then max_frame_size else max) [] chunks

-- `DecodeEnvelope`: the event, or nothing for either of its errors, which no caller tells apart.
unfoldable pub decoded_event : Option Envelope → Option Bytes
decoded_event none = none
decoded_event (some e) = if equal_ℤ e.v (pos protocol_version) then some e.event else none

unfoldable pub decode_envelope : Codec → Bytes → Option Bytes
unfolding decoded_event
decode_envelope codec b = decoded_event (codec.envelope b)
