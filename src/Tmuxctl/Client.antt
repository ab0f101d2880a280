-- ===== src/Tmuxctl/Client.antt =====
-- internal/tmuxctl/client.go: the reader and writer goroutines as steps over their shared state.
-- A request is named by a number; `answers` are the replies sent to the callers, oldest first.
pub mod Exchange
pub mod Order
pub mod Payload
pub mod Stranded
use mure.Base.{
  ℕ, Bool, true, false, not, ◌||◌, List, [], ◌∷◌, ◌++◌, Option, none, some, Bytes, codes, is_empty,
  leb, if◌then◌else◌, length, ◌==◌,
}
use mure.Base.Strings.{has_prefix}
use mure.Tmuxctl.Parse.{
  EventKind, unknown, begin, end, error, window_add, window_close, session_window_changed,
  layout_change, output, Event, parse_line,
}

pub data Reply : Type 0 where
  ok tmux_error : Bytes → Reply
  err_closed write_failed eof : Reply

abbrev pub events_cap : ℕ
events_cap = 64

-- `awaiting` is the request for whose `ack` the writer blocks. `sent` lists the requests that were
-- put on the pending queue.
pub record Client : Type 0 where
  pub pending : List ℕ
  pub awaiting : Option ℕ
  pub in_reply : Bool
  pub payload : Bytes
  pub events : List Event
  pub closed : Bool
  pub writer_gone : Bool
  pub reader_gone : Bool
  pub sent : List ℕ
  pub answers : List (ℕ × Reply)

abbrev pub new_client : Client
new_client = record {
  pending = [];
  awaiting = none;
  in_reply = false;
  payload = [];
  events = [];
  closed = false;
  writer_gone = false;
  reader_gone = false;
  sent = [];
  answers = [];
}

-- `close(p.ack)`: the writer goes on if it waits for that request.
abbrev pub acked : ℕ → Option ℕ → Option ℕ
acked k none = none
acked k (some j) = if j == k then none else some j

abbrev pub answer_pending : Reply → List ℕ → Client → Client
answer_pending r [] c = c
answer_pending r (k ∷ ks) c = record c {
  pending = ks;
  awaiting = acked k c.awaiting;
  answers = c.answers ++ ((k, r) ∷ []);
}

unfoldable pub resolve : Reply → Client → Client
resolve r c = answer_pending r c.pending c

abbrev pub fail_all : Reply → List ℕ → Client → Client
fail_all r [] c = record c { pending = [] }
fail_all r (k ∷ ks) c =
    fail_all r ks (record c { awaiting = acked k c.awaiting; answers = c.answers ++ ((k, r) ∷ []) })

unfoldable pub fail_pending : Reply → Client → Client
fail_pending r c = fail_all r c.pending c

-- Which lines count as control lines: inside a reply only its end does.
unfoldable pub control_event : Bool → Bytes → Option Event
control_event in_reply line =
    if not in_reply
    then parse_line line
    else if has_prefix (codes "%end ") line || has_prefix (codes "%error ") line
    then parse_line line
    else none

abbrev pub add_line : Bytes → Bytes → Bytes
add_line payload line = (if is_empty payload then [] else payload ++ (b'\n' ∷ [])) ++ line

unfoldable pub notify : Event → Client → Client
notify ev c =
    if leb events_cap (length c.events) then c else record c { events = c.events ++ (ev ∷ []) }

abbrev pub end_reply : Client → Client
end_reply c = record c { payload = []; in_reply = false }

unfoldable pub on_control : EventKind → Event → Client → Client
unfolding notify
on_control begin ev c = record c { in_reply = true; payload = [] }
on_control end ev c = end_reply (resolve (ok c.payload) c)
on_control error ev c = end_reply (resolve (tmux_error c.payload) c)
on_control _ ev c = notify ev c

unfoldable pub on_line : Bytes → Option Event → Client → Client
unfolding on_control
on_line line none c = if c.in_reply then record c { payload = add_line c.payload line } else c
on_line line (some ev) c = on_control ev.kind ev c

-- One turn of `readerLoop`.
unfoldable pub read_line : Bytes → Client → Client
unfolding on_line
read_line line c = on_line line (control_event c.in_reply line) c

-- The end of `readerLoop`.
unfoldable pub reader_ends : Client → Client
unfolding fail_pending
reader_ends c = record (fail_pending eof c) { reader_gone = true }

-- The body of `writerLoop` for a request; the flag says whether the write to tmux succeeds.
unfoldable pub write_request : ℕ → Bool → Client → Client
unfolding fail_pending
write_request k writes c =
    if c.closed
    then record c { answers = c.answers ++ ((k, err_closed) ∷ []) }
    else let queued = record c { pending = c.pending ++ (k ∷ []); sent = c.sent ++ (k ∷ []) } in
      if writes
      then record queued { awaiting = some k }
      else record (fail_pending write_failed queued) { writer_gone = true }

pub data Step : Type 0 where
  reads : Bytes → Step
  ends_reading : Step
  requests : ℕ → Bool → Step
  ends_writing closes : Step

-- The writer takes a request only where it waits for none and runs, be it behind the reader's end:
-- its `select` may choose either. Queueing a request and writing it are one step.
abbrev pub can_take : Client → Bool
can_take c = elim c.awaiting [ none ↦ not c.writer_gone | some k ↦ false ]

unfoldable pub step : Step → Client → Client
unfolding reader_ends
step (reads line) c = if c.reader_gone then c else read_line line c
step ends_reading c = if c.reader_gone then c else reader_ends c
step (requests k writes) c = if can_take c then write_request k writes c else c
step ends_writing c = if c.reader_gone then record c { writer_gone = true } else c
step closes c = record c { closed = true }

unfoldable pub run : Client → List Step → Client
run c [] = c
run c (s ∷ ss) = run (step s c) ss
