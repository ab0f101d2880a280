-- ===== src/Tmuxctl/Client/Exchange.antt =====
-- Commands and reply blocks in turn: which block answers which command.
use mure.Base.{
  ℕ, ◌≡◌, refl, sym, ap, subst, ◌∙◌, true, false, List, [], ◌∷◌, ◌++◌, append-nil, append_assoc,
  none, some, Bytes, arith, All, map,
}
use mure.Base.Strings.{join, Lacks}
use mure.Tmuxctl.Parse.RoundTrip.{begins, ends, render}
use mure.Tmuxctl.Client.{
  Client, Reply, ok, answer_pending, resolve, end_reply, read_line, write_request, Step, reads,
  requests, step, run, add_line,
}
use mure.Tmuxctl.Client.Payload.{
  IsPayload, read_lines, drop_blank, read-begins, read-ends, read-IsPayload, read_lines-text,
}

-- The client runs, no request is in flight, and the reader is outside a block.
pub record IsReady (c : Client) : Type 0 where
  pub outside : c.in_reply ≡ false
  pub nothing : c.pending ≡ []
  pub free : c.awaiting ≡ none
  pub opened : c.closed ≡ false
  pub reading : c.reader_gone ≡ false
  pub writing : c.writer_gone ≡ false

-- A reply block as tmux prints it. Its first and last line carry a time, a number and flags.
pub record Block : Type 0 where
  pub time : Bytes
  pub number : Bytes
  pub flags : Bytes
  pub lines : List Bytes
  pub end_time : Bytes
  pub end_number : Bytes
  pub end_flags : Bytes

pub record IsBlock (b : Block) : Type 0 where
  pub first : Lacks b' ' b.time × Lacks b' ' b.number
  pub last : Lacks b' ' b.end_time × Lacks b' ' b.end_number
  pub inside : All IsPayload b.lines

abbrev pub first_line : Block → Bytes
first_line b = render (begins b.time b.number b.flags)

abbrev pub last_line : Block → Bytes
last_line b = render (ends b.end_time b.end_number b.end_flags)

abbrev pub text : Block → Bytes
text b = join (b'\n' ∷ []) (drop_blank b.lines)

abbrev pub block_steps : Block → List Step
block_steps b = reads (first_line b) ∷ (map reads b.lines ++ (reads (last_line b) ∷ []))

-- Each request is written, and then the next block arrives.
abbrev pub exchange_steps : List (ℕ × Block) → List Step
exchange_steps [] = []
exchange_steps ((k, b) ∷ xs) = requests k true ∷ (block_steps b ++ exchange_steps xs)

abbrev pub paired : List (ℕ × Block) → List (ℕ × Reply)
paired [] = []
paired ((k, b) ∷ xs) = (k, ok (text b)) ∷ paired xs

pub run-append : (ss ts : List Step) (c : Client) → run c (ss ++ ts) ≡ run (run c ss) ts
unfolding run
run-append [] ts c = refl
run-append (s ∷ ss) ts c = run-append ss ts (step s c)

step-reads : (l : Bytes) (c : Client) → c.reader_gone ≡ false → step (reads l) c ≡ read_line l c
unfolding step
step-reads l c h = rw h

run-reads :
    (ls : List Bytes) (c : Client)
    → All IsPayload ls
    → c.in_reply ≡ true
    → c.reader_gone ≡ false
    → run c (map reads ls) ≡ read_lines ls c
unfolding run
run-reads [] c p r h = refl
run-reads (l ∷ ls) c p r h =
    let after : Client = record c { payload = add_line c.payload l } in
    let e : read_line l c ≡ after = read-IsPayload l c p.0 r in
    ap (λ x. run x (map reads ls)) (step-reads l c h ∙ e)
    ∙ run-reads ls after p.1 r h
    ∙ ap (read_lines ls) (sym e)

run-block_steps :
    (b : Block) (c : Client)
    → IsBlock b
    → c.in_reply ≡ false
    → c.reader_gone ≡ false
    → run c (block_steps b)
      ≡ end_reply (resolve (ok (text b)) (record c { in_reply = true; payload = text b }))
unfolding run
run-block_steps b c w r h =
    let begun : Client = record c { in_reply = true; payload = [] } in
    let body : Client = record c { in_reply = true; payload = text b } in
    ap (λ x. run x (map reads b.lines ++ (reads (last_line b) ∷ [])))
      (step-reads (first_line b) c h ∙ read-begins c b.time b.number b.flags r w.first)
    ∙ run-append (map reads b.lines) (reads (last_line b) ∷ []) begun
    ∙ ap (step (reads (last_line b)))
        (run-reads b.lines begun w.inside refl h ∙ read_lines-text c b.lines w.inside)
    ∙ step-reads (last_line b) body h
    ∙ read-ends body b.end_time b.end_number b.end_flags refl w.last

-- What is so after `k` got the reply `r`, and nothing is in flight.
record IsSettled (c : Client) (k : ℕ) (r : Reply) (d : Client) : Type 0 where
  ready : IsReady d
  told : d.answers ≡ c.answers ++ ((k, r) ∷ [])

taken : ℕ → Client → Client
taken k c = record c {
  pending = c.pending ++ (k ∷ []);
  sent = c.sent ++ (k ∷ []);
  awaiting = some k;
}

step-taken : (k : ℕ) (c : Client) → IsReady c → step (requests k true) c ≡ taken k c
unfolding step write_request taken
step-taken k c v = rw (v.free, v.writing, v.opened)

resolve-IsSettled :
    (k : ℕ) (r : Reply) (payload : Bytes) (c : Client) (ks : List ℕ)
    → IsReady c
    → ks ≡ k ∷ []
    → let body : Client = record (taken k c) { in_reply = true; payload = payload } in
      IsSettled c k r (end_reply (answer_pending r ks body))
unfolding taken
resolve-IsSettled k r payload c [] v e = cc
resolve-IsSettled k r payload c (j ∷ js) v e = record {
  ready = record {
    outside = refl;
    nothing = ground arith;
    free = ground arith;
    opened = v.opened;
    reading = v.reading;
    writing = v.writing;
  };
  told = ground arith;
}

run-exchange :
    (k : ℕ) (b : Block) (c : Client)
    → IsBlock b
    → IsReady c
    → IsSettled c k (ok (text b)) (run c (requests k true ∷ block_steps b))
unfolding run taken resolve
run-exchange k b c w v =
    subst (IsSettled c k (ok (text b)))
      (sym (
        ap (λ x. run x (block_steps b)) (step-taken k c v)
        ∙ run-block_steps b (taken k c) w v.outside v.reading))
      (resolve-IsSettled k (ok (text b)) (text b) c (c.pending ++ (k ∷ [])) v
        (ap (λ x. x ++ (k ∷ [])) v.nothing))

-- Where a client is ready, and requests and well-formed reply blocks that close with `%end` come in
-- turn, the reply to each request is the text of the block that comes next, and nothing else is
-- answered: whatever number the blocks carry, and so also where each block answers the request
-- before.
pub run-exchanges :
    (c : Client) (xs : List (ℕ × Block))
    → IsReady c
    → All (λ x. IsBlock x.1) xs
    → (run c (exchange_steps xs)).answers ≡ c.answers ++ paired xs
unfolding run
run-exchanges c [] v w = sym (append-nil c.answers)
run-exchanges c ((k, b) ∷ xs) v w =
    let one = run-exchange k b c w.0 v in
    let d = run c (requests k true ∷ block_steps b) in
    ap (λ x. x.answers) (run-append (requests k true ∷ block_steps b) (exchange_steps xs) c)
    ∙ run-exchanges d xs one.ready w.1
    ∙ ap (λ x. x ++ paired xs) one.told
    ∙ append_assoc c.answers _ (paired xs)
