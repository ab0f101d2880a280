-- ===== src/Tmuxctl/Client/Stranded.antt =====
-- A request that the writer takes once the reader has ended.
use mure.Base.{ℕ, ◌≡◌, refl, ap, ◌∙◌, true, false, List, [], ◌∷◌, ◌++◌, if_ind, none, some, arith}
use mure.Tmuxctl.Client.{
  Client, Step, reads, ends_reading, requests, ends_writing, closes, can_take, write_request, step,
  run,
}

-- The reader has ended, and the writer waits for an answer.
record IsStranded (c : Client) : Type 0 where
  ended : c.reader_gone ≡ true
  k : ℕ
  waits : c.awaiting ≡ some k

-- A step that keeps the client stranded and answers nobody.
IsMute : Client → Client → Type 0
IsMute c d = IsStranded d × (d.answers ≡ c.answers)

can_take-IsStranded : (c : Client) → IsStranded c → can_take c ≡ false
can_take-IsStranded c v = rw v.waits

step-IsStranded : (s : Step) (c : Client) → IsStranded c → IsMute c (step s c)
unfolding step IsMute
step-IsStranded (reads line) c v =
    if_ind (IsMute c) c.reader_gone _ _ (λ _. (v, refl)) (λ f. absurd (ground (arith, v.ended)))
step-IsStranded ends_reading c v =
    if_ind (IsMute c) c.reader_gone _ _ (λ _. (v, refl)) (λ f. absurd (ground (arith, v.ended)))
step-IsStranded (requests k writes) c v =
    if_ind (IsMute c) (can_take c) _ _ (λ t. absurd (ground (arith, can_take-IsStranded c v)))
      (λ _. (v, refl))
step-IsStranded ends_writing c v =
    if_ind (IsMute c) c.reader_gone _ _
      (λ _. (record { ended = v.ended; k = v.k; waits = v.waits }, refl)) (λ _. (v, refl))
step-IsStranded closes c v = (record { ended = v.ended; k = v.k; waits = v.waits }, refl)

run-IsStranded : (ss : List Step) (c : Client) → IsStranded c → (run c ss).answers ≡ c.answers
unfolding run IsMute
run-IsStranded [] c v = refl
run-IsStranded (s ∷ ss) c v =
    let (w, e) = step-IsStranded s c v in run-IsStranded ss (step s c) w ∙ e

-- A request that the writer takes and writes behind the reader's end, with the client not closed,
-- is never answered: nothing that happens later sends a reply.
pub run-stranded :
    (k : ℕ) (c : Client) (ss : List Step)
    → c.reader_gone ≡ true
    → c.awaiting ≡ none
    → c.writer_gone ≡ false
    → c.closed ≡ false
    → (run (step (requests k true) c) ss).answers ≡ c.answers
unfolding step write_request
run-stranded k c ss r a w d =
    let taken : Client = record c {
      pending = c.pending ++ (k ∷ []);
      sent = c.sent ++ (k ∷ []);
      awaiting = some k;
    } in
    let e : step (requests k true) c ≡ taken = rw (a, w, d) in
    ap (λ x. (run x ss).answers) e
    ∙ run-IsStranded ss taken (record { ended = r; k = k; waits = refl })
