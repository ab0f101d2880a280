-- ===== src/Tmuxctl/Client/Order.antt =====
-- One command in flight at a time, and every command answered once and in order.
use mure.Base.{
  ℕ, ◌≡◌, refl, sym, ap, ◌∙◌, Bool, true, false, List, [], ◌∷◌, ◌++◌, append-nil, append_assoc,
  Option, none, some, Bytes, arith, if_ind,
}
use mure.Tmuxctl.Parse.{EventKind, begin, end, error, Event}
use mure.Tmuxctl.Client.{
  Client, Reply, ok, tmux_error, err_closed, write_failed, eof, new_client, acked, answer_pending,
  resolve, fail_all, notify, end_reply, on_control, on_line, read_line, reader_ends, write_request,
  Step, reads, ends_reading, requests, ends_writing, closes, can_take, step, run,
}

-- The requests that were put on the queue and answered.
abbrev pub settled : List (ℕ × Reply) → List ℕ
settled [] = []
settled ((k, err_closed) ∷ as') = settled as'
settled ((k, _) ∷ as') = k ∷ settled as'

-- What reaches a queued request.
abbrev pub IsSettling : Reply → Type 0
IsSettling err_closed = ⊥
IsSettling _ = Unit {0}

pub data Flight (pending : List ℕ) (awaiting : Option ℕ) : Type 0 where
  idle : pending ≡ [] → awaiting ≡ none → Flight pending awaiting
  busy : (k : ℕ) → pending ≡ k ∷ [] → awaiting ≡ some k → Flight pending awaiting

pub record Inv (c : Client) : Type 0 where
  pub flight : Flight c.pending c.awaiting
  pub order : c.sent ≡ settled c.answers ++ c.pending

settled-append :
    (as' : List (ℕ × Reply)) (k : ℕ) (r : Reply)
    → IsSettling r
    → settled (as' ++ ((k, r) ∷ [])) ≡ settled as' ++ (k ∷ [])
settled-append [] k err_closed h = absurd h
settled-append [] k _ h = refl
settled-append ((j, err_closed) ∷ as') k r h = settled-append as' k r h
settled-append ((j, _) ∷ as') k r h = ap (◌∷◌ j) (settled-append as' k r h)

settled-closed :
    (as' : List (ℕ × Reply)) (k : ℕ) → settled (as' ++ ((k, err_closed) ∷ [])) ≡ settled as'
settled-closed [] k = refl
settled-closed ((j, err_closed) ∷ as') k = settled-closed as' k
settled-closed ((j, _) ∷ as') k = ap (◌∷◌ j) (settled-closed as' k)

answer_pending-Inv :
    (r : Reply) (ks : List ℕ) (c : Client)
    → IsSettling r
    → c.pending ≡ ks
    → Inv c
    → Inv (answer_pending r ks c)
answer_pending-Inv r [] c s e v = v
answer_pending-Inv r (k ∷ ks) c s e v = record {
  flight = ground (arith, v.flight, idle);
  order =
      v.order
      ∙ ap (λ x. settled c.answers ++ x) e
      ∙ sym (append_assoc (settled c.answers) (k ∷ []) ks)
      ∙ ap (λ x. x ++ ks) (sym (settled-append c.answers k r s));
}

fail_all-Inv :
    (r : Reply) (ks : List ℕ) (c : Client)
    → IsSettling r
    → Flight ks c.awaiting
    → c.sent ≡ settled c.answers ++ ks
    → Inv (fail_all r ks c)
fail_all-Inv r [] c s f o = record { flight = f; order = o }
fail_all-Inv r (k ∷ ks) c s f o = fail_all-Inv r ks _ s (ground (arith, f, idle)) (
    o
    ∙ sym (append_assoc (settled c.answers) (k ∷ []) ks)
    ∙ ap (λ x. x ++ ks) (sym (settled-append c.answers k r s)))

resolve-Inv : (r : Reply) (c : Client) → IsSettling r → Inv c → Inv (end_reply (resolve r c))
unfolding resolve
resolve-Inv r c s v =
    let w = answer_pending-Inv r c.pending c s refl v in
    record { flight = w.flight; order = w.order }

notify-Inv : (ev : Event) (c : Client) → Inv c → Inv (notify ev c)
unfolding notify
notify-Inv ev c v = if_ind Inv _ c _ (λ _. v) (λ _. record { flight = v.flight; order = v.order })

on_control-Inv : (kind : EventKind) (ev : Event) (c : Client) → Inv c → Inv (on_control kind ev c)
unfolding on_control
on_control-Inv begin ev c v = record { flight = v.flight; order = v.order }
on_control-Inv end ev c v = resolve-Inv (ok c.payload) c tt v
on_control-Inv error ev c v = resolve-Inv (tmux_error c.payload) c tt v
on_control-Inv _ ev c v = notify-Inv ev c v

on_line-Inv : (line : Bytes) (o : Option Event) (c : Client) → Inv c → Inv (on_line line o c)
unfolding on_line
on_line-Inv line none c v =
    if_ind Inv c.in_reply _ c (λ _. record { flight = v.flight; order = v.order }) (λ _. v)
on_line-Inv line (some ev) c v = on_control-Inv ev.kind ev c v

reader_ends-Inv : (c : Client) → Inv c → Inv (reader_ends c)
unfolding reader_ends
reader_ends-Inv c v =
    let w = fail_all-Inv eof c.pending c tt v.flight v.order in
    record { flight = w.flight; order = w.order }

idle-pending : {ks : List ℕ} {o : Option ℕ} → Flight ks o → o ≡ none → ks ≡ []
idle-pending (idle e f) h = e
idle-pending (busy k e f) h = cc

can_take-free : (o : Option ℕ) (b : Bool) → elim o [ none ↦ b | some k ↦ false ] ≡ true → o ≡ none
can_take-free none b h = refl
can_take-free (some k) b h = cc

failed_write-Inv :
    (k : ℕ) (c : Client) (ks : List ℕ)
    → ks ≡ k ∷ []
    → c.awaiting ≡ none
    → c.sent ++ (k ∷ []) ≡ settled c.answers ++ ks
    → let queued = record c { pending = ks; sent = c.sent ++ (k ∷ []) } in
      Inv (record (fail_all write_failed ks queued) { writer_gone = true })
failed_write-Inv k c [] e free order = cc
failed_write-Inv k c (j ∷ []) e free order = record {
  flight = idle refl (ap (acked j) free);
  order = order ∙ sym (settled-append c.answers j write_failed tt) ∙ sym (append-nil _);
}
failed_write-Inv k c (j ∷ i ∷ ks) e free order = cc

write_request-Inv :
    (k : ℕ) (writes : Bool) (c : Client)
    → c.awaiting ≡ none
    → Inv c
    → Inv (write_request k writes c)
unfolding write_request
write_request-Inv k writes c free v =
    let queued : Client = record c { pending = c.pending ++ (k ∷ []); sent = c.sent ++ (k ∷ []) } in
    let order : queued.sent ≡ settled c.answers ++ queued.pending =
      ap (λ x. x ++ (k ∷ [])) v.order ∙ append_assoc (settled c.answers) c.pending (k ∷ []) in
    let nothing = idle-pending v.flight free in
    if_ind Inv c.closed _ _
      (λ _. record {
        flight = v.flight;
        order = v.order ∙ ap (λ x. x ++ c.pending) (sym (settled-closed c.answers k));
      })
      (λ _.
        if_ind Inv writes _ _
          (λ _. record { flight = busy k (ap (λ x. x ++ (k ∷ [])) nothing) refl; order = order })
          (λ _. failed_write-Inv k c queued.pending (ap (λ x. x ++ (k ∷ [])) nothing) free order))

pub step-Inv : (s : Step) (c : Client) → Inv c → Inv (step s c)
unfolding step read_line
step-Inv (reads line) c v = if_ind Inv c.reader_gone _ _ (λ _. v) (λ _. on_line-Inv line _ c v)
step-Inv ends_reading c v = if_ind Inv c.reader_gone _ _ (λ _. v) (λ _. reader_ends-Inv c v)
step-Inv (requests k writes) c v =
    if_ind Inv (can_take c) _ _ (λ h. write_request-Inv k writes c (can_take-free c.awaiting _ h) v)
      (λ _. v)
step-Inv ends_writing c v =
    if_ind Inv c.reader_gone _ _ (λ _. record { flight = v.flight; order = v.order }) (λ _. v)
step-Inv closes c v = record { flight = v.flight; order = v.order }

pub run-Inv : (ss : List Step) (c : Client) → Inv c → Inv (run c ss)
unfolding run
run-Inv [] c v = v
run-Inv (s ∷ ss) c v = run-Inv ss (step s c) (step-Inv s c v)

-- In every order of requests, reads and closes of a new client, at most one request is in flight,
-- and it is the one that the writer waits for; the requests that were put on the queue are those
-- answered, each once and in that order, and then the one in flight.
pub run-new_client-Inv : (ss : List Step) → Inv (run new_client ss)
run-new_client-Inv ss = run-Inv ss new_client (record { flight = idle refl refl; order = refl })
