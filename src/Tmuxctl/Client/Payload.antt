-- ===== src/Tmuxctl/Client/Payload.antt =====
-- What the caller of a command gets: the lines of its reply block.
use mure.Base.{
  ◌≡◌, refl, sym, ap, subst, ◌∙◌, true, false, List, [], ◌∷◌, ◌++◌, append_assoc, Bytes, codes,
  is_empty, arith, if◌then◌else◌, All, ℕ,
}
use mure.Base.Strings.{has_prefix, join, Lacks}
use mure.Tmuxctl.Parse.RoundTrip.{begins, ends, render, parse_line-render}
use mure.Tmuxctl.Client.{
  Client, ok, answer_pending, add_line, control_event, resolve, end_reply, read_line,
}

-- A line that does not end the reply block.
pub record IsPayload (line : Bytes) : Type 0 where
  pub no_end : has_prefix (codes "%end ") line ≡ false
  pub no_error : has_prefix (codes "%error ") line ≡ false

abbrev pub read_lines : List Bytes → Client → Client
read_lines [] c = c
read_lines (l ∷ ls) c = read_lines ls (read_line l c)

abbrev pub collect : Bytes → List Bytes → Bytes
collect acc [] = acc
collect acc (l ∷ ls) = collect (add_line acc l) ls

pub read-IsPayload :
    (l : Bytes) (c : Client)
    → IsPayload l
    → c.in_reply ≡ true
    → read_line l c ≡ record c { payload = add_line c.payload l }
unfolding read_line control_event
read-IsPayload l c p r = ground (arith, p.no_end, p.no_error)

read_lines-collect :
    (ls : List Bytes) (c : Client)
    → All IsPayload ls
    → c.in_reply ≡ true
    → read_lines ls c ≡ record c { payload = collect c.payload ls }
read_lines-collect [] c p r = refl
read_lines-collect (l ∷ ls) c p r =
    ap (read_lines ls) (read-IsPayload l c p.0 r)
    ∙ read_lines-collect ls (record c { payload = add_line c.payload l }) p.1 r

join-append :
    (sep a b : Bytes) (ls : List Bytes) → join sep ((a ++ b) ∷ ls) ≡ a ++ join sep (b ∷ ls)
unfolding join
join-append sep a b [] = refl
join-append sep a b (l ∷ ls) = append_assoc a b _

collect-join :
    (acc : Bytes) (ls : List Bytes)
    → is_empty acc ≡ false
    → collect acc ls ≡ join (b'\n' ∷ []) (acc ∷ ls)
unfolding join
collect-join acc [] h = refl
collect-join [] (l ∷ ls) h = cc
collect-join (b ∷ acc) (l ∷ ls) h =
    collect-join (add_line (b ∷ acc) l) ls refl
    ∙ join-append (b'\n' ∷ []) ((b ∷ acc) ++ (b'\n' ∷ [])) l ls
    ∙ append_assoc (b ∷ acc) (b'\n' ∷ []) _

-- The lines from the first that is not empty.
abbrev pub drop_blank : List Bytes → List Bytes
drop_blank [] = []
drop_blank (l ∷ ls) = if is_empty l then drop_blank ls else l ∷ ls

collect-drop_blank : (ls : List Bytes) → collect [] ls ≡ join (b'\n' ∷ []) (drop_blank ls)
unfolding join
collect-drop_blank [] = refl
collect-drop_blank ([] ∷ ls) = collect-drop_blank ls
collect-drop_blank ((b ∷ l) ∷ ls) = collect-join (b ∷ l) ls refl

pub read-begins :
    (c : Client) (t n f : Bytes)
    → c.in_reply ≡ false
    → Lacks b' ' t × Lacks b' ' n
    → read_line (render (begins t n f)) c ≡ record c { in_reply = true; payload = [] }
unfolding read_line control_event
read-begins c t n f idle wf = ground (arith, parse_line-render (begins t n f) wf)

pub read-ends :
    (c : Client) (t n f : Bytes)
    → c.in_reply ≡ true
    → Lacks b' ' t × Lacks b' ' n
    → read_line (render (ends t n f)) c ≡ end_reply (resolve (ok c.payload) c)
unfolding read_line control_event has_prefix
read-ends c t n f busy wf = ground (arith, parse_line-render (ends t n f) wf)

-- What an answered block leaves.
abbrev IsAnswered : Client → Bytes → ℕ → List ℕ → Client → Type 0
IsAnswered c payload k ks d =
    (d.answers ≡ c.answers ++ ((k, ok payload) ∷ [])) × (d.pending ≡ ks) × (d.in_reply ≡ false)

end_reply-IsAnswered :
    (c : Client) (payload : Bytes) (k : ℕ) (ks js : List ℕ)
    → c.pending ≡ js
    → js ≡ k ∷ ks
    → IsAnswered c payload k ks (end_reply (answer_pending (ok payload) js c))
end_reply-IsAnswered c payload k ks [] p e = cc
end_reply-IsAnswered c payload k ks (j ∷ js) p e = (ground arith, ground arith, refl)

-- The lines of a block, from its first line on.
pub read_lines-text :
    (c : Client) (ls : List Bytes)
    → All IsPayload ls
    → read_lines ls (record c { in_reply = true; payload = [] })
      ≡ record c { in_reply = true; payload = join (b'\n' ∷ []) (drop_blank ls) }
read_lines-text c ls pay =
    let begun : Client = record c { in_reply = true; payload = [] } in
    read_lines-collect ls begun pay refl
    ∙ ap (λ (x : Bytes). record begun { payload = x }) (collect-drop_blank ls)

-- A whole reply block read by an idle reader: the oldest pending request is answered with its
-- lines, also those that begin with `%`, joined by newlines, but without the empty lines in front.
pub read_lines-block :
    (c : Client) (k : ℕ) (ks : List ℕ) (t n f t' n' f' : Bytes) (ls : List Bytes)
    → c.in_reply ≡ false
    → c.pending ≡ k ∷ ks
    → Lacks b' ' t × Lacks b' ' n
    → Lacks b' ' t' × Lacks b' ' n'
    → All IsPayload ls
    → let begun = read_line (render (begins t n f)) c in
      let d = read_line (render (ends t' n' f')) (read_lines ls begun) in
      (d.answers ≡ c.answers ++ ((k, ok (join (b'\n' ∷ []) (drop_blank ls))) ∷ []))
      × (d.pending ≡ ks)
      × (d.in_reply ≡ false)
unfolding resolve
read_lines-block c k ks t n f t' n' f' ls idle p wf wf' pay =
    let text = join (b'\n' ∷ []) (drop_blank ls) in
    let body : Client = record c { in_reply = true; payload = text } in
    let read : read_lines ls (read_line (render (begins t n f)) c) ≡ body =
      ap (read_lines ls) (read-begins c t n f idle wf) ∙ read_lines-text c ls pay in
    subst (IsAnswered c text k ks)
      (sym (ap (read_line (render (ends t' n' f'))) read ∙ read-ends body t' n' f' refl wf'))
      (end_reply-IsAnswered body text k ks c.pending refl p)
