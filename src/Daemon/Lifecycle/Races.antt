-- ===== src/Daemon/Lifecycle/Races.antt =====
-- Two daemons at one path whose calls interleave.
use mure.Base.{ℕ, ◌≡◌, refl, ◌∙◌, true, false, List, [], ◌∷◌, none, some, ◌==◌}
use mure.Daemon.Lifecycle.{
  started, stale, serving, ended, ending, Host, Ping, ping_socket, Call, makes_dir, listens, chmods,
  pings, removes, closes, perform, perform_all, listen_calls,
}
use mure.Daemon.Lifecycle.At.{
  At, mkdir-At, clash-At, relisten-At, unanswered-At, remove-At, chmod-At, close-At, end-At,
}
use mure.Daemon.Lifecycle.Start.{listen-At}

-- `Listen` up to its failed ping, and from there.
abbrev pub probe_calls : ℕ → Ping → List Call
probe_calls p r = makes_dir p true ∷ listens p true ∷ pings p r ∷ []

abbrev pub replace_calls : ℕ → List Call
replace_calls p = removes p ∷ listens p true ∷ chmods p true ∷ []

probe-At :
    (p d : ℕ) (r : Ping) (h : Host)
    → ping_socket r ≡ false
    → h.path ≡ some d
    → h.phase p ≡ started
    → At h p stale (some d) (perform_all (probe_calls p r) h)
probe-At p d r h silent e s =
    let begun : At h p started (some d) h = record { here = s; path = e; rest = λ i o. refl } in
    unanswered-At r silent (clash-At (mkdir-At begun))

replace-At :
    (p : ℕ) (h : Host)
    → h.phase p ≡ stale
    → At h p serving (some p) (perform_all (replace_calls p) h)
replace-At p h s =
    let begun : At h p stale h.path h = record { here = s; path = refl; rest = λ i o. refl } in
    chmod-At (relisten-At (remove-At begun))

-- Two daemons that start together over a socket that nobody serves, and both ping it before either
-- removes it, both serve: the second removes the socket of the first, which nobody can dial then.
pub starts_race :
    (a b d : ℕ) (r s : Ping) (h : Host)
    → (a == b) ≡ false
    → (b == a) ≡ false
    → h.path ≡ some d
    → h.phase a ≡ started
    → h.phase b ≡ started
    → ping_socket r ≡ false
    → ping_socket s ≡ false
    → let probed = perform_all (probe_calls b s) (perform_all (probe_calls a r) h) in
      let h' = perform_all (replace_calls b) (perform_all (replace_calls a) probed) in
      (h'.phase a ≡ serving) × (h'.phase b ≡ serving) × (h'.path ≡ some b)
starts_race a b d r s h ab ba e sa sb silent_a silent_b =
    let one = probe-At a d r h silent_a e sa in
    let two = probe-At b d s _ silent_b one.path (one.rest b ba ∙ sb) in
    let three = replace-At a _ (two.rest a ab ∙ one.here) in
    let four = replace-At b _ (three.rest b ba ∙ two.here) in
    (four.rest a ab ∙ three.here, four.here, four.path)

-- A daemon `p` that starts once the listener of `q` has closed, and before `q` has returned from
-- `Run`, serves; then the end of `Run` removes the socket of `p`, and nobody can dial it.
pub late_removal :
    (p q : ℕ) (r : Ping) (h : Host)
    → (p == q) ≡ false
    → (q == p) ≡ false
    → h.path ≡ some q
    → h.phase q ≡ serving
    → h.phase p ≡ started
    → let h' = perform (removes q) (perform_all (listen_calls p r) (perform (closes q) h)) in
      (h'.phase q ≡ ended) × (h'.phase p ≡ serving) × (h'.path ≡ none)
late_removal p q r h pq qp e sq sp =
    let begun : At h q serving (some q) h = record { here = sq; path = e; rest = λ i o. refl } in
    let closed = close-At begun in
    let up = listen-At p r none _ closed.path (closed.rest p pq ∙ sp) in
    let h1 = perform_all (listen_calls p r) (perform (closes q) h) in
    let leaving : At h1 q ending (some p) h1 = record {
      here = up.rest q qp ∙ closed.here;
      path = up.path;
      rest = λ i o. refl;
    } in
    let left = end-At leaving in (left.here, left.rest p pq ∙ up.here, left.path)
